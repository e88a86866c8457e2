-- ===== src/Api/Guards.antt =====
-- What the checks in front of the handlers keep out.
use liteploy.Common.{
  ◌≡◌, refl, ap, ◌∙◌, ◌⊎◌, inl, inr, not, none, some, Bool-cases, Option-cases, Outcome, ok, err,
}
use liteploy.Http.{Request, Response, fail, answer}
use liteploy.Auth.Sessions.{SessionData, SessionError, CsrfError, validate_csrf}
use liteploy.Auth.Users.{has_users}
use liteploy.Api.{Handler, Host, Server, session_of, authenticated, require_csrf}
use liteploy.Api.DomainHandlers.{application_add_domain, application_delete_domain}
use liteploy.Api.SettingsHandlers.{
  setup_domain_submit, setup_domain_verify, setup_domain_skip, settings_update_primary_domain,
  settings_verify_domain, settings_toggle_https,
}
use liteploy.Api.AppHandlers.{
  application_create, application_update, application_delete, application_deploy,
  application_rollback, clear_failed, settings_change_password, application_update_env,
}
use liteploy.Api.ContainerHandlers.{
  application_start, application_stop, application_restart, system_prune,
}
use liteploy.Api.Routes.{
  Form, create_form, update_form, delete_form, deploy_form, start_form, stop_form, restart_form,
  env_form, rollback_form, clear_failed_form, password_form, add_domain_form, delete_domain_form,
  setup_domain_form, setup_verify_form, setup_skip_form, primary_domain_form, verify_domain_form,
  https_form, prune_form, form_route, form_handler, serve,
}

-- The handler of each form refuses a request whose token is not the session's.
Refuses : Handler → Type 0
Refuses handler =
    (h : Host) (r : Request) (session : SessionData) (s : Server) (e : CsrfError)
    → validate_csrf r session ≡ some e
    → handler h r session s ≡ (s, answer (fail 403))

refused :
    (r : Request) (session : SessionData) (s : Server) (next : Server × Response) (e : CsrfError)
    → validate_csrf r session ≡ some e
    → require_csrf r session s next ≡ (s, answer (fail 403))
unfolding require_csrf
refused r session s next e h = rw (h, require_csrf) refl

form_refuses :
    (f : Form) (h : Host) (r : Request) (session : SessionData) (s : Server) (e : CsrfError)
    → validate_csrf r session ≡ some e
    → form_handler f h r session s ≡ (s, answer (fail 403))
unfolding form_handler application_create application_update application_delete application_deploy
    application_start application_stop application_restart application_rollback clear_failed
    settings_change_password application_update_env application_add_domain application_delete_domain
    setup_domain_submit setup_domain_verify setup_domain_skip settings_update_primary_domain
    settings_verify_domain settings_toggle_https system_prune
form_refuses create_form h r session s e q = refused r session s _ e q
form_refuses update_form h r session s e q = refused r session s _ e q
form_refuses delete_form h r session s e q = refused r session s _ e q
form_refuses deploy_form h r session s e q = refused r session s _ e q
form_refuses start_form h r session s e q = refused r session s _ e q
form_refuses stop_form h r session s e q = refused r session s _ e q
form_refuses restart_form h r session s e q = refused r session s _ e q
form_refuses env_form h r session s e q = refused r session s _ e q
form_refuses rollback_form h r session s e q = refused r session s _ e q
form_refuses clear_failed_form h r session s e q = refused r session s _ e q
form_refuses password_form h r session s e q = refused r session s _ e q
form_refuses add_domain_form h r session s e q = refused r session s _ e q
form_refuses delete_domain_form h r session s e q = refused r session s _ e q
form_refuses setup_domain_form h r session s e q = refused r session s _ e q
form_refuses setup_verify_form h r session s e q = refused r session s _ e q
form_refuses setup_skip_form h r session s e q = refused r session s _ e q
form_refuses primary_domain_form h r session s e q = refused r session s _ e q
form_refuses verify_domain_form h r session s e q = refused r session s _ e q
form_refuses https_form h r session s e q = refused r session s _ e q
form_refuses prune_form h r session s e q = refused r session s _ e q

session_cases :
    (h : Host) (r : Request)
    → ((e : SessionError) × (session_of h r ≡ err e))
      ⊎ ((d : SessionData) × (session_of h r ≡ ok d))
session_cases h r = by_outcome (session_of h r)
  where
    by_outcome :
        (o : Outcome SessionError SessionData)
        → ((e : SessionError) × (o ≡ err e)) ⊎ ((d : SessionData) × (o ≡ ok d))
    by_outcome (err e) = inl (e, refl)
    by_outcome (ok d) = inr (d, refl)

-- What a form leaves: the server as it was, or what the handler does for a session that is valid and
-- whose token the request holds.
abbrev pub IsGuarded : Form → Host → Request → Server → Server × Response → Type 0
IsGuarded f h r s p =
    (p.0 ≡ s)
    ⊎ ((d : SessionData) × (session_of h r ≡ ok d)
        × (validate_csrf r d ≡ none)
        × (p ≡ form_handler f h r d s))

-- A form changes something only for a valid session and with the session's token; it then does what
-- its handler does. In every other case the server's state stays as it is.
pub serve_form-IsGuarded :
    (f : Form) (h : Host) (r : Request) (s : Server)
    → IsGuarded f h r s (serve (form_route f) h r s)
unfolding serve authenticated
serve_form-IsGuarded f h r s = elim (Bool-cases (not (has_users s.users))) [
  | inl e ↦ inl (rw (e, serve, authenticated) refl)
  | inr e ↦ elim (session_cases h r) [
    | inl (x, q) ↦ inl (rw (e, q, serve, authenticated) refl)
    | inr (d, q) ↦
        let reached : serve (form_route f) h r s ≡ form_handler f h r d s =
          rw (e, q, serve, authenticated) refl in
        elim (Option-cases (validate_csrf r d)) [
          | inl k ↦ inr (d, q, k, reached)
          | inr (x, k) ↦ inl (ap (λ p. p.0) (reached ∙ form_refuses f h r d s x k))
        ]
  ]
]
