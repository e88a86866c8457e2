-- ===== src/Webhook/Signed.antt =====
-- Which requests make a webhook start a deployment.
use mathlib.Core.Path.{subst}
use liteploy.Common.{
  ℕ, ◌≡◌, ◌≢◌, refl, ap, sym, ◌∙◌, ◌⊎◌, inl, inr, false, not, none, some, [], ◌++◌, ◌==◌, is_empty,
  take, drop, arith, Bool-cases, Option-cases, Outcome, ok, err, fail_if, ◌>>=◌, ◌>>◌, ok_of_bind,
  false_of_fail_if,
}
use liteploy.Common.Text.{Text, codes, text_eq, text_beq_iff, has_prefix, strip_prefix}
use liteploy.Common.Text.Laws.{append_of_strip_prefix}
use liteploy.Storage.{Disk}
use liteploy.Http.{Request, header, path_value}
use liteploy.Application.Types.{Application}
use liteploy.Application.Service as Applications
use liteploy.Application.Service.{find}
use liteploy.Deployment.Service as Deployments
use liteploy.Deployment.Service.{enqueue}
use liteploy.Deployment.{Deployment}
use liteploy.Webhook.{
  Provider, github, gitlab, Event, Codec, WebhookError, missing_signature, bad_format,
  signature_mismatch, bad_token, unknown_provider, with_provider, max_body_size,
  validate_github_signature, validate_gitlab_token, parse_github_event, parse_gitlab_event,
  parse_and_validate, get_secret, triggered_by, enqueued, serve_http,
}

-- What a provider sends to one who knows the secret.
abbrev pub IsAuthentic : Codec → Request → Text → Text → Provider → Type 0
IsAuthentic c r body secret github =
    header r (codes "X-Hub-Signature-256") ≡ codes "sha256=" ++ c.hmac_sha256 secret body
IsAuthentic c r body secret gitlab = header r (codes "X-Gitlab-Token") ≡ secret

eq_of_test : (a b : Text) → not (a == b) ≡ false → a ≡ b
eq_of_test a b h = (text_beq_iff a b).0 (ground arith)

behind_prefix :
    (t e : Text)
    → not (has_prefix t (codes "sha256=")) ≡ false
    → drop 7 t ≡ e
    → t ≡ codes "sha256=" ++ e
unfolding has_prefix
behind_prefix t e h same = elim (Option-cases (strip_prefix (codes "sha256=") t)) [
  | inl n ↦ absurd (no_prefix n)
  | inr (rest, n) ↦
      let whole : t ≡ codes "sha256=" ++ rest =
        append_of_strip_prefix (codes "sha256=") t {r = rest} n in
      whole ∙ ap (λ x. codes "sha256=" ++ x) (sym (ap (λ x. drop 7 x) whole) ∙ same)
]
  where
    no_prefix : ¬ (strip_prefix (codes "sha256=") t ≡ none)
    no_prefix n = cc

github_of_signature :
    (c : Codec) (r : Request) (body secret : Text) (u : Unit {0})
    → validate_github_signature c r body secret ≡ ok u
    → IsAuthentic c r body secret github
unfolding validate_github_signature
github_of_signature c r body secret u h =
    let sig : Text = header r (codes "X-Hub-Signature-256") in
    let (u0, a0, h1) = ok_of_bind (fail_if (is_empty sig) missing_signature) _ u h in
    let (u1, a1, h2) =
      ok_of_bind (fail_if (not (has_prefix sig (codes "sha256="))) bad_format) _ u h1 in
    let (u2, a2, h3) =
      ok_of_bind (fail_if (not (drop 7 sig == c.hmac_sha256 secret body)) signature_mismatch) _ u
        h2 in
    behind_prefix sig (c.hmac_sha256 secret body)
      (false_of_fail_if (not (has_prefix sig (codes "sha256="))) bad_format u1 a1)
      (eq_of_test (drop 7 sig) (c.hmac_sha256 secret body)
        (false_of_fail_if (not (drop 7 sig == c.hmac_sha256 secret body)) signature_mismatch u2 a2))

gitlab_of_token :
    (c : Codec) (r : Request) (body secret : Text) (u : Unit {0})
    → validate_gitlab_token r secret ≡ ok u
    → IsAuthentic c r body secret gitlab
unfolding validate_gitlab_token
gitlab_of_token c r body secret u h =
    eq_of_test (header r (codes "X-Gitlab-Token")) secret
      (false_of_fail_if (not (header r (codes "X-Gitlab-Token") == secret)) bad_token u h)

abbrev provider_of : Outcome WebhookError (Provider × Event) → Provider
provider_of (ok (p, _)) = p
provider_of (err _) = github

IsAuthentic-of_parse :
    (c : Codec) (r : Request) (body secret : Text) (p : Provider) (e : Event)
    → parse_and_validate c r body secret ≡ ok (p, e)
    → IsAuthentic c r body secret p
unfolding parse_and_validate
IsAuthentic-of_parse c r body secret p e h =
    elim (Bool-cases (not (is_empty (header r (codes "X-Github-Event"))))) [
      | inl q ↦
          let taken : parse_and_validate c r body secret ≡ from_github =
            rw (q, parse_and_validate) refl in
          let (u, a, h1) =
            ok_of_bind (validate_github_signature c r body secret) _ (p, e) (sym taken ∙ h) in
          let (e', _, h2) = ok_of_bind (parse_github_event c r body) _ (p, e) h1 in
          subst (IsAuthentic c r body secret) (ap provider_of h2)
            (github_of_signature c r body secret u a)
      | inr q ↦ elim (Bool-cases (not (is_empty (header r (codes "X-Gitlab-Event"))))) [
        | inl k ↦
            let taken : parse_and_validate c r body secret ≡ from_gitlab =
              rw (q, k, parse_and_validate) refl in
            let (u, a, h1) = ok_of_bind (validate_gitlab_token r secret) _ (p, e) (sym taken ∙ h) in
            let (e', _, h2) = ok_of_bind (parse_gitlab_event c body) _ (p, e) h1 in
            subst (IsAuthentic c r body secret) (ap provider_of h2)
              (gitlab_of_token c r body secret u a)
        | inr k ↦
            let taken : parse_and_validate c r body secret ≡ err unknown_provider =
              rw (q, k, parse_and_validate) refl in
            absurd (no_provider (sym taken ∙ h))
      ]
    ]
  where
    pair : Provider × Event
    pair = (p, e)

    from_github : Outcome WebhookError (Provider × Event)
    from_github =
        validate_github_signature c r body secret
        >> (parse_github_event c r body >>= λ x. ok (with_provider github x))

    from_gitlab : Outcome WebhookError (Provider × Event)
    from_gitlab =
        validate_gitlab_token r secret
        >> (parse_gitlab_event c body >>= λ x. ok (with_provider gitlab x))

    no_provider : ¬ (err unknown_provider ≡ ok pair)
    no_provider x = cc

secret_of :
    (apps : Applications.Service) (id secret : Text)
    → get_secret apps id ≡ some secret
    → (app : Application) × (find id apps ≡ ok app) × (app.webhook_secret ≡ secret) × (secret ≢ [])
unfolding get_secret
secret_of apps id secret h = by_find (find id apps) refl
  where
    by_find :
        (o : Outcome Applications.ServiceError Application)
        → find id apps ≡ o
        → (app : Application) × (find id apps ≡ ok app)
          × (app.webhook_secret ≡ secret)
          × (secret ≢ [])
    by_find (err x) q = absurd (none_is_none (sym (rw (q, get_secret) refl) ∙ h))
      where
        none_is_none : ¬ (none ≡ some secret)
        none_is_none k = cc
    by_find (ok app) q = elim (Bool-cases (is_empty app.webhook_secret)) [
      | inl k ↦ absurd (none_is_some (sym (rw (q, k, get_secret) refl) ∙ h))
      | inr k ↦ (app, q, same (sym (rw (q, k, get_secret) refl) ∙ h), λ z. filled z k)
    ]
      where
        none_is_some : ¬ (none ≡ some secret)
        none_is_some z = cc

        same : some app.webhook_secret ≡ some secret → app.webhook_secret ≡ secret
        same z = cc

        filled : secret ≡ [] → is_empty app.webhook_secret ≡ false → ⊥
        filled z k = cc

-- What a request leaves of the deployments: what they were, or what `Enqueue` makes of them, for an
-- application with a secret that the request proves to know.
abbrev pub IsSignedOr :
    Codec
    → Disk
    → ℕ
    → Request
    → Applications.Service
    → Deployments.Service
    → Deployments.Service
    → Type 0
IsSignedOr c disk now r apps s s' =
    (s' ≡ s)
    ⊎ ((app : Application) × (p : Provider) × (find (path_value r (codes "app_id")) apps ≡ ok app)
        × (app.webhook_secret ≢ [])
        × IsAuthentic c r (take max_body_size r.body) app.webhook_secret p
        × (s' ≡ (enqueue disk now (path_value r (codes "app_id")) (triggered_by p) s).0))

enqueued_state :
    (disk : Disk) (now : ℕ) (id : Text) (p : Provider) (e : Event) (s : Deployments.Service)
    → (enqueued disk now id (ok (p, e)) s).0 ≡ (enqueue disk now id (triggered_by p) s).0
unfolding enqueued
enqueued_state disk now id p e s = by_result (enqueue disk now id (triggered_by p) s).1 refl
  where
    by_result :
        (res : Outcome Deployments.ServiceError Deployment)
        → (enqueue disk now id (triggered_by p) s).1 ≡ res
        → (enqueued disk now id (ok (p, e)) s).0 ≡ (enqueue disk now id (triggered_by p) s).0
    by_result (err x) k = rw (k, enqueued) refl
    by_result (ok d) k = rw (k, enqueued) refl

enqueued-IsSignedOr :
    (c : Codec) (disk : Disk) (now : ℕ) (r : Request) (apps : Applications.Service)
    (app : Application) (s : Deployments.Service)
    → find (path_value r (codes "app_id")) apps ≡ ok app
    → app.webhook_secret ≢ []
    → IsSignedOr c disk now r apps s
        (enqueued disk now
          (path_value r (codes "app_id"))
          (parse_and_validate c r (take max_body_size r.body) app.webhook_secret)
          s).0
unfolding enqueued
enqueued-IsSignedOr c disk now r apps app s found filled =
    by_outcome (parse_and_validate c r (take max_body_size r.body) app.webhook_secret) refl
  where
    id : Text
    id = path_value r (codes "app_id")

    by_outcome :
        (o : Outcome WebhookError (Provider × Event))
        → parse_and_validate c r (take max_body_size r.body) app.webhook_secret ≡ o
        → IsSignedOr c disk now r apps s (enqueued disk now id o s).0
    by_outcome (err x) q = inl refl
    by_outcome (ok (p, e)) q = inr (
      app,
      p,
      found,
      filled,
      IsAuthentic-of_parse c r (take max_body_size r.body) app.webhook_secret p e q,
      enqueued_state disk now id p e s,
    )

-- A webhook starts a deployment only for an application with a secret, and only if the request is
-- signed with it (GitHub: the HMAC of the first megabyte of the body; GitLab: the secret itself).
-- The deployment is then what `Enqueue` makes of it. Any other request leaves the deployments alone.
pub serve_http-IsSignedOr :
    (c : Codec) (disk : Disk) (now : ℕ) (r : Request) (apps : Applications.Service)
    (s : Deployments.Service)
    → IsSignedOr c disk now r apps s (serve_http c disk now r apps s).0
unfolding serve_http
serve_http-IsSignedOr c disk now r apps s = elim (Bool-cases (not (r.method == codes "POST"))) [
  | inl e ↦ inl (rw (e, serve_http) refl)
  | inr e ↦ elim (Bool-cases (is_empty (path_value r (codes "app_id")))) [
    | inl k ↦ inl (rw (e, k, serve_http) refl)
    | inr k ↦ elim (Option-cases (get_secret apps (path_value r (codes "app_id")))) [
      | inl n ↦ inl (rw (e, k, n, serve_http) refl)
      | inr (secret, n) ↦
          let (app, found, same, filled) =
            secret_of apps (path_value r (codes "app_id")) secret n in
          let Result : Text → Type 0 = λ t.
            IsSignedOr c disk now r apps s
              (enqueued disk now (path_value r (codes "app_id"))
                (parse_and_validate c r (take max_body_size r.body) t) s).0 in
          subst (IsSignedOr c disk now r apps s) (sym (rw (e, k, n, serve_http) refl)) (
            subst Result same
              (enqueued-IsSignedOr c disk now r apps app s found (λ z. filled (sym same ∙ z))))
    ]
  ]
]
