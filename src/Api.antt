-- ===== src/Api.antt =====
-- internal/api/server.go and handlers_auth.go: the state behind the HTTP server, the checks in front
-- of its handlers, and the handlers of the login. What is not under the repository's control is a
-- `Host`: the keys, the clock, the files, Docker, and the texts of the errors.
pub mod AppHandlers
pub mod ContainerHandlers
pub mod JsonHandlers
pub mod DomainHandlers
pub mod SettingsHandlers
pub mod Environment
pub mod Forms
pub mod Routes
pub mod Guards
pub mod Login
mod Tests
use liteploy.Common.{
  ℕ, Bool, true, false, not, Option, none, some, List, [], ◌∷◌, ◌++◌, ◌==◌, if◌then◌else◌, is_empty,
  Outcome, ok, err,
}
use liteploy.Common.Int.{ℤ}
use liteploy.Common.Text.{Text, codes, text_eq}
use liteploy.Common.Table.{Table}
use liteploy.Storage.{Store, Disk}
use liteploy.Http.{Request, Cookie, Response, redirect, fail, api_fail, answer, form_value}
use liteploy.Application.Types.{Application}
use liteploy.Application.Service as Applications
use liteploy.Deployment.Service as Deployments
use liteploy.Auth.Sessions as Sessions
use liteploy.Auth.Sessions.{
  SessionData, Crypto, SessionError, validate_session, validate_csrf, create_session,
  destroy_session,
}
use liteploy.Proxy.Applying.{Manager, Caddy}
use liteploy.System.Settings.{SettingsService, SettingsError}
use liteploy.System.Dns.{DnsError}
use liteploy.Auth.Users.{UserStore, UserError, Bcrypt, has_users, authenticate, create_admin}

pub data DockerCall : Type 0 where
  started : Text → DockerCall
  stopped : Text → ℕ → DockerCall
  pruned : DockerCall

-- `docker` holds the calls so far, the newest first.
pub record Server : Type 0 where
  pub users : UserStore
  pub apps : Applications.Service
  pub envs : Store (Table Text)
  pub deployments : Deployments.Service
  pub docker : List DockerCall
  pub settings : SettingsService
  pub proxy : Manager

-- What the handlers show of an error.
pub record Messages : Type 0 where
  pub of_app : Applications.ServiceError → Text
  pub of_deployment : Deployments.ServiceError → Text
  pub of_user : UserError → Text
  pub of_settings : SettingsError → Text
  pub of_dns : DnsError → Text

-- `removes` tells whether `os.RemoveAll` works, `starts` and `stops` whether Docker does with a
-- container; `public_ip` is the address that `GetServerPublicIP` finds, or empty; `lookup` and
-- `hostname_of` are those of the settings; `scan_int` is `fmt.Sscanf` for "%d", `app_of_json` and `env_of_json` decode a body.
pub record Host : Type 0 where
  pub crypto : Crypto
  pub sessions : Sessions.Service
  pub bcrypt : Bcrypt
  pub disk : Disk
  pub now : ℕ
  pub random : Option (List ℕ)
  pub removes : Bool
  pub has_docker : Bool
  pub starts : Text → Bool
  pub stops : Text → Bool
  pub prune_error : Option Text
  pub scan_int : Text → Option ℤ
  pub app_of_json : Text → Option Application
  pub env_of_json : Text → Option (Table Text)
  pub caddy : Caddy
  pub public_ip : Text
  pub lookup : Text → Option (List Text)
  pub hostname_of : Text → Text
  pub http_addr : Text
  pub messages : Messages

-- A handler behind a check of the session.
abbrev pub Handler : Type 0
Handler = Host → Request → SessionData → Server → Server × Response

abbrev pub session_of : Host → Request → Outcome SessionError SessionData
session_of h r = validate_session h.crypto h.now h.sessions r

unfoldable pub authenticated : Handler → Host → Request → Server → Server × Response
authenticated handler h r s =
    if not (has_users s.users)
    then (s, answer (redirect (codes "/setup")))
    else elim (session_of h r) [
      | err _ ↦ (s, answer (redirect (codes "/login?next=" ++ r.path)))
      | ok session ↦ handler h r session s
    ]

unfoldable pub api_authenticated : Handler → Host → Request → Server → Server × Response
api_authenticated handler h r s = elim (session_of h r) [
  | err _ ↦ (s, answer (api_fail 401))
  | ok session ↦ handler h r session s
]

-- `if !s.requireCSRF(w, r, session) { return }`, and what comes behind it.
unfoldable pub require_csrf : Request → SessionData → Server → Server × Response → Server × Response
require_csrf r session s next = elim (validate_csrf r session) [
  | some _ ↦ (s, answer (fail 403))
  | none ↦ next
]

abbrev next_of : Request → Text
next_of r = let next = form_value r (codes "next") in if is_empty next then codes "/" else next

unfoldable pub login_submit : Host → Request → Server → Server × Response
login_submit h r s =
    if not r.form_parses
    then (s, answer (fail 400))
    else elim (authenticate h.bcrypt (form_value r (codes "username"))
        (form_value r (codes "password")) s.users) [
          | err _ ↦
              (s, answer (redirect (codes "/login?error=invalid_credentials&next=" ++ next_of r)))
          | ok user ↦
              elim (create_session h.crypto h.now h.random h.sessions r user.id user.username) [
                | none ↦ (s, answer (fail 500))
                | some cookies ↦ (s, record { cookies = cookies; reply = redirect (next_of r) })
              ]
        ]

unfoldable pub logout : Server → Server × Response
logout s = (s, record { cookies = destroy_session; reply = redirect (codes "/login") })

abbrev pub set_up : Host → Server → UserStore × Option UserError → Server × Response
set_up h s (users, some e) =
    (record s { users = users }, answer (redirect (codes "/setup?error=" ++ h.messages.of_user e)))
set_up h s (users, none) = (record s { users = users }, answer (redirect (codes "/login")))

unfoldable pub setup_submit : Host → Request → Server → Server × Response
setup_submit h r s =
    if has_users s.users
    then (s, answer (redirect (codes "/")))
    else if not r.form_parses
    then (s, answer (fail 400))
    else if not (form_value r (codes "password") == form_value r (codes "confirm_password"))
    then (s, answer (redirect (codes "/setup?error=passwords_do_not_match")))
    else set_up h s (
        create_admin h.bcrypt h.disk h.now (form_value r (codes "username"))
          (form_value r (codes "password")) s.users)
