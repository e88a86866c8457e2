-- ===== src/Api/Tests.antt =====
-- Witnesses for the HTTP server.
use mathlib.Core.Path.{subst}
use liteploy.Common.{
  ℕ, ◌+◌, ◌∙◌, ◌≡◌, ◌↔◌, ◌⊎◌, refl, sym, arith, true, false, none, some, List, [], ◌∷◌, ◌++◌, ltb,
  if◌then◌else◌, Outcome, ok, err,
}
use liteploy.Common.Text.{Text, codes, text_eq, text_beq, text_beq_iff}
use liteploy.Common.Table.{get}
use liteploy.Http.{Request, Cookie}
use liteploy.Application.Types.{Application}
use liteploy.Application.Samples.{shop}
use liteploy.Auth.Base64.{encode, pack}
use liteploy.Auth.Sessions as Sessions
use liteploy.Auth.Sessions.{
  SessionData, SessionError, Crypto, IsLawful, session_cookie_name, expired, encode_session,
  new_session, create_session, validate_session, validate_csrf, sign,
}
use liteploy.Auth.Users.{User, UserError, authenticate, check_password}
use liteploy.Api.{Host, Server, login_submit, setup_submit}
use liteploy.Api.Environment.{unquote, unquote_panics}
use liteploy.Api.Routes.{delete_form, form_route, serve}
use liteploy.Api.Guards.{IsGuarded, serve_form-IsGuarded}
use liteploy.Api.Login.{user_of, IsSetUp, login_submit_session, setup_submit-IsSetUp}

abbrev keys : Sessions.Service
keys = record { secret = codes "k"; max_age = 100 }

abbrev bytes : List ℕ
bytes = 1 ∷ 2 ∷ []

-- The token alone is written; the reader adds the rest.
abbrev crypto : Crypto
crypto = record {
  mac = λ key t. 1 ∷ [];
  marshal = λ d. d.csrf_token;
  unmarshal = λ t. some (new_session 5 keys t (codes "admin-001") (codes "ann"));
}

abbrev host : Host
host = record {
  crypto = crypto;
  sessions = keys;
  bcrypt = record { hash = λ p. some p; check = λ p h. text_beq p h };
  disk = record { mkdir_fails = λ _. false; fault = λ _. none; temp_name = λ p. p ++ codes ".tmp" };
  now = 5;
  random = some bytes;
  removes = true;
  has_docker = true;
  starts = λ _. true;
  stops = λ _. true;
  prune_error = none;
  scan_int = λ _. none;
  app_of_json = λ _. none;
  env_of_json = λ _. none;
  caddy = λ _. none;
  public_ip = [];
  lookup = λ _. none;
  hostname_of = λ _. [];
  http_addr = codes ":8080";
  messages = record {
    of_app = λ _. [];
    of_deployment = λ _. [];
    of_user = λ _. [];
    of_settings = λ _. [];
    of_dns = λ _. [];
  };
}

abbrev ann : User
ann = record {
  id = codes "admin-001";
  username = codes "ann";
  password_hash = codes "old-secret";
  created_at = 1;
  updated_at = 1;
}

abbrev with_registry : Application
with_registry = record shop {
  source = record shop.source {
    registry_auth =
        some
          (record { server_address = codes "r.io"; username = codes "old"; password = codes "pw" });
  };
}

abbrev server : Server
server = record {
  users = record {
    store = record { root = codes "/d"; files = [] };
    users = (codes "ann", ann) ∷ [];
  };
  apps = record {
    store = record { root = codes "/d"; files = [] };
    apps = (codes "app-001", with_registry) ∷ [];
  };
  envs = record { root = codes "/d"; files = [] };
  deployments = record {
    store = record { root = codes "/d"; files = [] };
    queue = [];
    deployments = [];
    cancel_fns = [];
    next_context = 0;
    cancelled = [];
  };
  docker = [];
  settings = record {
    store = record { root = codes "/d"; files = [] };
    settings = record {
      primary_domain = [];
      dashboard_domain = [];
      dashboard_sub = codes "liteploy";
      dns_verified = false;
      https_enabled = false;
      server_ip = [];
      setup_skipped = false;
      updated_at = 0;
    };
  };
  proxy = record {
    routes = [];
    dashboard_domain = [];
    dashboard_target = [];
    last_known_good = none;
  };
}

abbrev session_data : SessionData
session_data = new_session 5 keys (encode bytes) (codes "admin-001") (codes "ann")

abbrev session : Cookie
session = record {
  name = session_cookie_name;
  value = encode_session crypto keys session_data;
  expires = some 0;
  http_only = true;
  secure = true;
  same_site_lax = true;
}

abbrev csrf : Cookie
csrf = record {
  name = codes "liteploy_csrf";
  value = encode bytes;
  expires = some 0;
  http_only = false;
  secure = true;
  same_site_lax = true;
}

-- A login, and the update of an application without a name.
abbrev request : Request
request = record {
  method = codes "POST";
  host = codes "a.io";
  path = codes "/login";
  tls = true;
  headers = (codes "X-Csrf-Token", codes "token") ∷ [];
  cookies = (session_cookie_name, encode_session crypto keys session_data) ∷ [];
  query = [];
  path_values = (codes "id", codes "app-001") ∷ [];
  form_parses = true;
  form =
      (codes "username", codes "ann" ∷ [])
      ∷ (codes "password", codes "old-secret" ∷ [])
      ∷ (codes "confirm_password", codes "old-secret" ∷ [])
      ∷ (codes "registry_username", codes "new" ∷ [])
      ∷ [];
  body = [];
}

serve_form-IsGuarded_example :
    IsGuarded delete_form host request server (serve (form_route delete_form) host request server)
serve_form-IsGuarded_example = serve_form-IsGuarded delete_form host request server

unquote_panics_example :
    (unquote (codes "'") ≡ none) ↔ ((codes "'" ≡ codes "\"") ⊎ (codes "'" ≡ codes "'"))
unquote_panics_example = unquote_panics (codes "'")

ann_logs_in : user_of host request server ≡ ok ann
unfolding authenticate check_password get text_beq
ann_logs_in = refl

session-IsLawful : IsLawful crypto session_data
unfolding new_session encode pack
session-IsLawful = record {
  unmarshal-marshal = refl;
  marshal_bytes = (omega arith, (omega arith, (omega arith, tt)));
  mac_bytes = λ key t. (omega arith, tt);
}

abbrev ok_user : User → Outcome UserError User
ok_user u = ok u

IsLawful-for :
    (user : User) (random : List ℕ)
    → user_of host request server ≡ ok user
    → some bytes ≡ some random
    → IsLawful crypto (new_session 5 keys (encode random) user.id user.username)
IsLawful-for user random e q =
    subst (Lawful random) (is_ann (sym ann_logs_in ∙ e))
      (subst (λ b. Lawful b ann) same session-IsLawful)
  where
    Lawful : List ℕ → User → Type 0
    Lawful b u = IsLawful crypto (new_session 5 keys (encode b) u.id u.username)

    same : bytes ≡ random
    same = cc

    is_ann : ok_user ann ≡ ok_user user → ann ≡ user
    is_ann k = cc

cookies_set : (login_submit host request server).1.cookies ≡ session ∷ csrf ∷ []
unfolding login_submit authenticate check_password create_session get text_beq
cookies_set = refl

cookie_sent : get request.cookies session_cookie_name ≡ some session.value
unfolding get text_beq
cookie_sent = refl

login_submit_session_example :
    (user : User) × (d : SessionData) × (user_of host request server ≡ ok user)
    × (validate_session crypto 90 keys request ≡ (if ltb (5 + 100) 90 then err expired else ok d))
    × (d.username ≡ user.username)
    × (d.csrf_token ≡ csrf.value)
login_submit_session_example =
    login_submit_session host request request server 90 session csrf IsLawful-for cookies_set
      cookie_sent

abbrev nobody : Server
nobody = record server {
  users = record { store = record { root = codes "/d"; files = [] }; users = [] };
}

plain_matches : (password hash : Text) → some password ≡ some hash → text_beq password hash ≡ true
plain_matches password hash e = (text_beq_iff password hash).1 same
  where
    same : password ≡ hash
    same = cc

setup_submit-IsSetUp_example : IsSetUp host request nobody (setup_submit host request nobody)
setup_submit-IsSetUp_example = setup_submit-IsSetUp host request nobody plain_matches
