-- ===== src/Auth/Sessions.antt =====
-- internal/auth/auth.go: sessions in signed cookies, and the check of CSRF tokens. HMAC-SHA256, JSON
-- and random bytes are parameters; times are in nanoseconds.
pub mod Signed
use liteploy.Common.{
  ℕ, ◌+◌, ◌/◌, ◌<◌, ◌≡◌, ◌≢◌, refl, ap, sym, ◌∙◌, ◌⊎◌, inl, inr, Bool, true, false, ◌||◌, not,
  Option, none, some, List, [], ◌∷◌, ◌++◌, All, ◌==◌, nat_eq, ltb, if◌then◌else◌, is_empty, arith,
  Bool-cases, Option-cases, length, drop, Outcome, ok, err, fail_if, ◌>>=◌, ◌>>◌, ok_of_bind,
}
use liteploy.Common.Text.{Text, codes, text_eq, text_beq, text_beq_iff, includes, before, from_byte}
use liteploy.Common.Table.{get}
use liteploy.Http.{Request, Cookie, header, form_value}
use liteploy.Auth.Base64.{encode, decode, IsByte, decode-encode}

pub record SessionData : Type 0 where
  pub version : ℕ
  pub user_id : Text
  pub username : Text
  pub issued_at : ℕ
  pub expires_at : ℕ
  pub csrf_token : Text

-- `mac` takes the key first; `marshal` and `unmarshal` are encoding/json's on a session.
pub record Crypto : Type 0 where
  pub mac : Text → Text → Text
  pub marshal : SessionData → Text
  pub unmarshal : Text → Option SessionData

-- What those packages document, for a session of valid UTF-8: it reads back, and both yield bytes.
pub record IsLawful (c : Crypto) (d : SessionData) : Type 0 where
  pub unmarshal-marshal : c.unmarshal (c.marshal d) ≡ some d
  pub marshal_bytes : All IsByte (c.marshal d)
  pub mac_bytes : (key t : Text) → All IsByte (c.mac key t)

pub record Service : Type 0 where
  pub secret : Text
  pub max_age : ℕ

pub data SessionError : Type 0 where
  short_secret no_cookie malformed_token malformed_signature invalid_signature : SessionError
  malformed_payload bad_payload expired version_mismatch : SessionError

pub data CsrfError : Type 0 where
  missing_token token_mismatch : CsrfError

abbrev pub session_version : ℕ
session_version = 1

abbrev pub session_cookie_name : Text
session_cookie_name = codes "liteploy_session"

abbrev pub csrf_cookie_name : Text
csrf_cookie_name = codes "liteploy_csrf"

unfoldable pub new_service : Text → ℕ → Outcome SessionError Service
new_service secret max_age =
    if ltb (length secret) 32
    then err short_secret
    else ok (record { secret = secret; max_age = max_age })

unfoldable pub sign : Crypto → Service → Text → Text
sign c s value = c.mac s.secret value

unfoldable pub encode_session : Crypto → Service → SessionData → Text
unfolding sign
encode_session c s d =
    let encoded = encode (c.marshal d) in encoded ++ b'.' ∷ encode (sign c s encoded)

unfoldable pub or_error : {A : Type 0} → SessionError → Option A → Outcome SessionError A
or_error e none = err e
or_error e (some a) = ok a

-- `strings.SplitN(value, ".", 2)`, of two parts.
abbrev pub after_dot : Text → Option Text
after_dot [] = none
after_dot (_ ∷ t) = some t

unfoldable pub decode_session : Crypto → Service → Text → Outcome SessionError SessionData
unfolding or_error sign
decode_session c s value = do
  sig_text ← or_error malformed_token (after_dot (from_byte b'.' value))
  sig ← or_error malformed_signature (decode sig_text)
  fail_if (not (sig == sign c s (before b'.' value))) invalid_signature
  payload ← or_error malformed_payload (decode (before b'.' value))
  or_error bad_payload (c.unmarshal payload)

-- Behind the reading of the cookie.
unfoldable pub check_session : Crypto → ℕ → Service → Text → Outcome SessionError SessionData
unfolding decode_session
check_session c now s value = do
  d ← decode_session c s value
  fail_if (ltb d.expires_at now) expired
  fail_if (not (d.version == session_version)) version_mismatch
  ok d

unfoldable pub validate_session : Crypto → ℕ → Service → Request → Outcome SessionError SessionData
unfolding check_session
validate_session c now s r = elim (get r.cookies session_cookie_name) [
  | none ↦ err no_cookie
  | some value ↦ check_session c now s value
]

unfoldable pub new_session : ℕ → Service → Text → Text → Text → SessionData
new_session now s token user_id username = record {
  version = session_version;
  user_id = user_id;
  username = username;
  issued_at = now;
  expires_at = now + s.max_age;
  csrf_token = token;
}

abbrev nanoseconds : ℕ
nanoseconds = 1000000000

-- The two cookies. `random` are the 32 bytes of the token, or none where the system gives none.
unfoldable pub create_session :
    Crypto → ℕ → Option (List ℕ) → Service → Request → Text → Text → Option (List Cookie)
unfolding encode_session new_session
create_session c now none s r user_id username = none
create_session c now (some random) s r user_id username =
    let token = encode random in
    let secure = r.tls || header r (codes "X-Forwarded-Proto") == codes "https" in
    some (
      record {
        name = session_cookie_name;
        value = encode_session c s (new_session now s token user_id username);
        expires = some (s.max_age / nanoseconds);
        http_only = true;
        secure = secure;
        same_site_lax = true;
      }
      ∷ record {
        name = csrf_cookie_name;
        value = token;
        expires = some (s.max_age / nanoseconds);
        http_only = false;
        secure = secure;
        same_site_lax = true;
      }
      ∷ [])

abbrev dropped_cookie : Text → Bool → Cookie
dropped_cookie name http_only = record {
  name = name;
  value = [];
  expires = none;
  http_only = http_only;
  secure = false;
  same_site_lax = false;
}

unfoldable pub destroy_session : List Cookie
destroy_session =
    dropped_cookie session_cookie_name true ∷ dropped_cookie csrf_cookie_name false ∷ []

-- The header, or the form field where there is none.
abbrev pub csrf_token_of : Request → Text
csrf_token_of r =
    let token = header r (codes "X-Csrf-Token") in
    if is_empty token then form_value r (codes "_csrf") else token

unfoldable pub validate_csrf : Request → SessionData → Option CsrfError
validate_csrf r session =
    if is_empty (csrf_token_of r)
    then some missing_token
    else if csrf_token_of r == session.csrf_token
    then none
    else some token_mismatch
