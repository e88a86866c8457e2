-- ===== src/Auth/Tests.antt =====
-- Tests and witnesses for the sessions and the users.
use mathlib.Core.Path.{subst}
use liteploy.Common.{ℕ, ◌≤◌, ◌≡◌, refl, arith, true, false, none, some, List, [], ◌∷◌, ◌++◌, ok}
use liteploy.Common.Text.{Text, codes, text_eq, text_beq, text_beq_iff, before, from_byte}
use liteploy.Common.Table.{get}
use liteploy.Storage.{Disk}
use liteploy.Http.{Request, Cookie}
use liteploy.Auth.Base64.{
  encode, decode, pack, unpack, values_of, cons_some, cons_value, unpack_some,
}
use liteploy.Auth.Sessions.{
  SessionData, Crypto, IsLawful, Service, session_cookie_name, session_version, sign,
  encode_session, decode_session, validate_session, check_session, new_session, create_session,
  or_error,
}
use liteploy.Auth.Sessions.Signed.{
  IsSigned, decode_session-encode_session, validate_session-IsSigned,
}
use liteploy.Auth.Users.{User, UserStore, Bcrypt, change_password}
use liteploy.Auth.Users.Passwords.{IsChanged, change_password-IsChanged}

abbrev server : Service
server = record { secret = codes "k"; max_age = 100 }

-- The token alone is written.
abbrev crypto : Crypto
crypto = record {
  mac = λ key t. 1 ∷ [];
  marshal = λ d. d.csrf_token;
  unmarshal = λ t. some (new_session 5 server t (codes "u1") (codes "ann"));
}

abbrev random : List ℕ
random = 1 ∷ 2 ∷ []

abbrev session : SessionData
session = new_session 5 server (encode random) (codes "u1") (codes "ann")

session-IsLawful : IsLawful crypto session
unfolding new_session encode pack
session-IsLawful = record {
  unmarshal-marshal = refl;
  marshal_bytes = (omega arith, (omega arith, (omega arith, tt)));
  mac_bytes = λ key t. (omega arith, tt);
}

decode_session-encode_session_example :
    decode_session crypto server (encode_session crypto server session) ≡ ok session
decode_session-encode_session_example =
    decode_session-encode_session crypto server session session-IsLawful

abbrev visit : Request
visit = record {
  method = codes "GET";
  host = codes "a.io";
  path = codes "/";
  tls = true;
  headers = [];
  cookies = (session_cookie_name, encode_session crypto server session) ∷ [];
  query = [];
  path_values = [];
  form_parses = true;
  form = [];
  body = [];
}

abbrev session_cookie : Cookie
session_cookie = record {
  name = session_cookie_name;
  value = encode_session crypto server session;
  expires = some 0;
  http_only = true;
  secure = true;
  same_site_lax = true;
}

abbrev csrf_cookie : Cookie
csrf_cookie = record {
  name = codes "liteploy_csrf";
  value = encode random;
  expires = some 0;
  http_only = false;
  secure = true;
  same_site_lax = true;
}

IsLawful-for :
    (bytes : List ℕ)
    → some random ≡ some bytes
    → IsLawful crypto (new_session 5 server (encode bytes) (codes "u1") (codes "ann"))
IsLawful-for bytes e = subst Lawful same session-IsLawful
  where
    Lawful : List ℕ → Type 0
    Lawful b = IsLawful crypto (new_session 5 server (encode b) (codes "u1") (codes "ann"))

    same : random ≡ bytes
    same = cc

cookies_made :
    create_session crypto 5 (some random) server visit (codes "u1") (codes "ann")
    ≡ some (session_cookie ∷ csrf_cookie ∷ [])
unfolding create_session
cookies_made = refl

cookie_sent : get visit.cookies session_cookie_name ≡ some session_cookie.value
unfolding get text_beq
cookie_sent = refl

visit_is_valid : validate_session crypto 90 server visit ≡ ok session
unfolding validate_session check_session decode_session or_error encode_session sign new_session get
    text_beq before from_byte encode decode pack unpack values_of cons_some cons_value unpack_some
visit_is_valid = refl

validate_session-IsSigned_example :
    (value : Text) × (get visit.cookies session_cookie_name ≡ some value)
    × IsSigned crypto server value session
    × (90 ≤ session.expires_at)
    × (session.version ≡ session_version)
validate_session-IsSigned_example =
    validate_session-IsSigned crypto 90 server visit session visit_is_valid

abbrev plain : Bcrypt
plain = record { hash = λ p. some p; check = λ p h. text_beq p h }

abbrev working : Disk
working = record { mkdir_fails = λ _. false; fault = λ _. none; temp_name = λ p. p ++ codes ".tmp" }

abbrev nobody : UserStore
nobody = record { store = record { root = codes "/d"; files = [] }; users = [] }

abbrev ann : User
ann = record {
  id = codes "admin-001";
  username = codes "ann";
  password_hash = codes "old-secret";
  created_at = 1;
  updated_at = 1;
}

plain_matches : (password hash : Text) → some password ≡ some hash → text_beq password hash ≡ true
plain_matches password hash e = (text_beq_iff password hash).1 same
  where
    same : password ≡ hash
    same = cc

abbrev one_user : UserStore
one_user = record nobody { users = (codes "ann", ann) ∷ [] }

change_password-IsChanged_example :
    IsChanged plain (codes "ann") (codes "old-secret") (codes "new-secret") one_user (
      change_password plain working 3
        (codes "ann")
        (codes "old-secret")
        (codes "new-secret")
        one_user)
change_password-IsChanged_example =
    change_password-IsChanged plain working 3 (codes "ann") (codes "old-secret")
      (codes "new-secret") one_user plain_matches
