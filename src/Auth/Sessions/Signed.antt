-- ===== src/Auth/Sessions/Signed.antt =====
-- Which session cookies are accepted.
use liteploy.Common.{
  ℕ, ◌+◌, ◌≤◌, ◌≡◌, refl, ap, sym, ◌∙◌, inl, inr, true, false, not, Option, none, some, List, [],
  ◌∷◌, ◌++◌, map, ◌==◌, nat_eq, nat_beq, ltb, if◌then◌else◌, arith, Bool-cases, Option-cases,
  Outcome, ok, err, fail_if, ok_of_bind, false_of_fail_if,
}
use liteploy.Common.Text.{Text, text_eq, text_beq, text_beq_iff, before, from_byte}
use liteploy.Common.Text.Bytes.{IsFree}
use liteploy.Common.Table.{get}
use liteploy.Http.{Request, Cookie}
use liteploy.Auth.Base64.{encode, decode, digit, pack, decode-encode}
use liteploy.Auth.Sessions.{
  SessionData, Crypto, IsLawful, Service, SessionError, session_version, session_cookie_name, sign,
  encode_session, or_error, after_dot, decode_session, check_session, validate_session, new_session,
  create_session, expired, malformed_token, malformed_signature, malformed_payload, bad_payload,
  invalid_signature, version_mismatch, no_cookie,
}

digit_is_no_dot : (n : ℕ) → nat_beq (digit n) b'.' ≡ false
digit_is_no_dot n = ground arith

digits-IsFree : (xs : List ℕ) → IsFree b'.' (map digit xs)
digits-IsFree [] = tt
digits-IsFree (n ∷ xs) = (digit_is_no_dot n, digits-IsFree xs)

encode-IsFree : (bytes : List ℕ) → IsFree b'.' (encode bytes)
unfolding encode
encode-IsFree bytes = digits-IsFree (pack bytes)

before-append : (c : ℕ) (t u : Text) → IsFree c t → before c (t ++ c ∷ u) ≡ t
unfolding before
before-append c [] u h = ground arith
before-append c (d ∷ t) u h = rw (h.0, before) (ap (λ x. d ∷ x) (before-append c t u h.1))

from_byte-append : (c : ℕ) (t u : Text) → IsFree c t → from_byte c (t ++ c ∷ u) ≡ c ∷ u
unfolding from_byte
from_byte-append c [] u h = ground arith
from_byte-append c (d ∷ t) u h = rw (h.0, from_byte) (from_byte-append c t u h.1)

beq_self : (t : Text) → text_beq t t ≡ true
beq_self t = (text_beq_iff t t).1 refl

-- A session that JSON reads back is decoded to itself from its cookie's value, under the same secret.
pub decode_session-encode_session :
    (c : Crypto) (s : Service) (d : SessionData)
    → IsLawful c d
    → decode_session c s (encode_session c s d) ≡ ok d
unfolding decode_session encode_session or_error sign
decode_session-encode_session c s d law =
    let encoded : Text = encode (c.marshal d) in
    let sig : Text = c.mac s.secret encoded in
    rw
      (
        from_byte-append b'.' encoded (encode sig) (encode-IsFree (c.marshal d)),
        before-append b'.' encoded (encode sig) (encode-IsFree (c.marshal d)),
        decode-encode sig (law.mac_bytes s.secret encoded),
        beq_self sig,
        decode-encode (c.marshal d) law.marshal_bytes,
        law.unmarshal-marshal,
      )
      refl

check_session-new_session :
    (c : Crypto) (s : Service) (now t : ℕ) (token user name : Text)
    → IsLawful c (new_session now s token user name)
    → check_session c t s (encode_session c s (new_session now s token user name))
      ≡ (if ltb (now + s.max_age) t then err expired else ok (new_session now s token user name))
unfolding check_session new_session
check_session-new_session c s now t token user name law =
    let d : SessionData = new_session now s token user name in
    rw (decode_session-encode_session c s d law)
      (elim (Bool-cases (ltb (now + s.max_age) t)) [ inl e ↦ rw e refl | inr e ↦ rw e refl ])

validate_of_cookie :
    (c : Crypto) (t : ℕ) (s : Service) (r : Request) (value : Text)
    → get r.cookies session_cookie_name ≡ some value
    → validate_session c t s r ≡ check_session c t s value
unfolding validate_session
validate_of_cookie c t s r value e = rw (e, validate_session) refl

abbrev first_value : Option (List Cookie) → Text
first_value (some (a ∷ _)) = a.value
first_value _ = []

abbrev second_value : Option (List Cookie) → Text
second_value (some (_ ∷ b ∷ _)) = b.value
second_value _ = []

-- The cookie that a login sets identifies its user until the maximal age is over, and is refused
-- from then on. The token in the other cookie is the session's.
pub session_lifetime :
    (c : Crypto) (s : Service) (now t : ℕ) (random : Option (List ℕ)) (r r' : Request)
    (user name : Text) (session csrf : Cookie)
    → ((bytes : List ℕ)
        → random ≡ some bytes
        → IsLawful c (new_session now s (encode bytes) user name))
    → create_session c now random s r user name ≡ some (session ∷ csrf ∷ [])
    → get r'.cookies session_cookie_name ≡ some session.value
    → (d : SessionData) × (validate_session c t s r'
        ≡ (if ltb (now + s.max_age) t then err expired else ok d))
      × (d.user_id ≡ user)
      × (d.username ≡ name)
      × (d.csrf_token ≡ csrf.value)
unfolding create_session new_session
session_lifetime c s now t none r r' user name session csrf law made sent = cc
session_lifetime c s now t (some random) r r' user name session csrf law made sent =
    let d : SessionData = new_session now s (encode random) user name in
    let value_eq : encode_session c s d ≡ session.value = ap first_value made in
    (
      d,
      validate_of_cookie c t s r' (encode_session c s d) (sent ∙ ap some (sym value_eq))
          ∙ check_session-new_session c s now t (encode random) user name (law random refl),
      refl,
      refl,
      ap second_value made,
    )

some_of_or_error :
    {A : Type 0} (e : SessionError) (o : Option A) (a : A) → or_error e o ≡ ok a → o ≡ some a
unfolding or_error
some_of_or_error e none a h = cc
some_of_or_error e (some b) a h = ground arith

eq_of_test : (a b : Text) → not (a == b) ≡ false → a ≡ b
eq_of_test a b h = (text_beq_iff a b).0 (ground arith)

-- What the signature of an accepted value covers.
abbrev pub IsSigned : Crypto → Service → Text → SessionData → Type 0
IsSigned c s value d =
    (sig_text payload : Text) × (after_dot (from_byte b'.' value) ≡ some sig_text)
    × (decode sig_text ≡ some (c.mac s.secret (before b'.' value)))
    × (decode (before b'.' value) ≡ some payload)
    × (c.unmarshal payload ≡ some d)

IsSigned-of_decode :
    (c : Crypto) (s : Service) (value : Text) (d : SessionData)
    → decode_session c s value ≡ ok d
    → IsSigned c s value d
unfolding decode_session sign
IsSigned-of_decode c s value d h =
    let encoded : Text = before b'.' value in
    let (sig_text, a0, h1) =
      ok_of_bind (or_error malformed_token (after_dot (from_byte b'.' value))) _ d h in
    let (sig, a1, h2) = ok_of_bind (or_error malformed_signature (decode sig_text)) _ d h1 in
    let (u, a2, h3) =
      ok_of_bind (fail_if (not (sig == c.mac s.secret encoded)) invalid_signature) _ d h2 in
    let (payload, a3, h4) = ok_of_bind (or_error malformed_payload (decode encoded)) _ d h3 in
    let same : sig ≡ c.mac s.secret encoded =
      eq_of_test sig (c.mac s.secret encoded)
        (false_of_fail_if (not (sig == c.mac s.secret encoded)) invalid_signature u a2) in
    (
      sig_text,
      payload,
      some_of_or_error malformed_token (after_dot (from_byte b'.' value)) sig_text a0,
      some_of_or_error malformed_signature (decode sig_text) sig a1 ∙ ap some same,
      some_of_or_error malformed_payload (decode encoded) payload a3,
      some_of_or_error bad_payload (c.unmarshal payload) d h4,
    )

ok_injective :
    (o : Outcome SessionError SessionData) (a b : SessionData) → o ≡ ok a → o ≡ ok b → a ≡ b
ok_injective o a b p q = cc

fresh_of_check :
    (c : Crypto) (t : ℕ) (s : Service) (value : Text) (d : SessionData)
    → check_session c t s value ≡ ok d
    → (decode_session c s value ≡ ok d) × (t ≤ d.expires_at) × (d.version ≡ session_version)
unfolding check_session
fresh_of_check c t s value d h =
    let (d', a0, h1) = ok_of_bind (decode_session c s value) _ d h in
    let (u, a1, h2) = ok_of_bind (fail_if (ltb d'.expires_at t) expired) _ d h1 in
    let (v, a2, h3) =
      ok_of_bind (fail_if (not (d'.version == session_version)) version_mismatch) _ d h2 in
    let fresh : ltb d'.expires_at t ≡ false = false_of_fail_if (ltb d'.expires_at t) expired u a1 in
    let current : not (nat_beq d'.version session_version) ≡ false =
      false_of_fail_if (not (d'.version == session_version)) version_mismatch v a2 in
    let same : d' ≡ d = ok_injective (ok d') d' d refl h3 in
    (a0 ∙ ap ok same, ground arith, ground arith)

-- A cookie that is accepted carries the HMAC of its payload under the server's secret, the payload is
-- the session that is returned, and the session is not over.
pub validate_session-IsSigned :
    (c : Crypto) (t : ℕ) (s : Service) (r : Request) (d : SessionData)
    → validate_session c t s r ≡ ok d
    → (value : Text) × (get r.cookies session_cookie_name ≡ some value)
      × IsSigned c s value d
      × (t ≤ d.expires_at)
      × (d.version ≡ session_version)
unfolding validate_session
validate_session-IsSigned c t s r d h = elim (Option-cases (get r.cookies session_cookie_name)) [
  | inl e ↦ absurd (no_session (sym (rw (e, validate_session) refl) ∙ h))
  | inr (value, e) ↦
      let (decoded, fresh, current) =
        fresh_of_check c t s value d (sym (validate_of_cookie c t s r value e) ∙ h) in
      (value, e, IsSigned-of_decode c s value d decoded, fresh, current)
]
  where
    no_session : ¬ (err no_cookie ≡ ok d)
    no_session q = ground arith
