-- ===== src/Auth/Base64.antt =====
-- `base64.RawURLEncoding`: three bytes as four digits, no padding. The decoder skips line breaks and
-- ignores the bits that are left over.
use liteploy.Common.{
  ℕ, ◌+◌, ◌-◌, ◌*◌, ◌/◌, ◌%◌, ◌<◌, ◌≡◌, refl, false, ◌||◌, ◌&&◌, Option, none, some, List, [], ◌∷◌,
  map, All, ltb, leb, nat_beq, if◌then◌else◌, arith,
}
use liteploy.Common.Text.{Text}

abbrev pub digit : ℕ → ℕ
digit n =
    if ltb n 26
    then b'A' + n
    else if ltb n 52
    then b'a' + (n - 26)
    else if ltb n 62
    then b'0' + (n - 52)
    else if nat_beq n 62
    then b'-'
    else b'_'

abbrev pub value : ℕ → Option ℕ
value c =
    if leb b'A' c && leb c b'Z'
    then some (c - b'A')
    else if leb b'a' c && leb c b'z'
    then some (c - b'a' + 26)
    else if leb b'0' c && leb c b'9'
    then some (c - b'0' + 52)
    else if nat_beq c b'-'
    then some 62
    else if nat_beq c b'_'
    then some 63
    else none

-- The six-bit groups of the bytes.
unfoldable pub pack : List ℕ → List ℕ
pack [] = []
pack (a ∷ []) = (a / 4) ∷ (a % 4 * 16) ∷ []
pack (a ∷ b ∷ []) = (a / 4) ∷ (a % 4 * 16 + b / 16) ∷ (b % 16 * 4) ∷ []
pack (a ∷ b ∷ c ∷ r) = (a / 4) ∷ (a % 4 * 16 + b / 16) ∷ (b % 16 * 4 + c / 64) ∷ (c % 64) ∷ pack r

unfoldable pub cons_some : ℕ → Option (List ℕ) → Option (List ℕ)
cons_some a none = none
cons_some a (some r) = some (a ∷ r)

unfoldable pub unpack : List ℕ → Option (List ℕ)
unfolding cons_some
unpack [] = some []
unpack (x ∷ []) = none
unpack (x ∷ y ∷ []) = some ((x * 4 + y / 16) ∷ [])
unpack (x ∷ y ∷ z ∷ []) = some ((x * 4 + y / 16) ∷ (y % 16 * 16 + z / 4) ∷ [])
unpack (x ∷ y ∷ z ∷ w ∷ r) =
    cons_some (x * 4 + y / 16)
      (cons_some (y % 16 * 16 + z / 4) (cons_some (z % 4 * 64 + w) (unpack r)))

unfoldable pub cons_value : Option ℕ → Option (List ℕ) → Option (List ℕ)
cons_value none r = none
cons_value (some n) r = cons_some n r

unfoldable pub values_of : Text → Option (List ℕ)
unfolding cons_value
values_of [] = some []
values_of (c ∷ t) =
    let rest = values_of t in
    if nat_beq c 10 || nat_beq c 13 then rest else cons_value (value c) rest

unfoldable pub unpack_some : Option (List ℕ) → Option (List ℕ)
unpack_some none = none
unpack_some (some xs) = unpack xs

unfoldable pub encode : List ℕ → Text
unfolding pack
encode bytes = map digit (pack bytes)

unfoldable pub decode : Text → Option (List ℕ)
unfolding unpack_some values_of
decode t = unpack_some (values_of t)

abbrev pub IsByte : ℕ → Type 0
IsByte b = b < 256

value-digit : (n : ℕ) → n < 64 → value (digit n) ≡ some n
value-digit n h = ground arith

digit_is_no_break : (n : ℕ) → n < 64 → nat_beq (digit n) 10 || nat_beq (digit n) 13 ≡ false
digit_is_no_break n h = ground arith

values_of-digits : (xs : List ℕ) → All (λ n. n < 64) xs → values_of (map digit xs) ≡ some xs
unfolding values_of cons_some
values_of-digits [] h = refl
values_of-digits (n ∷ xs) h =
    rw (digit_is_no_break n h.0, value-digit n h.0, values_of-digits xs h.1) refl

pack-small : (bs : List ℕ) → All IsByte bs → All (λ n. n < 64) (pack bs)
unfolding pack
pack-small [] h = tt
pack-small (a ∷ []) h = ground arith
pack-small (a ∷ b ∷ []) h = ground arith
pack-small (a ∷ b ∷ c ∷ r) h = (
  omega (arith, h.0),
  (omega (arith, h.0, h.1.0), (omega (arith, h.1.0, h.1.1.0), (omega arith, pack-small r h.1.1.1))),
)

unpack-pack : (bs : List ℕ) → All IsByte bs → unpack (pack bs) ≡ some bs
unfolding pack unpack
unpack-pack [] h = refl
unpack-pack (a ∷ []) h = ground arith
unpack-pack (a ∷ b ∷ []) h = ground arith
unpack-pack (a ∷ b ∷ c ∷ r) h = rw (unpack-pack r h.1.1.1) (ground arith)

-- Bytes that are encoded decode to themselves.
pub decode-encode : (bytes : List ℕ) → All IsByte bytes → decode (encode bytes) ≡ some bytes
unfolding decode encode
decode-encode bytes h =
    rw (values_of-digits (pack bytes) (pack-small bytes h)) (unpack-pack bytes h)
