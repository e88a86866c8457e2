-- ===== src/Common/Text.antt =====
-- Go strings as lists of bytes, and what the program calls of the package `strings`. Case folding
-- and the class of spaces are those of ASCII.
pub mod Laws
pub mod Bytes
use Prim.Native.Nat.{ℕ, zero, suc, ◌+◌, ◌-◌}
use Prim.Native.Char.{code}
use Prim.Native.String.{String}
use mathlib.Core.Path.{◌≡◌, refl}
use mathlib.Core.Logic.{◌↔◌}
use mathlib.Core.Bool.{Bool, true, false, ◌&&◌, ◌||◌, not}
use mathlib.Core.Option
use mathlib.Core.Option.{Option, none, some}
use mathlib.Core.List.{List, [], ◌∷◌, ◌++◌, map, reverse}
use native.Mathlib.Omega.{arith}
use liteploy.Common.Tests.{nat_beq, leb, if◌then◌else◌, Equality, ◌==◌, nat_eq}

abbrev pub Text : Type 0
Text = List ℕ

-- The bytes of a literal.
abbrev pub codes : String → Text
codes String.[] = []
codes (String.◌∷◌ c s) = code c ∷ codes s

unfoldable pub text_beq : Text → Text → Bool
text_beq [] [] = true
text_beq (a ∷ s) (b ∷ t) = nat_beq a b && text_beq s t
text_beq _ _ = false

pub text_beq_iff : (s t : Text) → (text_beq s t ≡ true) ↔ (s ≡ t)
unfolding text_beq
text_beq_iff [] [] = ground arith
text_beq_iff [] (b ∷ t) = ground arith
text_beq_iff (a ∷ s) [] = ground arith
text_beq_iff (a ∷ s) (b ∷ t) = ground (arith, text_beq_iff s t)

instance abbrev pub text_eq : Equality Text
text_eq = record { equals = text_beq; equals_iff = text_beq_iff }

-- What is left of a text behind a prefix.
unfoldable pub strip_prefix : Text → Text → Option Text
strip_prefix [] t = some t
strip_prefix (a ∷ p) [] = none
strip_prefix (a ∷ p) (b ∷ t) = let rest = strip_prefix p t in if nat_beq a b then rest else none

abbrev is_some {ℓ} : {A : Type ℓ} → Option A → Bool
is_some none = false
is_some (some _) = true

unfoldable pub has_prefix : Text → Text → Bool
has_prefix t p = is_some (strip_prefix p t)

unfoldable pub trim_prefix : Text → Text → Text
trim_prefix t p = elim (strip_prefix p t) [ none ↦ t | some rest ↦ rest ]

unfoldable pub strip_suffix : Text → Text → Option Text
strip_suffix p t = Option.map reverse (strip_prefix (reverse p) (reverse t))

unfoldable pub has_suffix : Text → Text → Bool
has_suffix t p = is_some (strip_suffix p t)

unfoldable pub trim_suffix : Text → Text → Text
trim_suffix t p = elim (strip_suffix p t) [ none ↦ t | some rest ↦ rest ]

-- `strings.Contains(t, p)`
unfoldable pub includes : Text → Text → Bool
unfolding has_prefix
includes [] p = has_prefix [] p
includes (c ∷ t) p = has_prefix (c ∷ t) p || includes t p

abbrev has_byte : ℕ → Text → Bool
has_byte c [] = false
has_byte c (d ∷ t) = nat_beq c d || has_byte c t

-- `strings.ContainsAny(t, set)`
unfoldable pub includes_any : Text → Text → Bool
includes_any [] set = false
includes_any (c ∷ t) set = has_byte c set || includes_any t set

unfoldable pub drop_while : (ℕ → Bool) → Text → Text
drop_while p [] = []
drop_while p (c ∷ t) = let rest = drop_while p t in if p c then rest else c ∷ t

unfoldable pub drop_last_while : (ℕ → Bool) → Text → Text
unfolding drop_while
drop_last_while p t = reverse (drop_while p (reverse t))

-- space, \t, \n, \v, \f, \r
abbrev pub is_space : ℕ → Bool
is_space c = nat_beq c 32 || leb 9 c && leb c 13

unfoldable pub trim_space : Text → Text
unfolding drop_while drop_last_while
trim_space t = drop_last_while is_space (drop_while is_space t)

-- `strings.TrimRight(t, c)` for a cutset of one byte.
unfoldable pub trim_right : Text → ℕ → Text
unfolding drop_last_while
trim_right t c = drop_last_while (λ d. nat_beq d c) t

abbrev pub lower_byte : ℕ → ℕ
lower_byte c = if leb 65 c && leb c 90 then c + 32 else c

unfoldable pub to_lower : Text → Text
to_lower = map lower_byte

-- `t[:i]` and `t[i:]` for the index `i` of the first byte `c`, or the end if there is none.
unfoldable pub before : ℕ → Text → Text
before c [] = []
before c (d ∷ t) = let rest = before c t in if nat_beq d c then [] else d ∷ rest

unfoldable pub from_byte : ℕ → Text → Text
from_byte c [] = []
from_byte c (d ∷ t) = let rest = from_byte c t in if nat_beq d c then d ∷ t else rest

unfoldable pub grow : ℕ → List Text → List Text
grow d [] = (d ∷ []) ∷ []
grow d (s ∷ r) = (d ∷ s) ∷ r

-- `strings.Split(t, c)` for a separator of one byte.
unfoldable pub split : ℕ → Text → List Text
unfolding grow
split c [] = [] ∷ []
split c (d ∷ t) = if nat_beq d c then [] ∷ split c t else grow d (split c t)

-- `parts[0]`; `split` returns one part at least.
unfoldable pub first_part : List Text → Text
first_part [] = []
first_part (s ∷ _) = s

-- `strings.Join(parts, c)` for a separator of one byte.
unfoldable pub join : ℕ → List Text → Text
join c [] = []
join c (s ∷ []) = s
join c (s ∷ s' ∷ r) = s ++ c ∷ join c (s' ∷ r)

-- `<` on strings, byte by byte.
unfoldable pub text_lt : Text → Text → Bool
text_lt s [] = false
text_lt [] (b ∷ t) = true
text_lt (a ∷ s) (b ∷ t) = let rest = text_lt s t in if nat_beq a b then rest else not (leb b a)
