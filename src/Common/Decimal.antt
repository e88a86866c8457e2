-- ===== src/Common/Decimal.antt =====
-- Numbers in decimal: `fmt.Sprintf` with `%d` and `%0wd`, and `fmt.Sscanf` with `%d`.
pub mod RoundTrip
use Prim.Native.Nat.{ℕ, zero, suc, ◌+◌, ◌-◌, ◌*◌, ◌/◌, ◌%◌, ◌^◌}
use mathlib.Core.Bool.{Bool, true, false, ◌&&◌}
use mathlib.Core.Option.{Option, none, some}
use mathlib.Core.List.{List, [], ◌∷◌, ◌++◌}
use liteploy.Common.Tests.{ltb, leb, nat_beq, if◌then◌else◌}
use liteploy.Common.Lists.{length}
use liteploy.Common.Text.{Text, is_space, codes, strip_prefix}

-- The digits of `n` before `out`; the fuel is above `n`.
print_from : ℕ → ℕ → Text → Text
print_from zero n out = out
print_from (suc fuel) n out =
    let rest = print_from fuel (n / 10) ((b'0' + n % 10) ∷ out) in
    if ltb n 10 then (b'0' + n) ∷ out else rest

-- `%d`
unfoldable pub print : ℕ → Text
unfolding print_from
print n = print_from (suc n) n []

zeros : ℕ → Text → Text
zeros zero t = t
zeros (suc n) t = b'0' ∷ zeros n t

-- `%0wd`
unfoldable pub print_padded : ℕ → ℕ → Text
unfolding zeros print
print_padded width n = zeros (width - length (print n)) (print n)

abbrev pub is_digit : ℕ → Bool
is_digit c = leb b'0' c && leb c b'9'

scan_from : ℕ → Text → ℕ
scan_from n [] = n
scan_from n (c ∷ t) = let rest = scan_from (n * 10 + (c - b'0')) t in if is_digit c then rest else n

skip_space : Text → Text
skip_space [] = []
skip_space (c ∷ t) = let rest = skip_space t in if is_space c && not_newline c then rest else c ∷ t
  where
    not_newline : ℕ → Bool
    not_newline c = if nat_beq c 10 then false else true

skip_plus : Text → Text
skip_plus [] = []
skip_plus (c ∷ t) = if nat_beq c b'+' then t else c ∷ t

-- The value that `Sscanf(t, "%d", &n)` leaves in `n`, which was 0, as far as a comparison with a
-- number that is not negative can tell: 0 stands for a failed scan and for a negative value. A
-- value past the range of `int` fails.
unfoldable pub scan : Text → ℕ
unfolding scan_from skip_space skip_plus
scan t = let n = scan_from 0 (skip_plus (skip_space t)) in if ltb n (2 ^ 63) then n else 0

-- `Sscanf(t, prefix ++ "%d", &n)`, for a prefix without spaces or verbs.
unfoldable pub scan_after : Text → Text → ℕ
unfolding scan
scan_after prefix t = elim (strip_prefix prefix t) [ none ↦ 0 | some rest ↦ scan rest ]
