-- ===== src/Common/Decimal/RoundTrip.antt =====
-- A printed number scans back.
use Prim.Native.Nat.{ℕ, zero, suc, ◌+◌, ◌-◌, ◌/◌, ◌%◌, ◌^◌, ◌<◌, ◌≤◌}
use mathlib.Core.Path.{◌≡◌, refl, ◌∙◌}
use mathlib.Core.List.{[], ◌∷◌, ◌++◌}
use native.Mathlib.Omega.{arith}
use liteploy.Common.Tests.{ltb, Bool-cases}
use mathlib.Core.Logic.{inl, inr}
use liteploy.Common.Lists.{length}
use liteploy.Common.Text.{Text}
use liteploy.Common.Text.Laws.{strip_prefix-append}
use liteploy.Common.Decimal.{
  print_from, print, zeros, print_padded, scan_from, skip_space, skip_plus, scan, scan_after,
}

abbrev StartsWithDigit : Text → Type 0
StartsWithDigit [] = ⊥
StartsWithDigit (c ∷ t) = (48 ≤ c) × (c ≤ 57)

print_from-StartsWithDigit :
    (fuel n : ℕ) (out : Text) → n < fuel → StartsWithDigit (print_from fuel n out)
unfolding print_from
print_from-StartsWithDigit zero n out h = absurd (omega arith)
print_from-StartsWithDigit (suc fuel) n out h = elim (Bool-cases (ltb n 10)) [
  | inl e ↦ rw e (ground arith)
  | inr e ↦ rw e (print_from-StartsWithDigit fuel (n / 10) ((b'0' + n % 10) ∷ out) (ground arith))
]

zeros-StartsWithDigit : (k : ℕ) (t : Text) → StartsWithDigit t → StartsWithDigit (zeros k t)
unfolding zeros
zeros-StartsWithDigit zero t h = h
zeros-StartsWithDigit (suc k) t h = omega arith

scan_from-print_from :
    (fuel n : ℕ) (out : Text) → n < fuel → scan_from 0 (print_from fuel n out) ≡ scan_from n out
unfolding print_from scan_from
scan_from-print_from zero n out h = absurd (omega arith)
scan_from-print_from (suc fuel) n out h = elim (Bool-cases (ltb n 10)) [
  | inl e ↦ rw e (ground arith)
  | inr e ↦
      rw e (
        scan_from-print_from fuel (n / 10) ((b'0' + n % 10) ∷ out) (ground arith)
        ∙ scan_digit n out)
]
  where
    scan_digit : (n : ℕ) (out : Text) → scan_from (n / 10) ((b'0' + n % 10) ∷ out) ≡ scan_from n out
    scan_digit n out = ground arith

scan_from-zeros : (k : ℕ) (t : Text) → scan_from 0 (zeros k t) ≡ scan_from 0 t
unfolding scan_from zeros
scan_from-zeros zero t = refl
scan_from-zeros (suc k) t = ground (arith, scan_from-zeros k t)

skip_of_StartsWithDigit : (t : Text) → StartsWithDigit t → skip_plus (skip_space t) ≡ t
unfolding skip_plus skip_space
skip_of_StartsWithDigit [] h = absurd h
skip_of_StartsWithDigit (c ∷ t) h = ground arith

-- Whatever the width, a padded number below 2 ^ 63 scans back to itself.
pub scan-print_padded : (width n : ℕ) → n < 2 ^ 63 → scan (print_padded width n) ≡ n
unfolding scan print_padded
scan-print_padded width n h =
    rw
      (
        skip_of_StartsWithDigit _ (
            zeros-StartsWithDigit (width - length (print n)) _
              (print_from-StartsWithDigit (suc n) n [] (omega arith))),
        scan_from-zeros,
        scan_from-print_from (suc n) n [] (omega arith),
      )
      (ground arith)

pub scan_after-append : (prefix t : Text) → scan_after prefix (prefix ++ t) ≡ scan t
unfolding scan_after
scan_after-append prefix t = rw (strip_prefix-append prefix t, scan_after)
