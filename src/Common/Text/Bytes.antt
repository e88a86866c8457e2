-- ===== src/Common/Text/Bytes.antt =====
-- What holds of every byte of a text holds of the texts that are cut out of it.
use Prim.Native.Nat.{ℕ}
use mathlib.Core.Path.{◌≡◌, refl, ap, ◌∙◌}
use mathlib.Core.Logic.{inl, inr}
use mathlib.Core.Bool.{Bool, false}
use mathlib.Core.List.{List, [], ◌∷◌, reverse, reverse-cons}
use native.Mathlib.Omega.{arith}
use liteploy.Common.Tests.{Bool-cases, nat_beq}
use liteploy.Common.Lists.{All, All-append}
use liteploy.Common.Text.{
  Text, drop_while, drop_last_while, trim_space, is_space, to_lower, lower_byte, before, split,
  grow, first_part, includes, has_prefix, strip_prefix,
}

module _ (P : ℕ → Type 0) where
  All-reverse : (t : Text) → All P t → All P (reverse t)
  All-reverse [] h = tt
  All-reverse (c ∷ t) h =
      rw (reverse-cons c t) (All-append P (reverse t) (c ∷ []) (All-reverse t h.1) (h.0, tt))

  pub All-drop_while : (p : ℕ → Bool) (t : Text) → All P t → All P (drop_while p t)
  unfolding drop_while
  All-drop_while p [] h = h
  All-drop_while p (c ∷ t) h = elim (Bool-cases (p c)) [
    | inl e ↦ rw e (All-drop_while p t h.1)
    | inr e ↦ rw e h
  ]

  pub All-drop_last_while : (p : ℕ → Bool) (t : Text) → All P t → All P (drop_last_while p t)
  unfolding drop_last_while
  All-drop_last_while p t h = All-reverse _ (All-drop_while p (reverse t) (All-reverse t h))

  pub All-trim_space : (t : Text) → All P t → All P (trim_space t)
  unfolding trim_space
  All-trim_space t h = All-drop_last_while is_space _ (All-drop_while is_space t h)

  pub All-to_lower : (t : Text) → ((c : ℕ) → P c → P (lower_byte c)) → All P t → All P (to_lower t)
  unfolding to_lower
  All-to_lower [] keep h = h
  All-to_lower (c ∷ t) keep h = (keep c h.0, All-to_lower t keep h.1)

abbrev pub IsFree : ℕ → Text → Type 0
IsFree c = All (λ d. nat_beq d c ≡ false)

-- The text before the first `c` has no `c`.
pub before-IsFree : (c : ℕ) (t : Text) → IsFree c (before c t)
unfolding before
before-IsFree c [] = tt
before-IsFree c (d ∷ t) = elim (Bool-cases (nat_beq d c)) [
  | inl e ↦ rw e tt
  | inr e ↦ rw e (e, before-IsFree c t)
]

pub includes-IsFree : (c : ℕ) (t : Text) → includes t (c ∷ []) ≡ false → IsFree c t
unfolding includes has_prefix strip_prefix
includes-IsFree c [] h = tt
includes-IsFree c (d ∷ t) h = ground (arith, includes-IsFree c t)

-- The first part is what stands before the first separator.
pub first_part-split : (c : ℕ) (t : Text) → first_part (split c t) ≡ before c t
unfolding split first_part before
first_part-split c [] = refl
first_part-split c (d ∷ t) = elim (Bool-cases (nat_beq d c)) [
  | inl e ↦ rw e refl
  | inr e ↦ rw e (first_part-grow d (split c t) ∙ ap (λ s. d ∷ s) (first_part-split c t))
]
  where
    first_part-grow : (d : ℕ) (parts : List Text) → first_part (grow d parts) ≡ d ∷ first_part parts
    first_part-grow d [] = refl
    first_part-grow d (s ∷ r) = refl

pub All-before : (P : ℕ → Type 0) (c : ℕ) (t : Text) → All P t → All P (before c t)
unfolding before
All-before P c [] h = tt
All-before P c (d ∷ t) h = elim (Bool-cases (nat_beq d c)) [
  | inl e ↦ rw e tt
  | inr e ↦ rw e (h.0, All-before P c t h.1)
]

pub to_lower-lower : (t : Text) → All (λ c. lower_byte c ≡ c) (to_lower t)
unfolding to_lower
to_lower-lower [] = tt
to_lower-lower (c ∷ t) = (ground arith, to_lower-lower t)
