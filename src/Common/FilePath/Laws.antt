-- ===== src/Common/FilePath/Laws.antt =====
-- Cleaning a path whose last part has no `..`.
use Prim.Native.Nat.{ℕ}
use mathlib.Core.Path.{◌≡◌, refl, sym, ap, ◌∙◌}
use mathlib.Core.Logic.{◌≢◌, inl, inr}
use mathlib.Core.Bool.{Bool, true, false, ◌||◌}
use mathlib.Core.List.{
  List, [], ◌∷◌, ◌++◌, reverse, reverse-cons, reverse-reverse, append_assoc, append-nil,
}
use native.Mathlib.Omega.{arith}
use liteploy.Common.Tests.{Bool-cases, ◌==◌, nat_beq, nat_beq_iff, if◌then◌else◌}
use liteploy.Common.Lists.{All, is_empty, keep_if}
use liteploy.Common.Text.{
  Text, text_eq, text_beq, text_beq_iff, split, grow, first_part, before, includes, has_prefix,
  strip_prefix,
}
use liteploy.Common.Text.Bytes.{first_part-split}
use liteploy.Common.FilePath.{dot, dot_dot, push_part, resolve}

grow-append : (d : ℕ) (xs ys : List Text) → xs ≢ [] → grow d (xs ++ ys) ≡ grow d xs ++ ys
unfolding grow
grow-append d [] ys h = absurd (h refl)
grow-append d (x ∷ xs) ys h = refl

grow-ne-nil : (d : ℕ) (xs : List Text) → grow d xs ≢ []
unfolding grow
grow-ne-nil d [] h = cc
grow-ne-nil d (x ∷ xs) h = cc

split-ne-nil : (c : ℕ) (t : Text) → split c t ≢ []
unfolding split
split-ne-nil c [] = λ h. cc
split-ne-nil c (d ∷ t) = elim (Bool-cases (nat_beq d c)) [
  | inl e ↦ rw e (λ h. cc)
  | inr e ↦ rw e (grow-ne-nil d (split c t))
]

-- Splitting at a separator splits both sides.
pub split-append : (c : ℕ) (a b : Text) → split c (a ++ c ∷ b) ≡ split c a ++ split c b
unfolding split
split-append c [] b = rw ((nat_beq_iff c c).1 refl) refl
split-append c (d ∷ a) b = elim (Bool-cases (nat_beq d c)) [
  | inl e ↦ rw e (ap (λ r. [] ∷ r) (split-append c a b))
  | inr e ↦
      rw e (
        ap (grow d) (split-append c a b) ∙ grow-append d (split c a) (split c b) (split-ne-nil c a))
]

prefix_before :
    (c d : ℕ) (t : Text)
    → has_prefix (d ∷ t) dot_dot ≡ false
    → has_prefix (d ∷ before c t) dot_dot ≡ false
unfolding before has_prefix strip_prefix
prefix_before c d [] h = h
prefix_before c d (e ∷ t) h = ground arith

abbrev HasNoDots : Text → Type 0
HasNoDots p = includes p dot_dot ≡ false

grow-HasNoDots :
    (d : ℕ) (parts : List Text)
    → has_prefix (d ∷ first_part parts) dot_dot ≡ false
    → All HasNoDots parts
    → All HasNoDots (grow d parts)
unfolding grow includes first_part strip_prefix
grow-HasNoDots d [] h hs = (rw h refl, tt)
grow-HasNoDots d (p ∷ ps) h hs = (rw h hs.0, hs.1)

no_dots_in_nil : HasNoDots []
unfolding includes strip_prefix
no_dots_in_nil = refl

split-HasNoDots : (c : ℕ) (t : Text) → HasNoDots t → All HasNoDots (split c t)
unfolding split includes
split-HasNoDots c [] h = (h, tt)
split-HasNoDots c (d ∷ t) h = elim (Bool-cases (nat_beq d c)) [
  | inl e ↦ rw e (no_dots_in_nil, split-HasNoDots c t (ground arith))
  | inr e ↦ rw e (
      grow-HasNoDots d (split c t) (rw (first_part-split c t) (prefix_before c d t (ground arith)))
        (split-HasNoDots c t (ground arith)))
]

-- The components that cleaning keeps where there is no `..`.
abbrev pub is_name : Text → Bool
is_name p = if is_empty p || p == dot then false else true

dot_dot-includes : includes dot_dot dot_dot ≡ true
unfolding includes strip_prefix
dot_dot-includes = refl

not_dot_dot : (p : Text) → HasNoDots p → text_beq p dot_dot ≡ false
not_dot_dot p h = elim (Bool-cases (text_beq p dot_dot)) [
  | inl e ↦ cc ((text_beq_iff p dot_dot).0 e, dot_dot-includes)
  | inr e ↦ e
]

push_part_no_dots :
    (rooted : Bool) (stack : List Text) (p : Text)
    → HasNoDots p
    → push_part rooted stack p ≡ (if is_name p then p ∷ stack else stack)
unfolding push_part
push_part_no_dots rooted [] p h = ground (arith, not_dot_dot p h)
push_part_no_dots rooted (top ∷ stack) p h = ground (arith, not_dot_dot p h)

resolve_no_dots :
    (rooted : Bool) (stack parts : List Text)
    → All HasNoDots parts
    → resolve rooted stack parts ≡ reverse stack ++ keep_if is_name parts
unfolding resolve
resolve_no_dots rooted stack [] h = sym (append-nil _)
resolve_no_dots rooted stack (p ∷ ps) h = elim (Bool-cases (is_name p)) [
  | inl e ↦
      rw (push_part_no_dots rooted stack p h.0, e)
        (resolve_no_dots rooted (p ∷ stack) ps h.1
          ∙ ap (λ x. x ++ keep_if is_name ps) (reverse-cons p stack)
          ∙ append_assoc (reverse stack) (p ∷ []) (keep_if is_name ps))
  | inr e ↦ rw (push_part_no_dots rooted stack p h.0, e) (resolve_no_dots rooted stack ps h.1)
]

-- Components behind others: those in front are resolved first.
pub resolve-append :
    (rooted : Bool) (stack xs ys : List Text)
    → resolve rooted stack (xs ++ ys) ≡ resolve rooted (reverse (resolve rooted stack xs)) ys
unfolding resolve
resolve-append rooted stack [] ys = rw reverse-reverse
resolve-append rooted stack (x ∷ xs) ys = resolve-append rooted (push_part rooted stack x) xs ys

-- A text without `..` adds its names to the components of the directory in front of it.
pub resolve-split_no_dots :
    (rooted : Bool) (xs : List Text) (t : Text)
    → includes t dot_dot ≡ false
    → resolve rooted [] (xs ++ split b'/' t)
      ≡ resolve rooted [] xs ++ keep_if is_name (split b'/' t)
resolve-split_no_dots rooted xs t h =
    resolve-append rooted [] xs (split b'/' t)
    ∙ resolve_no_dots rooted (reverse (resolve rooted [] xs)) (split b'/' t)
        (split-HasNoDots b'/' t h)
    ∙ ap (λ x. x ++ keep_if is_name (split b'/' t)) (reverse-reverse (resolve rooted [] xs))
