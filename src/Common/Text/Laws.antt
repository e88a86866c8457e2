-- ===== src/Common/Text/Laws.antt =====
-- Laws of the functions on texts.
use Prim.Native.Nat.{ℕ}
use mathlib.Core.Path.{◌≡◌, refl, sym, ap, ◌∙◌}
use mathlib.Core.Logic.{◌⊎◌, inl, inr}
use mathlib.Core.Bool.{Bool, true, false}
use mathlib.Core.Option.{some}
use mathlib.Core.List.{[], ◌∷◌, ◌++◌, reverse, reverse-append, reverse-reverse, reverse-cons}
use native.Mathlib.Omega.{arith}
use liteploy.Common.Tests.{Bool-cases, Option-cases}
use liteploy.Common.Text.{
  Text, strip_prefix, strip_suffix, has_suffix, trim_suffix, drop_while, drop_last_while, is_space,
  trim_space,
}

pub strip_prefix-append : (p t : Text) → strip_prefix p (p ++ t) ≡ some t
unfolding strip_prefix
strip_prefix-append [] t = refl
strip_prefix-append (a ∷ p) t = ground (arith, strip_prefix-append p t)

pub append_of_strip_prefix : (p t : Text) {r : Text} → strip_prefix p t ≡ some r → t ≡ p ++ r
unfolding strip_prefix
append_of_strip_prefix [] t h = ground arith
append_of_strip_prefix (a ∷ p) [] h = ground arith
append_of_strip_prefix (a ∷ p) (b ∷ t) {r} h = ground (arith, append_of_strip_prefix p t {r = r})

pub strip_suffix-append : (t p : Text) → strip_suffix p (t ++ p) ≡ some t
unfolding strip_suffix
strip_suffix-append t p = simp (reverse-append, strip_prefix-append, reverse-reverse)

-- What `drop_while` drops stands in front, and the rest does not start with such a byte.
drop_while-suffix : (p : ℕ → Bool) (t : Text) → (s : Text) × (s ++ drop_while p t ≡ t)
unfolding drop_while
drop_while-suffix p [] = ([], refl)
drop_while-suffix p (c ∷ t) = elim (Bool-cases (p c)) [
  | inl e ↦ let (s, h) = drop_while-suffix p t in (c ∷ s, rw e (ap (λ r. c ∷ r) h))
  | inr e ↦ ([], rw e)
]

drop_while_head :
    (p : ℕ → Bool) (t : Text)
    → (drop_while p t ≡ []) ⊎ ((c : ℕ) × (r : Text) × (drop_while p t ≡ c ∷ r) × (p c ≡ false))
unfolding drop_while
drop_while_head p [] = inl refl
drop_while_head p (c ∷ t) = elim (Bool-cases (p c)) [
  | inl e ↦ rw e (drop_while_head p t)
  | inr e ↦ inr (c, t, rw e, e)
]

pub drop_last_while-prefix : (p : ℕ → Bool) (t : Text) → (s : Text) × (drop_last_while p t ++ s ≡ t)
unfolding drop_last_while
drop_last_while-prefix p t =
    let (s, h) = drop_while-suffix p (reverse t) in
    (reverse s, sym (reverse-append s _) ∙ ap reverse h ∙ reverse-reverse t)

pub drop_last_while_last :
    (p : ℕ → Bool) (t : Text)
    → (drop_last_while p t ≡ [])
      ⊎ ((r : Text) × (c : ℕ) × (drop_last_while p t ≡ r ++ c ∷ []) × (p c ≡ false))
unfolding drop_last_while
drop_last_while_last p t = elim (drop_while_head p (reverse t)) [
  | inl e ↦ inl (rw e)
  | inr (c, r, e, h) ↦ inr (reverse r, c, rw e (reverse-cons c r), h)
]

pub drop_last_while_keep :
    (p : ℕ → Bool) (t : Text) (c : ℕ) → p c ≡ false → drop_last_while p (t ++ c ∷ []) ≡ t ++ c ∷ []
unfolding drop_last_while drop_while
drop_last_while_keep p t c h =
    rw (reverse-append t (c ∷ [])) (rw h (rw (reverse-cons c (reverse t)) (rw reverse-reverse)))

-- A text that starts and ends with other bytes is trimmed already.
pub trim_space_keep :
    (c : ℕ) (t : Text) (d : ℕ)
    → is_space c ≡ false
    → is_space d ≡ false
    → trim_space (c ∷ t ++ d ∷ []) ≡ c ∷ t ++ d ∷ []
unfolding trim_space
trim_space_keep c t d hc hd = rw hc (drop_last_while_keep is_space (c ∷ t) d hd)

pub has_suffix-append : (t p : Text) → has_suffix (t ++ p) p ≡ true
unfolding has_suffix
has_suffix-append t p = rw (strip_suffix-append t p)

pub trim_suffix-append : (t p : Text) → trim_suffix (t ++ p) p ≡ t
unfolding trim_suffix
trim_suffix-append t p = rw (strip_suffix-append t p, trim_suffix)

pub append_of_has_suffix : (t p : Text) → has_suffix t p ≡ true → trim_suffix t p ++ p ≡ t
unfolding has_suffix trim_suffix strip_suffix
append_of_has_suffix t p h = elim (Option-cases (strip_prefix (reverse p) (reverse t))) [
  | inl e ↦ ground arith
  | inr (r, e) ↦
      rw (e, trim_suffix, strip_suffix)
        (sym (reverse-reverse _)
          ∙ ap reverse (
              reverse-append (reverse r) p
              ∙ ap (λ x. reverse p ++ x) (reverse-reverse r)
              ∙ sym (append_of_strip_prefix (reverse p) (reverse t) e))
          ∙ reverse-reverse t)
]
