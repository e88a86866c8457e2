-- ===== src/Git/Masking.antt =====
-- What the mask of the progress output hides, and what it does not.
use liteploy.Common.{
  ℕ, suc, zero, ◌-◌, ◌<◌, ◌≡◌, refl, ap, sym, ◌∙◌, inl, inr, true, false, [], ◌∷◌, ◌++◌, nat_beq,
  if◌then◌else◌, is_empty, length, length-append, arith, Bool-cases,
}
use liteploy.Common.Text.{Text, codes, has_prefix, strip_prefix, includes}
use liteploy.Common.Text.Bytes.{IsFree}
use liteploy.Git.{replace_from, mask, mask_write}

prefix_cons :
    (c d : ℕ) (t u : Text)
    → has_prefix (c ∷ t) (d ∷ u) ≡ (if nat_beq d c then has_prefix t u else false)
unfolding has_prefix strip_prefix
prefix_cons c d t u = elim (Bool-cases (nat_beq d c)) [
  | inl e ↦ rw (e, strip_prefix) refl
  | inr e ↦ rw (e, strip_prefix) refl
]

differ : ¬ (false ≡ true)
differ q = cc

same_heads :
    (c d : ℕ) (t u : Text)
    → has_prefix (c ∷ t) (d ∷ u) ≡ true
    → (nat_beq d c ≡ true) × (has_prefix t u ≡ true)
same_heads c d t u h = elim (Bool-cases (nat_beq d c)) [
  | inl e ↦
      (e, sym (ap (λ b. if b then has_prefix t u else false) e) ∙ sym (prefix_cons c d t u) ∙ h)
  | inr e ↦
      absurd
        (differ (sym (prefix_cons c d t u ∙ ap (λ b. if b then has_prefix t u else false) e) ∙ h))
]

no_star : (x u : Text) → IsFree b'*' u → is_empty u ≡ false → has_prefix (b'*' ∷ x) u ≡ false
no_star x [] free h = cc
no_star x (d ∷ u) free h =
    prefix_cons b'*' d x u ∙ ap (λ b. if b then has_prefix x u else false) free.0

stars : (x u : Text) → IsFree b'*' u → is_empty u ≡ false → includes (mask ++ x) u ≡ includes x u
unfolding includes
stars x u free h =
    rw
      (
        no_star (codes "*****" ++ x) u free h,
        no_star (codes "****" ++ x) u free h,
        no_star (codes "***" ++ x) u free h,
        no_star (codes "**" ++ x) u free h,
        no_star (codes "*" ++ x) u free h,
        no_star x u free h,
      )
      refl

has_prefix-nil : (x : Text) → has_prefix x [] ≡ true
unfolding has_prefix strip_prefix
has_prefix-nil x = refl

has_prefix-empty : (u : Text) → is_empty u ≡ false → has_prefix [] u ≡ false
unfolding has_prefix strip_prefix
has_prefix-empty [] h = cc
has_prefix-empty (d ∷ u) h = refl

too_short : (t u : Text) → length t < length u → has_prefix t u ≡ false
unfolding has_prefix strip_prefix
too_short t [] h = ground arith
too_short [] (d ∷ u) h = refl
too_short (c ∷ t) (d ∷ u) h = elim (Bool-cases (nat_beq d c)) [
  | inl e ↦
      prefix_cons c d t u
      ∙ ap (λ b. if b then has_prefix t u else false) e
      ∙ too_short t u (omega (arith, h))
  | inr e ↦ prefix_cons c d t u ∙ ap (λ b. if b then has_prefix t u else false) e
]

includes_cons :
    (c : ℕ) (t u : Text)
    → has_prefix (c ∷ t) u ≡ false
    → includes t u ≡ false
    → includes (c ∷ t) u ≡ false
unfolding includes
includes_cons c t u e h = rw (e, h) refl

module _ (old : Text) where
  replace_match :
      (c : ℕ) (t : Text)
      → has_prefix (c ∷ t) old ≡ true
      → replace_from 0 old mask (c ∷ t) ≡ mask ++ replace_from (length old - 1) old mask t
  unfolding replace_from
  replace_match c t e = rw (e, replace_from) refl

  replace_keep :
      (c : ℕ) (t : Text)
      → has_prefix (c ∷ t) old ≡ false
      → replace_from 0 old mask (c ∷ t) ≡ c ∷ replace_from 0 old mask t
  unfolding replace_from
  replace_keep c t e = rw (e, replace_from) refl

  -- A text without '*' in front of the output stands in front of the input.
  prefix_of_output :
      (u t : Text)
      → IsFree b'*' u
      → has_prefix (replace_from 0 old mask t) u ≡ true
      → has_prefix t u ≡ true
  unfolding replace_from
  prefix_of_output [] t free h = has_prefix-nil t
  prefix_of_output (d ∷ u) [] free h = h
  prefix_of_output (d ∷ u) (c ∷ t) free h = elim (Bool-cases (has_prefix (c ∷ t) old)) [
    | inl e ↦ absurd (
        differ (
          sym
            (no_star (codes "*****" ++ replace_from (length old - 1) old mask t) (d ∷ u) free refl)
          ∙ sym (ap (λ x. has_prefix x (d ∷ u)) (replace_match c t e))
          ∙ h))
    | inr e ↦
        let (same, rest) =
          same_heads c d (replace_from 0 old mask t) u
            (sym (ap (λ x. has_prefix x (d ∷ u)) (replace_keep c t e)) ∙ h) in
        prefix_cons c d t u
        ∙ ap (λ b. if b then has_prefix t u else false) same
        ∙ prefix_of_output u t free.1 rest
  ]

  hidden_from :
      (skip : ℕ) (t : Text)
      → IsFree b'*' old
      → is_empty old ≡ false
      → includes (replace_from skip old mask t) old ≡ false
  unfolding replace_from includes
  hidden_from skip [] free h = has_prefix-empty old h
  hidden_from (suc skip) (c ∷ t) free h = hidden_from skip t free h
  hidden_from zero (c ∷ t) free h = elim (Bool-cases (has_prefix (c ∷ t) old)) [
    | inl e ↦
        ap (λ x. includes x old) (replace_match c t e)
        ∙ stars (replace_from (length old - 1) old mask t) old free h
        ∙ hidden_from (length old - 1) t free h
    | inr e ↦
        ap (λ x. includes x old) (replace_keep c t e)
        ∙ includes_cons c (replace_from 0 old mask t) old (kept e) (hidden_from 0 t free h)
  ]
    where
      kept : has_prefix (c ∷ t) old ≡ false → has_prefix (c ∷ replace_from 0 old mask t) old ≡ false
      kept e = elim (Bool-cases (has_prefix (c ∷ replace_from 0 old mask t) old)) [
        | inr k ↦ k
        | inl k ↦ absurd (
            differ (
              sym e
              ∙ prefix_of_output old (c ∷ t) free
                  (ap (λ x. has_prefix x old) (replace_keep c t e) ∙ k)))
      ]

-- One write of the mask writer shows no secret, given a secret without '*'.
pub mask_write-hides :
    (secret t : Text)
    → is_empty secret ≡ false
    → IsFree b'*' secret
    → includes (mask_write secret t) secret ≡ false
unfolding mask_write
mask_write-hides secret t h free = rw (h, mask_write) (hidden_from secret 0 t free h)

short_keeps : (old t : Text) → length t < length old → replace_from 0 old mask t ≡ t
unfolding replace_from
short_keeps old [] h = refl
short_keeps old (c ∷ t) h =
    replace_keep old c t (too_short (c ∷ t) old h)
    ∙ ap (λ x. c ∷ x) (short_keeps old t (omega (arith, h)))

-- A secret that comes in two writes is shown: each part is shorter than the secret, and is handed on
-- as it is.
pub mask_write-split :
    (first second : Text)
    → is_empty first ≡ false
    → is_empty second ≡ false
    → mask_write (first ++ second) first ++ mask_write (first ++ second) second ≡ first ++ second
unfolding mask_write
mask_write-split first second h k =
    let whole : is_empty (first ++ second) ≡ false = filled first h in
    let a : mask_write (first ++ second) first ≡ first =
      rw (whole, mask_write) (short_keeps (first ++ second) first (longer_first second k)) in
    let b : mask_write (first ++ second) second ≡ second =
      rw (whole, mask_write) (short_keeps (first ++ second) second (longer_second first h)) in
    rw (a, b) refl
  where
    filled : (x : Text) → is_empty x ≡ false → is_empty (x ++ second) ≡ false
    filled [] q = cc
    filled (c ∷ x) q = refl

    longer_first : (y : Text) → is_empty y ≡ false → length first < length (first ++ y)
    longer_first [] q = cc
    longer_first (c ∷ y) q = omega (arith, length-append first (c ∷ y))

    longer_second : (x : Text) → is_empty x ≡ false → length second < length (x ++ second)
    longer_second [] q = cc
    longer_second (c ∷ x) q = omega (arith, length-append x second)
