-- ===== src/Application/Domain/Normal.antt =====
-- Normal paths: `NormalizePath` returns one and leaves it as it is.
use mathlib.Core.List.{append_assoc}
use liteploy.Common.{
  ℕ, ◌≡◌, refl, sym, ap, ◌∙◌, ◌≢◌, ◌⊎◌, inl, inr, true, false, ◌||◌, [], ◌∷◌, ◌++◌, ◌==◌, nat_eq,
  nat_beq, arith, Bool-cases, is_empty,
}
use liteploy.Common.Text.{
  Text, codes, text_eq, text_beq, text_beq_iff, trim_space, has_prefix, has_suffix, trim_suffix,
  trim_right, drop_last_while, strip_prefix,
}
use liteploy.Common.Text.Laws.{
  drop_last_while-prefix, drop_last_while_last, drop_last_while_keep, trim_space_keep,
  has_suffix-append, trim_suffix-append, append_of_has_suffix,
}
use liteploy.Application.Domain.{any_path, rooted, or_any_path, normalize_path}

-- Starts with a slash.
abbrev pub IsRooted : Text → Type 0
IsRooted t = (r : Text) × (t ≡ b'/' ∷ r)

-- "/*", or a text that starts with a slash, does not end with one, and has "/*" behind it.
abbrev pub IsNormal : Text → Type 0
IsNormal p =
    (p ≡ any_path)
    ⊎ ((q : Text) × (s : Text) × (c : ℕ) × IsRooted q
        × (q ≡ s ++ c ∷ [])
        × (nat_beq c b'/' ≡ false)
        × (p ≡ q ++ any_path))

head_of_prefix :
    (q x : Text) (b : ℕ) (r : Text) → q ++ x ≡ b ∷ r → (q ≡ []) ⊎ ((r' : Text) × (q ≡ b ∷ r'))
head_of_prefix [] x b r h = inl refl
head_of_prefix (d ∷ q) x b r h = inr (q, cc)

not-nil-snoc : (s : Text) (c : ℕ) → s ++ c ∷ [] ≢ []
not-nil-snoc [] c h = cc
not-nil-snoc (d ∷ s) c h = cc

or_any_path-snoc : (s : Text) (c : ℕ) → or_any_path (s ++ c ∷ []) ≡ (s ++ c ∷ []) ++ any_path
or_any_path-snoc [] c = refl
or_any_path-snoc (d ∷ s) c = refl

-- What is left of a rooted text, without bytes at its end, is rooted.
kept-IsRooted :
    (k x t s : Text) (c : ℕ)
    → (t ≡ []) ⊎ IsRooted t
    → k ++ x ≡ t
    → k ≡ s ++ c ∷ []
    → IsRooted (s ++ c ∷ [])
kept-IsRooted [] x t s c start h e = absurd (not-nil-snoc s c (sym e))
kept-IsRooted (b ∷ k) x t s c (inl n) h e = cc
kept-IsRooted (b ∷ k) x t s c (inr (r, er)) h e = (k, cc)

or_any_path-IsNormal :
    (t : Text) → (t ≡ []) ⊎ IsRooted t → IsNormal (or_any_path (trim_right t b'/'))
unfolding trim_right
or_any_path-IsNormal t start = elim (drop_last_while_last (λ d. nat_beq d b'/') t) [
  | inl e ↦ inl (rw e refl)
  | inr (s, c, e, h) ↦
      let (x, whole) = drop_last_while-prefix (λ d. nat_beq d b'/') t in
      inr (
        s ++ c ∷ [],
        s,
        c,
        kept-IsRooted (drop_last_while (λ d. nat_beq d b'/') t) x t s c start whole e,
        refl,
        h,
        rw e (or_any_path-snoc s c),
      )
]

rooted-IsRooted : (p : Text) → IsRooted (rooted p)
unfolding has_prefix strip_prefix
rooted-IsRooted [] = ([], refl)
rooted-IsRooted (c ∷ p) = elim (Bool-cases (nat_beq b'/' c)) [
  | inl e ↦ (p, rw e (ground arith))
  | inr e ↦ (c ∷ p, rw e refl)
]

suffix_start :
    (q : Text)
    → IsRooted q
    → has_suffix q any_path ≡ true
    → (trim_suffix q any_path ≡ []) ⊎ IsRooted (trim_suffix q any_path)
suffix_start q (r, e) h =
    head_of_prefix (trim_suffix q any_path) any_path b'/' r (append_of_has_suffix q any_path h ∙ e)

-- Every result is normal.
pub normalize_path-IsNormal : (raw : Text) → IsNormal (normalize_path raw)
unfolding normalize_path
normalize_path-IsNormal raw =
    let p : Text = trim_space raw in
    elim (Bool-cases (is_empty p || p == codes "/" || p == any_path)) [
      | inl e ↦ inl (rw e refl)
      | inr e ↦ rw e (elim (Bool-cases (has_suffix (rooted p) any_path)) [
        | inl h ↦ rw h (or_any_path-IsNormal _ (suffix_start (rooted p) (rooted-IsRooted p) h))
        | inr h ↦ rw h (or_any_path-IsNormal _ (inr (rooted-IsRooted p)))
      ])
    ]

trim_right_keep :
    (r s : Text) (c : ℕ)
    → b'/' ∷ r ≡ s ++ c ∷ []
    → nat_beq c b'/' ≡ false
    → trim_right (b'/' ∷ r) b'/' ≡ b'/' ∷ r
unfolding trim_right
trim_right_keep r s c e h =
    ap (λ t. trim_right t b'/') e ∙ drop_last_while_keep (λ d. nat_beq d b'/') s c h ∙ sym e

trim_space_pattern : (r : Text) → trim_space (b'/' ∷ r ++ any_path) ≡ b'/' ∷ r ++ any_path
trim_space_pattern r =
    rw (← append_assoc r (b'/' ∷ []) (b'*' ∷ []))
      (trim_space_keep b'/' (r ++ b'/' ∷ []) b'*' refl refl)

not_bare_slash : (r : Text) → text_beq (b'/' ∷ r ++ any_path) (codes "/") ≡ false
unfolding text_beq
not_bare_slash [] = refl
not_bare_slash (c ∷ r) = refl

rooted_of_slash : (t : Text) → rooted (b'/' ∷ t) ≡ b'/' ∷ t
unfolding has_prefix strip_prefix
rooted_of_slash t = refl

normalize_path_keep :
    (r s : Text) (c : ℕ)
    → b'/' ∷ r ≡ s ++ c ∷ []
    → nat_beq c b'/' ≡ false
    → normalize_path (b'/' ∷ r ++ any_path) ≡ b'/' ∷ r ++ any_path
unfolding normalize_path
normalize_path_keep r s c e h =
    rw (trim_space_pattern r, normalize_path, not_bare_slash r)
      (elim (Bool-cases (text_beq (b'/' ∷ r ++ any_path) any_path)) [
        | inl same ↦ rw same (sym ((text_beq_iff _ _).0 same))
        | inr other ↦
            rw
              (
                other,
                rooted_of_slash (r ++ any_path),
                has_suffix-append (b'/' ∷ r) any_path,
                trim_suffix-append (b'/' ∷ r) any_path,
                trim_right_keep r s c e h,
              )
              refl
      ])

normalize_path-any_path : normalize_path any_path ≡ any_path
unfolding normalize_path trim_space text_beq
normalize_path-any_path = refl

-- A normal path is left as it is.
pub normalize_path_of_IsNormal : (p : Text) → IsNormal p → normalize_path p ≡ p
normalize_path_of_IsNormal p (inl e) = ap normalize_path e ∙ normalize_path-any_path ∙ sym e
normalize_path_of_IsNormal p (inr (q, s, c, (r, er), es, h, ep)) =
    let e : p ≡ b'/' ∷ r ++ any_path = ep ∙ ap (λ x. x ++ any_path) er in
    ap normalize_path e ∙ normalize_path_keep r s c (sym er ∙ es) h ∙ sym e

-- Whatever the path, normalising it a second time changes nothing.
pub normalize_path_idempotent :
    (raw : Text) → normalize_path (normalize_path raw) ≡ normalize_path raw
normalize_path_idempotent raw =
    normalize_path_of_IsNormal (normalize_path raw) (normalize_path-IsNormal raw)
