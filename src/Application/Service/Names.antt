-- ===== src/Application/Service/Names.antt =====
-- The names of the applications of one project stay apart.
use mathlib.Core.Path.{subst}
use liteploy.Common.{
  ◌≡◌, ◌≢◌, refl, ap, sym, ◌∙◌, inl, inr, Bool, true, false, ◌&&◌, ◌||◌, not, some, [], ◌∷◌, ◌==◌,
  is_empty, any, arith, Bool-cases,
}
use liteploy.Common.Text.{Text, text_eq, text_beq_iff, to_lower}
use liteploy.Common.Table.{Table, get, put, values}
use liteploy.Application.Types.{Application}
use liteploy.Application.Service.{same_name, equal_fold}
use liteploy.Application.Service.Statuses.{put_at}

-- Two applications of one project with one name, in any case.
abbrev pub clash : Application → Application → Bool
clash a b = not (is_empty a.project_id) && same_name a b

-- Each application stands under its id, and no two clash.
pub record IsNamed (t : Table Application) : Type 0 where
  pub keyed : (k : Text) (a : Application) → get t k ≡ some a → a.id ≡ k
  pub unique :
      (j k : Text) (a b : Application)
      → get t j ≡ some a
      → get t k ≡ some b
      → clash a b ≡ true
      → j ≡ k

pub both : (a b : Bool) → a && b ≡ true → (a ≡ true) × (b ≡ true)
both true true h = (refl, refl)
both true false h = cc
both false b h = cc

pub join_both : (a b : Bool) → a ≡ true → b ≡ true → a && b ≡ true
join_both a b p q = ground arith

pub clash_sym : (a b : Application) → clash a b ≡ true → clash b a ≡ true
clash_sym a b h =
    let (filled, same) = both (not (is_empty a.project_id)) (same_name a b) h in
    let (project, name) = both (a.project_id == b.project_id) (equal_fold a.name b.name) same in
    let p : a.project_id ≡ b.project_id = (text_beq_iff a.project_id b.project_id).0 project in
    let n : to_lower a.name ≡ to_lower b.name =
      (text_beq_iff (to_lower a.name) (to_lower b.name)).0 name in
    join_both (not (is_empty b.project_id)) (same_name b a)
      (sym (ap (λ t. not (is_empty t)) p) ∙ filled)
      (join_both (b.project_id == a.project_id) (equal_fold b.name a.name)
        ((text_beq_iff b.project_id a.project_id).1 (sym p))
        ((text_beq_iff (to_lower b.name) (to_lower a.name)).1 (sym n)))

pub none_of_any :
    (p : Application → Bool) (t : Table Application) (k : Text) (b : Application)
    → any p (values t) ≡ false
    → get t k ≡ some b
    → p b ≡ false
unfolding get
none_of_any p [] k b h e = cc
none_of_any p ((j, v) ∷ t) k b h e = elim (Bool-cases (j == k)) [
  | inl q ↦ subst (λ x. p x ≡ false) (same (sym (rw (q, get) refl) ∙ e)) (first (p v) h)
  | inr q ↦ none_of_any p t k b (rest (p v) h) (sym (rw (q, get) refl) ∙ e)
]
  where
    same : some v ≡ some b → v ≡ b
    same x = cc

    first : (c : Bool) → c || any p (values t) ≡ false → c ≡ false
    first true x = cc
    first false x = refl

    rest : (c : Bool) → c || any p (values t) ≡ false → any p (values t) ≡ false
    rest true x = cc
    rest false x = x

pub true_is_false : (b : Bool) → b ≡ true → b ≡ false → ⊥
true_is_false b p q = differ (sym p ∙ q)
  where
    differ : ¬ (true ≡ false)
    differ x = cc

-- A record that clashes with no other one may be stored.
pub put-IsNamed :
    (t : Table Application) (id : Text) (new : Application)
    → IsNamed t
    → new.id ≡ id
    → ((k : Text) (b : Application) → get t k ≡ some b → id ≢ k → clash b new ≡ false)
    → IsNamed (put t id new)
put-IsNamed t id new named at free = record {
  keyed = λ k a h. elim (put_at t id k new a h) [
    | inl (other, there) ↦ named.keyed k a there
    | inr (same, e) ↦ sym (ap (λ x. x.id) e) ∙ at ∙ same
  ];
  unique = λ j k a b hj hk c. elim (put_at t id j new a hj) [
    | inl (other, there) ↦ elim (put_at t id k new b hk) [
      | inl (other', there') ↦ named.unique j k a b there there' c
      | inr (same', e') ↦
          absurd (true_is_false (clash a new) (ap (λ x. clash a x) e' ∙ c) (free j a there other))
    ]
    | inr (same, e) ↦ elim (put_at t id k new b hk) [
      | inl (other', there') ↦ absurd (
          true_is_false (clash b new) (clash_sym new b (ap (λ x. clash x b) e ∙ c))
            (free k b there' other'))
      | inr (same', e') ↦ sym same ∙ same'
    ]
  ];
}

-- One application alone, as it is put into an empty table.
pub one-IsNamed : (a : Application) → IsNamed (put [] a.id a)
unfolding get
one-IsNamed a = put-IsNamed [] a.id a empty refl (λ k b e other. cc)
  where
    empty : IsNamed []
    empty = record { keyed = λ k b e. cc; unique = λ j k b c e e' h. cc }
