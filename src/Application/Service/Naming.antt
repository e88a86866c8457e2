-- ===== src/Application/Service/Naming.antt =====
-- `Create` and `Update` keep the names of a project apart.
use mathlib.Core.Path.{subst}
use liteploy.Common.{
  ℕ, ◌≡◌, ◌≢◌, refl, ap, sym, ◌∙◌, ◌⊎◌, inl, inr, Bool, true, false, ◌&&◌, not, Option, none, some,
  ◌==◌, is_empty, any, arith, Bool-cases, Option-cases,
}
use liteploy.Common.Text.{Text, text_eq, text_beq_iff}
use liteploy.Common.Table.{Table, get, put, values}
use liteploy.Storage.{Disk, StoreError}
use liteploy.Application.Types.{Application, created, managed_labels}
use liteploy.Application.Validation.{validate}
use liteploy.Application.Service.{
  Service, same_name, equal_fold, other_with_name, with_labels, save, save_over, relabelled,
  persist, create, update,
}
use liteploy.Application.Service.Names.{
  clash, IsNamed, both, join_both, clash_sym, none_of_any, true_is_false, put-IsNamed,
}

-- What `Create` and `Update` make of the table: nothing, other labels of the record under the id that
-- was given, or one record more under that id.
abbrev Puts : Application → Service → Service → (Application → Bool) → Type 0
Puts raw s s' test =
    (s'.apps ≡ s.apps)
    ⊎ ((raw' old : Application) × (get s.apps raw.id ≡ some old)
        × (s'.apps ≡ put s.apps raw.id (relabelled raw' old)))
    ⊎ ((new : Application) × (s'.apps ≡ put s.apps new.id new)
        × (new.id ≡ raw.id)
        × (new.project_id ≡ raw.project_id)
        × (new.name ≡ raw.name)
        × (not (is_empty raw.project_id) && any test (values s.apps) ≡ false))

saved_apps :
    (s : Service) (new : Application) (p : Service × Option StoreError)
    → p.0.apps ≡ s.apps
    → ((save new p).0.apps ≡ s.apps) ⊎ ((save new p).0.apps ≡ put s.apps new.id new)
unfolding save
saved_apps s new (s', some e) h = inl h
saved_apps s new (s', none) h = inr (ap (λ t. put t new.id new) h)

saved_over_apps :
    (s : Service) (new old : Application) (p : Service × Option StoreError)
    → p.0.apps ≡ s.apps
    → ((save_over new old p).0.apps ≡ put s.apps new.id (relabelled new old))
      ⊎ ((save_over new old p).0.apps ≡ put s.apps new.id new)
unfolding save_over
saved_over_apps s new old (s', some e) h = inl (ap (λ t. put t new.id (relabelled new old)) h)
saved_over_apps s new old (s', none) h = inr (ap (λ t. put t new.id new) h)

persist_apps :
    (disk : Disk) (app : Application) (s : Service) → (persist disk app s).0.apps ≡ s.apps
unfolding persist
persist_apps disk app s = refl

module _ (disk : Disk) (now : ℕ) (raw : Application) (s : Service) where
  abbrev app : Application
  app = (validate raw).0

  create-Puts : Puts raw s (create disk now raw s).0 (λ other. same_name other app)
  unfolding create validate
  create-Puts = elim (Bool-cases (not (is_empty (validate raw).1))) [
    | inl e ↦ inl (rw (e, create) refl)
    | inr e ↦ elim (Option-cases (get s.apps raw.id)) [
      | inr (old, q) ↦ inl (rw (e, q, create) refl)
      | inl q ↦
          elim (Bool-cases
            (not (is_empty raw.project_id) && any (λ other. same_name other app) (values s.apps))) [
              | inl n ↦ inl (rw (e, q, n, create) refl)
              | inr n ↦
                  let done : create disk now raw s ≡ save made (persist disk made s) =
                    rw (e, q, n, create) refl in
                  elim (saved_apps s made (persist disk made s) (persist_apps disk made s)) [
                    | inl same ↦ inl (ap (λ p. p.0.apps) done ∙ same)
                    | inr more ↦
                        inr (inr (made, ap (λ p. p.0.apps) done ∙ more, refl, refl, refl, n))
                  ]
            ]
    ]
  ]
    where
      made : Application
      made = record app {
        created_at = now;
        updated_at = now;
        status = created;
        labels = with_labels (managed_labels app) app.labels;
      }

  update-Puts : Puts raw s (update disk now raw s).0 (other_with_name app)
  unfolding update validate
  update-Puts = elim (Bool-cases (not (is_empty (validate raw).1))) [
    | inl e ↦ inl (rw (e, update) refl)
    | inr e ↦ elim (Option-cases (get s.apps raw.id)) [
      | inl q ↦ inl (rw (e, q, update) refl)
      | inr (old, q) ↦
          elim (Bool-cases
            (not (is_empty raw.project_id) && any (other_with_name app) (values s.apps))) [
              | inl n ↦ inl (rw (e, q, n, update) refl)
              | inr n ↦
                  let done : update disk now raw s
                      ≡ save_over (kept old) old (persist disk (kept old) s) =
                    rw (e, q, n, update) refl in
                  elim (saved_over_apps s (kept old) old (persist disk (kept old) s)
                    (persist_apps disk (kept old) s)) [
                      | inl marked ↦ inr (inl (kept old, old, q, ap (λ p. p.0.apps) done ∙ marked))
                      | inr more ↦
                          inr (inr (kept old, ap (λ p. p.0.apps) done ∙ more, refl, refl, refl, n))
                    ]
            ]
    ]
  ]
    where
      kept : Application → Application
      kept old = record app {
        created_at = old.created_at;
        updated_at = now;
        labels = with_labels (managed_labels app) app.labels;
      }

clash_as :
    (b new raw : Application)
    → new.project_id ≡ raw.project_id
    → new.name ≡ raw.name
    → clash b new ≡ clash b raw
clash_as b new raw p n =
    ap (λ x. not (is_empty b.project_id) && (b.project_id == x && equal_fold b.name new.name)) p
    ∙ ap
        (λ x.
          not (is_empty b.project_id) && (b.project_id == raw.project_id && equal_fold b.name x))
        n

not_any : (a b : Bool) → a ≡ true → a && b ≡ false → b ≡ false
not_any a b p q = ground arith

filled_of_clash : (b raw : Application) → clash b raw ≡ true → not (is_empty raw.project_id) ≡ true
filled_of_clash b raw c =
    (both (not (is_empty raw.project_id)) (same_name raw b) (clash_sym b raw c)).0

relabelled-IsNamed :
    (raw : Application) (id : Text) (old : Application) (t : Table Application)
    → IsNamed t
    → get t id ≡ some old
    → IsNamed (put t id (relabelled raw old))
unfolding relabelled
relabelled-IsNamed raw id old t named there =
    put-IsNamed t id (relabelled raw old) named (named.keyed id old there) free
  where
    free :
        (k : Text) (b : Application)
        → get t k ≡ some b
        → id ≢ k
        → clash b (relabelled raw old) ≡ false
    free k b here other = elim (Bool-cases (clash b old)) [
      | inl c ↦ absurd (other (sym (named.unique k id b old here there c)))
      | inr c ↦ c
    ]

Puts-IsNamed :
    (raw : Application) (s s' : Service) (test : Application → Bool)
    → IsNamed s.apps
    → Puts raw s s' test
    → ((k : Text) (b : Application)
        → get s.apps k ≡ some b
        → raw.id ≢ k
        → clash b raw ≡ true
        → test b ≡ true)
    → IsNamed s'.apps
Puts-IsNamed raw s s' test named (inl same) catches = subst IsNamed (sym same) named
Puts-IsNamed raw s s' test named (inr (inl (raw', old, there, more))) catches =
    subst IsNamed (sym more) (relabelled-IsNamed raw' raw.id old s.apps named there)
Puts-IsNamed raw s s' test named (inr (inr (new, more, at, project, name, guard))) catches =
    subst IsNamed (sym more) (put-IsNamed s.apps new.id new named refl free)
  where
    free : (k : Text) (b : Application) → get s.apps k ≡ some b → new.id ≢ k → clash b new ≡ false
    free k b there other = elim (Bool-cases (clash b raw)) [
      | inr c ↦ clash_as b new raw project name ∙ c
      | inl c ↦ absurd (
          true_is_false (test b) (catches k b there (λ q. other (at ∙ q)) c) (
            none_of_any test s.apps k b
              (not_any (not (is_empty raw.project_id)) (any test (values s.apps))
                (filled_of_clash b raw c) guard)
              there))
    ]

-- As long as each application stands under its id and no two of one project have one name, in any
-- case, that stays so over a creation and over an update, whether they succeed or not.
pub create_update-IsNamed :
    (disk : Disk) (now : ℕ) (raw : Application) (s : Service)
    → IsNamed s.apps
    → IsNamed (create disk now raw s).0.apps × IsNamed (update disk now raw s).0.apps
unfolding validate
create_update-IsNamed disk now raw s named = (
  Puts-IsNamed raw s (create disk now raw s).0 (λ other. same_name other (validate raw).0) named
      (create-Puts disk now raw s)
      (λ k b there other c. (both (not (is_empty b.project_id)) (same_name b raw) c).1),
  Puts-IsNamed raw s (update disk now raw s).0 (other_with_name (validate raw).0) named
      (update-Puts disk now raw s)
      (λ k b there other c.
        join_both (not (b.id == raw.id)) (same_name b raw) (differs k b there other)
          (both (not (is_empty b.project_id)) (same_name b raw) c).1),
)
  where
    differs :
        (k : Text) (b : Application)
        → get s.apps k ≡ some b
        → raw.id ≢ k
        → not (b.id == raw.id) ≡ true
    differs k b there other = elim (Bool-cases (b.id == raw.id)) [
      | inl e ↦ absurd (other (sym ((text_beq_iff b.id raw.id).0 e) ∙ named.keyed k b there))
      | inr e ↦ ap not e
    ]
