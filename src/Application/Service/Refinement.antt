-- ===== src/Application/Service/Refinement.antt =====
-- The service as a map from ids to applications: what each operation promises, and that it keeps it.
use liteploy.Common.{
  ℕ, ◌≡◌, ◌≢◌, refl, ap, ◌∙◌, ◌⊎◌, inl, inr, Bool, true, false, not, Option, none, some, ◌==◌,
  if◌then◌else◌, is_empty, arith,
}
use liteploy.Common.Text.{Text, text_eq}
use liteploy.Common.Table.{get, put}
use liteploy.Common.Table.Laws.{get-put}
use liteploy.Storage.{Disk, StoreError}
use liteploy.Application.Types.{Application, Status, created, managed_labels}
use liteploy.Application.Validation.{validate}
use liteploy.Application.Service.{
  Service, relabelled, ServiceError, invalid, already_exists, not_found, name_taken, not_removed,
  not_persisted, delete_failed, with_labels, save, create, update, update_status, remove,
}

-- What the callers see of the service.
abbrev pub View : Type 0
View = Text → Option Application

abbrev pub view : Service → View
view s k = get s.apps k

abbrev pub Same : View → View → Type 0
Same v v' = (k : Text) → v' k ≡ v k

abbrev pub Sets : Text → Option Application → View → View → Type 0
Sets id new v v' = (k : Text) → v' k ≡ (if id == k then new else v k)

pub data Operation : Type 0 where
  creates updates : Application → Operation
  marks : Text → Status → Text → Operation
  removes : Text → Operation

unfoldable pub perform : Disk → ℕ → Bool → Operation → Service → Service × Option ServiceError
perform disk now removed (creates app) s = create disk now app s
perform disk now removed (updates app) s = update disk now app s
perform disk now removed (marks id status container) s =
    update_status disk now id status container s
perform disk now removed (removes id) s = remove removed id s

-- What stands behind an error of `Create` and of `Update`, and behind one of `Delete`.
abbrev pub Why : Application → View → ServiceError → Type 0
Why app v (invalid l) = (l ≡ (validate app).1) × (is_empty l ≡ false)
Why app v already_exists = (old : Application) × (v app.id ≡ some old)
Why app v not_found = v app.id ≡ none
Why app v name_taken = is_empty app.project_id ≡ false
Why app v (not_persisted _) = Unit
Why app v _ = ⊥

abbrev pub WhyNotRemoved : Text → View → ServiceError → Type 0
WhyNotRemoved id v not_found = v id ≡ none
WhyNotRemoved id v not_removed = Unit
WhyNotRemoved id v (delete_failed _) = Unit
WhyNotRemoved id v _ = ⊥

-- What an operation may do to a view. An error has its reason and changes nothing, but for
-- `UpdateStatus`, which sets the status in memory before it writes, and `Update`, which has put the
-- managed labels into the map that the stored record shares by then.
abbrev pub Allowed : Operation → View → View → Option ServiceError → Type 0
Allowed (creates app) v v' e =
    ((e ≡ none)
      × (v app.id ≡ none)
      × ((new : Application) × (new.id ≡ app.id) × Sets app.id (some new) v v'))
    ⊎ (((x : ServiceError) × (e ≡ some x) × Why app v x) × Same v v')
Allowed (updates app) v v' e =
    ((e ≡ none)
      × ((old new : Application) × (v app.id ≡ some old)
          × (new.id ≡ app.id)
          × (new.created_at ≡ old.created_at)
          × Sets app.id (some new) v v'))
    ⊎ ((old : Application) × (y : StoreError) × (v app.id ≡ some old)
        × (e ≡ some (not_persisted y))
        × Sets app.id (some (relabelled (validate app).0 old)) v v')
    ⊎ (((x : ServiceError) × (e ≡ some x) × ((y : StoreError) → x ≢ not_persisted y) × Why app v x)
        × Same v v')
Allowed (marks id status container) v v' e =
    ((e ≢ none) × (v id ≡ none) × Same v v')
    ⊎ ((old new : Application) × (v id ≡ some old)
        × (new.status ≡ status)
        × (new.id ≡ old.id)
        × Sets id (some new) v v')
Allowed (removes id) v v' e =
    ((e ≡ none) × ((old : Application) × (v id ≡ some old)) × Sets id none v v')
    ⊎ (((x : ServiceError) × (e ≡ some x) × WhyNotRemoved id v x) × Same v v')

abbrev Meets : Operation → Service → Service × Option ServiceError → Type 0
Meets o s p = Allowed o (view s) (view p.0) p.1

sets-put :
    (s s' : Service) (id : Text) (new : Application)
    → s'.apps ≡ s.apps
    → Sets id (some new) (view s) (view (record s' { apps = put s'.apps id new }))
sets-put s s' id new h k =
    get-put s'.apps id new k ∙ ap (λ t. if id == k then some new else get t k) h

-- The end of `Create`, and that of `Update`.
saved :
    (s : Service) (new : Application) (p : Service × Option StoreError)
    → p.0.apps ≡ s.apps
    → (((save new p).1 ≡ none) × Sets new.id (some new) (view s) (view (save new p).0))
      ⊎ (((y : StoreError) × ((save new p).1 ≡ some (not_persisted y)))
          × Same (view s) (view (save new p).0))
unfolding save
saved s new (s', some e) h = inr ((e, refl), λ k. ap (λ t. get t k) h)
saved s new (s', none) h = inl (refl, sets-put s s' new.id new h)

not_empty : (b : Bool) → not b ≡ true → b ≡ false
not_empty b h = ground arith

module _ (disk : Disk) (now : ℕ) (raw : Application) (s : Service) where
  abbrev app : Application
  app = (validate raw).0

  -- The record that `Create` stores, and the one that `Update` does.
  made : Application
  made = record app {
    created_at = now;
    updated_at = now;
    status = created;
    labels = with_labels (managed_labels app) app.labels;
  }

  kept : Application → Application
  kept old = record app {
    created_at = old.created_at;
    updated_at = now;
    labels = with_labels (managed_labels app) app.labels;
  }
