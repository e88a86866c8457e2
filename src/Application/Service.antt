-- ===== src/Application/Service.antt =====
-- internal/application/service.go: the applications in memory and in the store. The environments
-- have a store of their own. The directory listing that `loadAll` reads is a parameter.
pub mod Fresh
pub mod Statuses
pub mod Refinement
pub mod Names
pub mod Naming
use mathlib.Core.Option
use liteploy.Common.{
  ℕ, ◌+◌, Bool, ◌&&◌, not, Option, none, some, List, [], ◌∷◌, ◌++◌, ◌==◌, ltb, if◌then◌else◌,
  is_empty, any, Outcome, ok, err,
}
use liteploy.Common.Text.{Text, codes, text_eq, to_lower, has_prefix}
use liteploy.Common.Table.{Table, get, put, delete, values}
use liteploy.Common.FilePath.{join_all}
use liteploy.Common.Decimal.{print_padded, scan_after}
use liteploy.Common.Sorting.{sort}
use liteploy.Storage.{
  Store, Disk, StoreError, not_exist, write_json, read_json, abs_path, remove_all,
}
use liteploy.Application.Types.{Application, Status, created, managed_labels}
use liteploy.Application.Validation.{ValidationError, validate}

pub record Service : Type 0 where
  pub store : Store Application
  pub apps : Table Application

pub data ServiceError : Type 0 where
  invalid : List ValidationError → ServiceError
  already_exists not_found name_taken not_removed : ServiceError
  not_persisted load_failed delete_failed : StoreError → ServiceError

-- `strings.EqualFold`, for ASCII.
abbrev pub equal_fold : Text → Text → Bool
equal_fold a b = to_lower a == to_lower b

abbrev pub same_name : Application → Application → Bool
same_name a b = a.project_id == b.project_id && equal_fold a.name b.name

-- `Labels[k] = v` for each managed label.
unfoldable pub with_labels : Table Text → Table Text → Table Text
with_labels [] labels = labels
with_labels ((k, v) ∷ t) labels = with_labels t (put labels k v)

app_path : Text → Text → Text
app_path id file = join_all (codes "applications" ∷ id ∷ file ∷ [])

unfoldable pub persist : Disk → Application → Service → Service × Option StoreError
unfolding app_path
persist disk app s =
    let (store, e) = write_json disk s.store (app_path app.id (codes "application.json")) app in
    (record s { store = store }, e)

-- The end of `Create`: the record is persisted, then stored.
save : Application → Service × Option StoreError → Service × Option ServiceError
save app (s, some e) = (s, some (not_persisted e))
save app (s, none) = (record s { apps = put s.apps app.id app }, none)

-- The callers of `Update` hand in a copy of the stored record, which shares its map of labels. So the
-- managed labels are in the stored record before the new one is persisted, unless it has no map.
unfoldable pub relabelled : Application → Application → Application
unfolding with_labels
relabelled app existing = record existing {
  labels =
      if is_empty existing.labels
      then existing.labels
      else with_labels (managed_labels app) existing.labels;
}

-- The end of `Update`.
save_over : Application → Application → Service × Option StoreError → Service × Option ServiceError
unfolding relabelled
save_over app existing (s, some e) =
    (record s { apps = put s.apps app.id (relabelled app existing) }, some (not_persisted e))
save_over app existing (s, none) = (record s { apps = put s.apps app.id app }, none)

unfoldable pub create : Disk → ℕ → Application → Service → Service × Option ServiceError
unfolding persist save with_labels
create disk now raw s =
    let (app, errors) = validate raw in
    if not (is_empty errors) then (s, some (invalid errors)) else elim (get s.apps app.id) [
      | some _ ↦ (s, some already_exists)
      | none ↦
          if not (is_empty app.project_id) && any (λ other. same_name other app) (values s.apps)
          then (s, some name_taken)
          else let made = record app {
            created_at = now;
            updated_at = now;
            status = created;
            labels = with_labels (managed_labels app) app.labels;
          } in
            save made (persist disk made s)
    ]

unfoldable pub find : Text → Service → Outcome ServiceError Application
find id s = elim (get s.apps id) [ none ↦ err not_found | some app ↦ ok app ]

abbrev pub older : Application → Application → Bool
older a b = ltb a.created_at b.created_at

unfoldable pub list : Service → List Application
unfolding sort
list s = sort older (values s.apps)

abbrev pub other_with_name : Application → Application → Bool
other_with_name app other = not (other.id == app.id) && same_name other app

unfoldable pub update : Disk → ℕ → Application → Service → Service × Option ServiceError
unfolding persist save_over with_labels
update disk now raw s =
    let (app, errors) = validate raw in
    if not (is_empty errors) then (s, some (invalid errors)) else elim (get s.apps app.id) [
      | none ↦ (s, some not_found)
      | some existing ↦
          if not (is_empty app.project_id) && any (other_with_name app) (values s.apps)
          then (s, some name_taken)
          else let kept = record app {
            created_at = existing.created_at;
            updated_at = now;
            labels = with_labels (managed_labels app) app.labels;
          } in
            save_over kept existing (persist disk kept s)
    ]

-- The stored record changes whether or not it is persisted then.
unfoldable pub update_status :
    Disk → ℕ → Text → Status → Text → Service → Service × Option ServiceError
unfolding persist
update_status disk now id status container s = elim (get s.apps id) [
  | none ↦ (s, some not_found)
  | some app ↦
      let changed = record app {
        status = status;
        container_id = if is_empty container then app.container_id else container;
        updated_at = now;
      } in
      let (s', e) = persist disk changed (record s { apps = put s.apps id changed }) in
      (s', Option.map not_persisted e)
]

-- `removed` tells whether `os.RemoveAll` works.
unfoldable pub remove : Bool → Text → Service → Service × Option ServiceError
remove removed id s = elim (get s.apps id) [
  | none ↦ (s, some not_found)
  | some _ ↦ elim (abs_path s.store (join_all (codes "applications" ∷ id ∷ []))) [
    | err e ↦ (s, some (delete_failed e))
    | ok dir ↦
        if removed
        then (record s { store = remove_all dir s.store; apps = delete s.apps id }, none)
        else (s, some not_removed)
  ]
]

-- `loadAll` over the entries of the directory: hidden ones and ones without a record are left out.
unfoldable pub load_all : List Text → Service → Service × Option ServiceError
unfolding app_path
load_all [] s = (s, none)
load_all (entry ∷ entries) s =
    if has_prefix entry (codes ".")
    then load_all entries s
    else elim (read_json s.store (app_path entry (codes "application.json"))) [
      | ok app ↦ load_all entries (record s { apps = put s.apps app.id app })
      | err not_exist ↦ load_all entries s
      | err e ↦ (s, some (load_failed e))
    ]

unfoldable pub max_app_number : Table Application → ℕ → ℕ
max_app_number [] m = m
max_app_number ((id, _) ∷ t) m =
    max_app_number t
      (if ltb m (scan_after (codes "app-") id) then scan_after (codes "app-") id else m)

unfoldable pub generate_id : Service → Text
unfolding max_app_number
generate_id s = codes "app-" ++ print_padded 3 (max_app_number s.apps 0 + 1)

unfoldable pub get_env : Store (Table Text) → Text → Outcome StoreError (Table Text)
unfolding app_path
get_env envs id = elim (read_json envs (app_path id (codes "env.json"))) [
  | err not_exist ↦ ok []
  | err e ↦ err e
  | ok env ↦ ok env
]

unfoldable pub set_env :
    Disk → Text → Table Text → Store (Table Text) → Store (Table Text) × Option StoreError
unfolding app_path
set_env disk id env envs = write_json disk envs (app_path id (codes "env.json")) env
