-- ===== src/Application/Projects.antt =====
-- internal/application/project.go: the projects in memory and in the store. The directory listing that
-- `loadAll` reads, and whether `os.RemoveAll` works, are parameters.
use liteploy.Common.{
  ℕ, Bool, Option, none, some, List, [], ◌∷◌, ltb, if◌then◌else◌, is_empty, Outcome, ok, err,
}
use liteploy.Common.Text.{Text, codes}
use liteploy.Common.Table.{Table, get, put, delete, values}
use liteploy.Common.FilePath.{join_all}
use liteploy.Common.Sorting.{sort}
use liteploy.Storage.{Store, Disk, StoreError, write_json, read_json, abs_path, remove_all}

pub record Project : Type 0 where
  pub id : Text
  pub name : Text
  pub description : Text
  pub repo_url : Text
  pub git_branch : Text
  pub created_at : ℕ
  pub updated_at : ℕ

pub record ProjectService : Type 0 where
  pub store : Store Project
  pub items : Table Project

pub data ProjectError : Type 0 where
  id_required name_required project_not_found : ProjectError
  not_written : StoreError → ProjectError

abbrev pub project_path : Text → Text
project_path id = join_all (codes "projects" ∷ id ∷ codes "project.json" ∷ [])

-- An entry that does not read is left out.
unfoldable pub load_projects : List Text → ProjectService → ProjectService
load_projects [] s = s
load_projects (id ∷ ids) s = elim (read_json s.store (project_path id)) [
  | err _ ↦ load_projects ids s
  | ok p ↦ load_projects ids (record s { items = put s.items p.id p })
]

abbrev pub newer : Project → Project → Bool
newer a b = ltb b.created_at a.created_at

unfoldable pub list_projects : ProjectService → List Project
unfolding sort
list_projects s = sort newer (values s.items)

unfoldable pub find_project : Text → ProjectService → Outcome ProjectError Project
find_project id s = elim (get s.items id) [ none ↦ err project_not_found | some p ↦ ok p ]

abbrev kept_project :
    ProjectService
    → Project
    → Store Project × Option StoreError
    → ProjectService × Option ProjectError
kept_project s p (store, some e) = (record s { store = store }, some (not_written e))
kept_project s p (store, none) = (record { store = store; items = put s.items p.id p }, none)

-- There is no check for a project of that id.
unfoldable pub create_project :
    Disk → ℕ → Project → ProjectService → ProjectService × Option ProjectError
create_project disk now raw s =
    if is_empty raw.id
    then (s, some id_required)
    else if is_empty raw.name
    then (s, some name_required)
    else (let p = record raw { created_at = now; updated_at = now } in
        kept_project s p (write_json disk s.store (project_path p.id) p))

-- The project goes in memory whether or not its files do.
unfoldable pub delete_project : Bool → Text → ProjectService → ProjectService
delete_project removed id s =
    let gone = record s { items = delete s.items id } in
    elim (abs_path s.store (join_all (codes "projects" ∷ id ∷ []))) [
      | err _ ↦ gone
      | ok dir ↦ if removed then record gone { store = remove_all dir s.store } else gone
    ]
