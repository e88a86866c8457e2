-- ===== src/Deployment/Service/Loading.antt =====
-- internal/deployment/service.go: the deployments that a start reads, and what they mean for `Enqueue`.
-- The listings of the directories are parameters: the applications, and the deployments of each, or none
-- where the directory cannot be listed.
pub mod Kept
pub mod Restart
use liteploy.Common.{
  ℕ, ◌≡◌, refl, true, false, Option, none, some, List, [], ◌∷◌, ◌==◌, if◌then◌else◌, arith, Outcome,
  ok, err,
}
use liteploy.Common.Text.{Text, codes, text_eq, text_beq_iff, has_prefix}
use liteploy.Common.Table.{get, put, delete}
use liteploy.Common.FilePath.{join_all}
use liteploy.Storage.{Store, StoreError, Disk, write_json, read_json}
use liteploy.Storage.Writes.{read_json-write_json}
use liteploy.Deployment.{Deployment, is_active}
use liteploy.Deployment.Service.{Service, already_active, first_active, meta_path, enqueue, find}

abbrev pub loaded : Service → Outcome StoreError Deployment → Service
loaded s (err _) = s
loaded s (ok d) = record s { deployments = put s.deployments d.id d }

abbrev pub record_path : Text → Text → Text
record_path app id =
    join_all (codes "applications" ∷ app ∷ codes "deployments" ∷ id ∷ codes "meta.json" ∷ [])

-- The deployments of one application. One that does not read is left out.
unfoldable pub load_deployments : Text → List Text → Service → Service
load_deployments app [] s = s
load_deployments app (id ∷ ids) s =
    let skip = load_deployments app ids s in
    let next = load_deployments app ids (loaded s (read_json s.store (record_path app id))) in
    if has_prefix id (codes ".") then skip else next

unfoldable pub load_all : List (Text × Option (List Text)) → Service → Service
unfolding load_deployments
load_all [] s = s
load_all ((app, none) ∷ apps) s = load_all apps s
load_all ((app, some ids) ∷ apps) s =
    let skip = load_all apps s in
    let next = load_all apps (load_deployments app ids s) in
    if has_prefix app (codes ".") then skip else next

-- A service at its start, over the files of the one before.
abbrev pub started_over : Store Deployment → Service
started_over store = record {
  store = store;
  queue = [];
  deployments = [];
  cancel_fns = [];
  next_context = 0;
  cancelled = [];
}
