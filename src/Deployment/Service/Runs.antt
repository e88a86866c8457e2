-- ===== src/Deployment/Service/Runs.antt =====
-- internal/deployment/service.go: what a worker does with a job, and the removal of old records.
-- The executor is the interface of the same name, as a function from the record to what it leaves.
pub mod Outcomes
pub mod Retention
use liteploy.Common.{
  ℕ, zero, suc, ◌+◌, Bool, true, false, ◌||◌, Option, none, some, List, [], ◌∷◌, ◌++◌, ◌==◌, ltb,
  leb, if◌then◌else◌, length, take, drop, Outcome, ok, err, nat_eq,
}
use liteploy.Common.Text.{Text, codes, text_eq}
use liteploy.Common.Table.{put, delete}
use liteploy.Common.FilePath.{join_all}
use liteploy.Storage.{Disk, abs_path, remove_all}
use liteploy.Deployment.{
  Status, preparing, failed, cancelled, status_eq, Deployment, fail, succeed, start,
}
use liteploy.Deployment.Service.{Service, Job, update_deployment, list_by_app}

-- What `Execute` leaves: the record, its error, and whether the context was done by then.
pub record Executed : Type 0 where
  pub dep : Deployment
  pub error : Option Text
  pub context_done : Bool

unfoldable pub sanitize_error : Text → Text
sanitize_error msg = if ltb 512 (length msg) then take 512 msg ++ codes "... (truncated)" else msg

deployment_dir : Text → Deployment → Text
deployment_dir app d = join_all (codes "applications" ∷ app ∷ codes "deployments" ∷ d.id ∷ [])

-- The record, then its directory.
unfoldable pub remove_deployment : Text → Deployment → Service → Service
unfolding deployment_dir
remove_deployment app d s =
    let dropped = record s { deployments = delete s.deployments d.id } in
    elim (abs_path s.store (deployment_dir app d)) [
      | err _ ↦ dropped
      | ok dir ↦ record dropped { store = remove_all dir s.store }
    ]

unfoldable pub remove_each : Text → List Deployment → Service → Service
remove_each app [] s = s
remove_each app (d ∷ ds) s = remove_each app ds (remove_deployment app d s)

unfoldable pub prune_old_deployments : Text → ℕ → Service → Service
unfolding remove_each
prune_old_deployments app max_keep s =
    if max_keep == 0
    then s
    else if leb (length (list_by_app app s)) max_keep
    then s
    else remove_each app (drop max_keep (list_by_app app s)) s

abbrev pub is_cleared : Deployment → Bool
is_cleared d = d.status == failed || d.status == cancelled

unfoldable pub clear_each : Text → List Deployment → ℕ → Service → Service × ℕ
clear_each app [] deleted s = (s, deleted)
clear_each app (d ∷ ds) deleted s =
    let rest = clear_each app ds (deleted + 1) (remove_deployment app d s) in
    let skip = clear_each app ds deleted s in if is_cleared d then rest else skip

unfoldable pub clear_failed_deployments : Text → Service → Service × ℕ
unfolding clear_each
clear_failed_deployments app s = clear_each app (list_by_app app s) 0 s

-- What the worker records once the log is open and the deployment has started.
unfoldable pub conclude : Disk → ℕ → Executed → Service → Service
conclude disk now r s = elim r.error [
  | none ↦ prune_old_deployments r.dep.app_id 10 (update_deployment disk r.dep s)
  | some msg ↦
      if r.context_done
      then update_deployment disk (record r.dep { status = cancelled; finished_at = some now }) s
      else update_deployment disk (fail now (codes "execute") (sanitize_error msg) r.dep) s
]

abbrev pub started : ℕ → Deployment → Deployment
started now d = record d { started_at = some now; status = preparing }

abbrev pub execute_with : Option (Deployment → Executed) → ℕ → Deployment → Executed
execute_with none now d = record { dep = succeed now d; error = none; context_done = false }
execute_with (some execute) now d = execute d

unfoldable pub run_body :
    Disk → ℕ → ℕ → Bool → Option (Deployment → Executed) → Deployment → Service → Service
unfolding start conclude
run_body disk now later log_opens executor d s =
    if log_opens
    then conclude disk later (execute_with executor later (started now d))
        (update_deployment disk (started now d) s)
    else update_deployment disk (fail now (codes "prepare") (codes "failed to open log file") d) s

-- A fresh context stands under the deployment's id while the job runs, and is cancelled at the end.
-- `now` and `later` are the times of the start and of the end.
unfoldable pub run_job :
    Disk → ℕ → ℕ → Bool → Option (Deployment → Executed) → Job → Service → Service
unfolding run_body
run_job disk now later log_opens executor j s =
    let context = s.next_context in
    let ran =
      run_body disk now later log_opens executor j.dep
        (record s { cancel_fns = put s.cancel_fns j.dep.id context; next_context = context + 1 }) in
    record ran { cancel_fns = delete ran.cancel_fns j.dep.id; cancelled = context ∷ ran.cancelled }
