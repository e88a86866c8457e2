-- ===== src/Deployment/Service.antt =====
-- internal/deployment/service.go: the queue of deployments and their records. A method returns the
-- new state and its result. `deployments` and the jobs hold values where the program shares
-- pointers, so what the program writes through a shared pointer is put into `deployments` again.
-- Contexts are numbered; `cancelled` lists those whose cancel function was called.
pub mod Runs
pub mod Freshness
pub mod Enqueueing
pub mod Calls
pub mod Loading
use liteploy.Common.{
  ℕ, suc, ◌+◌, Bool, true, false, ◌&&◌, ◌||◌, not, Option, none, some, List, [], ◌∷◌, ◌++◌, ◌==◌,
  ltb, leb, if◌then◌else◌, length, is_empty, keep_if, Outcome, ok, err,
}
use liteploy.Common.Int.{pos}
use liteploy.Common.Text.{Text, codes, text_eq}
use liteploy.Common.Table.{Table, get, put, delete, values}
use liteploy.Common.FilePath.{join_all}
use liteploy.Common.Decimal.{print_padded, scan}
use liteploy.Common.Sorting.{sort}
use liteploy.Storage.{Store, Disk, StoreError, write_json}
use liteploy.Deployment.{Status, queued, status_eq, is_active, Deployment, fail}

pub record Job : Type 0 where
  pub dep : Deployment
  pub cancel : Option ℕ

pub record Service : Type 0 where
  pub store : Store Deployment
  pub queue : List Job  -- jobQueue
  pub deployments : Table Deployment
  pub cancel_fns : Table ℕ
  pub next_context : ℕ
  pub cancelled : List ℕ

pub data ServiceError : Type 0 where
  already_active : Text → ServiceError
  persist_failed : StoreError → ServiceError
  queue_full not_found not_active no_image : ServiceError

-- The buffer of `jobQueue`.
abbrev pub queue_capacity : ℕ
queue_capacity = 64

-- Go's zero value.
abbrev pub blank : Deployment
blank = record {
  id = [];
  app_id = [];
  status = queued;
  created_at = 0;
  started_at = none;
  finished_at = none;
  duration = pos 0;
  log_path = [];
  rollback_to = [];
  commit_sha = [];
  image_id = [];
  container_id = [];
  old_container_id = [];
  error = [];
  stage = [];
  triggered_by = [];
}

abbrev pub is_active_of : Text → Deployment → Bool
is_active_of app d = d.app_id == app && is_active d.status

-- The loop over `deployments` that looks for an active deployment of the application.
unfoldable pub first_active : Text → List Deployment → Option Deployment
first_active app [] = none
first_active app (d ∷ ds) = if is_active_of app d then some d else first_active app ds

-- The loop of `nextDeploymentID`.
unfoldable pub max_id : Text → List Deployment → ℕ → ℕ
max_id app [] m = m
max_id app (d ∷ ds) m =
    max_id app ds (if not (d.app_id == app) then m else if ltb m (scan d.id) then scan d.id else m)

unfoldable pub next_deployment_id : Text → Service → Text
unfolding max_id
next_deployment_id app s = print_padded 4 (max_id app (values s.deployments) 0 + 1)

unfoldable pub meta_path : Deployment → Text
meta_path d =
    join_all (codes "applications" ∷ d.app_id ∷ codes "deployments" ∷ d.id ∷ codes "meta.json" ∷ [])

unfoldable pub persist_deployment : Disk → Deployment → Service → Service × Option StoreError
unfolding meta_path
persist_deployment disk d s =
    let (store, e) = write_json disk s.store (meta_path d) d in (record s { store = store }, e)

-- The error of the write is logged only.
unfoldable pub update_deployment : Disk → Deployment → Service → Service
unfolding persist_deployment
update_deployment disk d s =
    (persist_deployment disk d (record s { deployments = put s.deployments d.id d })).0

-- From the first `Lock` of `Enqueue` to its end: the record and its cancel function are stored, and
-- the job is sent if the queue has room.
unfoldable pub send : Disk → ℕ → Deployment → Service → Service × Outcome ServiceError Deployment
unfolding persist_deployment
send disk now d s =
    let context = s.next_context in
    let kept = record s {
      deployments = put s.deployments d.id d;
      cancel_fns = put s.cancel_fns d.id context;
      next_context = context + 1;
    } in
    let failed = fail now (codes "queue") (codes "deployment queue is full") d in
    if ltb (length s.queue) queue_capacity
    then (record kept { queue = s.queue ++ record { dep = d; cancel = some context } ∷ [] }, ok d)
    else let dropped = record kept {
      cancelled = context ∷ s.cancelled;
      deployments = put kept.deployments d.id failed;
    } in
      ((persist_deployment disk failed dropped).0, err queue_full)

persisted_send :
    Disk → ℕ → Deployment → Service × Option StoreError → Service × Outcome ServiceError Deployment
persisted_send disk now d (s, some e) = (s, err (persist_failed e))
persisted_send disk now d (s, none) = send disk now d s

-- `Enqueue` behind its check that no deployment of the application is active. The lock is not held
-- between the check and this part.
unfoldable pub admit : Disk → ℕ → Text → Text → Service → Service × Outcome ServiceError Deployment
unfolding next_deployment_id persisted_send persist_deployment
admit disk now app triggered_by s =
    let d = record blank {
      id = next_deployment_id app s;
      app_id = app;
      status = queued;
      created_at = now;
      triggered_by = triggered_by;
    } in
    persisted_send disk now d (persist_deployment disk d s)

unfoldable pub enqueue :
    Disk → ℕ → Text → Text → Service → Service × Outcome ServiceError Deployment
unfolding first_active
enqueue disk now app triggered_by s = elim (first_active app (values s.deployments)) [
  | some d ↦ (s, err (already_active d.id))
  | none ↦ admit disk now app triggered_by s
]

unfoldable pub cancel : Text → Service → Service × Option ServiceError
cancel id s = elim (get s.cancel_fns id) [
  | none ↦ (s, some not_active)
  | some context ↦ (record s { cancelled = context ∷ s.cancelled }, none)
]

unfoldable pub find : Text → Service → Outcome ServiceError Deployment
find id s = elim (get s.deployments id) [ none ↦ err not_found | some d ↦ ok d ]

-- `a.CreatedAt.After(b.CreatedAt)`
abbrev pub newer : Deployment → Deployment → Bool
newer a b = ltb b.created_at a.created_at

unfoldable pub list_by_app : Text → Service → List Deployment
unfolding sort
list_by_app app s = sort newer (keep_if (λ d. d.app_id == app) (values s.deployments))

unfoldable pub list_all : Service → List Deployment
unfolding sort
list_all s = sort newer (values s.deployments)

-- The end of `EnqueueRollback`. Its send has no `default`: with a full queue the call waits, and
-- `none` is the result until a worker takes a job.
send_rollback :
    Disk
    → Deployment
    → Service × Option StoreError
    → Service × Option (Outcome ServiceError Deployment)
send_rollback disk d (s, some e) = (s, some (err (persist_failed e)))
send_rollback disk d (s, none) =
    let kept = update_deployment disk d s in
    if ltb (length s.queue) queue_capacity
    then (record kept { queue = s.queue ++ record { dep = d; cancel = none } ∷ [] }, some (ok d))
    else (kept, none)

unfoldable pub enqueue_rollback :
    Disk → ℕ → Text → Text → Text → Service → Service × Option (Outcome ServiceError Deployment)
unfolding find first_active next_deployment_id send_rollback update_deployment
enqueue_rollback disk now app old_id triggered_by s = elim (find old_id s) [
  | err e ↦ (s, some (err e))
  | ok old ↦
      if is_empty old.image_id
      then (s, some (err no_image))
      else elim (first_active app (values s.deployments)) [
        | some d ↦ (s, some (err (already_active d.id)))
        | none ↦
            let d = record blank {
              id = next_deployment_id app s;
              app_id = app;
              status = queued;
              stage = codes "queued";
              created_at = now;
              triggered_by = triggered_by;
              rollback_to = old.image_id;
            } in
            send_rollback disk d (persist_deployment disk d s)
      ]
]
