-- ===== src/System/Recovery.antt =====
-- internal/system/recovery.go: the states of the applications after a start, from what Docker reports.
-- `Reconcile` also calls `Fail` on the copies of active deployments that `ListByApp` returns, which
-- leaves the deployments themselves as they are.
use liteploy.Common.{
  ℕ, Bool, true, false, ◌||◌, not, Option, none, some, List, [], ◌∷◌, ◌==◌, if◌then◌else◌, is_empty,
}
use liteploy.Common.Text.{Text, codes, text_eq}
use liteploy.Common.Table.{Table, get, put}
use liteploy.Storage.{Disk}
use liteploy.Application.Types.{Application, Status, running, stopped}
use liteploy.Application.Service as Applications
use liteploy.Application.Service.{list, update_status}

pub record ContainerSummary : Type 0 where
  pub id : Text
  pub labels : Table Text

pub record ContainerState : Type 0 where
  pub id : Text
  pub status : Text

-- `containers` is none where Docker does not list them, `inspect` where it fails.
pub record Docker : Type 0 where
  pub containers : Option (List ContainerSummary)
  pub inspect : Text → Option ContainerState

abbrev label_of : Option Text → Text
label_of none = []
label_of (some t) = t

-- The last container of each application that is named by a label.
unfoldable pub by_app : List ContainerSummary → Table ContainerSummary → Table ContainerSummary
by_app [] t = t
by_app (c ∷ cs) t =
    let id = label_of (get c.labels (codes "liteploy.app_id")) in
    by_app cs (if is_empty id then t else put t id c)

abbrev pub is_running : Status → Bool
is_running running = true
is_running _ = false

abbrev pub is_stopped : Status → Bool
is_stopped stopped = true
is_stopped _ = false

abbrev pub target_of : ContainerState → Status
target_of info = if info.status == codes "running" then running else stopped

abbrev pub has_target : ContainerState → Status → Bool
has_target info status =
    if info.status == codes "running" then is_running status else is_stopped status

module _ (disk : Disk) (now : ℕ) (docker : Docker) where
  abbrev pub set_status : Text → Status → Text → Applications.Service → Applications.Service
  set_status id status container s = (update_status disk now id status container s).0

  -- The body of the loop over the applications, for the copy that was listed before it.
  unfoldable pub reconcile_app :
      Table ContainerSummary → Application → Applications.Service → Applications.Service
  reconcile_app containers app s = elim (get containers app.id) [
    | none ↦ if is_running app.status then set_status app.id stopped [] s else s
    | some c ↦ elim (docker.inspect c.id) [
      | none ↦ s
      | some info ↦
          if not (has_target info app.status) || not (app.container_id == info.id)
          then set_status app.id (target_of info) info.id s
          else s
    ]
  ]

  unfoldable pub reconcile_each :
      Table ContainerSummary → List Application → Applications.Service → Applications.Service
  unfolding reconcile_app
  reconcile_each containers [] s = s
  reconcile_each containers (app ∷ apps) s =
      reconcile_each containers apps (reconcile_app containers app s)

-- Whether it works, too; without Docker nothing is done.
unfoldable pub reconcile :
    Disk → ℕ → Option Docker → Applications.Service → Applications.Service × Bool
unfolding by_app reconcile_each
reconcile disk now none s = (s, true)
reconcile disk now (some docker) s = elim docker.containers [
  | none ↦ (s, false)
  | some containers ↦ (reconcile_each disk now docker (by_app containers []) (list s) s, true)
]
