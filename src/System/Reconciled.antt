-- ===== src/System/Reconciled.antt =====
-- Which applications count as running after a start.
use mathlib.Core.Path.{subst}
use liteploy.Common.{
  ℕ, ◌≡◌, refl, ap, sym, ◌∙◌, ◌⊎◌, inl, inr, Bool, true, false, ◌||◌, not, none, some, List, [],
  ◌∷◌, ◌==◌, if◌then◌else◌, All, Bool-cases, Option-cases,
}
use liteploy.Common.Text.{Text, codes, text_eq, text_beq_iff}
use liteploy.Common.Table.{Table, get, values}
use liteploy.Common.Table.Laws.{get-put}
use liteploy.Common.Sorting.{All-sort}
use liteploy.Storage.{Disk}
use liteploy.Application.Types.{
  Application, Status, unknown, created, running, stopped, deploying, failed,
}
use liteploy.Application.Service as Applications
use liteploy.Application.Service.{list, older, update_status, persist}
use liteploy.System.Recovery.{
  ContainerSummary, ContainerState, Docker, by_app, is_running, is_stopped, target_of, has_target,
  set_status, reconcile_app, reconcile_each, reconcile,
}
use liteploy.Application.Service.Statuses.{changed, update_missing, update_found, update_at}

-- Docker lists a container for the application and reports that it runs, or cannot look at it.
abbrev pub IsUp : Docker → Table ContainerSummary → Text → Type 0
IsUp docker containers id =
    (c : ContainerSummary) × (get containers id ≡ some c)
    × ((docker.inspect c.id ≡ none)
        ⊎ ((info : ContainerState) × (docker.inspect c.id ≡ some info)
            × (info.status ≡ codes "running")))

-- The application under the key runs only if its container does.
abbrev pub IsReal : Docker → Table ContainerSummary → Applications.Service → Text → Type 0
IsReal docker containers s k =
    (app : Application)
    → get s.apps k ≡ some app
    → is_running app.status ≡ true
    → IsUp docker containers k

target_runs :
    (info : ContainerState) (status : Status)
    → (status ≡ target_of info) ⊎ (has_target info status ≡ true)
    → is_running status ≡ true
    → info.status ≡ codes "running"
target_runs info status how runs = elim (Bool-cases (info.status == codes "running")) [
  | inl e ↦ (text_beq_iff info.status (codes "running")).0 e
  | inr e ↦ absurd (by_how how e)
]
  where
    stopped_runs : (st : Status) → is_stopped st ≡ true → is_running st ≡ true → ⊥
    stopped_runs running h k = cc
    stopped_runs stopped h k = cc
    stopped_runs unknown h k = cc
    stopped_runs created h k = cc
    stopped_runs deploying h k = cc
    stopped_runs failed h k = cc

    differ : ¬ (false ≡ true)
    differ q = cc

    by_how :
        (status ≡ target_of info) ⊎ (has_target info status ≡ true)
        → (info.status == codes "running") ≡ false
        → ⊥
    by_how (inl q) e =
        differ (sym (ap is_running (q ∙ ap (λ b. if b then running else stopped) e)) ∙ runs)
    by_how (inr q) e =
        stopped_runs status
          (sym (ap (λ b. if b then is_running status else is_stopped status) e) ∙ q) runs

module _ (disk : Disk) (now : ℕ) (docker : Docker) (containers : Table ContainerSummary) where
  -- What the body of the loop does: nothing, or a change of the status, each to a status that is real.
  app_cases :
      (app : Application) (s : Applications.Service)
      → ((reconcile_app disk now docker containers app s ≡ s)
          × (is_running app.status ≡ true → IsUp docker containers app.id))
        ⊎ ((status : Status) × (container : Text) × (reconcile_app disk now docker containers app s
              ≡ set_status disk now docker app.id status container s)
            × (is_running status ≡ true → IsUp docker containers app.id))
  unfolding reconcile_app
  app_cases app s = elim (Option-cases (get containers app.id)) [
    | inl e ↦ elim (Bool-cases (is_running app.status)) [
      | inl q ↦ inr (stopped, [], rw (e, q, reconcile_app) refl, λ k. cc)
      | inr q ↦ inl (rw (e, q, reconcile_app) refl, λ k. absurd (differ (sym q ∙ k)))
    ]
    | inr (c, e) ↦ elim (Option-cases (docker.inspect c.id)) [
      | inl i ↦ inl (rw (e, i, reconcile_app) refl, λ runs. (c, e, inl i))
      | inr (info, i) ↦
          elim (Bool-cases
            (not (has_target info app.status) || not (app.container_id == info.id))) [
              | inl q ↦ inr (
                target_of info,
                info.id,
                rw (e, i, q, reconcile_app) refl,
                λ runs. (c, e, inr (info, i, target_runs info (target_of info) (inl refl) runs)),
              )
              | inr q ↦ inl (
                rw (e, i, q, reconcile_app) refl,
                λ runs. (c, e, inr (info, i, target_runs info app.status (inr (met _ _ q)) runs)),
              )
            ]
    ]
  ]
    where
      differ : ¬ (false ≡ true)
      differ q = cc

      met : (a b : Bool) → not a || b ≡ false → a ≡ true
      met true b h = refl
      met false b h = cc

  -- The body of the loop settles the application that it is for.
  app_settles :
      (app : Application) (s : Applications.Service)
      → get s.apps app.id ≡ some app
      → IsReal docker containers (reconcile_app disk now docker containers app s) app.id
  app_settles app s here = elim (app_cases app s) [
    | inl (stays, up) ↦ λ a there runs. up (
        ap (λ x. is_running x.status)
          (same a (sym here ∙ sym (ap (λ x. get x.apps app.id) stays) ∙ there))
        ∙ runs)
    | inr (status, container, moved, up) ↦ λ a there runs.
        elim (update_at disk now app.id app.id container status s a
          (sym (ap (λ x. get x.apps app.id) moved) ∙ there)) [
            | inl (other, _) ↦ absurd (other refl)
            | inr (_, new) ↦ up (sym (ap is_running new) ∙ runs)
          ]
  ]
    where
      same : (a : Application) → some app ≡ some a → app ≡ a
      same a q = cc

  -- It leaves the settled ones settled.
  app_keeps :
      (app : Application) (s : Applications.Service) (k : Text)
      → IsReal docker containers s k
      → IsReal docker containers (reconcile_app disk now docker containers app s) k
  app_keeps app s k real = elim (app_cases app s) [
    | inl (stays, _) ↦ λ a there runs. real a (sym (ap (λ x. get x.apps k) stays) ∙ there) runs
    | inr (status, container, moved, up) ↦ λ a there runs.
        elim (update_at disk now app.id k container status s a
          (sym (ap (λ x. get x.apps k) moved) ∙ there)) [
            | inl (_, before) ↦ real a before runs
            | inr (at, new) ↦
                subst (IsUp docker containers) at (up (sym (ap is_running new) ∙ runs))
          ]
  ]

  -- It does not touch the others.
  app_misses :
      (app x : Application) (s : Applications.Service)
      → (app.id == x.id) ≡ false
      → get s.apps x.id ≡ some x
      → get (reconcile_app disk now docker containers app s).apps x.id ≡ some x
  app_misses app x s other here = elim (app_cases app s) [
    | inl (stays, _) ↦ ap (λ t. get t.apps x.id) stays ∙ here
    | inr (status, container, moved, up) ↦ ap (λ t. get t.apps x.id) moved ∙ missed status container
  ]
    where
      missed :
          (status : Status) (container : Text)
          → get (set_status disk now docker app.id status container s).apps x.id ≡ some x
      missed status container = elim (Option-cases (get s.apps app.id)) [
        | inl e ↦ ap (λ t. get t x.id) (update_missing disk now app.id container status s e) ∙ here
        | inr (old, e) ↦
            ap (λ t. get t x.id) (update_found disk now app.id container status s old e)
            ∙ get-put s.apps app.id (changed disk now status container old) x.id
            ∙ ap (λ b. if b then some (changed disk now status container old) else get s.apps x.id)
                other
            ∙ here
      ]

  -- An application that is found as it was listed, or is settled.
  abbrev IsKnown : Applications.Service → Application → Type 0
  IsKnown s x = (get s.apps x.id ≡ some x) ⊎ IsReal docker containers s x.id

  app_step :
      (app : Application) (s : Applications.Service)
      → IsKnown s app
      → IsReal docker containers (reconcile_app disk now docker containers app s) app.id
  app_step app s (inl here) = app_settles app s here
  app_step app s (inr real) = app_keeps app s app.id real

  app_next :
      (app x : Application) (s : Applications.Service)
      → IsKnown s app
      → IsKnown s x
      → IsKnown (reconcile_app disk now docker containers app s) x
  app_next app x s first (inr real) = inr (app_keeps app s x.id real)
  app_next app x s first (inl here) = elim (Bool-cases (app.id == x.id)) [
    | inl e ↦ inr (
        subst (IsReal docker containers (reconcile_app disk now docker containers app s))
          ((text_beq_iff app.id x.id).0 e) (app_step app s first))
    | inr e ↦ inl (app_misses app x s e here)
  ]

  app_next-All :
      (app : Application) (xs : List Application) (s : Applications.Service)
      → IsKnown s app
      → All (IsKnown s) xs
      → All (IsKnown (reconcile_app disk now docker containers app s)) xs
  app_next-All app [] s first h = tt
  app_next-All app (x ∷ xs) s first h =
      (app_next app x s first h.0, app_next-All app xs s first h.1)

  each_keeps :
      (apps : List Application) (s : Applications.Service) (k : Text)
      → IsReal docker containers s k
      → IsReal docker containers (reconcile_each disk now docker containers apps s) k
  unfolding reconcile_each
  each_keeps [] s k h = h
  each_keeps (app ∷ apps) s k h =
      each_keeps apps (reconcile_app disk now docker containers app s) k (app_keeps app s k h)

  each_settles :
      (apps : List Application) (s : Applications.Service)
      → All (IsKnown s) apps
      → All
          (λ x. IsReal docker containers (reconcile_each disk now docker containers apps s) x.id)
          apps
  unfolding reconcile_each
  each_settles [] s h = tt
  each_settles (app ∷ apps) s h =
      let s' : Applications.Service = reconcile_app disk now docker containers app s in
      (
        each_keeps apps s' app.id (app_step app s h.0),
        each_settles apps s' (app_next-All app apps s h.0 h.1),
      )

  IsKnown-All :
      (xs : List Application) (s : Applications.Service)
      → All (λ x. get s.apps x.id ≡ some x) xs
      → All (IsKnown s) xs
  IsKnown-All [] s h = tt
  IsKnown-All (x ∷ xs) s h = (inl h.0, IsKnown-All xs s h.1)

-- Where Docker lists its containers, and every application stands under its own id, each listed
-- application that counts as running after `Reconcile` has a container that Docker reports as
-- running, or at which it cannot look.
pub reconcile-IsReal :
    (disk : Disk) (now : ℕ) (docker : Docker) (found : List ContainerSummary)
    (s : Applications.Service)
    → docker.containers ≡ some found
    → All (λ x. get s.apps x.id ≡ some x) (values s.apps)
    → All
        (λ x. IsReal docker (by_app found []) (reconcile disk now (some docker) s).0 x.id)
        (list s)
unfolding reconcile list
reconcile-IsReal disk now docker found s listed kept =
    rw (listed, reconcile)
      (each_settles disk now docker (by_app found []) (list s) s (
        IsKnown-All disk now docker (by_app found []) (list s) s
          (All-sort (λ x. get s.apps x.id ≡ some x) older (values s.apps) kept)))
