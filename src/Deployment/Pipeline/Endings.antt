-- ===== src/Deployment/Pipeline/Endings.antt =====
-- How `Execute` ends: what a failed and a successful run leave.
use mathlib.Core.Path.{subst}
use liteploy.Common.{
  ◌≡◌, refl, sym, ap, ◌∙◌, inl, inr, ◌⊎◌, Bool, true, false, ◌||◌, ◌&&◌, not, Option, none, some,
  List, ◌∷◌, ◌==◌, if◌then◌else◌, Bool-cases, is_empty, contains, Outcome, ok, err,
}
use liteploy.Common.Text.{Text, codes, text_eq}
use liteploy.Common.Table.{Table}
use liteploy.Application.Types.{Application, is_private}
use liteploy.Application.Service
use liteploy.Application.Service.{find}
use liteploy.Proxy.{RouteError, validate_route}
use liteploy.Proxy.Applying.{Applied, upsert_route}
use liteploy.Deployment.{success, starting, health_check, routing, succeed}
use liteploy.Deployment.Pipeline.{HealthError, wait_for_health, is_positive}
use liteploy.Deployment.Pipeline.Steps.{
  ContainerSpec, Call, ensured_network, connected_network, created, started, removed, World, Run,
  ExecuteError, no_app, Step, ◌then_do◌, call, advance, prepare, env_vars, build,
}
use liteploy.Deployment.Pipeline.Execution.{
  network_of, shared_network, spec_of, launch, created_or_failed, started_or_removed, discard,
  check_health, healthy_or_discarded, route, route_of, connected, add_route, add_valid_route,
  upserted, finish, drop_old, go_live, execute_for, execute,
}
use liteploy.Deployment.Pipeline.Cleanup.{
  without, effect, containers, after_calls-append, without_new, Same, quiet, discard-containers,
  prepare-Same, build-Same,
}

-- Docker names no container that exists already.
abbrev pub IsFresh : World → List Text → Type 0
IsFresh w cs = (spec : ContainerSpec) (c : Text) → w.create spec ≡ some c → contains cs c ≡ false

module _ (w : World) (before cs : List Text) (apps : Service.Service) where
  -- The containers are `cs`, and the applications are `apps`.
  abbrev pub At : List Text → Run → Type 0
  At ds r = (containers w before r ≡ ds) × (r.apps ≡ apps)

  -- What was there at the start, or that and a new container that Docker refused to remove.
  abbrev pub IsBack : Run → Type 0
  IsBack r =
      ((containers w before r ≡ cs)
        ⊎ ((c : Text) × (w.remove c ≡ false)
            × (contains cs c ≡ false)
            × (containers w before r ≡ c ∷ cs)))
      × (r.apps ≡ apps)

  -- A step that fails is back at the start.
  abbrev pub After : {A : Type 0} → (A → Run → Type 0) → Step A → Type 0
  After P (r, ok a) = P a r
  After P (r, err e) = IsBack r

  After-then_do :
      {A B : Type 0} (P : A → Run → Type 0) (Q : B → Run → Type 0) (s : Step A)
      (f : A → Run → Step B)
      → After P s
      → ((a : A) (r : Run) → P a r → After Q (f a r))
      → After Q (s then_do f)
  After-then_do P Q (r, ok a) f h k = k a r h
  After-then_do P Q (r, err e) f h k = h

  At-of_Same : (ds : List Text) (r r' : Run) → At ds r → Same w before r r' → At ds r'
  At-of_Same ds r r' h s = (s.0 ∙ h.0, s.1 ∙ h.1)

  After-of_Same :
      {A : Type 0} (s : Step A) (r : Run)
      → At cs r
      → Same w before r s.0
      → After (λ _ r'. At cs r') s
  After-of_Same (r', ok a) r h k = At-of_Same cs r r' h k
  After-of_Same (r', err e) r h k = let (there, same) = At-of_Same cs r r' h k in (inl there, same)

  -- The new container stands beside the ones before.
  abbrev IsUp : Text → Run → Type 0
  IsUp c r = At (c ∷ cs) r × (contains cs c ≡ false)

  removed-IsBack :
      (c : Text) (r r' : Run)
      → IsUp c r
      → containers w before r' ≡ effect w (removed c) (containers w before r)
      → r'.apps ≡ r.apps
      → IsBack r'
  unfolding effect
  removed-IsBack c r r' (h, new) gone same = elim (Bool-cases (w.remove c)) [
    | inl e ↦ (inl (gone ∙ rw (e, effect) (ap (without c) h.0 ∙ without_new c cs new)), same ∙ h.1)
    | inr e ↦ (inr (c, e, new, gone ∙ rw (e, effect) h.0), same ∙ h.1)
  ]

  IsBack-discard : (c : Text) (r : Run) → IsUp c r → IsBack (discard c r)
  IsBack-discard c r h =
      let (gone, same) = discard-containers w before c r in
      removed-IsBack c r (discard c r) h gone same

  started-After : (b : Bool) (c : Text) (r : Run) → IsUp c r → After IsUp (started_or_removed b c r)
  unfolding started_or_removed
  started-After true c r h = h
  started-After false c r h =
      removed-IsBack c r (call (removed c) r) h (after_calls-append w r.calls (removed c) before)
        refl

  created-After :
      (spec : ContainerSpec) (o : Option Text) (r : Run)
      → w.create spec ≡ o
      → IsFresh w cs
      → At cs r
      → After IsUp (created_or_failed w o (call (created spec) r))
  unfolding created_or_failed effect
  created-After spec none r q f h =
      (inl (after_calls-append w r.calls (created spec) before ∙ rw (q, effect) h.0), h.1)
  created-After spec (some c) r q f h =
      let asked : Run = call (created spec) r in
      let named : Run = record asked { dep = record asked.dep { container_id = c } } in
      let up : containers w before named ≡ c ∷ cs =
        after_calls-append w r.calls (created spec) before ∙ rw (q, effect) (ap (λ x. c ∷ x) h.0) in
      let (same, _) = quiet w before (started c) named (λ _. refl) in
      started-After (w.start c) c (call (started c) named) ((same ∙ up, h.1), f spec c q)

  launch-After :
      (app : Application) (image : Text) (env : Table Text) (r : Run)
      → IsFresh w cs
      → At cs r
      → After IsUp (launch w app image env r)
  unfolding launch advance effect
  launch-After app image env r f h =
      let entered : Run = advance starting (codes "starting") r in
      let ensured : Run = call (ensured_network (network_of app)) entered in
      created-After (spec_of app ensured.dep image env)
        (w.create (spec_of app ensured.dep image env)) ensured refl f
        (At-of_Same cs entered ensured h
          (quiet w before (ensured_network (network_of app)) entered (λ _. refl)))

  healthy-After :
      (c : Text) (o : Option HealthError) (r : Run)
      → IsUp c r
      → After (λ _. IsUp c) (healthy_or_discarded c o r)
  unfolding healthy_or_discarded
  healthy-After c none r h = h
  healthy-After c (some e) r h = IsBack-discard c r h

  upserted-After :
      (c : Text) (r : Run) (x : Applied) → IsUp c r → After (λ _. IsUp c) (upserted c r x)
  unfolding upserted
  upserted-After c r (m, posted, none) h = h
  upserted-After c r (m, posted, some e) h = IsBack-discard c (record r { manager = m }) h

  add_valid_route-After :
      (app : Application) (c : Text) (o : Outcome RouteError (Unit {0})) (r : Run)
      → IsUp c r
      → After (λ _. IsUp c) (add_valid_route w app c o r)
  unfolding add_valid_route
  add_valid_route-After app c (err e) r h = IsBack-discard c r h
  add_valid_route-After app c (ok tt) r h =
      upserted-After c r (upsert_route w.caddy (route_of app) r.manager) h

  connected-IsUp : (app : Application) (c : Text) (r : Run) → IsUp c r → IsUp c (connected app r)
  unfolding connected effect
  connected-IsUp app c r (h, new) = elim (Bool-cases (network_of app == shared_network)) [
    | inl e ↦ rw (e, connected) (h, new)
    | inr e ↦
        let x : Call = connected_network (network_of app) (codes "liteploy-caddy") in
        rw (e, connected) (At-of_Same (c ∷ cs) r (call x r) h (quiet w before x r (λ _. refl)), new)
  ]

  route-After :
      (app : Application) (c : Text) (r : Run) → IsUp c r → After (λ _. IsUp c) (route w app c r)
  unfolding route add_route advance
  route-After app c r h =
      let entered : Run = advance routing (codes "routing") r in
      elim (Bool-cases (is_private app.service_type)) [
        | inl e ↦ rw (e, route) h
        | inr e ↦ elim (Bool-cases (not (is_empty app.domains) && is_positive app.port)) [
          | inl k ↦
              rw (e, k, route)
                (add_valid_route-After app c (validate_route (route_of app)) (connected app entered)
                  (connected-IsUp app c entered h))
          | inr k ↦ rw (e, k, route) h
        ]
      ]

  -- The new container is there and the old one is not.
  abbrev pub IsReplaced : Application → Run → Type 0
  IsReplaced app r =
      (c : Text) × (contains cs c ≡ false)
      × (containers w before r ≡ (
          if is_empty app.container_id || app.container_id == c || not (w.remove app.container_id)
          then c ∷ cs
          else without app.container_id (c ∷ cs)))
      × (r.dep.status ≡ success)

  old_dropped :
      (c d : Text) (r : Run)
      → At (c ∷ cs) r
      → containers w before (discard d r) ≡ (if w.remove d then without d (c ∷ cs) else c ∷ cs)
  unfolding effect
  old_dropped c d r h = (discard-containers w before d r).0 ∙ ap (effect w (removed d)) h.0

  finish-IsReplaced :
      (app : Application) (c image : Text) (r : Run)
      → IsUp c r
      → IsReplaced app (finish w app c image r)
  unfolding finish drop_old succeed discard effect
  finish-IsReplaced app c image r (h, new) =
      elim (Bool-cases (is_empty app.container_id || app.container_id == c)) [
        | inl e ↦ (c, new, rw (e, finish, drop_old) h.0, refl)
        | inr e ↦ elim (Bool-cases (w.remove app.container_id)) [
          | inl k ↦ (
            c,
            new,
            rw (e, k, finish, drop_old) (old_dropped c app.container_id r h ∙ rw k refl),
            refl,
          )
          | inr k ↦ (
            c,
            new,
            rw (e, k, finish, drop_old) (old_dropped c app.container_id r h ∙ rw k refl),
            refl,
          )
        ]
      ]

  go_live-After :
      (app : Application) (c image : Text) (r : Run)
      → IsUp c r
      → After (λ _. IsReplaced app) (go_live w app c image r)
  unfolding go_live check_health advance
  go_live-After app c image r h =
      After-then_do (λ _. IsUp c) (λ _. IsReplaced app) _ _
        (After-then_do (λ _. IsUp c) (λ _. IsUp c) _ _
          (healthy-After c (wait_for_health app (w.ticks c))
            (advance health_check (codes "health_check") r) h)
          (λ _ r' h'. route-After app c r' h'))
        (λ _ r' h'. finish-IsReplaced app c image r' h')

  execute_for-After :
      (app : Application) (r : Run)
      → IsFresh w cs
      → At cs r
      → After (λ _. IsReplaced app) (execute_for w app r)
  unfolding execute_for
  execute_for-After app r f h =
      After-then_do (λ _. At cs) (λ _. IsReplaced app) _ _
        (After-of_Same (prepare w app r) r h (prepare-Same w before app r))
        (λ p r1 h1.
          After-then_do (λ _. At cs) (λ _. IsReplaced app) _ _
            (After-of_Same (build w app p (env_vars app r1.envs) r1) r1 h1
              (build-Same w before app p (env_vars app r1.envs) r1))
            (λ image r2 h2.
              After-then_do IsUp (λ _. IsReplaced app) _ _
                (launch-After app p.image_name (env_vars app r2.envs) r2 f h2)
                (λ c r3 h3. go_live-After app c image r3 h3)))

-- An error, back at the start, or a container that replaces the
-- old one of the deployment's application.
abbrev pub IsEnd : World → List Text → Run → Step (Unit {0}) → Type 0
IsEnd w before r x =
    ((e : ExecuteError) × (x.1 ≡ err e) × IsBack w before (containers w before r) r.apps x.0)
    ⊎ ((x.1 ≡ ok tt)
        × ((app : Application) × (find r.dep.app_id r.apps ≡ ok app)
            × IsReplaced w before (containers w before r) r.apps app x.0))

IsEnd-of_After :
    (w : World) (before : List Text) (r : Run) (app : Application) (x : Step (Unit {0}))
    → find r.dep.app_id r.apps ≡ ok app
    → After w before
        (containers w before r)
        r.apps
        (λ _. IsReplaced w before (containers w before r) r.apps app)
        x
    → IsEnd w before r x
IsEnd-of_After w before r app (r', ok u) q h = inr (refl, (app, q, h))
IsEnd-of_After w before r app (r', err e) q h = inl (e, refl, h)

execute_of_found :
    (w : World) (r : Run) (app : Application)
    → find r.dep.app_id r.apps ≡ ok app
    → execute w r ≡ execute_for w app r
unfolding execute
execute_of_found w r app q = rw (q, execute) refl

find-cases :
    (o : Outcome Service.ServiceError Application)
    → ((e : Service.ServiceError) × (o ≡ err e)) ⊎ ((app : Application) × (o ≡ ok app))
find-cases (err e) = inl (e, refl)
find-cases (ok app) = inr (app, refl)

-- A run of the pipeline that fails, at whatever step, leaves the containers that there were before,
-- the old one of the application among them, and the applications as they were; only a new container
-- that Docker refuses to remove stays beside them. One that succeeds leaves a new container and those
-- from before without the application's old one, which stays only if Docker refuses to remove it, and
-- the deployment is in `success`. The condition is that no container that Docker creates has the id
-- of one that exists.
pub execute_result :
    (w : World) (before : List Text) (r : Run)
    → IsFresh w (containers w before r)
    → IsEnd w before r (execute w r)
unfolding execute
execute_result w before r f = elim (find-cases (find r.dep.app_id r.apps)) [
  | inl (e, q) ↦ rw (q, execute) (inl (no_app, refl, (inl refl, refl)))
  | inr (app, q) ↦ subst (IsEnd w before r) (sym (execute_of_found w r app q)) (
      IsEnd-of_After w before r app (execute_for w app r) q
        (execute_for-After w before (containers w before r) r.apps app r f (refl, refl)))
]
