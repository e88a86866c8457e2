-- ===== src/Deployment/Pipeline/Execution.antt =====
-- internal/deployment/pipeline.go: the steps of `Execute` that handle the container, and `Execute`.
use liteploy.Common.{
  ℕ, Bool, true, false, ◌&&◌, ◌||◌, not, Option, none, some, [], ◌∷◌, ◌++◌, map, ◌==◌,
  if◌then◌else◌, is_empty, Outcome, ok, err,
}
use liteploy.Common.Int.{ℤ, pos, negsuc}
use liteploy.Common.Text.{Text, codes, text_eq, to_lower}
use liteploy.Common.Table.{Table, put}
use liteploy.Common.Decimal.{print}
use liteploy.Application.Types.{
  Application, ResourceLimits, Volume, managed_labels, is_private, running,
}
use liteploy.Application.Service.{find, update}
use liteploy.Proxy.{Route, RouteError, validate_route}
use liteploy.Proxy.Applying.{Applied, upsert_route}
use liteploy.Deployment.{starting, health_check, routing, Deployment, succeed}
use liteploy.Deployment.Pipeline.{HealthError, wait_for_health, is_positive}
use liteploy.Deployment.Pipeline.Steps.{
  ContainerSpec, ensured_network, connected_network, created, started, stopped, removed, World, Run,
  no_app, create_failed, start_failed, not_healthy, bad_route, caddy_failed, Step, ◌then_do◌, call,
  advance, prepare, env_vars, setting, build,
}

-- proxy.LiteployNetwork
abbrev pub shared_network : Text
shared_network = codes "liteploy-network"

unfoldable pub network_of : Application → Text
network_of app =
    if is_empty app.project_id then shared_network else codes "liteploy-project-" ++ app.project_id

abbrev bind_of : Volume → Text
bind_of v = v.host_path ++ b':' ∷ v.container_path

memory_of : Option ResourceLimits → ℤ
memory_of none = pos 0
memory_of (some limits) = limits.memory_mb

cpu_of : Option ResourceLimits → ℕ
cpu_of none = 0
cpu_of (some limits) = limits.cpu_bits

-- The container that is asked for.
unfoldable pub spec_of : Application → Deployment → Text → Table Text → ContainerSpec
unfolding network_of memory_of cpu_of
spec_of app d image_name env = record {
  name = codes "liteploy-" ++ (app.id ++ codes "-" ++ d.id);
  image = image_name;
  env = map setting env;
  labels = put (managed_labels app) (codes "liteploy.deployment_id") d.id;
  binds = map bind_of app.volumes;
  container_port = app.port;
  network_name = network_of app;
  network_aliases =
      (codes "liteploy-app-" ++ app.id) ∷ (codes "liteploy-" ++ app.id) ∷ to_lower app.name ∷ [];
  memory_mb = memory_of app.resource_limits;
  cpu_bits = cpu_of app.resource_limits;
  restart_policy = codes "unless-stopped";
}

unfoldable pub started_or_removed : Bool → Text → Run → Step Text
started_or_removed true container r = (r, ok container)
started_or_removed false container r = (call (removed container) r, err start_failed)

unfoldable pub created_or_failed : World → Option Text → Run → Step Text
unfolding started_or_removed
created_or_failed w none r = (r, err create_failed)
created_or_failed w (some container) r =
    started_or_removed (w.start container) container
      (call (started container) (record r { dep = record r.dep { container_id = container } }))

-- Step 3. The result is the new container.
unfoldable pub launch : World → Application → Text → Table Text → Run → Step Text
unfolding advance spec_of created_or_failed
launch w app image_name env r0 =
    let r = call (ensured_network (network_of app)) (advance starting (codes "starting") r0) in
    let spec = spec_of app r.dep image_name env in
    created_or_failed w (w.create spec) (call (created spec) r)

-- The container is stopped and removed.
unfoldable pub discard : Text → Run → Run
discard container r = call (removed container) (call (stopped container) r)

unfoldable pub healthy_or_discarded : Text → Option HealthError → Run → Step (Unit {0})
unfolding discard
healthy_or_discarded container none r = (r, ok tt)
healthy_or_discarded container (some e) r = (discard container r, err (not_healthy e))

-- Step 4.
unfoldable pub check_health : World → Application → Text → Run → Step (Unit {0})
unfolding advance healthy_or_discarded wait_for_health
check_health w app container r =
    healthy_or_discarded container (wait_for_health app (w.ticks container))
      (advance health_check (codes "health_check") r)

port_text : ℤ → Text
port_text (pos n) = print n
port_text (negsuc n) = []

unfoldable pub route_of : Application → Route
unfolding port_text
route_of app = record {
  app_id = app.id;
  domains = app.domains;
  upstream = codes "liteploy-app-" ++ (app.id ++ b':' ∷ port_text app.port);
}

unfoldable pub connected : Application → Run → Run
connected app r =
    if network_of app == shared_network
    then r
    else call (connected_network (network_of app) (codes "liteploy-caddy")) r

unfoldable pub upserted : Text → Run → Applied → Step (Unit {0})
upserted container r (m, posted, some e) =
    (discard container (record r { manager = m }), err (caddy_failed e))
upserted container r (m, posted, none) = (record r { manager = m }, ok tt)

unfoldable pub add_valid_route :
    World → Application → Text → Outcome RouteError (Unit {0}) → Run → Step (Unit {0})
unfolding discard upserted route_of
add_valid_route w app container (err e) r = (discard container r, err (bad_route e))
add_valid_route w app container (ok _) r =
    upserted container r (upsert_route w.caddy (route_of app) r.manager)

unfoldable pub add_route : World → Application → Text → Run → Step (Unit {0})
unfolding add_valid_route
add_route w app container r = add_valid_route w app container (validate_route (route_of app)) r

-- Step 5.
unfoldable pub route : World → Application → Text → Run → Step (Unit {0})
unfolding advance connected add_route upserted route_of
route w app container r0 =
    let r = advance routing (codes "routing") r0 in
    if is_private app.service_type
    then (r, ok tt)
    else if not (is_empty app.domains) && is_positive app.port
    then add_route w app container (connected app r)
    else (r, ok tt)

-- The application as the run leaves it.
unfoldable pub deployed : Application → Text → Text → Deployment → Application
unfolding network_of
deployed app container image_id d = record app {
  status = running;
  container_id = container;
  image_id = if is_empty image_id then app.image_id else image_id;
  last_deployment_id = d.id;
  network_name = network_of app;
}

unfoldable pub drop_old : Text → Text → Run → Run
drop_old old container r = if is_empty old || old == container then r else discard old r

-- The end: the application is updated, then the old container goes.
unfoldable pub finish : World → Application → Text → Text → Run → Run
unfolding deployed drop_old
finish w app container image_id r0 =
    let old = app.container_id in
    let r = record r0 { dep = record r0.dep { old_container_id = old } } in
    let saved = record r {
      apps = (update w.disk w.now (deployed app container image_id r.dep) r.apps).0;
    } in
    let swept = drop_old old container saved in record swept { dep = succeed w.now swept.dep }

-- Steps 4 and 5 and the end, for a container that runs.
unfoldable pub go_live : World → Application → Text → Text → Run → Step (Unit {0})
unfolding check_health route finish
go_live w app container image_id r =
    check_health w app container r
    then_do (λ _ r. route w app container r)
    then_do (λ _ r. (finish w app container image_id r, ok tt))

unfoldable pub execute_for : World → Application → Run → Step (Unit {0})
unfolding prepare build launch go_live
execute_for w app r = prepare w app r then_do (λ p r.
    build w app p (env_vars app r.envs) r then_do (λ image_id r.
      launch w app p.image_name (env_vars app r.envs) r
      then_do (λ container r. go_live w app container image_id r)))

unfoldable pub execute : World → Run → Step (Unit {0})
unfolding execute_for
execute w r = elim (find r.dep.app_id r.apps) [
  | err _ ↦ (r, err no_app)
  | ok app ↦ execute_for w app r
]
