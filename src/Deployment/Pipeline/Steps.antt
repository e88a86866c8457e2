-- ===== src/Deployment/Pipeline/Steps.antt =====
-- internal/deployment/pipeline.go: `Execute`, step by step. Docker and Git are parameters; `calls`
-- lists what was asked of them, in order, with the files that were written. A call whose error is
-- only logged has no result here. Identifiers have the 12 bytes that the log lines slice off.
use liteploy.Common.{
  ℕ, Bool, not, Option, none, some, List, [], ◌∷◌, ◌++◌, if◌then◌else◌, is_empty, Outcome, ok, err,
}
use liteploy.Common.Int.{ℤ}
use liteploy.Common.Text.{Text, codes, text_eq}
use liteploy.Common.Table.{Table}
use liteploy.Common.FilePath.{join_all, join_path}
use liteploy.Storage.{Store, Disk, StoreError, abs_path, read_json}
use liteploy.Application.Types.{
  SourceType, no_type, git, image, compose, other_type, Application, RegistryAuth,
}
use liteploy.Application.Service
use liteploy.Application.Service.{find, update}
use liteploy.Proxy.{RouteError}
use liteploy.Proxy.Applying.{Manager, ProxyError, Caddy}
use liteploy.Deployment.{Status, preparing, building, Deployment, transition}
use liteploy.Deployment.Pipeline.{PathError, Links, safe_path_join, Tick, HealthError}

-- docker.ContainerSpec, without the fields that the pipeline leaves at their zero values.
pub record ContainerSpec : Type 0 where
  pub name : Text
  pub image : Text
  pub env : List Text
  pub labels : Table Text
  pub binds : List Text
  pub container_port : ℤ
  pub network_name : Text
  pub network_aliases : List Text
  pub memory_mb : ℤ
  pub cpu_bits : ℕ
  pub restart_policy : Text

pub record CloneOptions : Type 0 where
  pub url : Text
  pub branch : Text
  pub target_dir : Text
  pub auth_token : Text
  pub ssh_key : Text

pub record BuildOptions : Type 0 where
  pub context_dir : Text
  pub dockerfile_path : Text
  pub tag : Text
  pub build_args : Table Text

pub data Call : Type 0 where
  synced : CloneOptions → Call
  wrote_file : Text → Text → Call
  built : BuildOptions → Call
  pulled : Text → Option RegistryAuth → Call
  ensured_network : Text → Call
  connected_network : Text → Text → Call
  created : ContainerSpec → Call
  started stopped removed : Text → Call

-- The services around the pipeline. `none` and `false` stand for a failed call.
pub record World : Type 0 where
  pub sync : CloneOptions → Option Text  -- the commit
  pub build : BuildOptions → Option Text  -- the image
  pub pull : Text → Option RegistryAuth → Bool
  pub create : ContainerSpec → Option Text  -- the container
  pub start : Text → Bool
  pub remove : Text → Bool
  pub ticks : Text → List Tick
  pub caddy : Caddy
  pub links : Links
  pub disk : Disk
  pub now : ℕ

pub record Run : Type 0 where
  pub dep : Deployment
  pub apps : Service.Service
  pub envs : Store (Table Text)
  pub manager : Manager
  pub calls : List Call

pub data ExecuteError : Type 0 where
  no_app sync_failed compose_unsupported type_unsupported : ExecuteError
  bad_build_dir : StoreError → ExecuteError
  bad_context bad_service_path bad_dockerfile dockerfile_escapes : PathError → ExecuteError
  build_failed pull_failed create_failed start_failed : ExecuteError
  not_healthy : HealthError → ExecuteError
  bad_route : RouteError → ExecuteError
  caddy_failed : ProxyError → ExecuteError

abbrev pub Step : Type 0 → Type 0
Step A = Run × Outcome ExecuteError A

infixl 5 ◌then_do◌
abbrev pub ◌then_do◌ : {A B : Type 0} → Step A → (A → Run → Step B) → Step B
(r, ok a) then_do f = f a r
(r, err e) then_do f = (r, err e)

abbrev pub call : Call → Run → Run
call c r = record r { calls = r.calls ++ c ∷ [] }

-- `dep.Transition(status)`, its error ignored, and `dep.Stage = stage`.
unfoldable pub advance : Status → Text → Run → Run
advance status stage r = record r { dep = record (transition status r.dep).0 { stage = stage } }

pub record Prepared : Type 0 where
  pub image_name : Text
  pub build_dir : Text
  pub context_dir : Text

-- The directory from which the image is built.
unfoldable pub context_of : Links → Application → Text → Outcome ExecuteError Text
context_of links app build_dir =
    if not (is_empty app.source.build_context)
    then elim (safe_path_join links build_dir app.source.build_context) [
      | err e ↦ err (bad_context e)
      | ok d ↦ ok d
    ]
    else if not (is_empty app.source.service_path)
    then elim (safe_path_join links build_dir app.source.service_path) [
      | err e ↦ err (bad_service_path e)
      | ok d ↦ ok d
    ]
    else ok build_dir

abbrev image_tag : Application → Deployment → Text
image_tag app d = codes "liteploy-" ++ (app.id ++ codes ":" ++ d.id)

unfoldable pub prepared_in : Application → Text → Outcome ExecuteError Text → Run → Step Prepared
prepared_in app build_dir (err e) r = (r, err e)
prepared_in app build_dir (ok context_dir) r = (
  r,
  ok (record {
    image_name = image_tag app r.dep;
    build_dir = build_dir;
    context_dir = context_dir;
  }),
)

unfoldable pub clone_options : Application → Text → CloneOptions
clone_options app build_dir = record {
  url = app.source.git_url;
  branch = app.source.git_branch;
  target_dir = build_dir;
  auth_token = app.source.git_token;
  ssh_key = app.source.git_ssh_key;
}

unfoldable pub synced_or_failed : World → Application → Text → Option Text → Run → Step Prepared
unfolding prepared_in
synced_or_failed w app build_dir none r = (r, err sync_failed)
synced_or_failed w app build_dir (some commit) r =
    prepared_in app build_dir (context_of w.links app build_dir)
      (record r { dep = record r.dep { commit_sha = commit } })

unfoldable pub sync_into : World → Application → Outcome StoreError Text → Run → Step Prepared
unfolding synced_or_failed clone_options
sync_into w app (err e) r = (r, err (bad_build_dir e))
sync_into w app (ok build_dir) r =
    synced_or_failed w app build_dir (w.sync (clone_options app build_dir))
      (call (synced (clone_options app build_dir)) r)

unfoldable pub prepare_git : World → Application → Run → Step Prepared
unfolding sync_into
prepare_git w app r = sync_into w app (abs_path r.apps.store (join_path (codes "repos") app.id)) r

abbrev only_image : Text → Prepared
only_image name = record { image_name = name; build_dir = []; context_dir = [] }

unfoldable pub prepare_by_type : SourceType → World → Application → Run → Step Prepared
prepare_by_type git w app r = prepare_git w app r
prepare_by_type image w app r = (r, ok (only_image app.source.image_ref))
prepare_by_type compose w app r = (r, err compose_unsupported)
prepare_by_type no_type w app r = (r, err type_unsupported)
prepare_by_type (other_type _) w app r = (r, err type_unsupported)

-- Step 1.
unfoldable pub prepare : World → Application → Run → Step Prepared
unfolding prepare_by_type advance
prepare w app r =
    let entered = advance preparing (codes "preparing") r in
    if not (is_empty entered.dep.rollback_to)
    then (entered, ok (only_image entered.dep.rollback_to))
    else prepare_by_type app.source.type w app entered

-- The environment of the application; none if it does not read.
unfoldable pub env_vars : Application → Store (Table Text) → Table Text
env_vars app envs =
    elim (read_json envs (join_all (codes "applications" ∷ app.id ∷ codes "env.json" ∷ []))) [
      | err _ ↦ []
      | ok env ↦ env
    ]

abbrev pub setting : Text × Text → Text
setting (k, v) = k ++ b'=' ∷ v

unfoldable pub env_lines : Table Text → Text
env_lines [] = []
env_lines (e ∷ env) = setting e ++ 10 ∷ env_lines env

unfoldable pub inject : Text → Table Text → Run → Run
inject context_dir env r =
    if is_empty env
    then r
    else call (wrote_file (join_path context_dir (codes ".env.production")) (env_lines env))
        (call (wrote_file (join_path context_dir (codes ".env")) (env_lines env)) r)

abbrev or_default : Text → Text
or_default t = if is_empty t then codes "Dockerfile" else t

abbrev pub set_image : Text → Run → Run
set_image image_id r = record r { dep = record r.dep { image_id = image_id } }

unfoldable pub build_options : Application → Prepared → Table Text → BuildOptions
build_options app p env = record {
  context_dir = p.context_dir;
  dockerfile_path = or_default app.source.dockerfile_path;
  tag = p.image_name;
  build_args = env;
}

unfoldable pub image_or_failed : ExecuteError → Option Text → Run → Step Text
image_or_failed e none r = (r, err e)
image_or_failed e (some image_id) r = (set_image image_id r, ok image_id)

-- Both checks of the path of the Dockerfile.
unfoldable pub dockerfile_checked : Links → Application → Prepared → Outcome ExecuteError (Unit {0})
dockerfile_checked links app p =
    elim (safe_path_join links p.context_dir (or_default app.source.dockerfile_path)) [
      | err e ↦ err (bad_dockerfile e)
      | ok path ↦ elim (safe_path_join links p.build_dir path) [
        | err e ↦ err (dockerfile_escapes e)
        | ok _ ↦ ok tt
      ]
    ]

unfoldable pub build_checked :
    World → Application → Prepared → Table Text → Outcome ExecuteError (Unit {0}) → Run → Step Text
unfolding inject build_options image_or_failed
build_checked w app p env (err e) r = (r, err e)
build_checked w app p env (ok _) r =
    image_or_failed build_failed (w.build (build_options app p env))
      (call (built (build_options app p env)) (inject p.context_dir env r))

unfoldable pub build_git : World → Application → Prepared → Table Text → Run → Step Text
unfolding build_checked dockerfile_checked
build_git w app p env r = build_checked w app p env (dockerfile_checked w.links app p) r

unfoldable pub pull_image : World → Application → Prepared → Run → Step Text
pull_image w app p r =
    let asked = call (pulled p.image_name app.source.registry_auth) r in
    if w.pull p.image_name app.source.registry_auth
    then (set_image p.image_name asked, ok p.image_name)
    else (asked, err pull_failed)

unfoldable pub build_by_type :
    SourceType → World → Application → Prepared → Table Text → Run → Step Text
build_by_type git w app p env r = build_git w app p env r
build_by_type image w app p env r = pull_image w app p r
build_by_type _ w app p env r = (r, ok [])

-- Step 2. The result is the new image.
unfoldable pub build : World → Application → Prepared → Table Text → Run → Step Text
unfolding build_by_type advance
build w app p env r =
    if is_empty r.dep.rollback_to
    then build_by_type app.source.type w app p env (advance building (codes "building") r)
    else (set_image r.dep.rollback_to r, ok r.dep.rollback_to)
