-- ===== src/Deployment/Pipeline/Tests.antt =====
-- Tests and witnesses for the pipeline.
use liteploy.Common.{◌≡◌, refl, true, false, none, some, [], ◌∷◌, ◌++◌, ok, contains}
use liteploy.Common.Int.{pos}
use liteploy.Common.Text.{Text, codes, text_eq, text_beq}
use liteploy.Common.Table.{get}
use liteploy.Application.Types.{Application, image, worker, created}
use liteploy.Application.Service.{find}
use liteploy.Deployment.Service.{blank}
use liteploy.Deployment.Pipeline.{Tick, ContainerInfo, timed_out, wait_for_health, judge}
use liteploy.Deployment.Pipeline.Steps.{World, Run}
use liteploy.Deployment.Pipeline.Execution.{execute}
use liteploy.Deployment.Pipeline.Cleanup.{after_calls}
use liteploy.Deployment.Pipeline.Endings.{IsFresh, IsEnd, execute_result}

abbrev mailer : Application
mailer = record {
  id = codes "app-001";
  name = codes "mailer";
  created_at = 1;
  updated_at = 1;
  source = record {
    type = image;
    git_url = [];
    git_branch = [];
    dockerfile_path = [];
    service_path = [];
    build_context = [];
    git_auth_type = [];
    git_token = [];
    git_ssh_key = [];
    image_ref = codes "mailer:1";
    registry_auth = none;
    compose_file = [];
  };
  project_id = [];
  service_type = worker;
  status = created;
  domains = [];
  port = pos 0;
  container_id = codes "old-container";
  image_id = [];
  last_deployment_id = [];
  healthcheck_path = [];
  network_name = [];
  labels = [];
  webhook_secret = [];
  resource_limits = none;
  volumes = [];
}

abbrev running_info : ContainerInfo
running_info = record { status = codes "running"; exit_code = pos 0; health = []; ip_address = [] }

abbrev up : Tick
up = record { context_done = false; info = some running_info; answer = none }

abbrev world : World
world = record {
  sync = λ _. none;
  build = λ _. none;
  pull = λ _ _. true;
  create = λ _. some (codes "new-container");
  start = λ _. true;
  remove = λ _. true;
  ticks = λ _. up ∷ [];
  caddy = λ _. some 200;
  links = λ _. none;
  disk = record { mkdir_fails = λ _. false; fault = λ _. none; temp_name = λ p. p ++ codes ".tmp" };
  now = 9;
}

abbrev run : Run
run = record {
  dep = record blank { id = codes "0001"; app_id = codes "app-001" };
  apps = record {
    store = record { root = codes "/d"; files = [] };
    apps = (codes "app-001", mailer) ∷ [];
  };
  envs = record { root = codes "/d"; files = [] };
  manager = record {
    routes = [];
    dashboard_domain = [];
    dashboard_target = [];
    last_known_good = none;
  };
  calls = [];
}

mailer_is_found : find (codes "app-001") run.apps ≡ ok mailer
unfolding find get text_beq
mailer_is_found = refl

no_tick_times_out : wait_for_health mailer [] ≡ some timed_out
unfolding wait_for_health
no_tick_times_out = refl

one_tick_is_healthy : wait_for_health mailer (up ∷ []) ≡ none
unfolding wait_for_health judge text_beq
one_tick_is_healthy = refl

world-IsFresh : IsFresh world (codes "old-container" ∷ [])
unfolding text_beq
world-IsFresh spec c e =
    mathlib.Core.Path.subst (λ x. contains (codes "old-container" ∷ []) x ≡ false) (new_is_made c e)
      refl
  where
    new_is_made : (c : Text) → some (codes "new-container") ≡ some c → codes "new-container" ≡ c
    new_is_made c e = cc

execute_result_example : IsEnd world (codes "old-container" ∷ []) run (execute world run)
unfolding after_calls text_beq
execute_result_example = execute_result world (codes "old-container" ∷ []) run world-IsFresh
