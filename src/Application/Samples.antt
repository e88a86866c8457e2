-- ===== src/Application/Samples.antt =====
-- An application for the tests.
use liteploy.Common.{none, [], ◌∷◌}
use liteploy.Common.Int.{pos}
use liteploy.Common.Text.{codes}
use liteploy.Application.Types.{Application, image, unset, unknown}

abbrev pub shop : Application
shop = record {
  id = codes "app-001";
  name = codes "shop";
  created_at = 1;
  updated_at = 1;
  source = record {
    type = image;
    git_url = [];
    git_branch = [];
    dockerfile_path = [];
    service_path = [];
    build_context = [];
    git_auth_type = [];
    git_token = [];
    git_ssh_key = [];
    image_ref = codes "nginx";
    registry_auth = none;
    compose_file = [];
  };
  project_id = [];
  service_type = unset;
  status = unknown;
  domains = codes "a.io/shop" ∷ [];
  port = pos 80;
  container_id = [];
  image_id = [];
  last_deployment_id = [];
  healthcheck_path = [];
  network_name = [];
  labels = [];
  webhook_secret = [];
  resource_limits = none;
  volumes = [];
}
