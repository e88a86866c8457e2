-- ===== src/Webhook/Tests.antt =====
-- Witnesses for the webhooks.
use liteploy.Common.{true, false, none, [], ◌∷◌, ◌++◌}
use liteploy.Common.Text.{codes}
use liteploy.Storage.{Disk}
use liteploy.Http.{Request}
use liteploy.Application.Samples.{shop}
use liteploy.Application.Service as Applications
use liteploy.Deployment.Service as Deployments
use liteploy.Deployment.Service.{enqueue}
use liteploy.Webhook.{Codec, serve_http}
use liteploy.Webhook.Signed.{IsSignedOr, serve_http-IsSignedOr}

abbrev codec : Codec
codec = record {
  hmac_sha256 = λ key t. key ++ t;
  github_payload = λ _. none;
  gitlab_payload = λ _. none;
}

abbrev working : Disk
working = record { mkdir_fails = λ _. false; fault = λ _. none; temp_name = λ p. p ++ codes ".tmp" }

abbrev ping : Request
ping = record {
  method = codes "POST";
  host = codes "a.io";
  path = codes "/api/webhooks/app-001";
  tls = true;
  headers =
      (codes "X-Github-Event", codes "ping")
      ∷ (codes "X-Hub-Signature-256", codes "sha256=key{}")
      ∷ [];
  cookies = [];
  query = [];
  path_values = (codes "app_id", codes "app-001") ∷ [];
  form_parses = true;
  form = [];
  body = codes "{}";
}

abbrev apps : Applications.Service
apps = record {
  store = record { root = codes "/d"; files = [] };
  apps = (codes "app-001", record shop { webhook_secret = codes "key" }) ∷ [];
}

abbrev idle : Deployments.Service
idle = record {
  store = record { root = codes "/d"; files = [] };
  queue = [];
  deployments = [];
  cancel_fns = [];
  next_context = 0;
  cancelled = [];
}

serve_http-IsSignedOr_example :
    IsSignedOr codec working 3 ping apps idle (serve_http codec working 3 ping apps idle).0
serve_http-IsSignedOr_example = serve_http-IsSignedOr codec working 3 ping apps idle
