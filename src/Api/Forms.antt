-- ===== src/Api/Forms.antt =====
-- internal/api/handlers_app.go: what a form says of an application.
use liteploy.Common.{
  Bool, false, ◌&&◌, ◌||◌, not, Option, none, some, List, [], ◌∷◌, ◌==◌, ltb, if◌then◌else◌,
  is_empty,
}
use liteploy.Common.Int.{ℤ, pos, negsuc}
use liteploy.Common.Text.{Text, codes, text_eq, trim_space}
use liteploy.Common.Table.{get}
use liteploy.Http.{Request, form_value}
use liteploy.Application.Types.{
  Application, SourceType, no_type, git, image, compose, other_type, ServiceType, unset, web, api,
  worker, internal, other_service, unknown, RegistryAuth, ResourceLimits, Volume,
}
use liteploy.Api.{Host}

unfoldable pub source_type_of : Text → SourceType
source_type_of t =
    if is_empty t
    then no_type
    else if t == codes "git"
    then git
    else if t == codes "image"
    then image
    else if t == codes "compose"
    then compose
    else other_type t

unfoldable pub service_type_of : Text → ServiceType
service_type_of t =
    if is_empty t
    then unset
    else if t == codes "web"
    then web
    else if t == codes "api"
    then api
    else if t == codes "worker"
    then worker
    else if t == codes "internal"
    then internal
    else other_service t

-- `formInt`
unfoldable pub form_int : Host → Request → Text → ℤ → ℤ
form_int h r field default = elim (h.scan_int (form_value r field)) [ none ↦ default | some n ↦ n ]

abbrev values_of_form : Option (List Text) → List Text
values_of_form none = []
values_of_form (some l) = l

-- `r.Form[name]`
abbrev pub form_values : Request → Text → List Text
form_values r name = values_of_form (get r.form name)

abbrev is_given : Request → Text → Bool
is_given r name = not (is_empty (form_value r name))

abbrev has_registry : Request → Bool
has_registry r = is_given r (codes "registry_username") || is_given r (codes "registry_password")

-- The application that `handleApplicationCreate` hands to `Create`.
unfoldable pub new_application : Host → Request → Text → Application
unfolding source_type_of service_type_of form_int
new_application h r id = record {
  id = id;
  name = form_value r (codes "name");
  created_at = 0;
  updated_at = 0;
  source = record {
    type = source_type_of (form_value r (codes "source_type"));
    git_url = form_value r (codes "git_url");
    git_branch = form_value r (codes "git_branch");
    dockerfile_path = form_value r (codes "dockerfile_path");
    service_path = form_value r (codes "service_path");
    build_context = form_value r (codes "build_context");
    git_auth_type = form_value r (codes "git_auth_type");
    git_token = form_value r (codes "git_token");
    git_ssh_key = form_value r (codes "git_ssh_key");
    image_ref = form_value r (codes "image_ref");
    registry_auth =
        if has_registry r
        then some (record {
          server_address = form_value r (codes "registry_server");
          username = form_value r (codes "registry_username");
          password = form_value r (codes "registry_password");
        })
        else none;
    compose_file = [];
  };
  project_id = form_value r (codes "project_id");
  service_type =
      if is_given r (codes "service_type")
      then service_type_of (form_value r (codes "service_type"))
      else web;
  status = unknown;
  domains = [];
  port = form_int h r (codes "port") (pos 3000);
  container_id = [];
  image_id = [];
  last_deployment_id = [];
  healthcheck_path = [];
  network_name = [];
  labels = [];
  webhook_secret = [];
  resource_limits = none;
  volumes = [];
}

abbrev old_password : Option RegistryAuth → Text
old_password none = []
old_password (some a) = a.password

abbrev given_or : Request → Text → Text → Text
given_or r name old = if is_given r name then form_value r name else old

unfoldable pub updated_registry : Request → Option RegistryAuth → Option RegistryAuth
updated_registry r old =
    if has_registry r
    then some (record {
      server_address = form_value r (codes "registry_server");
      username = form_value r (codes "registry_username");
      password = given_or r (codes "registry_password") (old_password old);
    })
    else old

abbrev positive : ℤ → Bool
positive (pos n) = ltb 0 n
positive (negsuc _) = false

-- The memory limit in the record of the limits, which is made where there is none.
unfoldable pub updated_limits : ℤ → Option ResourceLimits → Option ResourceLimits
updated_limits memory none =
    if positive memory then some (record { memory_mb = memory; cpu_bits = 0 }) else none
updated_limits memory (some l) =
    some (record l { memory_mb = if positive memory then memory else pos 0 })

unfoldable pub volumes_of : List Text → List Text → List Volume
volumes_of (h ∷ hs) (c ∷ cs) =
    let host = trim_space h in
    let container = trim_space c in
    let rest = volumes_of hs cs in
    if not (is_empty host) && not (is_empty container)
    then record { host_path = host; container_path = container } ∷ rest
    else rest
volumes_of _ _ = []

-- The application that `handleApplicationUpdate` hands to `Update`.
unfoldable pub updated_application : Host → Request → Application → Application
unfolding updated_registry updated_limits volumes_of form_int service_type_of
updated_application h r app = record app {
  name = form_value r (codes "name");
  port = form_int h r (codes "port") app.port;
  source = record app.source {
    git_url = form_value r (codes "git_url");
    git_branch = form_value r (codes "git_branch");
    dockerfile_path = form_value r (codes "dockerfile_path");
    service_path = form_value r (codes "service_path");
    build_context = form_value r (codes "build_context");
    git_auth_type = form_value r (codes "git_auth_type");
    git_token = given_or r (codes "git_token") app.source.git_token;
    git_ssh_key = given_or r (codes "git_ssh_key") app.source.git_ssh_key;
    image_ref = form_value r (codes "image_ref");
    registry_auth = updated_registry r app.source.registry_auth;
  };
  service_type =
      if is_given r (codes "service_type")
      then service_type_of (form_value r (codes "service_type"))
      else app.service_type;
  healthcheck_path = form_value r (codes "healthcheck_path");
  resource_limits = updated_limits (form_int h r (codes "memory_mb") (pos 0)) app.resource_limits;
  volumes =
      volumes_of (form_values r (codes "vol_host[]")) (form_values r (codes "vol_container[]"));
}
