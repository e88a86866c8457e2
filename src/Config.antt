-- ===== src/Config.antt =====
-- internal/config/config.go: the configuration from the environment. The parsers of numbers, Booleans
-- and durations, and `filepath.Abs`, are parameters; a duration is in nanoseconds.
use liteploy.Common.{
  ℕ, ◌*◌, Bool, false, Option, none, some, [], ltb, if◌then◌else◌, is_empty, Outcome, ok, err,
}
use liteploy.Common.Int.{ℤ, pos, negsuc}
use liteploy.Common.Text.{Text, codes}

pub record Config : Type 0 where
  pub http_addr : Text
  pub data_dir : Text
  pub log_level : Text
  pub log_json : Bool
  pub docker_host : Text
  pub caddy_admin_addr : Text
  pub session_secret : Text
  pub session_max_age : ℤ
  pub max_concurrent_deployments : ℤ
  pub deployment_timeout : ℤ
  pub health_check_timeout : ℤ
  pub git_timeout : ℤ
  pub dev_mode : Bool

-- `getenv` is empty for a variable that is not set.
pub record Environment : Type 0 where
  pub getenv : Text → Text
  pub abs : Text → Option Text
  pub parse_bool : Text → Option Bool
  pub parse_int : Text → Option ℤ
  pub parse_duration : Text → Option ℤ

pub data ConfigError : Type 0 where
  too_few too_many : ConfigError

abbrev parsed_or {ℓ} : {A : Type ℓ} → A → Option A → A
parsed_or default none = default
parsed_or default (some a) = a

unfoldable pub env_string : Environment → Text → Text → Text
env_string e key default = if is_empty (e.getenv key) then default else e.getenv key

unfoldable pub env_bool : Environment → Text → Bool → Bool
env_bool e key default =
    if is_empty (e.getenv key) then default else parsed_or default (e.parse_bool (e.getenv key))

unfoldable pub env_int : Environment → Text → ℤ → ℤ
env_int e key default =
    if is_empty (e.getenv key) then default else parsed_or default (e.parse_int (e.getenv key))

unfoldable pub env_duration : Environment → Text → ℤ → ℤ
env_duration e key default =
    if is_empty (e.getenv key) then default else parsed_or default (e.parse_duration (e.getenv key))

abbrev minutes : ℕ → ℤ
minutes n = pos (n * 60 * 1000000000)

unfoldable pub validate : Config → Option ConfigError
validate c = elim c.max_concurrent_deployments [
  | negsuc _ ↦ some too_few
  | pos n ↦ if ltb n 1 then some too_few else if ltb 4 n then some too_many else none
]

unfoldable pub read_config : Environment → Config
unfolding env_string env_bool env_int env_duration
read_config e =
    let dir = env_string e (codes "LITEPLOY_DATA_DIR") (codes "/var/lib/liteploy") in
    record {
      http_addr = env_string e (codes "LITEPLOY_HTTP_ADDR") (codes ":8080");
      data_dir = parsed_or dir (e.abs dir);
      log_level = env_string e (codes "LITEPLOY_LOG_LEVEL") (codes "info");
      log_json = env_bool e (codes "LITEPLOY_LOG_JSON") false;
      docker_host = env_string e (codes "LITEPLOY_DOCKER_HOST") [];
      caddy_admin_addr =
          env_string e (codes "LITEPLOY_CADDY_ADMIN") (codes "http://localhost:2019");
      session_secret = e.getenv (codes "LITEPLOY_SESSION_SECRET");
      session_max_age = env_duration e (codes "LITEPLOY_SESSION_MAX_AGE") (minutes (24 * 60));
      max_concurrent_deployments = env_int e (codes "LITEPLOY_MAX_DEPLOYMENTS") (pos 1);
      deployment_timeout = env_duration e (codes "LITEPLOY_DEPLOYMENT_TIMEOUT") (minutes 30);
      health_check_timeout = env_duration e (codes "LITEPLOY_HEALTH_CHECK_TIMEOUT") (minutes 2);
      git_timeout = env_duration e (codes "LITEPLOY_GIT_TIMEOUT") (minutes 10);
      dev_mode = env_bool e (codes "LITEPLOY_DEV_MODE") false;
    }

unfoldable pub load : Environment → Outcome ConfigError Config
unfolding validate read_config
load e = elim (validate (read_config e)) [ some x ↦ err x | none ↦ ok (read_config e) ]
