-- ===== src/Application/Types.antt =====
-- internal/application/application.go: the record of an application. A field of a string type with
-- fixed values is a data type with a case for any other value.
use liteploy.Common.{ℕ, Bool, true, false, Option, List, ◌∷◌, []}
use liteploy.Common.Int.{ℤ}
use liteploy.Common.Text.{Text, codes}
use liteploy.Common.Table.{Table}

pub data SourceType : Type 0 where
  no_type git image compose : SourceType
  other_type : Text → SourceType

pub data ServiceType : Type 0 where
  unset web api worker internal : ServiceType
  other_service : Text → ServiceType

pub data Status : Type 0 where
  unknown created running stopped deploying failed : Status

pub record Volume : Type 0 where
  pub host_path : Text
  pub container_path : Text

pub record RegistryAuth : Type 0 where
  pub server_address : Text
  pub username : Text
  pub password : Text

-- The limit on processors is a float that the program only hands on: here its bits.
pub record ResourceLimits : Type 0 where
  pub memory_mb : ℤ
  pub cpu_bits : ℕ

pub record Source : Type 0 where
  pub type : SourceType
  pub git_url : Text
  pub git_branch : Text
  pub dockerfile_path : Text
  pub service_path : Text
  pub build_context : Text
  pub git_auth_type : Text
  pub git_token : Text
  pub git_ssh_key : Text
  pub image_ref : Text
  pub registry_auth : Option RegistryAuth
  pub compose_file : Text

pub record Application : Type 0 where
  pub id : Text
  pub name : Text
  pub created_at : ℕ
  pub updated_at : ℕ
  pub source : Source
  pub project_id : Text
  pub service_type : ServiceType
  pub status : Status
  pub domains : List Text
  pub port : ℤ
  pub container_id : Text
  pub image_id : Text
  pub last_deployment_id : Text
  pub healthcheck_path : Text
  pub network_name : Text
  pub labels : Table Text
  pub webhook_secret : Text
  pub resource_limits : Option ResourceLimits
  pub volumes : List Volume

-- A worker or an internal service, which has no public route.
abbrev pub is_private : ServiceType → Bool
is_private worker = true
is_private internal = true
is_private _ = false

unfoldable pub managed_labels : Application → Table Text
managed_labels a =
    (codes "liteploy.app_id", a.id)
    ∷ (codes "liteploy.app_name", a.name)
    ∷ (codes "liteploy.managed", codes "true")
    ∷ []
