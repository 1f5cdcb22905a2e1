-- ===== src/Configuration.antt =====
-- pkg/config/config.go: what is asked of the configuration before the service starts. The table of
-- the names of platforms is generated code, and a parameter.
use deployment_manager.Common.{
  ℕ, Bool, true, false, ◌&&◌, ◌||◌, none, some, String, if◌then◌else◌, str_eq, ◌==◌,
}
use deployment_manager.Common.Result.{Result, failed, ok}
use deployment_manager.Handler.Requests.{is_blank}
use deployment_manager.Monitored.{Error}

-- NetworkType
pub data NetworkType : Type 0 where
  zt istio : NetworkType

-- NetworkTypeFromString
unfoldable pub network_type_from_string : String → Result NetworkType
network_type_from_string net =
    if str_eq net "zt"
    then ok NetworkType.zt
    else if str_eq net "istio"
    then ok NetworkType.istio
    else failed "unknown network type"

abbrev pub is_zt : NetworkType → Bool
is_zt NetworkType.zt = true
is_zt NetworkType.istio = false

-- the fields of Config that are resolved or validated; ports are never negative
pub record Config {ℓ} (P : Type ℓ) : Type ℓ where
  pub port : ℕ
  pub metrics_port : ℕ
  pub cluster_api_hostname : String
  pub cluster_api_port : ℕ
  pub login_hostname : String
  pub login_port : ℕ
  pub cluster_public_hostname : String
  pub management_hostname : String
  pub deployment_mgr_address : String
  pub email : String
  pub password : String
  pub dns : String
  pub target_platform_name : String
  pub target_platform : P
  pub cluster_id : String
  pub zt_nalej_image : String
  pub network_type : NetworkType
  pub unified_logging_address : String
  pub storage_fabric_address : String

-- envOrElse, where the environment gives a blank for a name that it lacks
unfoldable pub env_or_else : (String → String) → String → String → String
env_or_else env name value = if is_blank value then env name else value

module _ {ℓ} {P : Type ℓ} where
  -- Resolve
  unfoldable pub resolve : (String → String) → String → Config P → Config P
  unfolding env_or_else
  resolve env name conf = record conf { cluster_id = env_or_else env name conf.cluster_id }

  -- Validate, the checks up to the one of the public host
  unfoldable pub validate_access : Config P → Error
  validate_access conf =
      if conf.port == 0
      then some "port must be valid"
      else if conf.metrics_port == 0
      then some "metricsPort must be valid"
      else if is_blank conf.cluster_api_hostname || (conf.cluster_api_port == 0)
      then some "clusterAPIHostname and clusterAPIPort must me set"
      else if is_blank conf.login_hostname || (conf.login_port == 0)
      then some "loginHostname and loginPort must be set"
      else if is_blank conf.deployment_mgr_address
      then some "depMgrAddress must be set"
      else if is_blank conf.email || is_blank conf.password
      then some "email and password must be set"
      else none

  -- Validate, the other checks
  unfoldable pub validate_platform : Config P → Error
  validate_platform conf =
      if is_blank conf.cluster_public_hostname
      then some "clusterPublicHostname must be set"
      else if is_blank conf.management_hostname
      then some "managementHostname must be set"
      else if is_blank conf.dns
      then some "dns list must be set"
      else if is_blank conf.target_platform_name
      then some "targetPlatform must be set"
      else if is_blank conf.unified_logging_address
      then some "UnifiedLoggingAddress must be set"
      else if is_blank conf.storage_fabric_address
      then some "StorageFabricAddress must be set"
      else if is_zt conf.network_type && is_blank conf.zt_nalej_image
      then some "ZTNalejImage must be set"
      else none

  -- Validate, which sets the platform when all checks pass
  unfoldable pub validate : (String → P) → Config P → Error × Config P
  unfolding validate_access validate_platform
  validate platform_value conf = elim (validate_access conf) [
    | some text ↦ (some text, conf)
    | none ↦ elim (validate_platform conf) [
      | some text ↦ (some text, conf)
      | none ↦ (none, record conf { target_platform = platform_value conf.target_platform_name })
    ]
  ]
