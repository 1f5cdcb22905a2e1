-- ===== src/Handler/Requests.antt =====
-- pkg/handler/handler.go, and the messages of github.com/nalej that it reads: only the fields that
-- the source uses are kept.
use deployment_manager.Common.{
  Bool, true, false, ◌||◌, Option, none, some, List, String, if◌then◌else◌, str_eq,
}

-- pbConductor.ServiceInstance, as getMonitoringData reads it
pub record ServiceInstance : Type 0 where
  pub organization_id : String
  pub app_descriptor_id : String
  pub app_instance_id : String
  pub service_group_id : String
  pub service_group_instance_id : String
  pub service_id : String
  pub service_name : String
  pub service_instance_id : String

pub record DeploymentStage : Type 0 where
  pub stage_id : String
  pub services : List ServiceInstance

pub record DeploymentFragment : Type 0 where
  pub organization_id : String
  pub fragment_id : String
  pub app_descriptor_id : String
  pub app_instance_id : String
  pub deployment_id : String
  pub stages : List DeploymentStage

-- the constants of the enumeration, and any other value
pub data RollbackPolicy : Type 0 where
  no_rollback always_retry limited_retry unknown : RollbackPolicy

pub record DeploymentFragmentRequest : Type 0 where
  pub request_id : String
  pub fragment : Option DeploymentFragment
  pub rollback_policy : RollbackPolicy

pub record UndeployRequest : Type 0 where
  pub organization_id : String
  pub app_instance_id : String

pub record UndeployFragmentRequest : Type 0 where
  pub organization_id : String
  pub app_instance_id : String
  pub deployment_fragment_id : String

-- s == ""
abbrev pub is_blank : String → Bool
is_blank s = str_eq s ""

-- ValidDeployFragmentRequest
unfoldable pub valid_deploy_fragment_request : DeploymentFragmentRequest → Bool
valid_deploy_fragment_request request =
    if is_blank request.request_id then false else elim request.fragment [
      | none ↦ false
      | some fragment ↦
          if is_blank fragment.fragment_id
          then false
          else if is_blank fragment.deployment_id
              || is_blank fragment.app_instance_id
              || is_blank fragment.organization_id
          then false
          else true
    ]

-- ValidUndeployRequest
unfoldable pub valid_undeploy_request : UndeployRequest → Bool
valid_undeploy_request request =
    if is_blank request.organization_id
    then false
    else if is_blank request.app_instance_id
    then false
    else true

-- ValidUndeployFragmentRequest
unfoldable pub valid_undeploy_fragment_request : UndeployFragmentRequest → Bool
valid_undeploy_fragment_request request =
    if is_blank request.organization_id
    then false
    else if is_blank request.app_instance_id
    then false
    else if is_blank request.deployment_fragment_id
    then false
    else true
