-- ===== src/Deployables.antt =====
-- pkg/kubernetes: the parts of a stage, what they build from the request and create through the
-- Kubernetes client. Of the messages and of the objects of the API only the fields are kept that
-- the models use; a number of a port or a size is never negative.
pub mod Labels
pub mod Selectors
pub mod Storages
pub mod Volumes
pub mod Objects
pub mod Files
pub mod Mounted
pub mod Provided
pub mod Claims
pub mod Endpoints
pub mod Exclusive
pub mod Loops
pub mod Created
pub mod Groups
pub mod Namespace
pub mod Environment
pub mod Deployment
use deployment_manager.Common.{ℕ, Bool, false, Option, List, String, Map}

-- the constants of grpc_application_go.StorageType, and any other value
pub data StorageType : Type 0 where
  ephemeral cluster_local cluster_replica experimental_cluster_replica other : StorageType

pub record Storage : Type 0 where
  pub size : ℕ
  pub mount_path : String
  pub type : StorageType

-- grpc_application_go.EndpointType
pub data EndpointKind : Type 0 where
  is_alive rest web prometheus ingestion : EndpointKind

pub record Endpoint : Type 0 where
  pub kind : EndpointKind
  pub path : String
  pub options : Map String

pub record Port : Type 0 where
  pub name : String
  pub internal_port : ℕ
  pub exposed_port : ℕ
  pub endpoints : List Endpoint

pub record ConfigFile : Type 0 where
  pub config_file_id : String
  pub mount_path : String
  pub content : String

pub record ImageCredentials : Type 0 where
  pub username : String
  pub password : String
  pub email : String
  pub docker_repository : String

-- grpc_conductor_go.ServiceInstance
pub record Service : Type 0 where
  pub organization_id : String
  pub app_instance_id : String
  pub service_id : String
  pub service_name : String
  pub service_instance_id : String
  pub service_group_id : String
  pub service_group_name : String
  pub service_group_instance_id : String
  pub labels : Map String  -- a nil map is the empty one
  pub environment_variables : Map String
  pub storage : List Storage
  pub exposed_ports : List Port
  pub configs : List ConfigFile
  pub image : String
  pub replicas : ℕ
  pub credentials : Option ImageCredentials
  pub run_arguments : List String

-- grpc_conductor_go.PublicSecurityRuleInstance
pub record PublicRule : Type 0 where
  pub target_service_group_instance_id : String
  pub target_service_instance_id : String
  pub target_port : ℕ

-- grpc_conductor_go.DeviceGroupSecurityRuleInstance
pub record DeviceGroupRule : Type 0 where
  pub rule_id : String
  pub target_service_group_instance_id : String
  pub target_service_id : String
  pub target_service_instance_id : String
  pub target_port : ℕ
  pub device_group_jwt_secrets : List String

pub record Stage : Type 0 where
  pub stage_id : String
  pub services : List Service
  pub public_rules : List PublicRule
  pub device_group_rules : List DeviceGroupRule

-- entities.DeploymentMetadata
pub record Metadata : Type 0 where
  pub fragment_id : String
  pub stage : Stage
  pub namespace : String
  pub nalej_variables : Map String
  pub organization_id : String
  pub organization_name : String
  pub app_descriptor_id : String
  pub app_descriptor_name : String
  pub app_instance_id : String
  pub app_name : String
