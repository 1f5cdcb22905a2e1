-- ===== src/Tests/Data.antt =====
-- The data of the tests: two stages of one fragment, a monitor that has met the first, and a
-- cluster that answers without errors.
use deployment_manager.Common.{none, some, List, [], ◌∷◌, String}
use deployment_manager.Entities.Status.{NalejServiceStatus}
use deployment_manager.Entities.Monitor.{
  MonitoredPlatformResource, MonitoredAppEntry, new_monitored_platform_resource,
}
use deployment_manager.Monitored.{Entries}
use deployment_manager.Monitored.Histories.{
  Call, adds_entry, adds_pending_resource, sets_resource_status, run,
}
use deployment_manager.Handler.Requests.{
  ServiceInstance, DeploymentStage, DeploymentFragment, UndeployFragmentRequest,
}
use deployment_manager.Handler.Loop.{Attempt}
use deployment_manager.Handler.Monitoring.{get_monitoring_data}
use deployment_manager.Handler.Process.{Cluster}

abbrev pub service_instance : String → ServiceInstance
service_instance id = record {
  organization_id = "org";
  app_descriptor_id = "desc";
  app_instance_id = "app";
  service_group_id = "group";
  service_group_instance_id = "group-instance";
  service_id = "service";
  service_name = "name";
  service_instance_id = id;
}

abbrev pub stage_one : DeploymentStage
stage_one = record {
  stage_id = "one";
  services = service_instance "db" ∷ service_instance "web" ∷ [];
}

abbrev pub stage_two : DeploymentStage
stage_two = record { stage_id = "two"; services = service_instance "cache" ∷ [] }

abbrev pub fragment : DeploymentFragment
fragment = record {
  organization_id = "org";
  fragment_id = "frag";
  app_descriptor_id = "desc";
  app_instance_id = "app";
  deployment_id = "deployment";
  stages = stage_one ∷ stage_two ∷ [];
}

abbrev pub entry_one : MonitoredAppEntry
entry_one = get_monitoring_data "ns" stage_one fragment

abbrev pub resource : String → String → MonitoredPlatformResource
resource service uid =
    new_monitored_platform_resource "frag" uid "desc" "app" "group" "group-instance" "service"
      service ""

abbrev pub history : List Call
history =
    adds_entry entry_one
    ∷ adds_pending_resource (resource "db" "uid-db")
    ∷ adds_pending_resource (resource "web" "uid-web")
    ∷ sets_resource_status "frag" "web" "uid-web" NalejServiceStatus.running "" []
    ∷ []

-- one fragment with two services of one resource each, of which the second runs
abbrev pub monitor : Entries
monitor = run history []

abbrev pub calm : Attempt
calm = record { registers = λ p. p; deploy_error = none; events = []; undeploy_error = none }

abbrev pub cluster : Cluster
cluster = record {
  namespace_error = none;
  namespace = "ns";
  preparation = record { error = none; deployable = some none };
  build_error = λ n. none;
  attempts = λ i k. calm;
}

abbrev pub undeploy_request : UndeployFragmentRequest
undeploy_request = record {
  organization_id = "org";
  app_instance_id = "app";
  deployment_fragment_id = "frag";
}
