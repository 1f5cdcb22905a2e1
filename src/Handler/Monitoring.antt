-- ===== src/Handler/Monitoring.antt =====
-- pkg/handler/manager.go: getMonitoringData, the entry that a stage adds to the monitor.
use deployment_manager.Common.{
  ℕ, ◌+◌, refl, true, List, [], ◌∷◌, String, pos, Map, insert, total, length, AllEntries, Distinct,
  AllEntries-insert, Distinct-insert,
}
use deployment_manager.Entities.Status.{NalejServiceStatus, FragmentStatus}
use deployment_manager.Entities.Monitor.{MonitoredServiceEntry, MonitoredAppEntry}
use deployment_manager.Monitored.Invariant.{ServiceAt, IsValidEntry}
use deployment_manager.Handler.Requests.{ServiceInstance, DeploymentStage, DeploymentFragment}

-- the literal in the loop over the stage's services
unfoldable pub service_entry : String → ServiceInstance → MonitoredServiceEntry
service_entry fragment_id s = record {
  organization_id = s.organization_id;
  app_descriptor_id = s.app_descriptor_id;
  app_instance_id = s.app_instance_id;
  service_group_id = s.service_group_id;
  service_group_instance_id = s.service_group_instance_id;
  fragment_id = fragment_id;
  service_id = s.service_id;
  service_name = s.service_name;
  service_instance_id = s.service_instance_id;
  num_pending_checks = pos 0;
  resources = [];
  status = NalejServiceStatus.scheduled;
  new_status = true;
  info = "";
  endpoints = [];
}

-- for _, s := range stage.Services
unfoldable pub service_entries :
    String → List ServiceInstance → Map MonitoredServiceEntry → Map MonitoredServiceEntry
unfolding service_entry
service_entries fragment_id [] services = services
service_entries fragment_id (s ∷ rest) services =
    service_entries fragment_id rest
      (insert s.service_instance_id (service_entry fragment_id s) services)

-- for _, dep := range fragment.Stages
unfoldable pub total_number_services : List DeploymentStage → ℕ → ℕ
total_number_services [] n = n
total_number_services (dep ∷ rest) n = total_number_services rest (n + length dep.services)

-- getMonitoringData. `Status` is given the constant NALEJ_SERVICE_SCHEDULED, which is 0, and so
-- FRAGMENT_WAITING.
unfoldable pub get_monitoring_data :
    String → DeploymentStage → DeploymentFragment → MonitoredAppEntry
unfolding service_entries total_number_services
get_monitoring_data namespace stage fragment =
    let services = service_entries fragment.fragment_id stage.services [] in
    record {
      organization_id = fragment.organization_id;
      app_descriptor_id = fragment.app_descriptor_id;
      app_instance_id = fragment.app_instance_id;
      deployment_id = fragment.deployment_id;
      status = FragmentStatus.waiting;
      fragment_id = fragment.fragment_id;
      services = services;
      num_pending_checks = pos (length services);
      info = "";
      total_services = pos (total_number_services fragment.stages 0);
      new_status = true;
      namespace = namespace;
    }

service_entry-ServiceAt :
    (id : String) (s : ServiceInstance) → ServiceAt s.service_instance_id (service_entry id s)
unfolding service_entry total
service_entry-ServiceAt id s = (refl, record { uids = tt; distinct = tt; counted = refl })

service_entries-IsValid :
    (id : String) (l : List ServiceInstance) (m : Map MonitoredServiceEntry)
    → AllEntries ServiceAt m
    → Distinct m
    → AllEntries ServiceAt (service_entries id l m) × Distinct (service_entries id l m)
unfolding service_entries
service_entries-IsValid id [] m a d = (a, d)
service_entries-IsValid id (s ∷ l) m a d =
    service_entries-IsValid id l (insert s.service_instance_id (service_entry id s) m)
      (AllEntries-insert ServiceAt s.service_instance_id (service_entry id s) m a
        (service_entry-ServiceAt id s))
      (Distinct-insert s.service_instance_id (service_entry id s) m d)

-- The entry that a stage adds is valid: a caller of AddEntry keeps its side of the invariant.
pub get_monitoring_data-IsValidEntry :
    (namespace : String) (stage : DeploymentStage) (fragment : DeploymentFragment)
    → IsValidEntry (get_monitoring_data namespace stage fragment)
unfolding get_monitoring_data
get_monitoring_data-IsValidEntry namespace stage fragment =
    let v = service_entries-IsValid fragment.fragment_id stage.services [] tt tt in
    record { services = v.0; distinct = v.1 }
