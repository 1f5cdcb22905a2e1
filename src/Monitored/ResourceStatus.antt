-- ===== src/Monitored/ResourceStatus.antt =====
-- internal/structures/monitor/memory_monitored_services.go: SetResourceStatus. The status of a
-- resource is set, the service's counter, endpoints and status follow, and then the entry's status.
use deployment_manager.Common.{
  true, none, some, List, [], ◌∷◌, String, if◌then◌else◌, inc, Map, lookup, insert, concat, ◌++◌,
}
use deployment_manager.Entities.Status.{
  NalejServiceStatus, eq_service, lt_service, services_to_fragment_status,
}
use deployment_manager.Entities.Monitor.{
  EndpointInstance, MonitoredPlatformResource, MonitoredServiceEntry, MonitoredAppEntry,
  remove_pending,
}
use deployment_manager.Monitored.{Entries, Error}

-- for _, res := range service.Resources: the status found, and the information. An ERROR ends
-- the loop and gives its information; a lower status gives none (the source assigns `info` there,
-- which nothing reads afterwards).
unfoldable pub scan_resources :
    Map MonitoredPlatformResource → NalejServiceStatus → String → NalejServiceStatus × String
scan_resources [] final info = (final, info)
scan_resources ((k, res) ∷ rest) final info =
    let next =
      scan_resources rest (if lt_service res.status final then res.status else final) info in
    if eq_service res.status NalejServiceStatus.error
    then (NalejServiceStatus.error, res.info)
    else next

-- for _, serv := range app.Services
unfoldable pub scan_services :
    Map MonitoredServiceEntry → NalejServiceStatus → String → NalejServiceStatus × String
scan_services [] final info = (final, info)
scan_services ((k, serv) ∷ rest) final info =
    let next =
      scan_services rest (if lt_service serv.status final then serv.status else final)
        (if lt_service serv.status final then serv.info else info) in
    if eq_service serv.status NalejServiceStatus.error
    then (NalejServiceStatus.error, serv.info)
    else next

-- the status, the information and the endpoints are written, and the counter goes up if the
-- resource was running
unfoldable pub write_resource :
    MonitoredPlatformResource
    → String
    → NalejServiceStatus
    → String
    → List EndpointInstance
    → MonitoredServiceEntry
    → MonitoredServiceEntry
write_resource resource uid status info endpoints service = record service {
  num_pending_checks =
      if eq_service resource.status NalejServiceStatus.running
      then inc service.num_pending_checks
      else service.num_pending_checks;
  resources = insert uid (record resource { status = status; info = info }) service.resources;
  endpoints = service.endpoints ++ endpoints;
}

-- the counter goes down if the new status is RUNNING
unfoldable pub settle_resource :
    String → NalejServiceStatus → MonitoredServiceEntry → MonitoredServiceEntry
settle_resource uid status service =
    if eq_service status NalejServiceStatus.running then remove_pending service uid else service

-- "Update service status"
unfoldable pub refresh_service : MonitoredServiceEntry → MonitoredServiceEntry
unfolding scan_resources
refresh_service service =
    let found = scan_resources service.resources NalejServiceStatus.running service.info in
    record service {
      new_status = if eq_service found.0 service.status then service.new_status else true;
      status = found.0;
      info = found.1;
    }

-- the status of the entry after its services were updated
unfoldable pub refresh_app : MonitoredAppEntry → MonitoredAppEntry
unfolding scan_services
refresh_app app =
    let found = scan_services app.services NalejServiceStatus.running app.info in
    record app { status = services_to_fragment_status found.0; info = found.1 }

-- what becomes of the service, once the new status is known to differ
unfoldable pub service_after :
    MonitoredPlatformResource
    → String
    → NalejServiceStatus
    → String
    → List EndpointInstance
    → MonitoredServiceEntry
    → MonitoredServiceEntry
unfolding write_resource settle_resource refresh_service
service_after resource uid status info endpoints service = refresh_service (
    settle_resource resource.uid status (write_resource resource uid status info endpoints service))

abbrev pub not_monitored : String → String → Error
not_monitored kind id = some (concat kind (concat " " (concat id " not monitored")))

-- SetResourceStatus
unfoldable pub set_resource_status :
    String
    → String
    → String
    → NalejServiceStatus
    → String
    → List EndpointInstance
    → Entries
    → Entries × Error
unfolding service_after refresh_app
set_resource_status fragment_id service_instance_id uid status info endpoints p =
    elim (lookup fragment_id p) [
      | none ↦ (p, not_monitored "app" fragment_id)
      | some app ↦ elim (lookup service_instance_id app.services) [
        | none ↦ (p, not_monitored "service" service_instance_id)
        | some service ↦ elim (lookup uid service.resources) [
          | none ↦ (p, not_monitored "resource" uid)
          | some resource ↦ if eq_service resource.status status then (p, none) else (
            insert fragment_id
                (refresh_app (record app {
                  services =
                      insert service_instance_id
                        (service_after resource uid status info endpoints service) app.services;
                }))
                p,
            none,
          )
        ]
      ]
    ]
