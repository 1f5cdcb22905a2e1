-- ===== src/Monitored/Worst.antt =====
-- internal/structures/monitor/memory_monitored_services.go: what the two loops of
-- SetResourceStatus find, without regard to the order in which Go visits the map.
use deployment_manager.Common.{
  ◌≤◌, ◌≡◌, refl, ap, ◌∙◌, Bool, true, false, ◌||◌, List, [], ◌∷◌, String, arith, if◌then◌else◌,
  Map,
}
use deployment_manager.Entities.Status.{
  NalejServiceStatus, eq_service, lt_service, service_ord, services_to_fragment_status,
}
use deployment_manager.Entities.Monitor.{
  EndpointInstance, MonitoredPlatformResource, MonitoredServiceEntry, MonitoredAppEntry,
  remove_pending,
}
use deployment_manager.Monitored.ResourceStatus.{
  write_resource, settle_resource, service_after, scan_resources, scan_services, refresh_service,
  refresh_app,
}

-- a value of the map has the status
unfoldable pub occurs {ℓ} :
    {V : Type ℓ} → (V → NalejServiceStatus) → NalejServiceStatus → Map V → Bool
occurs status s [] = false
occurs status s ((k, v) ∷ m) = eq_service (status v) s || occurs status s m

-- ERROR if it occurs; else the first of SCHEDULED, WAITING and DEPLOYING that occurs; else RUNNING
abbrev pub worst : (NalejServiceStatus → Bool) → NalejServiceStatus
worst found =
    if found NalejServiceStatus.error
    then NalejServiceStatus.error
    else if found NalejServiceStatus.scheduled
    then NalejServiceStatus.scheduled
    else if found NalejServiceStatus.waiting
    then NalejServiceStatus.waiting
    else if found NalejServiceStatus.deploying
    then NalejServiceStatus.deploying
    else NalejServiceStatus.running

scan_resources-worst_from :
    (m : Map MonitoredPlatformResource) (f : NalejServiceStatus) (info : String)
    → service_ord f ≤ 3
    → (scan_resources m f info).0 ≡ worst (λ s. occurs (λ r. r.status) s m || eq_service f s)
unfolding scan_resources occurs
scan_resources-worst_from [] f info h = ground arith
scan_resources-worst_from ((k, r) ∷ m) f info h =
    ground (arith, scan_resources-worst_from m (if lt_service r.status f then r.status else f) info)

pub scan_resources-worst :
    (m : Map MonitoredPlatformResource) (info : String)
    → (scan_resources m NalejServiceStatus.running info).0 ≡ worst (λ s. occurs (λ r. r.status) s m)
scan_resources-worst m info =
    ground (arith, scan_resources-worst_from m NalejServiceStatus.running info)

scan_services-worst_from :
    (m : Map MonitoredServiceEntry) (f : NalejServiceStatus) (info : String)
    → service_ord f ≤ 3
    → (scan_services m f info).0 ≡ worst (λ s. occurs (λ r. r.status) s m || eq_service f s)
unfolding scan_services occurs
scan_services-worst_from [] f info h = ground arith
scan_services-worst_from ((k, r) ∷ m) f info h = ground (
  arith,
  scan_services-worst_from m (if lt_service r.status f then r.status else f)
      (if lt_service r.status f then r.info else info),
)

pub scan_services-worst :
    (m : Map MonitoredServiceEntry) (info : String)
    → (scan_services m NalejServiceStatus.running info).0 ≡ worst (λ s. occurs (λ r. r.status) s m)
scan_services-worst m info =
    ground (arith, scan_services-worst_from m NalejServiceStatus.running info)

abbrev pub resource_occurs : MonitoredServiceEntry → NalejServiceStatus → Bool
resource_occurs service s = occurs (λ r. r.status) s service.resources

abbrev pub service_occurs : MonitoredAppEntry → NalejServiceStatus → Bool
service_occurs app s = occurs (λ r. r.status) s app.services

pub refresh_service-worst :
    (s : MonitoredServiceEntry)
    → ((refresh_service s).status ≡ worst (resource_occurs (refresh_service s)))
      × ((refresh_service s).new_status
          ≡ (if eq_service (refresh_service s).status s.status then s.new_status else true))
unfolding refresh_service
refresh_service-worst s = (scan_resources-worst s.resources s.info, refl)

pub refresh_app-worst :
    (e : MonitoredAppEntry)
    → (refresh_app e).status ≡ services_to_fragment_status (worst (service_occurs (refresh_app e)))
unfolding refresh_app
refresh_app-worst e = ap services_to_fragment_status (scan_services-worst e.services e.info)

settle_resource-status :
    (uid : String) (status : NalejServiceStatus) (s : MonitoredServiceEntry)
    → ((settle_resource uid status s).status ≡ s.status)
      × ((settle_resource uid status s).new_status ≡ s.new_status)
unfolding settle_resource remove_pending
settle_resource-status uid status s = (ground arith, ground arith)

-- the status of the service, and the flag that says that it changed
pub service_after-worst :
    (r : MonitoredPlatformResource) (uid : String) (status : NalejServiceStatus) (info : String)
    (endpoints : List EndpointInstance) (s : MonitoredServiceEntry)
    → let t = service_after r uid status info endpoints s in
      (t.status ≡ worst (resource_occurs t))
      × (t.new_status ≡ (if eq_service t.status s.status then s.new_status else true))
unfolding service_after write_resource
service_after-worst r uid status info endpoints s =
    let t = settle_resource r.uid status (write_resource r uid status info endpoints s) in
    let kept = settle_resource-status r.uid status (write_resource r uid status info endpoints s) in
    let found = refresh_service-worst t in (found.0, found.1 ∙ rw (kept.0, kept.1) refl)
