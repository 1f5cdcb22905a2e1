-- ===== src/Monitored/Outcome.antt =====
-- internal/structures/monitor/memory_monitored_services.go: what SetResourceStatus leaves behind
-- on each of its paths.
use deployment_manager.Common.{
  ◌≡◌, refl, ◌≢◌, ◌↔◌, inl, inr, true, false, none, some, List, String, arith, if◌then◌else◌,
  lookup, insert, eq_iff, Bool-cases, Option-cases, has_key-lookup, has_key-lookup-none,
  lookup-insert, AllEntries-lookup, lookup-insert_self,
}
use deployment_manager.Entities.Status.{
  NalejServiceStatus, eq_service, eq_service_iff, services_to_fragment_status,
}
use deployment_manager.Entities.Monitor.{
  EndpointInstance, MonitoredPlatformResource, MonitoredServiceEntry, MonitoredAppEntry,
}
use deployment_manager.Monitored.{Entries, Error, is_monitored_resource}
use deployment_manager.Monitored.ServiceInvariant.{service_after-lookup, resource_after}
use deployment_manager.Monitored.Invariant.{ServiceAt, IsValid, IsValid-lookup}
use deployment_manager.Monitored.ResourceStatus.{service_after, refresh_app, set_resource_status}
use deployment_manager.Monitored.Worst.{
  worst, resource_occurs, service_occurs, service_after-worst, refresh_app-worst,
}

-- the fragment, the service and the resource that three identifiers name
pub record Found (id service uid : String) (p : Entries) : Type 0 where
  pub entry : MonitoredAppEntry
  pub entry_found : lookup id p ≡ some entry
  pub serv : MonitoredServiceEntry
  pub serv_found : lookup service entry.services ≡ some serv
  pub resource : MonitoredPlatformResource
  pub resource_found : lookup uid serv.resources ≡ some resource

-- the entry once a resource that was found has taken a new status
abbrev pub entry_after :
    (id service uid : String)
    → NalejServiceStatus
    → String
    → List EndpointInstance
    → (p : Entries) → Found id service uid p
    → MonitoredAppEntry
entry_after id service uid status info endpoints p f = refresh_app (record f.entry {
  services =
      insert service (service_after f.resource uid status info endpoints f.serv) f.entry.services;
})

module _ (id service uid : String) (status : NalejServiceStatus) (info : String)
    (endpoints : List EndpointInstance) (p : Entries) where
  -- the three ways in which a call ends
  pub data Outcome : Entries × Error → Type 0 where
    unknown :
        (text : String) → is_monitored_resource id service uid p ≡ false → Outcome (p, some text)
    unchanged :
        (f : Found id service uid p)
        → is_monitored_resource id service uid p ≡ true
        → f.resource.status ≡ status
        → Outcome (p, none)
    changed :
        (f : Found id service uid p)
        → is_monitored_resource id service uid p ≡ true
        → f.resource.status ≢ status
        → Outcome (insert id (entry_after id service uid status info endpoints p f) p, none)

  pub set_resource_status-Outcome :
      Outcome (set_resource_status id service uid status info endpoints p)
  unfolding set_resource_status is_monitored_resource
  set_resource_status-Outcome = elim (Option-cases (lookup id p)) [
    | inl missing ↦
        rw (missing, set_resource_status) (unknown _ (rw (missing, is_monitored_resource)))
    | inr (e, found) ↦ elim (Option-cases (lookup service e.services)) [
      | inl missing ↦
          rw (found, missing, set_resource_status)
            (unknown _ (rw (found, missing, is_monitored_resource)))
      | inr (s, here) ↦ elim (Option-cases (lookup uid s.resources)) [
        | inl missing ↦
            rw (found, here, missing, set_resource_status)
              (unknown _ (
                rw (
                  found,
                  here,
                  has_key-lookup-none uid s.resources missing,
                  is_monitored_resource,
                )))
        | inr (r, there) ↦
            let f : Found id service uid p = record {
              entry = e;
              entry_found = found;
              serv = s;
              serv_found = here;
              resource = r;
              resource_found = there;
            } in
            let known : is_monitored_resource id service uid p ≡ true =
              rw (found, here, has_key-lookup uid s.resources r there, is_monitored_resource) in
            rw (found, here, there, set_resource_status)
              (elim (Bool-cases (eq_service r.status status)) [
                | inl same ↦ rw same (unchanged f known ((eq_service_iff r.status status).0 same))
                | inr new ↦
                    rw new (changed f known (λ e. ground (arith, eq_service_iff r.status status)))
              ])
      ]
    ]
  ]

  frame_of_Outcome :
      {r : Entries × Error}
      → Outcome r
      → ((r.1 ≡ none) ↔ (is_monitored_resource id service uid p ≡ true))
        × (r.1 ≢ none → r.0 ≡ p)
        × ((j : String) → j ≢ id → lookup j r.0 ≡ lookup j p)
  frame_of_Outcome (unknown text h) = (ground arith, λ _. refl, λ j ne. refl)
  frame_of_Outcome (unchanged f h same) = (ground arith, λ _. refl, λ j ne. refl)
  frame_of_Outcome (changed f h new) = (
    ground arith,
    λ bad. absurd (bad refl),
    λ j ne. ground (
      arith,
      lookup-insert id j (entry_after id service uid status info endpoints p f) p,
      eq_iff id j,
    ),
  )

  -- SetResourceStatus fails exactly when the fragment, the service or the resource is not
  -- monitored. When it fails it changes nothing, and it never changes another fragment's entry.
  pub set_resource_status-frame :
      let r = set_resource_status id service uid status info endpoints p in
      ((r.1 ≡ none) ↔ (is_monitored_resource id service uid p ≡ true))
      × (r.1 ≢ none → r.0 ≡ p)
      × ((j : String) → j ≢ id → lookup j r.0 ≡ lookup j p)
  set_resource_status-frame = frame_of_Outcome set_resource_status-Outcome

  module _ (f : Found id service uid p) where
    -- what the call leaves behind for the fragment, the service and the resource
    pub record Updated (r : Entries × Error) : Type 0 where
      pub no_error : r.1 ≡ none
      pub entry : MonitoredAppEntry
      pub entry_found : lookup id r.0 ≡ some entry
      pub entry_worst : entry.status ≡ services_to_fragment_status (worst (service_occurs entry))
      pub serv : MonitoredServiceEntry
      pub serv_found : lookup service entry.services ≡ some serv
      pub service_worst : serv.status ≡ worst (resource_occurs serv)
      pub service_flag :
          serv.new_status
          ≡ (if eq_service serv.status f.serv.status then f.serv.new_status else true)
      pub resource : MonitoredPlatformResource
      pub resource_found : lookup uid serv.resources ≡ some resource
      pub resource_set : (resource.status ≡ status) × (resource.info ≡ info)

    set_resource_status_changed :
        f.resource.status ≢ status
        → set_resource_status id service uid status info endpoints p
          ≡ (insert id (entry_after id service uid status info endpoints p f) p, none)
    unfolding set_resource_status
    set_resource_status_changed new =
        let differs : eq_service f.resource.status status ≡ false =
          ground (arith, eq_service_iff f.resource.status status) in
        rw (f.entry_found, f.serv_found, f.resource_found, set_resource_status) (rw differs)

    -- When a monitored resource takes another status on a valid map, the call succeeds, the
    -- resource has the new status and information, its service has the worst of the statuses of
    -- its resources (ERROR before SCHEDULED, WAITING, DEPLOYING and RUNNING, whatever the order of
    -- the map) and is flagged for notification if that changed it, and the fragment has the
    -- translation of the worst of the statuses of its services.
    pub set_resource_status-Updated :
        f.resource.status ≢ status
        → IsValid p
        → Updated (set_resource_status id service uid status info endpoints p)
    unfolding refresh_app
    set_resource_status-Updated new v =
        let a = IsValid-lookup id f.entry p v f.entry_found in
        let b =
          AllEntries-lookup ServiceAt service f.serv f.entry.services a.1.services f.serv_found in
        let s = service_after f.resource uid status info endpoints f.serv in
        let found = service_after-worst f.resource uid status info endpoints f.serv in
        let e : MonitoredAppEntry = record f.entry {
          services = insert service s f.entry.services;
        } in
        rw (set_resource_status_changed new) (record {
          no_error = refl;
          entry = entry_after id service uid status info endpoints p f;
          entry_found =
              lookup-insert_self id (entry_after id service uid status info endpoints p f) p;
          entry_worst = refresh_app-worst e;
          serv = s;
          serv_found = lookup-insert_self service s f.entry.services;
          service_worst = found.0;
          service_flag = found.1;
          resource =
              resource_after f.serv f.resource uid status info endpoints f.resource_found
                (ground (arith, eq_service_iff f.resource.status status)) b.1;
          resource_found =
              service_after-lookup f.serv f.resource uid status info endpoints f.resource_found
                (ground (arith, eq_service_iff f.resource.status status)) b.1;
          resource_set = (refl, refl);
        })
