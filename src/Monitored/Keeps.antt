-- ===== src/Monitored/Keeps.antt =====
-- internal/structures/monitor/memory_monitored_services.go: the calls of the monitor as the steps
-- of a machine, and the invariant along every history of calls.
use deployment_manager.Common.{
  ◌≡◌, ◌∙◌, inl, inr, false, List, [], ◌∷◌, String, arith, pos, eq_ℤ, lookup, has_key, insert,
  Bool-cases, Option-cases, Distinct-insert, Distinct-delete, Distinct-map_values,
  AllEntries-lookup, AllEntries-insert, AllEntries-delete, AllEntries-map_values,
}
use deployment_manager.Entities.Status.{NalejServiceStatus, eq_service}
use deployment_manager.Entities.Monitor.{
  EndpointInstance, MonitoredPlatformResource, MonitoredServiceEntry, MonitoredAppEntry,
  add_pending, remove_pending,
}
use deployment_manager.Monitored.{Entries, add_pending_resource, remove_entry}
use deployment_manager.Monitored.ResourceStatus.{
  write_resource, settle_resource, refresh_service, service_after, refresh_app, set_resource_status,
}
use deployment_manager.Monitored.Notify.{
  remove_entries, get_pending_notifications, reset_service, reset_entry,
  reset_services_unnotified_status, terminating_fragments,
}
use deployment_manager.Monitored.Checks.{update_app_status, count_not_running}
use deployment_manager.Monitored.ServiceInvariant.{
  is_running, add_pending-IsValidService, service_after-IsValidService,
}
use deployment_manager.Monitored.Invariant.{
  ServiceAt, EntryAt, IsValid, IsValid-insert, IsValid-lookup,
}

-- one service of an entry is replaced
EntryAt-services :
    (k i : String) (s : MonitoredServiceEntry) (e : MonitoredAppEntry)
    → EntryAt k e
    → ServiceAt i s
    → EntryAt k (record e { services = insert i s e.services })
EntryAt-services k i s e a w = (
  a.0,
  record {
    services = AllEntries-insert ServiceAt i s e.services a.1.services w;
    distinct = Distinct-insert i s e.services a.1.distinct;
  },
)

add_pending-service_instance_id :
    (s : MonitoredServiceEntry) (r : MonitoredPlatformResource)
    → (add_pending s r).service_instance_id ≡ s.service_instance_id
unfolding add_pending
add_pending-service_instance_id s r = ground arith

pub add_pending_resource-IsValid :
    (r : MonitoredPlatformResource) (p : Entries)
    → is_running r.status ≡ false
    → IsValid p
    → IsValid (add_pending_resource r p).0
unfolding add_pending_resource
add_pending_resource-IsValid r p idle v = elim (Option-cases (lookup r.fragment_id p)) [
  | inl missing ↦ rw (missing, add_pending_resource) v
  | inr (e, found) ↦ elim (Option-cases (lookup r.service_instance_id e.services)) [
    | inl missing ↦ rw (found, missing, add_pending_resource) v
    | inr (s, here) ↦
        let a = IsValid-lookup r.fragment_id e p v found in
        let b = AllEntries-lookup ServiceAt r.service_instance_id s e.services a.1.services here in
        rw (found, here, add_pending_resource)
          (IsValid-insert r.fragment_id _ p v (
            EntryAt-services r.fragment_id r.service_instance_id (add_pending s r) e a
              (add_pending-service_instance_id s r ∙ b.0, add_pending-IsValidService s r idle b.1)))
  ]
]

remove_pending-service_instance_id :
    (s : MonitoredServiceEntry) (uid : String)
    → (remove_pending s uid).service_instance_id ≡ s.service_instance_id
unfolding remove_pending
remove_pending-service_instance_id s uid = ground arith

service_after-service_instance_id :
    (r : MonitoredPlatformResource) (uid : String) (status : NalejServiceStatus) (info : String)
    (endpoints : List EndpointInstance) (s : MonitoredServiceEntry)
    → (service_after r uid status info endpoints s).service_instance_id ≡ s.service_instance_id
unfolding service_after refresh_service settle_resource write_resource
service_after-service_instance_id r uid status info endpoints s =
    ground (
      arith,
      remove_pending-service_instance_id (write_resource r uid status info endpoints s) r.uid,
    )

refresh_app-EntryAt : (k : String) (e : MonitoredAppEntry) → EntryAt k e → EntryAt k (refresh_app e)
unfolding refresh_app
refresh_app-EntryAt k e a = (a.0, record { services = a.1.services; distinct = a.1.distinct })

pub set_resource_status-IsValid :
    (id service uid : String) (status : NalejServiceStatus) (info : String)
    (endpoints : List EndpointInstance) (p : Entries)
    → IsValid p
    → IsValid (set_resource_status id service uid status info endpoints p).0
unfolding set_resource_status
set_resource_status-IsValid id service uid status info endpoints p v =
    elim (Option-cases (lookup id p)) [
      | inl missing ↦ rw (missing, set_resource_status) v
      | inr (e, found) ↦ elim (Option-cases (lookup service e.services)) [
        | inl missing ↦ rw (found, missing, set_resource_status) v
        | inr (s, here) ↦ elim (Option-cases (lookup uid s.resources)) [
          | inl missing ↦ rw (found, here, missing, set_resource_status) v
          | inr (r, there) ↦
              rw (found, here, there, set_resource_status)
                (elim (Bool-cases (eq_service r.status status)) [
                  | inl same ↦ rw same v
                  | inr new ↦
                      let a = IsValid-lookup id e p v found in
                      let b = AllEntries-lookup ServiceAt service s e.services a.1.services here in
                      rw new (
                        IsValid-insert id _ p v (
                          refresh_app-EntryAt id _ (
                            EntryAt-services id service
                              (service_after r uid status info endpoints s) e a
                              (
                                service_after-service_instance_id r uid status info endpoints s
                                    ∙ b.0,
                                service_after-IsValidService s r uid status info endpoints there new
                                    b.1,
                              ))))
                ])
        ]
      ]
    ]

pub update_app_status-IsValid :
    (id : String) (p : Entries) → IsValid p → IsValid (update_app_status id p)
unfolding update_app_status
update_app_status-IsValid id p v = elim (Option-cases (lookup id p)) [
  | inl missing ↦ rw (missing, update_app_status) v
  | inr (e, found) ↦
      rw (found, update_app_status)
        (elim (Bool-cases (eq_ℤ e.num_pending_checks (pos (count_not_running e.services 0)))) [
          | inl same ↦ rw same v
          | inr new ↦
              let a = IsValid-lookup id e p v found in
              rw new (
                IsValid-insert id _ p v
                  (a.0, record { services = a.1.services; distinct = a.1.distinct }))
        ])
]

pub remove_entry-IsValid : (id : String) (p : Entries) → IsValid p → IsValid (remove_entry id p).0
unfolding remove_entry
remove_entry-IsValid id p v = elim (Bool-cases (has_key id p)) [
  | inl here ↦ rw here (record {
    entries = AllEntries-delete EntryAt id p v.entries;
    distinct = Distinct-delete id p v.distinct;
  })
  | inr missing ↦ rw missing v
]

remove_entries-IsValid :
    (ids : List String) (p : Entries) → IsValid p → IsValid (remove_entries ids p)
unfolding remove_entries
remove_entries-IsValid [] p v = v
remove_entries-IsValid (id ∷ ids) p v =
    remove_entry-IsValid id (remove_entries ids p) (remove_entries-IsValid ids p v)

pub get_pending_notifications-IsValid :
    (p : Entries) → IsValid p → IsValid (get_pending_notifications p).0
unfolding get_pending_notifications
get_pending_notifications-IsValid p = remove_entries-IsValid (terminating_fragments p) p

reset_service-ServiceAt :
    (k : String) (s : MonitoredServiceEntry) → ServiceAt k s → ServiceAt k (reset_service s)
reset_service-ServiceAt k s a = elim (Bool-cases s.new_status) [
  | inl new ↦
      rw new (a.0, record { uids = a.1.uids; distinct = a.1.distinct; counted = a.1.counted })
  | inr old ↦ simp old a
]

reset_entry-EntryAt : (k : String) (e : MonitoredAppEntry) → EntryAt k e → EntryAt k (reset_entry e)
reset_entry-EntryAt k e a = (
  a.0,
  record {
    services =
        AllEntries-map_values ServiceAt reset_service e.services reset_service-ServiceAt
          a.1.services;
    distinct = Distinct-map_values reset_service e.services a.1.distinct;
  },
)

pub reset-IsValid : (p : Entries) → IsValid p → IsValid (reset_services_unnotified_status p)
unfolding reset_services_unnotified_status
reset-IsValid p v = record {
  entries = AllEntries-map_values EntryAt reset_entry p reset_entry-EntryAt v.entries;
  distinct = Distinct-map_values reset_entry p v.distinct;
}
