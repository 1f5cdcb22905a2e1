-- ===== src/Monitored/Invariant.antt =====
-- internal/structures/monitor/memory_monitored_services.go: the calls of the monitor as one step
-- function, and the invariant of the map of entries.
use deployment_manager.Common.{
  ◌≡◌, refl, ◌∙◌, inl, inr, some, [], ◌∷◌, String, arith, Map, lookup, has_key, insert, str_eq,
  AllEntries, Distinct, Bool-cases, Option-cases, Distinct-insert, Distinct-map_values,
  AllEntries-lookup, AllEntries-insert, AllEntries-map_values,
}
use deployment_manager.Entities.Status.{NalejServiceStatus, FragmentStatus, eq_service, eq_fragment}
use deployment_manager.Entities.Monitor.{
  MonitoredServiceEntry, MonitoredAppEntry, append_service, append_each, append_services,
}
use deployment_manager.Monitored.{
  Entries, Error, add_entry, terminate_service, entry_with_status, set_entry_status,
  service_with_status, app_with_status, set_app_status,
}
use deployment_manager.Monitored.ServiceInvariant.{IsValidService}

abbrev pub ServiceAt : String → MonitoredServiceEntry → Type 0
ServiceAt k s = (s.service_instance_id ≡ k) × IsValidService s

pub record IsValidEntry (e : MonitoredAppEntry) : Type 0 where
  pub services : AllEntries ServiceAt e.services
  pub distinct : Distinct e.services

abbrev pub EntryAt : String → MonitoredAppEntry → Type 0
EntryAt k e = (e.fragment_id ≡ k) × IsValidEntry e

-- Entries stand under their fragment ids and services under their instance ids, each once, and
-- every service is valid.
pub record IsValid (p : Entries) : Type 0 where
  pub entries : AllEntries EntryAt p
  pub distinct : Distinct p

pub IsValid-empty : IsValid []
IsValid-empty = record { entries = tt; distinct = tt }

pub IsValid-insert :
    (k : String) (e : MonitoredAppEntry) (p : Entries)
    → IsValid p
    → EntryAt k e
    → IsValid (insert k e p)
IsValid-insert k e p v a = record {
  entries = AllEntries-insert EntryAt k e p v.entries a;
  distinct = Distinct-insert k e p v.distinct;
}

pub IsValid-lookup :
    (k : String) (e : MonitoredAppEntry) (p : Entries)
    → IsValid p
    → lookup k p ≡ some e
    → EntryAt k e
IsValid-lookup k e p v h = AllEntries-lookup EntryAt k e p v.entries h

-- AddEntry

append_service-IsValidEntry :
    (s : MonitoredServiceEntry) (e : MonitoredAppEntry)
    → IsValidService s
    → IsValidEntry e
    → IsValidEntry (append_service s e)
unfolding append_service
append_service-IsValidEntry s e w v = elim (Bool-cases (has_key s.service_instance_id e.services)) [
  | inl old ↦ rw old v
  | inr new ↦ rw new (record {
    services = AllEntries-insert ServiceAt s.service_instance_id s e.services v.services (refl, w);
    distinct = Distinct-insert s.service_instance_id s e.services v.distinct;
  })
]

append_service-fragment_id :
    (s : MonitoredServiceEntry) (e : MonitoredAppEntry)
    → (append_service s e).fragment_id ≡ e.fragment_id
unfolding append_service
append_service-fragment_id s e = ground arith

append_each-EntryAt :
    (k : String) (m : Map MonitoredServiceEntry) (e : MonitoredAppEntry)
    → AllEntries ServiceAt m
    → EntryAt k e
    → EntryAt k (append_each m e)
unfolding append_each
append_each-EntryAt k [] e a v = v
append_each-EntryAt k ((i, s) ∷ m) e a v =
    append_each-EntryAt k m (append_service s e) a.1
      (append_service-fragment_id s e ∙ v.0, append_service-IsValidEntry s e a.0.1 v.1)

pub add_entry-IsValid :
    (e : MonitoredAppEntry) (p : Entries) → IsValidEntry e → IsValid p → IsValid (add_entry e p)
unfolding add_entry append_services
add_entry-IsValid e p w v = elim (Option-cases (lookup e.fragment_id p)) [
  | inl new ↦ rw (new, add_entry) (IsValid-insert e.fragment_id e p v (refl, w))
  | inr (current, found) ↦
      rw (found, add_entry)
        (IsValid-insert e.fragment_id (append_services current e) p v (
          append_each-EntryAt e.fragment_id e.services current w.services
            (IsValid-lookup e.fragment_id current p v found)))
]

-- SetEntryStatus and SetAppStatus

terminate_service-ServiceAt :
    (k : String) (s : MonitoredServiceEntry) → ServiceAt k s → ServiceAt k (terminate_service s)
terminate_service-ServiceAt k s a =
    (a.0, record { uids = a.1.uids; distinct = a.1.distinct; counted = a.1.counted })

entry_with_status-EntryAt :
    (k : String) (status : FragmentStatus) (err : Error) (e : MonitoredAppEntry)
    → EntryAt k e
    → EntryAt k (entry_with_status status err e)
unfolding entry_with_status
entry_with_status-EntryAt k status err e a =
    elim (Bool-cases (eq_fragment status FragmentStatus.terminating)) [
      | inl stop ↦ (
        a.0,
        record {
          services = rw stop (
              AllEntries-map_values ServiceAt terminate_service e.services
                terminate_service-ServiceAt a.1.services);
          distinct = rw stop (Distinct-map_values terminate_service e.services a.1.distinct);
        },
      )
      | inr go ↦ (a.0, record { services = rw go a.1.services; distinct = rw go a.1.distinct })
    ]

pub set_entry_status-IsValid :
    (id : String) (status : FragmentStatus) (err : Error) (p : Entries)
    → IsValid p
    → IsValid (set_entry_status id status err p)
unfolding set_entry_status
set_entry_status-IsValid id status err p v = elim (Option-cases (lookup id p)) [
  | inl missing ↦ rw (missing, set_entry_status) v
  | inr (e, found) ↦
      rw (found, set_entry_status)
        (IsValid-insert id (entry_with_status status err e) p v
          (entry_with_status-EntryAt id status err e (IsValid-lookup id e p v found)))
]

service_with_status-ServiceAt :
    (status : NalejServiceStatus) (k : String) (s : MonitoredServiceEntry)
    → ServiceAt k s
    → ServiceAt k (service_with_status status s)
unfolding service_with_status
service_with_status-ServiceAt status k s a = elim (Bool-cases (eq_service s.status status)) [
  | inl same ↦ rw same a
  | inr new ↦
      rw new (a.0, record { uids = a.1.uids; distinct = a.1.distinct; counted = a.1.counted })
]

app_with_status-EntryAt :
    (id : String) (status : FragmentStatus) (err : Error) (k : String) (e : MonitoredAppEntry)
    → EntryAt k e
    → EntryAt k (app_with_status id status err e)
unfolding app_with_status
app_with_status-EntryAt id status err k e a = elim (Bool-cases (str_eq e.app_instance_id id)) [
  | inr other ↦ rw other a
  | inl mine ↦ rw mine (elim (Bool-cases (eq_fragment status e.status)) [
    | inl same ↦ rw same (a.0, record { services = a.1.services; distinct = a.1.distinct })
    | inr new ↦ rw new (
      a.0,
      record {
        services =
            AllEntries-map_values ServiceAt _ e.services (service_with_status-ServiceAt _)
              a.1.services;
        distinct = Distinct-map_values _ e.services a.1.distinct;
      },
    )
  ])
]

pub set_app_status-IsValid :
    (id : String) (status : FragmentStatus) (err : Error) (p : Entries)
    → IsValid p
    → IsValid (set_app_status id status err p)
unfolding set_app_status
set_app_status-IsValid id status err p v = record {
  entries = AllEntries-map_values EntryAt _ p (app_with_status-EntryAt id status err) v.entries;
  distinct = Distinct-map_values _ p v.distinct;
}
