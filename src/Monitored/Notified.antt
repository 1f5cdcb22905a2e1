-- ===== src/Monitored/Notified.antt =====
-- internal/structures/monitor/memory_monitored_services.go: which entries and flags survive a round
-- of notifications.
use deployment_manager.Common.{
  lookup-map_values, lookup_of_has_key, ◌+◌, ◌≡◌, refl, ◌≢◌, inl, inr, Bool, true, false, ◌||◌,
  Option, none, some, List, [], ◌∷◌, String, arith, if◌then◌else◌, Map, lookup, has_key, insert,
  map_values, str_eq, eq_iff, length, AllEntries, Distinct, Bool-cases, lookup-delete,
  has_key-insert, lookup-map_values,
}
use deployment_manager.Entities.Status.{FragmentStatus, eq_fragment, eq_fragment_iff}
use deployment_manager.Entities.Monitor.{MonitoredServiceEntry, MonitoredAppEntry}
use deployment_manager.Monitored.{
  Entries, Error, remove_entry, set_app_status, app_with_status, fragment_ids, get_num_apps,
  get_num_fragments,
}
use deployment_manager.Monitored.Notify.{
  pending_services, notifications, terminating_fragments, remove_entries, get_pending_notifications,
  unnotified, get_services_unnotified_status, reset_service, reset_entry,
  reset_services_unnotified_status,
}
use deployment_manager.Monitored.Invariant.{EntryAt, IsValid, set_app_status-IsValid}

abbrev mem : String → List String → Bool
mem k [] = false
mem k (j ∷ js) = str_eq j k || mem k js

abbrev is_terminating : MonitoredAppEntry → Bool
is_terminating e = eq_fragment e.status FragmentStatus.terminating

pub lookup-remove_entry :
    (id k : String) (p : Entries)
    → lookup k (remove_entry id p).0 ≡ (if str_eq id k then none else lookup k p)
unfolding remove_entry
lookup-remove_entry id k p = elim (Bool-cases (has_key id p)) [
  | inl here ↦ rw here (lookup-delete id k p)
  | inr missing ↦ rw missing (elim (Bool-cases (str_eq id k)) [
    | inl same ↦ ground (arith, eq_iff id k, lookup_of_has_key id p)
    | inr other ↦ rw other refl
  ])
]

lookup-remove_entries :
    (ids : List String) (k : String) (p : Entries)
    → lookup k (remove_entries ids p) ≡ (if mem k ids then none else lookup k p)
unfolding remove_entries
lookup-remove_entries [] k p = refl
lookup-remove_entries (id ∷ ids) k p =
    ground (arith, lookup-remove_entry id k (remove_entries ids p), lookup-remove_entries ids k p)

mem-terminating_fragments :
    (k : String) (p : Entries)
    → AllEntries EntryAt p
    → Distinct p
    → mem k (terminating_fragments p)
      ≡ elim (lookup k p) as (λ _. Bool) [ none ↦ false | some e ↦ is_terminating e ]
unfolding terminating_fragments lookup
mem-terminating_fragments k [] a d = refl
mem-terminating_fragments k ((j, e) ∷ p) a d = ground (
  arith,
  mem-terminating_fragments k p a.1 d.1,
  lookup_of_has_key j p,
  eq_iff j k,
  eq_iff e.fragment_id k,
)

-- GetPendingNotifications drops the entries that are TERMINATING and keeps all others as they are.
pub get_pending_notifications-lookup :
    (k : String) (p : Entries)
    → IsValid p
    → lookup k (get_pending_notifications p).0
      ≡ elim (lookup k p) as (λ _. Option MonitoredAppEntry) [
        | none ↦ none
        | some e ↦ if is_terminating e then none else some e
      ]
unfolding get_pending_notifications
get_pending_notifications-lookup k p v = ground (
  arith,
  lookup-remove_entries (terminating_fragments p) k p,
  mem-terminating_fragments k p v.entries v.distinct,
)

-- After Undeploy has marked an application as TERMINATING, the next round of notifications forgets
-- every fragment of the application, and keeps the entry of every fragment of another application
-- that was not TERMINATING already.
pub undeploy-forgets :
    (app : String) (err : Error) (p : Entries) (k : String) (e : MonitoredAppEntry)
    → IsValid p
    → lookup k p ≡ some e
    → let q = (get_pending_notifications (set_app_status app FragmentStatus.terminating err p)).0 in
      (e.app_instance_id ≡ app → lookup k q ≡ none)
      × (e.app_instance_id ≢ app → e.status ≢ FragmentStatus.terminating → lookup k q ≡ some e)
unfolding set_app_status app_with_status
undeploy-forgets app err p k e v found =
    let q = set_app_status app FragmentStatus.terminating err p in
    let after =
      get_pending_notifications-lookup k q
        (set_app_status-IsValid app FragmentStatus.terminating err p v) in
    let mapped = lookup-map_values (app_with_status app FragmentStatus.terminating err) k p in
    (
      λ mine. ground (arith, after, mapped, found, eq_iff e.app_instance_id app),
      λ other alive. ground (
        arith,
        after,
        mapped,
        found,
        eq_iff e.app_instance_id app,
        eq_fragment_iff e.status FragmentStatus.terminating,
      ),
    )

pending_services_reset :
    (m : Map MonitoredServiceEntry) → pending_services false (map_values reset_service m) [] ≡ []
unfolding pending_services map_values
pending_services_reset [] = refl
pending_services_reset ((k, s) ∷ m) = ground (arith, pending_services_reset m)

notifications_reset : (p : Entries) → notifications (map_values reset_entry p) ≡ []
unfolding notifications map_values
notifications_reset [] = refl
notifications_reset ((k, e) ∷ p) = rw (pending_services_reset e.services) (notifications_reset p)

unnotified_reset : (m : Map MonitoredServiceEntry) → unnotified (map_values reset_service m) ≡ []
unfolding unnotified map_values
unnotified_reset [] = refl
unnotified_reset ((k, s) ∷ m) = ground (arith, unnotified_reset m)

services_reset : (p : Entries) → get_services_unnotified_status (map_values reset_entry p) ≡ []
unfolding get_services_unnotified_status map_values
services_reset [] = refl
services_reset ((k, e) ∷ p) = rw (unnotified_reset e.services) (services_reset p)

-- After the reset nothing is pending: there is no fragment to notify and no service with a new
-- status, whatever changed between the last round of notifications and the reset.
pub reset_silent :
    (p : Entries)
    → ((get_pending_notifications (reset_services_unnotified_status p)).1 ≡ [])
      × (get_services_unnotified_status (reset_services_unnotified_status p) ≡ [])
unfolding get_pending_notifications reset_services_unnotified_status
reset_silent p = (notifications_reset p, services_reset p)

-- GetNumApps

length-insert_new :
    (k : String) (v : Bool) (m : Map Bool)
    → has_key k m ≡ false
    → length (insert k v m) ≡ length m + 1
unfolding insert has_key
length-insert_new k v [] h = omega arith
length-insert_new k v ((i, w) ∷ m) h = ground (arith, length-insert_new k v m)

fresh-insert :
    (id : String) (list : Map Bool) (p : Entries)
    → has_key id p ≡ false
    → AllEntries (λ k e. has_key k list ≡ false) p
    → AllEntries (λ k e. has_key k (insert id true list) ≡ false) p
unfolding has_key
fresh-insert id list [] new fresh = tt
fresh-insert id list ((k, e) ∷ p) new fresh = (
  ground (arith, has_key-insert id k true list, eq_iff id k, eq_iff k id),
  fresh-insert id list p (ground arith) fresh.1,
)

length-fragment_ids :
    (p : Entries) (list : Map Bool)
    → AllEntries EntryAt p
    → Distinct p
    → AllEntries (λ k e. has_key k list ≡ false) p
    → length (fragment_ids p list) ≡ length list + length p
unfolding fragment_ids
length-fragment_ids [] list a d fresh = omega arith
length-fragment_ids ((k, e) ∷ p) list a d fresh =
    rw (a.0.0, fresh.0)
      (omega (
        arith,
        length-fragment_ids p (insert k true list) a.1 d.1 (fresh-insert k list p d.0 fresh.1),
        length-insert_new k true list fresh.0,
      ))

no_ids : (p : Entries) → AllEntries (λ k e. has_key {V = Bool} k [] ≡ false) p
unfolding has_key
no_ids [] = tt
no_ids ((k, e) ∷ p) = (refl, no_ids p)

-- On a valid map GetNumApps counts the fragments, and not the applications that they belong to.
pub get_num_apps-get_num_fragments :
    (p : Entries) → IsValid p → get_num_apps p ≡ get_num_fragments p
unfolding get_num_apps get_num_fragments
get_num_apps-get_num_fragments p v =
    omega (arith, length-fragment_ids p [] v.entries v.distinct (no_ids p))
