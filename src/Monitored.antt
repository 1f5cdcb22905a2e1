-- ===== src/Monitored.antt =====
-- internal/structures/monitor/memory_monitored_services.go: the map from a fragment to its
-- monitored entry, and the methods that change it. A method that changes the object returns the new
-- map; each is one step. The source locks the map from the first to the last line of most methods,
-- but not of UpdateAppStatus, GetNumFragments and the check of WaitPendingChecks, and
-- GetPendingNotifications reads under one lock and removes each entry under another: what other
-- goroutines do inside of these is left out, but for what they do between the two halves of a tick.
-- An error is the text that its `Error()` gives.
pub mod ResourceStatus
pub mod Notify
pub mod Checks
pub mod ServiceInvariant
pub mod Invariant
pub mod Keeps
pub mod Histories
pub mod Worst
pub mod Outcome
pub mod Waits
pub mod Notified
pub mod Refinement
pub mod Progress
pub mod Ready
use deployment_manager.Common.{
  ℕ, zero, suc, ◌+◌, ◌≡◌, refl, Bool, true, false, not, ◌&&◌, ◌||◌, Option, none, some, List, [],
  ◌∷◌, String, arith, if◌then◌else◌, ◌==◌, ℤ, pos, inc, dec, eq_ℤ, Map, lookup, has_key, insert,
  delete, map_values, total, str_eq, concat, length,
}
use deployment_manager.Entities.Status.{
  NalejServiceStatus, FragmentStatus, eq_service, eq_fragment, lt_service,
  services_to_fragment_status, fragment_status_to_nalej_service_status,
}
use deployment_manager.Entities.Monitor.{
  EndpointInstance, MonitoredPlatformResource, MonitoredServiceEntry, MonitoredAppEntry,
  append_services, add_pending, remove_pending,
}

-- monitoredEntries: fragment id -> entry
abbrev pub Entries : Type 0
Entries = Map MonitoredAppEntry

-- Go's `error`
abbrev pub Error : Type 0
Error = Option String

-- info := ""; if err != nil { info = err.Error() }
abbrev pub error_text : Error → String
error_text none = ""
error_text (some text) = text

-- AddEntry
unfoldable pub add_entry : MonitoredAppEntry → Entries → Entries
add_entry to_add p = elim (lookup to_add.fragment_id p) [
  | none ↦ insert to_add.fragment_id to_add p
  | some current ↦ insert to_add.fragment_id (append_services current to_add) p
]

-- GetEntry
unfoldable pub get_entry : String → Entries → Option MonitoredAppEntry
get_entry fragment_id p = lookup fragment_id p

-- serv.Status = NALEJ_SERVICE_TERMINATING
abbrev pub terminate_service : MonitoredServiceEntry → MonitoredServiceEntry
terminate_service serv = record serv { status = NalejServiceStatus.terminating }

-- the branch of SetEntryStatus where the fragment is monitored
unfoldable pub entry_with_status : FragmentStatus → Error → MonitoredAppEntry → MonitoredAppEntry
entry_with_status status err current = record current {
  new_status = if eq_fragment status current.status then current.new_status else true;
  status = status;
  info = error_text err;
  services =
      if eq_fragment status FragmentStatus.terminating
      then map_values terminate_service current.services
      else current.services;
}

-- SetEntryStatus
unfoldable pub set_entry_status : String → FragmentStatus → Error → Entries → Entries
unfolding entry_with_status
set_entry_status fragment_id status err p = elim (lookup fragment_id p) [
  | none ↦ p
  | some current ↦ insert fragment_id (entry_with_status status err current) p
]

-- the body of the inner loop of SetAppStatus
unfoldable pub service_with_status :
    NalejServiceStatus → MonitoredServiceEntry → MonitoredServiceEntry
service_with_status new serv =
    if eq_service serv.status new then serv else record serv { status = new; new_status = true }

-- the body of the outer loop of SetAppStatus
unfoldable pub app_with_status :
    String → FragmentStatus → Error → MonitoredAppEntry → MonitoredAppEntry
unfolding service_with_status
app_with_status app_instance_id status err current =
    if str_eq current.app_instance_id app_instance_id
    then (if eq_fragment status current.status
        then record current { info = error_text err }
        else record current {
          new_status = true;
          status = status;
          services =
              map_values (service_with_status (fragment_status_to_nalej_service_status status))
                current.services;
          info = error_text err;
        })
    else current

-- SetAppStatus
unfoldable pub set_app_status : String → FragmentStatus → Error → Entries → Entries
unfolding app_with_status
set_app_status app_instance_id status err p =
    map_values (app_with_status app_instance_id status err) p

-- GetAppStatus: the status of the first entry of the app that the loop meets; its error is `none`
unfoldable pub get_app_status : String → Entries → Option FragmentStatus
get_app_status app_instance_id [] = none
get_app_status app_instance_id ((k, current) ∷ p) =
    if str_eq current.app_instance_id app_instance_id
    then some current.status
    else get_app_status app_instance_id p

-- AddPendingResource
unfoldable pub add_pending_resource : MonitoredPlatformResource → Entries → Entries × Bool
add_pending_resource new p = elim (lookup new.fragment_id p) [
  | none ↦ (p, false)
  | some app ↦ elim (lookup new.service_instance_id app.services) [
    | none ↦ (p, false)
    | some service ↦ (
      insert new.fragment_id
          (record app {
            services = insert new.service_instance_id (add_pending service new) app.services;
          })
          p,
      true,
    )
  ]
]

-- the part of RemovePendingResource after the three lookups
unfoldable pub unpend :
    MonitoredPlatformResource
    → String
    → String
    → MonitoredServiceEntry
    → MonitoredAppEntry
    → MonitoredAppEntry
unpend resource service_instance_id uid service app =
    let left = dec service.num_pending_checks in
    record app {
      services =
          insert service_instance_id
            (record service {
              resources = insert uid (record resource { pending = false }) service.resources;
              num_pending_checks = left;
            })
            app.services;
      num_pending_checks =
          if eq_ℤ left (pos 0) then dec app.num_pending_checks else app.num_pending_checks;
    }

-- RemovePendingResource
unfoldable pub remove_pending_resource : String → String → String → Entries → Entries × Bool
unfolding unpend
remove_pending_resource fragment_id service_instance_id uid p = elim (lookup fragment_id p) [
  | none ↦ (p, false)
  | some app ↦ elim (lookup service_instance_id app.services) [
    | none ↦ (p, false)
    | some service ↦ elim (lookup uid service.resources) [
      | none ↦ (p, false)
      | some resource ↦
          (insert fragment_id (unpend resource service_instance_id uid service app) p, true)
    ]
  ]
]

-- IsMonitoredResource
unfoldable pub is_monitored_resource : String → String → String → Entries → Bool
is_monitored_resource fragment_id service_instance_id uid p = elim (lookup fragment_id p) [
  | none ↦ false
  | some app ↦ elim (lookup service_instance_id app.services) [
    | none ↦ false
    | some service ↦ has_key uid service.resources
  ]
]

-- RemoveEntry
unfoldable pub remove_entry : String → Entries → Entries × Bool
remove_entry fragment_id p =
    if has_key fragment_id p then (delete fragment_id p, true) else (p, false)

-- GetNumFragments
unfoldable pub get_num_fragments : Entries → ℕ
get_num_fragments p = length p

-- the loop of GetNumApps, which fills a set with the entries' fragment ids
unfoldable pub fragment_ids : Entries → Map Bool → Map Bool
fragment_ids [] list = list
fragment_ids ((k, entry) ∷ p) list =
    fragment_ids p
      (if has_key entry.fragment_id list then list else insert entry.fragment_id true list)

-- GetNumApps
unfoldable pub get_num_apps : Entries → ℕ
unfolding fragment_ids
get_num_apps p = length (fragment_ids p [])

-- GetNumServices
unfoldable pub get_num_services : Entries → ℕ
get_num_services = total (λ entry. length entry.services)

-- GetNumResources
unfoldable pub get_num_resources : Entries → ℕ
get_num_resources = total (λ entry. total (λ serv. length serv.resources) entry.services)
