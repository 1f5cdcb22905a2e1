-- ===== src/Monitored/Notify.antt =====
-- internal/structures/monitor/memory_monitored_services.go: what is pending to be notified, and
-- its reset.
use deployment_manager.Common.{
  Bool, true, false, ◌||◌, List, [], ◌∷◌, String, if◌then◌else◌, pos, Map, insert, map_values, ◌++◌,
}
use deployment_manager.Entities.Status.{FragmentStatus, eq_fragment}
use deployment_manager.Entities.Monitor.{MonitoredServiceEntry, MonitoredAppEntry}
use deployment_manager.Monitored.{Entries, remove_entry}

-- the inner loop of GetPendingNotifications: `pendingServices`
unfoldable pub pending_services :
    Bool → Map MonitoredServiceEntry → Map MonitoredServiceEntry → Map MonitoredServiceEntry
pending_services entry_new [] found = found
pending_services entry_new ((k, x) ∷ rest) found =
    pending_services entry_new rest
      (if entry_new || x.new_status then insert x.service_instance_id x found else found)

-- `newApp`: the fields that the literal leaves out are Go's zero values
unfoldable pub new_app : MonitoredAppEntry → Map MonitoredServiceEntry → MonitoredAppEntry
new_app entry services = record entry {
  services = services;
  total_services = pos 0;
  new_status = false;
  namespace = "";
}

abbrev pub is_empty {ℓ} : {A : Type ℓ} → List A → Bool
is_empty [] = true
is_empty (x ∷ xs) = false

-- the outer loop: `toReturn`
unfoldable pub notifications : Entries → List MonitoredAppEntry
unfolding pending_services new_app
notifications [] = []
notifications ((k, entry) ∷ p) =
    let services = pending_services entry.new_status entry.services [] in
    let rest = notifications p in if is_empty services then rest else new_app entry services ∷ rest

-- the outer loop: `toRemove`
unfoldable pub terminating_fragments : Entries → List String
terminating_fragments [] = []
terminating_fragments ((k, entry) ∷ p) =
    let rest = terminating_fragments p in
    if eq_fragment entry.status FragmentStatus.terminating then entry.fragment_id ∷ rest else rest

-- the deferred calls of RemoveEntry, which Go makes last to first
unfoldable pub remove_entries : List String → Entries → Entries
remove_entries [] p = p
remove_entries (fragment_id ∷ rest) p = (remove_entry fragment_id (remove_entries rest p)).0

-- GetPendingNotifications, whose removals follow the unlocking of the map, each under a lock of its
-- own; here they are one step with the reading
unfoldable pub get_pending_notifications : Entries → Entries × List MonitoredAppEntry
unfolding notifications terminating_fragments remove_entries
get_pending_notifications p = (remove_entries (terminating_fragments p) p, notifications p)

-- the inner loop of GetServicesUnnotifiedStatus
unfoldable pub unnotified : Map MonitoredServiceEntry → List MonitoredServiceEntry
unnotified [] = []
unnotified ((k, x) ∷ rest) =
    let found = unnotified rest in if x.new_status then x ∷ found else found

-- GetServicesUnnotifiedStatus
unfoldable pub get_services_unnotified_status : Entries → List MonitoredServiceEntry
unfolding unnotified
get_services_unnotified_status [] = []
get_services_unnotified_status ((k, app) ∷ p) =
    unnotified app.services ++ get_services_unnotified_status p

abbrev pub reset_service : MonitoredServiceEntry → MonitoredServiceEntry
reset_service x = if x.new_status then record x { new_status = false } else x

-- the body of the loop of ResetServicesUnnotifiedStatus
abbrev pub reset_entry : MonitoredAppEntry → MonitoredAppEntry
reset_entry stage = record stage {
  new_status = false;
  services = map_values reset_service stage.services;
}

-- ResetServicesUnnotifiedStatus
unfoldable pub reset_services_unnotified_status : Entries → Entries
reset_services_unnotified_status = map_values reset_entry
