-- ===== src/Monitored/Histories.antt =====
-- internal/structures/monitor/memory_monitored_services.go: the calls that other parts of the
-- program make as the steps of a machine, and the invariant along every history of calls.
use deployment_manager.Common.{◌≡◌, false, List, [], ◌∷◌, String, All}
use deployment_manager.Entities.Status.{NalejServiceStatus, FragmentStatus}
use deployment_manager.Entities.Monitor.{
  EndpointInstance, MonitoredPlatformResource, MonitoredAppEntry,
}
use deployment_manager.Monitored.{
  Entries, Error, add_entry, set_entry_status, set_app_status, add_pending_resource, remove_entry,
}
use deployment_manager.Monitored.ResourceStatus.{set_resource_status}
use deployment_manager.Monitored.Notify.{
  get_pending_notifications, reset_services_unnotified_status,
}
use deployment_manager.Monitored.Checks.{update_app_status}
use deployment_manager.Monitored.ServiceInvariant.{is_running}
use deployment_manager.Monitored.Invariant.{
  IsValidEntry, IsValid, add_entry-IsValid, set_entry_status-IsValid, set_app_status-IsValid,
}
use deployment_manager.Monitored.Keeps.{
  add_pending_resource-IsValid, set_resource_status-IsValid, update_app_status-IsValid,
  remove_entry-IsValid, get_pending_notifications-IsValid, reset-IsValid,
}

-- The methods of the interface that change the map, but for RemovePendingResource, which no part
-- of the program calls.
pub data Call : Type 0 where
  adds_entry : MonitoredAppEntry → Call
  sets_entry_status : String → FragmentStatus → Error → Call
  sets_app_status : String → FragmentStatus → Error → Call
  adds_pending_resource : MonitoredPlatformResource → Call
  sets_resource_status :
      String → String → String → NalejServiceStatus → String → List EndpointInstance → Call
  updates_app_status : String → Call
  notifies : Call
  resets : Call
  removes_entry : String → Call

unfoldable pub step : Call → Entries → Entries
step (adds_entry e) p = add_entry e p
step (sets_entry_status id status err) p = set_entry_status id status err p
step (sets_app_status id status err) p = set_app_status id status err p
step (adds_pending_resource r) p = (add_pending_resource r p).0
step (sets_resource_status id service uid status info endpoints) p =
    (set_resource_status id service uid status info endpoints p).0
step (updates_app_status id) p = update_app_status id p
step notifies p = (get_pending_notifications p).0
step resets p = reset_services_unnotified_status p
step (removes_entry id) p = (remove_entry id p).0

unfoldable pub run : List Call → Entries → Entries
unfolding step
run [] p = p
run (c ∷ cs) p = run cs (step c p)

-- what the callers see to: an entry that is added is valid, a resource that is added does not run
abbrev pub IsProper : Call → Type 0
IsProper (adds_entry e) = IsValidEntry e
IsProper (adds_pending_resource r) = is_running r.status ≡ false
IsProper _ = Unit

pub step-IsValid : (c : Call) (p : Entries) → IsProper c → IsValid p → IsValid (step c p)
unfolding step
step-IsValid (adds_entry e) p ok v = add_entry-IsValid e p ok v
step-IsValid (sets_entry_status id status err) p ok v = set_entry_status-IsValid id status err p v
step-IsValid (sets_app_status id status err) p ok v = set_app_status-IsValid id status err p v
step-IsValid (adds_pending_resource r) p ok v = add_pending_resource-IsValid r p ok v
step-IsValid (sets_resource_status id service uid status info endpoints) p ok v =
    set_resource_status-IsValid id service uid status info endpoints p v
step-IsValid (updates_app_status id) p ok v = update_app_status-IsValid id p v
step-IsValid notifies p ok v = get_pending_notifications-IsValid p v
step-IsValid resets p ok v = reset-IsValid p v
step-IsValid (removes_entry id) p ok v = remove_entry-IsValid id p v

-- After any history of proper calls on a valid map the map is valid: entries stand under their
-- fragment ids, services under their instance ids and resources under their uids, each once, and
-- the counter of pending checks of every service is the number of its resources that are not
-- RUNNING, and so never negative.
pub run-IsValid : (cs : List Call) (p : Entries) → All IsProper cs → IsValid p → IsValid (run cs p)
unfolding run
run-IsValid [] p ok v = v
run-IsValid (c ∷ cs) p ok v = run-IsValid cs (step c p) ok.1 (step-IsValid c p ok.0 v)
