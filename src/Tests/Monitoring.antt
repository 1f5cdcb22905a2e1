-- ===== src/Tests/Monitoring.antt =====
-- The monitor at concrete inputs.
use deployment_manager.Common.{
  ◌≡◌, refl, ◌≢◌, ◌↔◌, true, none, some, List, [], ◌∷◌, String, inc, dec, lookup, has_key, insert,
  total, All,
}
use deployment_manager.Entities.Status.{
  NalejServiceStatus, FragmentStatus, services_to_fragment_status,
}
use deployment_manager.Entities.Translation.{
  ConditionType, kubernetes_deployment_status_translation, occurrences, translation-occurrences,
}
use deployment_manager.Entities.Monitor.{
  new_monitored_platform_resource, add_pending, remove_pending, append_services,
}
use deployment_manager.Monitored.{
  add_entry, add_pending_resource, is_monitored_resource, get_num_services, get_num_resources,
  set_app_status,
}
use deployment_manager.Monitored.ResourceStatus.{set_resource_status}
use deployment_manager.Monitored.Notify.{get_pending_notifications}
use deployment_manager.Monitored.Checks.{
  WaitEvent, tick, timeout, change, update_app_status, wait_pending_checks,
}
use deployment_manager.Monitored.Invariant.{IsValid, IsValid-empty}
use deployment_manager.Monitored.Histories.{run, IsProper, run-IsValid}
use deployment_manager.Monitored.Outcome.{
  Found, Updated, set_resource_status-frame, set_resource_status-Updated,
}
use deployment_manager.Monitored.Notified.{undeploy-forgets}
use deployment_manager.Handler.Monitoring.{get_monitoring_data, get_monitoring_data-IsValidEntry}
use deployment_manager.Tests.Data.{fragment, stage_one, history, monitor}

unfoldable pub program : Unit {0}
unfolding kubernetes_deployment_status_translation new_monitored_platform_resource add_pending
    remove_pending append_services add_entry add_pending_resource get_monitoring_data
    set_resource_status update_app_status wait_pending_checks run lookup insert has_key
    services_to_fragment_status inc dec get_num_services get_num_resources total
program = tt

pub history-IsProper : All IsProper history
unfolding program
history-IsProper =
    (get_monitoring_data-IsValidEntry "ns" stage_one fragment, (refl, (refl, (tt, tt))))

run-IsValid_example : IsValid (run history [])
run-IsValid_example = run-IsValid history [] history-IsProper IsValid-empty

counted : (get_num_services monitor ≡ 2) × (get_num_resources monitor ≡ 2)
unfolding program
counted = (refl, refl)

pub monitor-IsValid : IsValid monitor
monitor-IsValid = run-IsValid history [] history-IsProper IsValid-empty

translation-occurrences_example :
    kubernetes_deployment_status_translation
      (ConditionType.available ∷ ConditionType.progressing ∷ [])
    ≡ NalejServiceStatus.deploying
unfolding occurrences
translation-occurrences_example =
    translation-occurrences (ConditionType.available ∷ ConditionType.progressing ∷ [])

set_resource_status-frame_example :
    let r = set_resource_status "frag" "db" "uid-db" NalejServiceStatus.error "crash" [] monitor in
    ((r.1 ≡ none) ↔ (is_monitored_resource "frag" "db" "uid-db" monitor ≡ true))
    × (r.1 ≢ none → r.0 ≡ monitor)
    × ((j : String) → j ≢ "frag" → lookup j r.0 ≡ lookup j monitor)
set_resource_status-frame_example =
    set_resource_status-frame "frag" "db" "uid-db" NalejServiceStatus.error "crash" [] monitor

pub found_db : Found "frag" "db" "uid-db" monitor
unfolding program
found_db = record {
  entry = _;
  entry_found = refl;
  serv = _;
  serv_found = refl;
  resource = _;
  resource_found = refl;
}

set_resource_status-Updated_example :
    Updated "frag" "db" "uid-db" NalejServiceStatus.error "crash" [] monitor found_db
      (set_resource_status "frag" "db" "uid-db" NalejServiceStatus.error "crash" [] monitor)
unfolding found_db program
set_resource_status-Updated_example =
    set_resource_status-Updated "frag" "db" "uid-db" NalejServiceStatus.error "crash" [] monitor
      found_db (λ h. cc) monitor-IsValid

-- the second service is up after one more tick
abbrev events : List WaitEvent
events =
    tick (λ p. p)
    ∷ change (λ p. (set_resource_status "frag" "db" "uid-db" NalejServiceStatus.running "" [] p).0)
    ∷ tick (λ p. p)
    ∷ timeout
    ∷ []

becomes_ready : (wait_pending_checks "frag" events monitor).1 ≡ some none
unfolding program
becomes_ready = refl

never_ready :
    (wait_pending_checks "frag" (tick (λ p. p) ∷ tick (λ p. p) ∷ timeout ∷ []) monitor).1
    ≢ some none
unfolding program
never_ready h = cc

undeploy-forgets_example :
    let q =
      (get_pending_notifications
        (set_app_status "app" FragmentStatus.terminating none monitor)).0 in
    (found_db.entry.app_instance_id ≡ "app" → lookup "frag" q ≡ none)
    × (found_db.entry.app_instance_id ≢ "app"
        → found_db.entry.status ≢ FragmentStatus.terminating
        → lookup "frag" q ≡ some found_db.entry)
undeploy-forgets_example =
    undeploy-forgets "app" none monitor "frag" found_db.entry monitor-IsValid found_db.entry_found
