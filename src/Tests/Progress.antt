-- ===== src/Tests/Progress.antt =====
-- The machine of one fragment and the progress of the checks at concrete inputs.
use deployment_manager.Common.{◌≡◌, refl, true, false, All, none, some, List, [], ◌∷◌, ◌++◌, lookup}
use deployment_manager.Entities.Status.{NalejServiceStatus}
use deployment_manager.Entities.Monitor.{MonitoredAppEntry}
use deployment_manager.Monitored.{Entries, Error}
use deployment_manager.Monitored.Waits.{AllRunning, KeepsCounter, has_timeout}
use deployment_manager.Monitored.ResourceStatus.{set_resource_status}
use deployment_manager.Monitored.Checks.{
  WaitEvent, tick, timeout, change, update_app_status, wait_pending_checks,
}
use deployment_manager.Monitored.Invariant.{IsValid-empty}
use deployment_manager.Monitored.Histories.{run}
use deployment_manager.Monitored.Refinement.{fragment_run, run-fragment_run}
use deployment_manager.Monitored.Progress.{
  set_resource_status-IsMonitored, wait_pending_checks_ends, IsMonitored, Lasts, world,
}
use deployment_manager.Monitored.Ready.{wait_pending_checks-AllRunning}
use deployment_manager.Tests.Data.{history, monitor}
use deployment_manager.Tests.Monitoring.{program, history-IsProper}

run-fragment_run_example : lookup "frag" (run history []) ≡ fragment_run history "frag" none
unfolding lookup
run-fragment_run_example = run-fragment_run history "frag" [] history-IsProper IsValid-empty

abbrev before : List WaitEvent
before =
    tick (λ p. p)
    ∷ change (λ p. (set_resource_status "frag" "db" "uid-db" NalejServiceStatus.running "" [] p).0)
    ∷ []

abbrev events : List WaitEvent
events = before ++ tick (λ p. p) ∷ timeout ∷ []

wait_pending_checks_ends_example :
    (has_timeout events ≡ true
      → (err : Error) × ((wait_pending_checks "frag" events monitor).1 ≡ some err))
    × ((front after : List WaitEvent) (between : Entries → Entries) (e : MonitoredAppEntry)
        → events ≡ front ++ tick between ∷ after
        → has_timeout front ≡ false
        → All (Lasts "frag") front
        → KeepsCounter "frag" between
        → IsMonitored "frag" monitor
        → lookup "frag" (world "frag" front monitor) ≡ some e
        → AllRunning e
        → (wait_pending_checks "frag" events monitor).1 ≡ some none)
wait_pending_checks_ends_example = wait_pending_checks_ends "frag" events monitor

-- the services are RUNNING at the second tick
finishes : (wait_pending_checks "frag" events monitor).1 ≡ some none
unfolding program
finishes =
    (wait_pending_checks_ends "frag" events monitor).1 before (timeout ∷ []) (λ p. p) _ refl refl
      (
        λ q m. m,
        (
          set_resource_status-IsMonitored "frag" "frag" "db" "uid-db" NalejServiceStatus.running ""
              [],
          tt,
        ),
      )
      (λ q e found. (e, found, refl)) (_, refl) refl (refl, (refl, tt))

wait_pending_checks-AllRunning_example :
    (front : List WaitEvent) × (after : List WaitEvent) × (between : Entries → Entries)
    × (e : MonitoredAppEntry) × (events ≡ front ++ tick between ∷ after)
    × (lookup "frag" (world "frag" front monitor) ≡ some e)
    × AllRunning e
    × ((wait_pending_checks "frag" events monitor).0
        ≡ between (update_app_status "frag" (world "frag" front monitor)))
wait_pending_checks-AllRunning_example =
    wait_pending_checks-AllRunning "frag" events monitor
      (λ q e h. (e, h, refl), (tt, (λ q e h. (e, h, refl), (tt, tt)))) finishes
