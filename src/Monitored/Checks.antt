-- ===== src/Monitored/Checks.antt =====
-- internal/structures/monitor/memory_monitored_services.go: UpdateAppStatus and WaitPendingChecks.
use deployment_manager.Common.{
  ℕ, ◌+◌, Option, none, some, List, [], ◌∷◌, String, if◌then◌else◌, pos, eq_ℤ, Map, lookup, insert,
  concat,
}
use deployment_manager.Entities.Status.{NalejServiceStatus, eq_service}
use deployment_manager.Entities.Monitor.{MonitoredServiceEntry}
use deployment_manager.Monitored.{Entries, Error}

-- the loop of UpdateAppStatus
unfoldable pub count_not_running : Map MonitoredServiceEntry → ℕ → ℕ
count_not_running [] pending = pending
count_not_running ((k, serv) ∷ rest) pending =
    count_not_running rest
      (if eq_service serv.status NalejServiceStatus.running then pending else pending + 1)

-- UpdateAppStatus
unfoldable pub update_app_status : String → Entries → Entries
unfolding count_not_running
update_app_status fragment_id p = elim (lookup fragment_id p) [
  | none ↦ p
  | some app ↦
      let pending = pos (count_not_running app.services 0) in
      if eq_ℤ app.num_pending_checks pending
      then p
      else insert fragment_id (record app { num_pending_checks = pending }) p
]

-- What the loop of WaitPendingChecks waits for, in the order in which it happens: a tick, the
-- timeout, or a change that another goroutine makes to the map. No lock is held at a tick: it has
-- with it what other goroutines do to the map between UpdateAppStatus and the check. UpdateAppStatus
-- itself is taken as one step.
pub data WaitEvent : Type 0 where
  tick : (Entries → Entries) → WaitEvent
  timeout : WaitEvent
  change : (Entries → Entries) → WaitEvent

-- the test after UpdateAppStatus at a tick: `none` to wait on, `some err` to return
unfoldable pub check_fragment : String → Entries → Option Error
check_fragment fragment_id p = elim (lookup fragment_id p) [
  | none ↦ some (some (concat "not monitored fragment " fragment_id))
  | some entry ↦ if eq_ℤ entry.num_pending_checks (pos 0) then some none else none
]

-- WaitPendingChecks over the events that happen; `none` means that it still waits when they end
unfoldable pub wait_pending_checks : String → List WaitEvent → Entries → Entries × Option Error
unfolding update_app_status check_fragment
wait_pending_checks fragment_id [] p = (p, none)
wait_pending_checks fragment_id (timeout ∷ rest) p =
    (p, some (some (concat "checking pendingStages resources exceeded for fragment " fragment_id)))
wait_pending_checks fragment_id (change f ∷ rest) p = wait_pending_checks fragment_id rest (f p)
wait_pending_checks fragment_id (tick between ∷ rest) p =
    let p' = between (update_app_status fragment_id p) in
    let later = wait_pending_checks fragment_id rest p' in
    elim (check_fragment fragment_id p') [ none ↦ later | some err ↦ (p', some err) ]
