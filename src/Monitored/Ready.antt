-- ===== src/Monitored/Ready.antt =====
-- internal/structures/monitor/memory_monitored_services.go: what an end of WaitPendingChecks without
-- an error says of the services.
use deployment_manager.Common.{
  ℕ, ◌+◌, ◌≤◌, ◌≡◌, refl, sym, ap, ◌∙◌, inl, inr, none, some, List, [], ◌∷◌, ◌++◌, String, All,
  arith, if◌then◌else◌, pos, Map, lookup, AllEntries, Bool-cases, Option-cases, eq_ℤ_iff, some_inj,
}
use deployment_manager.Entities.Status.{NalejServiceStatus, eq_service, eq_service_iff}
use deployment_manager.Entities.Monitor.{MonitoredServiceEntry, MonitoredAppEntry}
use deployment_manager.Monitored.{Entries}
use deployment_manager.Monitored.Checks.{
  count_not_running, update_app_status, WaitEvent, tick, timeout, change, check_fragment,
  wait_pending_checks,
}
use deployment_manager.Monitored.Waits.{IsRunning, AllRunning, update_app_status-lookup}
use deployment_manager.Monitored.Progress.{world}

count_not_running-le : (m : Map MonitoredServiceEntry) (n : ℕ) → n ≤ count_not_running m n
unfolding count_not_running
count_not_running-le [] n = omega arith
count_not_running-le ((k, s) ∷ m) n = ground (
  arith,
  count_not_running-le m (if eq_service s.status NalejServiceStatus.running then n else n + 1),
)

count_not_running-eq-zero :
    (m : Map MonitoredServiceEntry) → count_not_running m 0 ≡ 0 → AllEntries IsRunning m
unfolding count_not_running
count_not_running-eq-zero [] h = tt
count_not_running-eq-zero ((k, s) ∷ m) h =
    elim (Bool-cases (eq_service s.status NalejServiceStatus.running)) [
      | inl run ↦ (
        (eq_service_iff s.status NalejServiceStatus.running).0 run,
        count_not_running-eq-zero m (rw run at h),
      )
      | inr idle ↦ absurd (omega (arith, rw idle at h, count_not_running-le m 1))
    ]

update_app_status_missing :
    (id : String) (p : Entries) → lookup id p ≡ none → lookup id (update_app_status id p) ≡ none
unfolding update_app_status
update_app_status_missing id p h = rw (h, update_app_status) h

-- What happens between the two halves of a tick neither makes an entry of the fragment nor changes
-- its counter.
abbrev pub LeavesCounter : String → WaitEvent → Type 0
LeavesCounter id (tick between) =
    (q : Entries) (e' : MonitoredAppEntry)
    → lookup id (between q) ≡ some e'
    → (e : MonitoredAppEntry) × (lookup id q ≡ some e)
      × (e'.num_pending_checks ≡ e.num_pending_checks)
LeavesCounter id _ = Unit

-- the check passes only for a counter that is zero
check_fragment_zero :
    (id : String) (p : Entries)
    → check_fragment id p ≡ some none
    → (e : MonitoredAppEntry) × (lookup id p ≡ some e) × (e.num_pending_checks ≡ pos 0)
unfolding check_fragment
check_fragment_zero id p h = elim (Option-cases (lookup id p)) [
  | inl missing ↦ absurd (ground arith)
  | inr (e, found) ↦ (e, found, ground (arith, eq_ℤ_iff e.num_pending_checks (pos 0)))
]

-- a tick that ends the wait without an error has counted services that all run
tick_ready :
    (id : String) (between : Entries → Entries) (p : Entries)
    → LeavesCounter id (tick between)
    → check_fragment id (between (update_app_status id p)) ≡ some none
    → (e : MonitoredAppEntry) × (lookup id p ≡ some e) × AllRunning e
tick_ready id between p leaves h =
    let (e', after, done) = check_fragment_zero id (between (update_app_status id p)) h in
    let (e, at_check, same) = leaves (update_app_status id p) e' after in
    elim (Option-cases (lookup id p)) [
      | inl missing ↦ absurd (ground (arith, update_app_status_missing id p missing))
      | inr (now, found) ↦
          let counted : e
              ≡ record now { num_pending_checks = pos (count_not_running now.services 0) } =
            some_inj (sym at_check ∙ update_app_status-lookup id p now found) in
          let zero_left : pos (count_not_running now.services 0) ≡ pos 0 =
            sym (ap (λ x. x.num_pending_checks) counted) ∙ sym same ∙ done in
          (now, found, count_not_running-eq-zero now.services (ground arith))
    ]

-- When WaitPendingChecks returns without an error, it does so at a tick whose UpdateAppStatus found
-- the fragment monitored with all its services RUNNING, if what other goroutines do between that and
-- the check neither makes an entry of the fragment nor changes its counter. The map is then the one
-- that the check has read; a service may have failed since it was counted.
pub wait_pending_checks-AllRunning :
    (id : String) (events : List WaitEvent) (p : Entries)
    → All (LeavesCounter id) events
    → (wait_pending_checks id events p).1 ≡ some none
    → (before : List WaitEvent) × (after : List WaitEvent) × (between : Entries → Entries)
      × (e : MonitoredAppEntry) × (events ≡ before ++ tick between ∷ after)
      × (lookup id (world id before p) ≡ some e)
      × AllRunning e
      × ((wait_pending_checks id events p).0 ≡ between (update_app_status id (world id before p)))
unfolding wait_pending_checks
wait_pending_checks-AllRunning id [] p leaves h = absurd (ground arith)
wait_pending_checks-AllRunning id (timeout ∷ rest) p leaves h = absurd (ground arith)
wait_pending_checks-AllRunning id (change f ∷ rest) p leaves h =
    let (before, after, between, e, parts, found, run, end) =
      wait_pending_checks-AllRunning id rest (f p) leaves.1 h in
    (change f ∷ before, after, between, e, ap (λ es. change f ∷ es) parts, found, run, end)
wait_pending_checks-AllRunning id (tick f ∷ rest) p leaves h =
    let q = f (update_app_status id p) in
    elim (Option-cases (check_fragment id q)) [
      | inl more ↦
          let (before, after, between, e, parts, found, run, end) =
            wait_pending_checks-AllRunning id rest q leaves.1
              (rw (more, wait_pending_checks) at h) in
          (
            tick f ∷ before,
            after,
            between,
            e,
            ap (λ es. tick f ∷ es) parts,
            found,
            run,
            rw (more, wait_pending_checks) end,
          )
      | inr (err, stop) ↦
          let (e, found, run) =
            tick_ready id f p leaves.0 (stop ∙ rw (stop, wait_pending_checks) at h) in
          ([], rest, f, e, refl, found, run, rw (stop, wait_pending_checks) refl)
    ]
