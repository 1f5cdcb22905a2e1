-- ===== src/Monitored/Waits.antt =====
-- internal/structures/monitor/memory_monitored_services.go: what WaitPendingChecks promises to the
-- deployment loop.
use deployment_manager.Common.{
  ◌≡◌, refl, ap, ◌∙◌, inl, inr, Bool, true, false, none, some, List, [], ◌∷◌, String, arith, pos,
  eq_ℤ, Map, lookup, AllEntries, Bool-cases, Option-cases, lookup-insert_self, eq_ℤ_iff,
}
use deployment_manager.Entities.Status.{NalejServiceStatus}
use deployment_manager.Entities.Monitor.{MonitoredServiceEntry, MonitoredAppEntry}
use deployment_manager.Monitored.{Entries, Error}
use deployment_manager.Monitored.Checks.{
  count_not_running, update_app_status, WaitEvent, tick, timeout, change, check_fragment,
  wait_pending_checks,
}

abbrev pub IsRunning : String → MonitoredServiceEntry → Type 0
IsRunning k s = s.status ≡ NalejServiceStatus.running

-- every service of the entry runs
abbrev pub AllRunning : MonitoredAppEntry → Type 0
AllRunning e = AllEntries IsRunning e.services

count_not_running_of_running :
    (m : Map MonitoredServiceEntry) → AllEntries IsRunning m → count_not_running m 0 ≡ 0
unfolding count_not_running
count_not_running_of_running [] a = refl
count_not_running_of_running ((k, s) ∷ m) a = rw a.0 (count_not_running_of_running m a.1)

-- After UpdateAppStatus the counter of a monitored fragment is the number of its services that do
-- not run, and the rest of the entry is as it was.
pub update_app_status-lookup :
    (id : String) (p : Entries) (e : MonitoredAppEntry)
    → lookup id p ≡ some e
    → lookup id (update_app_status id p)
      ≡ some (record e { num_pending_checks = pos (count_not_running e.services 0) })
unfolding update_app_status
update_app_status-lookup id p e found =
    rw (found, update_app_status)
      (elim (Bool-cases (eq_ℤ e.num_pending_checks (pos (count_not_running e.services 0)))) [
        | inl same ↦
            rw same
              (ground (arith, eq_ℤ_iff e.num_pending_checks (pos (count_not_running e.services 0))))
        | inr new ↦ rw new (lookup-insert_self id _ p)
      ])

abbrev pub has_timeout : List WaitEvent → Bool
has_timeout [] = false
has_timeout (timeout ∷ rest) = true
has_timeout (tick between ∷ rest) = has_timeout rest
has_timeout (change f ∷ rest) = has_timeout rest

-- what happens between the two halves of a tick leaves the counter of the fragment alone
abbrev pub KeepsCounter : String → (Entries → Entries) → Type 0
KeepsCounter id f =
    (q : Entries) (e : MonitoredAppEntry)
    → lookup id q ≡ some e
    → (e' : MonitoredAppEntry) × (lookup id (f q) ≡ some e')
      × (e'.num_pending_checks ≡ e.num_pending_checks)

-- It returns once the timeout has fired, and without an error at a first tick where all services
-- of the fragment run when they are counted.
pub wait_pending_checks_returns :
    (id : String) (events : List WaitEvent) (p : Entries)
    → (has_timeout events ≡ true → (err : Error) × ((wait_pending_checks id events p).1 ≡ some err))
      × ((between : Entries → Entries) (e : MonitoredAppEntry)
          → KeepsCounter id between
          → lookup id p ≡ some e
          → AllRunning e
          → (wait_pending_checks id (tick between ∷ events) p).1 ≡ some none)
unfolding wait_pending_checks check_fragment
wait_pending_checks_returns id events p = (ends events p, ready)
  where
    ends :
        (events : List WaitEvent) (p : Entries)
        → has_timeout events ≡ true
        → (err : Error) × ((wait_pending_checks id events p).1 ≡ some err)
    ends [] p h = absurd (ground arith)
    ends (timeout ∷ rest) p h = (_, refl)
    ends (change f ∷ rest) p h = ends rest (f p) h
    ends (tick between ∷ rest) p h =
        elim (Option-cases (check_fragment id (between (update_app_status id p)))) [
          | inl more ↦
              rw (more, wait_pending_checks) (ends rest (between (update_app_status id p)) h)
          | inr (err, stop) ↦ (err, rw (stop, wait_pending_checks))
        ]

    ready :
        (between : Entries → Entries) (e : MonitoredAppEntry)
        → KeepsCounter id between
        → lookup id p ≡ some e
        → AllRunning e
        → (wait_pending_checks id (tick between ∷ events) p).1 ≡ some none
    ready between e keeps found run =
        let (e', found', same) = keeps _ _ (update_app_status-lookup id p e found) in
        let zero_left : e'.num_pending_checks ≡ pos 0 =
          same ∙ ap pos (count_not_running_of_running e.services run) in
        rw (found', wait_pending_checks, check_fragment) (rw zero_left refl)
