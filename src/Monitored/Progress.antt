-- ===== src/Monitored/Progress.antt =====
-- internal/structures/monitor/memory_monitored_services.go: WaitPendingChecks gets to its end when
-- the fragment does.
use deployment_manager.Common.{
  ◌≡◌, refl, inl, inr, true, false, none, some, List, [], ◌∷◌, ◌++◌, String, All, arith, pos, eq_ℤ,
  lookup, str_eq, Bool-cases,
}
use deployment_manager.Entities.Status.{NalejServiceStatus}
use deployment_manager.Entities.Monitor.{EndpointInstance, MonitoredAppEntry}
use deployment_manager.Monitored.{Entries, Error}
use deployment_manager.Monitored.ResourceStatus.{set_resource_status}
use deployment_manager.Monitored.Checks.{
  update_app_status, WaitEvent, tick, timeout, change, check_fragment, wait_pending_checks,
}
use deployment_manager.Monitored.Waits.{
  AllRunning, KeepsCounter, has_timeout, update_app_status-lookup, wait_pending_checks_returns,
}
use deployment_manager.Monitored.Refinement.{
  change_at, change_entry, set_resource_status-fragment, with_resource_status,
}

abbrev pub IsMonitored : String → Entries → Type 0
IsMonitored id p = (e : MonitoredAppEntry) × (lookup id p ≡ some e)

-- the changes that are made meanwhile do not take the fragment away
abbrev pub Lasts : String → WaitEvent → Type 0
Lasts id (change f) = (q : Entries) → IsMonitored id q → IsMonitored id (f q)
Lasts id (tick between) = (q : Entries) → IsMonitored id q → IsMonitored id (between q)
Lasts id timeout = Unit

-- the map after the events, for a loop that waits on
abbrev pub world : String → List WaitEvent → Entries → Entries
world id [] p = p
world id (change f ∷ rest) p = world id rest (f p)
world id (tick between ∷ rest) p = world id rest (between (update_app_status id p))
world id (timeout ∷ rest) p = world id rest p

update_app_status-IsMonitored :
    (id : String) (p : Entries) → IsMonitored id p → IsMonitored id (update_app_status id p)
update_app_status-IsMonitored id p (e, found) = (_, update_app_status-lookup id p e found)

change_at-some :
    (id : String) (edit : MonitoredAppEntry → MonitoredAppEntry) (own : String)
    (e : MonitoredAppEntry)
    → (x : MonitoredAppEntry) × (change_at id edit own (some e) ≡ some x)
unfolding change_at change_entry
change_at-some id edit own e = elim (Bool-cases (str_eq id own)) [
  | inl same ↦ (edit e, rw same refl)
  | inr other ↦ (e, rw other refl)
]

pub set_resource_status-IsMonitored :
    (own id service uid : String) (status : NalejServiceStatus) (info : String)
    (endpoints : List EndpointInstance) (p : Entries)
    → IsMonitored own p
    → IsMonitored own (set_resource_status id service uid status info endpoints p).0
set_resource_status-IsMonitored own id service uid status info endpoints p (e, found) =
    rw (set_resource_status-fragment own p id service uid status info endpoints, found)
      (change_at-some id (with_resource_status service uid status info endpoints) own e)

wait_pending_checks_finishes :
    (id : String) (before after : List WaitEvent) (between : Entries → Entries) (p : Entries)
    → has_timeout before ≡ false
    → All (Lasts id) before
    → KeepsCounter id between
    → IsMonitored id p
    → (e : MonitoredAppEntry) → lookup id (world id before p) ≡ some e
    → AllRunning e
    → (wait_pending_checks id (before ++ tick between ∷ after) p).1 ≡ some none
unfolding wait_pending_checks check_fragment
wait_pending_checks_finishes id [] after between p no_timeout lasts keeps m e found all =
    (wait_pending_checks_returns id after p).1 between e keeps found all
wait_pending_checks_finishes id (timeout ∷ before) after between p no_timeout lasts keeps m e found
      all =
    absurd (ground arith)
wait_pending_checks_finishes id (change f ∷ before) after between p no_timeout lasts keeps m e found
      all =
    wait_pending_checks_finishes id before after between (f p) no_timeout lasts.1 keeps
      (lasts.0 p m) e found all
wait_pending_checks_finishes id (tick f ∷ before) after between p no_timeout lasts keeps m e found
      all =
    let q = f (update_app_status id p) in
    let (now, here) = lasts.0 (update_app_status id p) (update_app_status-IsMonitored id p m) in
    let later =
      wait_pending_checks_finishes id before after between q no_timeout lasts.1 keeps (now, here) e
        found all in
    elim (Bool-cases (eq_ℤ now.num_pending_checks (pos 0))) [
      | inl done ↦ rw (here, done, wait_pending_checks) refl
      | inr more ↦ rw (here, more, wait_pending_checks) later
    ]

-- WaitPendingChecks returns, whatever other goroutines do, once the timeout has fired. If the
-- fragment stays monitored and at some tick before the timeout all its services are RUNNING when
-- they are counted, then it returns without an error, whatever happens after that tick, and whatever
-- happens in it before the check that leaves the counter of the fragment alone.
pub wait_pending_checks_ends :
    (id : String) (events : List WaitEvent) (p : Entries)
    → (has_timeout events ≡ true → (err : Error) × ((wait_pending_checks id events p).1 ≡ some err))
      × ((before after : List WaitEvent) (between : Entries → Entries) (e : MonitoredAppEntry)
          → events ≡ before ++ tick between ∷ after
          → has_timeout before ≡ false
          → All (Lasts id) before
          → KeepsCounter id between
          → IsMonitored id p
          → lookup id (world id before p) ≡ some e
          → AllRunning e
          → (wait_pending_checks id events p).1 ≡ some none)
wait_pending_checks_ends id events p = (
  (wait_pending_checks_returns id events p).0,
  λ before after between e parts no_timeout lasts keeps m found running. rw parts (
      wait_pending_checks_finishes id before after between p no_timeout lasts keeps m e found
        running),
)
