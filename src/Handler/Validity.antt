-- ===== src/Handler/Validity.antt =====
-- pkg/handler/manager.go: processRequest keeps the invariant of the monitor.
use deployment_manager.Common.{
  ℕ, zero, suc, inl, inr, none, some, List, [], ◌∷◌, ◌++◌, String, All, Option-cases,
}
use deployment_manager.Entities.Status.{FragmentStatus}
use deployment_manager.Monitored.{Entries, Error, add_entry}
use deployment_manager.Monitored.Checks.{
  WaitEvent, tick, timeout, change, check_fragment, wait_pending_checks, update_app_status,
}
use deployment_manager.Monitored.Invariant.{IsValid, add_entry-IsValid, set_entry_status-IsValid}
use deployment_manager.Monitored.Keeps.{update_app_status-IsValid}
use deployment_manager.Handler.Requests.{DeploymentStage, DeploymentFragment, RollbackPolicy}
use deployment_manager.Handler.Loop.{
  Attempt, Action, Ended, deployment_loop_stage, max_retries_of, note_deploy_error, wait_for_stage,
  attempt_stage, retry_stage, rounds,
}
use deployment_manager.Handler.Monitoring.{get_monitoring_data, get_monitoring_data-IsValidEntry}
use deployment_manager.Handler.Process.{
  Cluster, Step, prepare, preparation_failed, process_stages, process_request,
}

abbrev pub Keeps : (Entries → Entries) → Type 0
Keeps f = (p : Entries) → IsValid p → IsValid (f p)

abbrev pub KeepsEvent : WaitEvent → Type 0
KeepsEvent (change f) = Keeps f
KeepsEvent (tick between) = Keeps between
KeepsEvent timeout = Unit

-- what the rest of the program does to the monitor during a round keeps the invariant
pub record IsTame (a : Attempt) : Type 0 where
  pub registers : Keeps a.registers
  pub events : All KeepsEvent a.events

wait_pending_checks-IsValid :
    (id : String) (events : List WaitEvent) (p : Entries)
    → All KeepsEvent events
    → IsValid p
    → IsValid (wait_pending_checks id events p).0
unfolding wait_pending_checks
wait_pending_checks-IsValid id [] p k v = v
wait_pending_checks-IsValid id (timeout ∷ rest) p k v = v
wait_pending_checks-IsValid id (change f ∷ rest) p k v =
    wait_pending_checks-IsValid id rest (f p) k.1 (k.0 p v)
wait_pending_checks-IsValid id (tick between ∷ rest) p k v =
    elim (Option-cases (check_fragment id (between (update_app_status id p)))) [
      | inl more ↦
          rw (more, wait_pending_checks)
            (wait_pending_checks-IsValid id rest (between (update_app_status id p)) k.1
              (k.0 _ (update_app_status-IsValid id p v)))
      | inr (err, stop) ↦ rw (stop, wait_pending_checks) (k.0 _ (update_app_status-IsValid id p v))
    ]

All-append :
    (xs ys : List WaitEvent) → All KeepsEvent xs → All KeepsEvent ys → All KeepsEvent (xs ++ ys)
All-append [] ys a b = b
All-append (x ∷ xs) ys a b = (a.0, All-append xs ys a.1 b)

note_deploy_error-IsValid :
    (id : String) (err : Error) (p : Entries) → IsValid p → IsValid (note_deploy_error id err p)
unfolding note_deploy_error
note_deploy_error-IsValid id none p v = v
note_deploy_error-IsValid id (some text) p v =
    set_entry_status-IsValid id FragmentStatus.retrying (some text) p v

attempt_stage-IsValid :
    (id : String) (a : Attempt) (p : Entries)
    → IsTame a
    → IsValid p
    → IsValid (attempt_stage id a p).0
unfolding attempt_stage wait_for_stage
attempt_stage-IsValid id a p t v =
    wait_pending_checks-IsValid id (a.events ++ timeout ∷ []) _
      (All-append a.events (timeout ∷ []) t.events (tt, tt))
      (note_deploy_error-IsValid id a.deploy_error _
        (t.registers _ (set_entry_status-IsValid id FragmentStatus.deploying none p v)))

retry_stage-IsValid :
    (id stage : String) (cluster : ℕ → Attempt) (left n : ℕ) (p : Entries) (made : List Action)
    → ((k : ℕ) → IsTame (cluster k))
    → IsValid p
    → IsValid (retry_stage id stage cluster left n p made).entries
unfolding retry_stage
retry_stage-IsValid id stage cluster zero n p made t v = v
retry_stage-IsValid id stage cluster (suc left) n p made t v =
    let q = attempt_stage id (cluster n) p in
    let w = attempt_stage-IsValid id (cluster n) p (t n) v in
    elim (Option-cases q.1) [
      | inl done ↦ rw (done, retry_stage) w
      | inr (text, failed) ↦ elim (Option-cases (cluster n).undeploy_error) [
        | inr (err, stuck) ↦ rw (failed, stuck, retry_stage) w
        | inl undone ↦
            rw (failed, undone, retry_stage)
              (retry_stage-IsValid id stage cluster left (suc n) q.0
                (made ++ Action.deploy ∷ Action.undeploy ∷ []) t w)
      ]
    ]

process_stages-IsValid :
    (c : Cluster) (policy : RollbackPolicy) (fragment : DeploymentFragment) (n : ℕ)
    (stages : List DeploymentStage) (p : Entries) (done : List Step)
    → ((i k : ℕ) → IsTame (c.attempts i k))
    → IsValid p
    → IsValid (process_stages c policy fragment n stages p done).entries
unfolding process_stages deployment_loop_stage
process_stages-IsValid c policy fragment n [] p done t v = v
process_stages-IsValid c policy fragment n (stage ∷ rest) p done t v =
    let entry = get_monitoring_data c.namespace stage fragment in
    let r : Ended =
      deployment_loop_stage fragment.fragment_id stage.stage_id (c.attempts n)
        (max_retries_of policy) (add_entry entry p) in
    let w : IsValid r.entries =
      retry_stage-IsValid fragment.fragment_id stage.stage_id (c.attempts n)
        (rounds (max_retries_of policy)) 0 (add_entry entry p) [] (t n)
        (add_entry-IsValid entry p (get_monitoring_data-IsValidEntry c.namespace stage fragment)
          v) in
    elim (Option-cases (c.build_error n)) [
      | inr (text, unbuilt) ↦
          rw (unbuilt, process_stages)
            (set_entry_status-IsValid fragment.fragment_id FragmentStatus.error (some text) p v)
      | inl built ↦ elim (Option-cases r.error) [
        | inr (text, stuck) ↦
            rw (built, stuck, process_stages)
              (set_entry_status-IsValid fragment.fragment_id FragmentStatus.error (some text)
                r.entries w)
        | inl fine ↦
            rw (built, fine, process_stages)
              (process_stages-IsValid c policy fragment (suc n) rest r.entries _ t w)
      ]
    ]

-- A request leaves the monitor valid on every path, if what the rest of the program does to the
-- monitor in the meantime keeps it valid.
pub process_request-IsValid :
    (c : Cluster) (policy : RollbackPolicy) (fragment : DeploymentFragment) (p : Entries)
    → ((i k : ℕ) → IsTame (c.attempts i k))
    → IsValid p
    → IsValid (process_request c policy fragment p).entries
unfolding process_request preparation_failed
process_request-IsValid c policy fragment p t v = elim (Option-cases c.namespace_error) [
  | inr (text, lost) ↦ rw (lost, process_request) v
  | inl named ↦ elim (Option-cases c.preparation.error) [
    | inr (text, unprepared) ↦
        rw (named, unprepared, process_request, preparation_failed)
          (set_entry_status-IsValid fragment.fragment_id FragmentStatus.error _ p v)
    | inl prepared ↦
        rw (named, prepared, process_request)
          (process_stages-IsValid c policy fragment 0 fragment.stages p (prepare ∷ []) t v)
  ]
]
