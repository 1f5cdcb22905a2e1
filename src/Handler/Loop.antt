-- ===== src/Handler/Loop.antt =====
-- pkg/handler/manager.go: deploymentLoopStage, the loop of retries around one stage.
use deployment_manager.Common.{
  ℕ, zero, suc, Option, none, some, List, [], ◌∷◌, ◌++◌, String, ℤ, pos, negsuc, concat,
}
use deployment_manager.Entities.Status.{FragmentStatus}
use deployment_manager.Monitored.{Entries, Error, set_entry_status}
use deployment_manager.Monitored.Checks.{WaitEvent, timeout, wait_pending_checks}
use deployment_manager.Handler.Requests.{RollbackPolicy}

-- What the cluster does in one round of the loop: Deploy registers resources with the monitor and
-- may fail, WaitPendingChecks meets events before its timeout, and Undeploy may fail.
pub record Attempt : Type 0 where
  pub registers : Entries → Entries
  pub deploy_error : Error
  pub events : List WaitEvent
  pub undeploy_error : Error

-- the calls that the loop makes to the deployable of a stage
pub data Action : Type 0 where
  deploy undeploy : Action

-- how the loop leaves the monitor, what it returns, and the calls that it made
pub record Ended : Type 0 where
  pub entries : Entries
  pub error : Error
  pub actions : List Action

-- SetEntryStatus(fragmentId, FRAGMENT_RETRYING, err), if err != nil
unfoldable pub note_deploy_error : String → Error → Entries → Entries
note_deploy_error fragment_id none p = p
note_deploy_error fragment_id (some text) p =
    set_entry_status fragment_id FragmentStatus.retrying (some text) p

abbrev timed_out : Option Error → Error
timed_out none = some "checking pendingStages resources exceeded"
timed_out (some err) = err

-- WaitPendingChecks with the timeout that fires at the end
unfoldable pub wait_for_stage : String → List WaitEvent → Entries → Entries × Error
wait_for_stage fragment_id events p =
    let (q, err) = wait_pending_checks fragment_id (events ++ timeout ∷ []) p in (q, timed_out err)

-- the map and the result of the wait in one round
unfoldable pub attempt_stage : String → Attempt → Entries → Entries × Error
unfolding note_deploy_error wait_for_stage
attempt_stage fragment_id a p = wait_for_stage fragment_id a.events (
    note_deploy_error fragment_id a.deploy_error
      (a.registers (set_entry_status fragment_id FragmentStatus.deploying none p)))

-- the rounds that `retries < maxRetries` allows, from retries = 0
abbrev pub rounds : ℤ → ℕ
rounds (pos n) = n
rounds (negsuc n) = 0

-- the loop: the rounds left, the number of the round, the map and the calls made so far
unfoldable pub retry_stage : String → String → (ℕ → Attempt) → ℕ → ℕ → Entries → List Action → Ended
unfolding attempt_stage
retry_stage fragment_id stage_id cluster zero n p made = record {
  entries = p;
  error = some (
      concat "exceeded number of retries for stage "
        (concat stage_id (concat " in fragment " fragment_id)));
  actions = made;
}
retry_stage fragment_id stage_id cluster (suc left) n p made =
    let (q, stage_error) = attempt_stage fragment_id (cluster n) p in
    let next =
      retry_stage fragment_id stage_id cluster left (suc n) q (made ++ deploy ∷ undeploy ∷ []) in
    elim stage_error [
      | none ↦ record { entries = q; error = none; actions = made ++ deploy ∷ [] }
      | some text ↦ elim (cluster n).undeploy_error [
        | some err ↦ record {
          entries = q;
          error = some err;
          actions = made ++ deploy ∷ undeploy ∷ [];
        }
        | none ↦ next
      ]
    ]

-- deploymentLoopStage
unfoldable pub deployment_loop_stage : String → String → (ℕ → Attempt) → ℤ → Entries → Ended
unfolding retry_stage
deployment_loop_stage fragment_id stage_id cluster max_retries p =
    retry_stage fragment_id stage_id cluster (rounds max_retries) 0 p []

-- NoRetries, MaxStageRetries, UnlimitedStageRetries
abbrev pub no_retries : ℤ
no_retries = pos 1

abbrev pub max_stage_retries : ℤ
max_stage_retries = pos 3

abbrev pub unlimited_stage_retries : ℤ
unlimited_stage_retries = negsuc 0

-- the `switch` of processRequest
unfoldable pub max_retries_of : RollbackPolicy → ℤ
max_retries_of RollbackPolicy.no_rollback = no_retries
max_retries_of RollbackPolicy.always_retry = unlimited_stage_retries
max_retries_of RollbackPolicy.limited_retry = max_stage_retries
max_retries_of RollbackPolicy.unknown = no_retries
