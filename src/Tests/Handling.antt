-- ===== src/Tests/Handling.antt =====
-- The manager at concrete inputs.
use deployment_manager.Common.{
  ℕ, suc, ◌≡◌, refl, ◌≢◌, inl, Option, none, some, List, [], ◌∷◌, ◌++◌, String, arith, length, pos,
  lookup,
}
use deployment_manager.Entities.Status.{FragmentStatus}
use deployment_manager.Entities.Monitor.{MonitoredAppEntry}
use deployment_manager.Monitored.{Entries}
use deployment_manager.Monitored.Invariant.{IsValid, IsValid-empty}
use deployment_manager.Handler.Requests.{DeploymentFragmentRequest, RollbackPolicy}
use deployment_manager.Handler.Loop.{deployment_loop_stage}
use deployment_manager.Handler.Retries.{Retried, Ends, deployment_loop_stage-Ends}
use deployment_manager.Handler.Process.{Cluster, prepare, process_request}
use deployment_manager.Handler.Stages.{Runs, process_request-Runs}
use deployment_manager.Handler.Failures.{
  deploy_calls, process_request_unmonitored, always_retry_fails,
}
use deployment_manager.Handler.Validity.{process_request-IsValid}
use deployment_manager.Handler.Undeploy.{
  Call, undeploy_fragment, AllTerminating, undeploy_one, undeploy_one-effect,
}
use deployment_manager.Handler.Queue.{
  Request, Queue, QueueLaws, handle_all, drain, accepted, drain-handle_all,
}
use deployment_manager.Tests.Data.{fragment, entry_one, monitor, cluster, calm, undeploy_request}

deployment_loop_stage-Ends_example :
    (k : ℕ) × (q : Entries) × Retried "frag" (λ k. calm) k 0 monitor q
    × Ends "frag"
        (λ k. calm)
        3
        []
        k
        k
        q
        (deployment_loop_stage "frag" "one" (λ k. calm) (pos 3) monitor)
deployment_loop_stage-Ends_example =
    deployment_loop_stage-Ends "frag" "one" (λ k. calm) (pos 3) monitor

process_request-Runs_example :
    let r = process_request cluster RollbackPolicy.limited_retry fragment [] in
    (cluster.namespace_error ≡ none
      → cluster.preparation.error ≡ none
      → Runs cluster RollbackPolicy.limited_retry fragment 0 fragment.stages [] (prepare ∷ []) r)
    × (cluster.namespace_error ≡ none
        → r.error ≢ none
        → (e : MonitoredAppEntry) → lookup "frag" r.entries ≡ some e
        → e.status ≡ FragmentStatus.error)
process_request-Runs_example = process_request-Runs cluster RollbackPolicy.limited_retry fragment []

always_retry_fails_example :
    let r = process_request cluster RollbackPolicy.always_retry fragment [] in
    (r.error ≢ none) × (deploy_calls r.steps ≡ 0)
always_retry_fails_example = always_retry_fails cluster fragment [] (λ h. cc)

abbrev unprepared : Cluster
unprepared = record cluster {
  preparation = record { error = some "no namespace"; deployable = none };
}

process_request_unmonitored_example :
    ((process_request unprepared RollbackPolicy.no_rollback fragment []).error ≢ none)
    × ((process_request unprepared RollbackPolicy.no_rollback fragment []).entries ≡ [])
unfolding lookup
process_request_unmonitored_example =
    process_request_unmonitored unprepared RollbackPolicy.no_rollback fragment [] refl
      (inl (λ h. cc))

process_request-IsValid_example :
    IsValid (process_request cluster RollbackPolicy.limited_retry fragment []).entries
process_request-IsValid_example =
    process_request-IsValid cluster RollbackPolicy.limited_retry fragment []
      (λ i k. record { registers = λ p v. v; events = tt }) IsValid-empty

undeploy_one-effect_example :
    let r = undeploy_one none undeploy_request monitor in
    (lookup "frag" monitor ≡ none → (r.error ≢ none) × (r.entries ≡ monitor) × (r.calls ≡ []))
    × ((e : MonitoredAppEntry)
        → lookup "frag" monitor ≡ some e
        → (r.error ≡ none)
          × ((t : MonitoredAppEntry) × (lookup "frag" r.entries ≡ some t)
              × (t.status ≡ FragmentStatus.terminating)
              × AllTerminating t)
          × ((j : String) → j ≢ "frag" → lookup j r.entries ≡ lookup j monitor)
          × ((later : List Call) × (r.calls ≡ undeploy_fragment e.namespace "frag" ∷ later)))
undeploy_one-effect_example = undeploy_one-effect none undeploy_request monitor

-- a second fragment of the application, which is up
abbrev other : MonitoredAppEntry
other = record entry_one { fragment_id = "other"; status = FragmentStatus.done }

-- a queue that is the list of its elements
abbrev listed : Queue (List Request)
listed = record {
  init = [];
  push_back = λ r q. q ++ (r ∷ []);
  pop_front = λ q. elim q [ [] ↦ (none, []) | r ∷ rest ↦ (some r, rest) ];
  len = length;
}

pop_listed :
    (r : Request) (rest q : List Request)
    → q ≡ r ∷ rest
    → ((listed.pop_front q).0 ≡ some r) × ((listed.pop_front q).1 ≡ rest)
pop_listed r rest q same = ground arith

abbrev listed_laws : QueueLaws listed
listed_laws = record {
  contents = λ q. q;
  contents-init = refl;
  contents-push_back = λ r q. refl;
  contents-pop_front = pop_listed;
  len-contents = λ q. refl;
}

abbrev request : String → DeploymentFragmentRequest
request id = record {
  request_id = id;
  fragment = some fragment;
  rollback_policy = RollbackPolicy.no_rollback;
}

-- one complete request, none, and one without an id
abbrev requests : List (Option Request)
requests = some (request "first") ∷ none ∷ some (request "") ∷ []

drain-handle_all_example :
    (left : List Request) × (drain listed
        (suc (length (accepted requests)))
        (handle_all listed requests [])
      ≡ some (accepted requests, left))
    × (left ≡ [])
drain-handle_all_example = drain-handle_all listed listed_laws requests
