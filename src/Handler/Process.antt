-- ===== src/Handler/Process.antt =====
-- pkg/handler/manager.go: processRequest. What the executor and the cluster answer is the
-- parameter `Cluster`; the calls that reach them are recorded in the order in which they are made.
use deployment_manager.Common.{ℕ, suc, Option, none, some, List, [], ◌∷◌, ◌++◌, String, concat}
use deployment_manager.Entities.Status.{FragmentStatus}
use deployment_manager.Monitored.{Entries, Error, add_entry, set_entry_status}
use deployment_manager.Handler.Requests.{DeploymentStage, DeploymentFragment, RollbackPolicy}
use deployment_manager.Handler.Loop.{Attempt, Action, deployment_loop_stage, max_retries_of}
use deployment_manager.Handler.Monitoring.{get_monitoring_data}

-- PrepareEnvironmentForDeployment: its error, and the deployable that it returns beside it, by the
-- error of that deployable's Undeploy; `none` is a nil deployable
pub record Preparation : Type 0 where
  pub error : Error
  pub deployable : Option Error

pub record Cluster : Type 0 where
  -- GetApplicationNamespace
  pub namespace_error : Error
  pub namespace : String
  pub preparation : Preparation
  -- BuildNativeDeployable, for the stage of a number
  pub build_error : ℕ → Error
  -- the rounds of the loop of a stage
  pub attempts : ℕ → ℕ → Attempt

pub data Step : Type 0 where
  prepare : Step
  undeploy_preparation : Step
  build : ℕ → Step
  deploy_stage : ℕ → List Action → Step

pub record Processed : Type 0 where
  pub entries : Entries
  pub error : Error
  pub steps : List Step

-- the body of `if executionError != nil` after the preparation
unfoldable pub preparation_failed : String → String → Option Error → Entries → List Step → Processed
preparation_failed id text deployable p done = record {
  entries =
      set_entry_status id FragmentStatus.error
        (elim deployable [ none ↦ some text | some undeploy_error ↦ undeploy_error ]) p;
  error = some (concat "failed environment preparation for fragment " id);
  steps = elim deployable [ none ↦ done | some undeploy_error ↦ done ++ undeploy_preparation ∷ [] ];
}

-- for stageNumber, stage := range request.Fragment.Stages
unfoldable pub process_stages :
    Cluster
    → RollbackPolicy
    → DeploymentFragment
    → ℕ
    → List DeploymentStage
    → Entries
    → List Step
    → Processed
process_stages c policy fragment n [] p done = record { entries = p; error = none; steps = done }
process_stages c policy fragment n (stage ∷ rest) p done =
    let id = fragment.fragment_id in
    let r =
      deployment_loop_stage id stage.stage_id (c.attempts n) (max_retries_of policy)
        (add_entry (get_monitoring_data c.namespace stage fragment) p) in
    let next =
      process_stages c policy fragment (suc n) rest r.entries
        (done ++ build n ∷ deploy_stage n r.actions ∷ []) in
    elim (c.build_error n) [
      | some text ↦ record {
        entries = set_entry_status id FragmentStatus.error (some text) p;
        error = some text;
        steps = done ++ build n ∷ [];
      }
      | none ↦ elim r.error [
        | none ↦ next
        | some text ↦ record {
          entries = set_entry_status id FragmentStatus.error (some text) r.entries;
          error = some text;
          steps = done ++ build n ∷ deploy_stage n r.actions ∷ undeploy_preparation ∷ [];
        }
      ]
    ]

-- processRequest, for the fragment of the request
unfoldable pub process_request : Cluster → RollbackPolicy → DeploymentFragment → Entries → Processed
unfolding preparation_failed process_stages
process_request c policy fragment p = elim c.namespace_error [
  | some text ↦ record { entries = p; error = some text; steps = [] }
  | none ↦ elim c.preparation.error [
    | some text ↦
        preparation_failed fragment.fragment_id text c.preparation.deployable p (prepare ∷ [])
    | none ↦ process_stages c policy fragment 0 fragment.stages p (prepare ∷ [])
  ]
]
