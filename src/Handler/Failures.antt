-- ===== src/Handler/Failures.antt =====
-- pkg/handler/manager.go: requests that fail before a stage is deployed.
use deployment_manager.Common.{
  ℕ, ◌+◌, ◌≡◌, refl, ◌≢◌, ◌⊎◌, inl, inr, none, some, List, [], ◌∷◌, String, arith, negsuc, lookup,
  Option-cases,
}
use deployment_manager.Entities.Status.{FragmentStatus}
use deployment_manager.Monitored.{Entries, add_entry}
use deployment_manager.Handler.Requests.{DeploymentStage, DeploymentFragment, RollbackPolicy}
use deployment_manager.Handler.Loop.{deployment_loop_stage, max_retries_of}
use deployment_manager.Handler.Retries.{deploys, deployment_loop_stage_negative}
use deployment_manager.Handler.Monitoring.{get_monitoring_data}
use deployment_manager.Handler.Process.{
  Cluster, Step, prepare, undeploy_preparation, build, deploy_stage, preparation_failed,
  process_stages, process_request,
}
use deployment_manager.Handler.Stages.{set_entry_status_missing}

process_stages_unbuilt :
    (c : Cluster) (policy : RollbackPolicy) (fragment : DeploymentFragment) (n : ℕ)
    (stages : List DeploymentStage) (p : Entries) (done : List Step) (text : String)
    → stages ≢ []
    → c.build_error n ≡ some text
    → lookup fragment.fragment_id p ≡ none
    → let r = process_stages c policy fragment n stages p done in (r.error ≢ none) × (r.entries ≡ p)
unfolding process_stages
process_stages_unbuilt c policy fragment n [] p done text some_stage unbuilt missing =
    absurd (some_stage refl)
process_stages_unbuilt c policy fragment n (stage ∷ rest) p done text some_stage unbuilt missing =
    rw (unbuilt, process_stages)
      (
        λ h. ground arith,
        set_entry_status_missing fragment.fragment_id FragmentStatus.error (some text) p missing,
      )

-- A fragment that is not monitored yet stays so when its preparation, or the build of its first
-- stage, fails: the monitor is left as it was, and there is nothing to notify.
pub process_request_unmonitored :
    (c : Cluster) (policy : RollbackPolicy) (fragment : DeploymentFragment) (p : Entries)
    → lookup fragment.fragment_id p ≡ none
    → (c.preparation.error ≢ none) ⊎ ((c.build_error 0 ≢ none) × (fragment.stages ≢ []))
    → ((process_request c policy fragment p).error ≢ none)
      × ((process_request c policy fragment p).entries ≡ p)
unfolding process_request preparation_failed
process_request_unmonitored c policy fragment p missing bad =
    elim (Option-cases c.namespace_error) [
      | inr (text, lost) ↦ rw (lost, process_request) (λ h. ground arith, refl)
      | inl named ↦ elim (Option-cases c.preparation.error) [
        | inr (text, unprepared) ↦
            rw (named, unprepared, process_request, preparation_failed)
              (
                λ h. ground arith,
                set_entry_status_missing fragment.fragment_id FragmentStatus.error _ p missing,
              )
        | inl prepared ↦
            rw (named, prepared, process_request)
              (elim bad [
                | inl wrong ↦ absurd (wrong prepared)
                | inr (unbuilt, some_stage) ↦ elim (Option-cases (c.build_error 0)) [
                  | inl built ↦ absurd (unbuilt built)
                  | inr (text, e) ↦
                      process_stages_unbuilt c policy fragment 0 fragment.stages p (prepare ∷ [])
                        text some_stage e missing
                ]
              ])
      ]
    ]

-- the deployments of all stages together
unfoldable pub deploy_calls : List Step → ℕ
deploy_calls [] = 0
deploy_calls (deploy_stage n actions ∷ rest) = deploys actions + deploy_calls rest
deploy_calls (prepare ∷ rest) = deploy_calls rest
deploy_calls (undeploy_preparation ∷ rest) = deploy_calls rest
deploy_calls (build n ∷ rest) = deploy_calls rest

always_retry_stages :
    (c : Cluster) (fragment : DeploymentFragment) (stages : List DeploymentStage) (p : Entries)
    → stages ≢ []
    → let r = process_stages c RollbackPolicy.always_retry fragment 0 stages p (prepare ∷ []) in
      (r.error ≢ none) × (deploy_calls r.steps ≡ 0)
unfolding process_stages deploy_calls deploys max_retries_of
always_retry_stages c fragment [] p some_stage = absurd (some_stage refl)
always_retry_stages c fragment (stage ∷ rest) p some_stage = elim (Option-cases (c.build_error 0)) [
  | inr (text, unbuilt) ↦ rw (unbuilt, process_stages) (λ h. ground arith, refl)
  | inl built ↦
      let q = add_entry (get_monitoring_data c.namespace stage fragment) p in
      let gone =
        deployment_loop_stage_negative fragment.fragment_id stage.stage_id (c.attempts 0) 0 q in
      elim (Option-cases
        (deployment_loop_stage fragment.fragment_id stage.stage_id (c.attempts 0) (negsuc 0)
          q).error) [
            | inl fine ↦ absurd (gone.0 fine)
            | inr (text, stuck) ↦ rw (built, stuck, process_stages) (λ h. ground arith, rw gone.1)
          ]
]

-- Under ALWAYS_RETRY every request for a fragment with at least one stage fails, whatever the
-- cluster does, and no stage is ever deployed.
pub always_retry_fails :
    (c : Cluster) (fragment : DeploymentFragment) (p : Entries)
    → fragment.stages ≢ []
    → let r = process_request c RollbackPolicy.always_retry fragment p in
      (r.error ≢ none) × (deploy_calls r.steps ≡ 0)
unfolding process_request preparation_failed deploy_calls
always_retry_fails c fragment p some_stage = elim (Option-cases c.namespace_error) [
  | inr (text, lost) ↦ rw (lost, process_request) (λ h. ground arith, refl)
  | inl named ↦ elim (Option-cases c.preparation.error) [
    | inr (text, unprepared) ↦
        rw (named, unprepared, process_request, preparation_failed)
          (λ h. ground arith, ground arith)
    | inl prepared ↦
        rw (named, prepared, process_request)
          (always_retry_stages c fragment fragment.stages p some_stage)
  ]
]
