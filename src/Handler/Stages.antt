-- ===== src/Handler/Stages.antt =====
-- pkg/handler/manager.go: which stages processRequest deploys, and what a failed request leaves in
-- the monitor.
use deployment_manager.Common.{
  ℕ, suc, ◌≡◌, refl, sym, subst, ◌∙◌, ◌≢◌, ◌⊎◌, inl, inr, none, some, List, [], ◌∷◌, ◌++◌, String,
  arith, lookup, Option-cases, lookup-insert_self,
}
use mathlib.Core.List.{append-nil, append_assoc}
use deployment_manager.Entities.Status.{FragmentStatus}
use deployment_manager.Entities.Monitor.{MonitoredAppEntry}
use deployment_manager.Monitored.{Entries, Error, add_entry, entry_with_status, set_entry_status}
use deployment_manager.Handler.Requests.{DeploymentStage, DeploymentFragment, RollbackPolicy}
use deployment_manager.Handler.Loop.{Ended, deployment_loop_stage, max_retries_of}
use deployment_manager.Handler.Monitoring.{get_monitoring_data}
use deployment_manager.Handler.Process.{
  Cluster, Step, prepare, undeploy_preparation, build, deploy_stage, Processed, preparation_failed,
  process_stages, process_request,
}

pub set_entry_status-status :
    (id : String) (status : FragmentStatus) (err : Error) (p : Entries) (e : MonitoredAppEntry)
    → lookup id (set_entry_status id status err p) ≡ some e
    → e.status ≡ status
unfolding set_entry_status entry_with_status
set_entry_status-status id status err p e h = elim (Option-cases (lookup id p)) [
  | inl missing ↦ absurd (ground (arith))
  | inr (old, found) ↦ ground (arith, lookup-insert_self id (entry_with_status status err old) p)
]

pub set_entry_status_missing :
    (id : String) (status : FragmentStatus) (err : Error) (p : Entries)
    → lookup id p ≡ none
    → set_entry_status id status err p ≡ p
unfolding set_entry_status
set_entry_status_missing id status err p h = rw (h, set_entry_status)

-- the fragment, if it is monitored, has the status ERROR
abbrev IsFailed : String → Entries → Type 0
IsFailed id p = (e : MonitoredAppEntry) → lookup id p ≡ some e → e.status ≡ FragmentStatus.error

module _ (c : Cluster) (policy : RollbackPolicy) (fragment : DeploymentFragment) where
  -- the loop of a stage, once its services are monitored
  abbrev pub loop_of : ℕ → DeploymentStage → Entries → Ended
  loop_of n stage p =
      deployment_loop_stage fragment.fragment_id stage.stage_id (c.attempts n)
        (max_retries_of policy) (add_entry (get_monitoring_data c.namespace stage fragment) p)

  -- every stage is built and its loop ends without an error, one after the other
  pub data Deploys : ℕ → List DeploymentStage → Entries → List Step → Entries → Type 0 where
    all_done : {n : ℕ} {p : Entries} → Deploys n [] p [] p
    next :
        {n : ℕ} {stage : DeploymentStage} {rest : List DeploymentStage} {p q : Entries}
        {steps : List Step}
        → c.build_error n ≡ none
        → (loop_of n stage p).error ≡ none
        → Deploys (suc n) rest (loop_of n stage p).entries steps q
        → Deploys n
            (stage ∷ rest)
            p
            (build n ∷ deploy_stage n (loop_of n stage p).actions ∷ steps)
            q

  -- the stages before one are deployed like that; that one cannot be built, or its loop fails, which
  -- undeploys the preparation; its error is noted for the fragment, and no later stage is built
  pub data FailsWith (text : String)
      : ℕ → List DeploymentStage → Entries → List Step → Entries → Type 0 where
    unbuilt :
        {n : ℕ} {stage : DeploymentStage} {rest : List DeploymentStage} {p : Entries}
        → c.build_error n ≡ some text
        → FailsWith text n
            (stage ∷ rest)
            p
            (build n ∷ [])
            (set_entry_status fragment.fragment_id FragmentStatus.error (some text) p)
    stuck :
        {n : ℕ} {stage : DeploymentStage} {rest : List DeploymentStage} {p : Entries}
        → c.build_error n ≡ none
        → (loop_of n stage p).error ≡ some text
        → FailsWith text n
            (stage ∷ rest)
            p
            (build n ∷ deploy_stage n (loop_of n stage p).actions ∷ undeploy_preparation ∷ [])
            (set_entry_status fragment.fragment_id FragmentStatus.error
              (some text)
              (loop_of n stage p).entries)
    later :
        {n : ℕ} {stage : DeploymentStage} {rest : List DeploymentStage} {p q : Entries}
        {steps : List Step}
        → c.build_error n ≡ none
        → (loop_of n stage p).error ≡ none
        → FailsWith text (suc n) rest (loop_of n stage p).entries steps q
        → FailsWith text n
            (stage ∷ rest)
            p
            (build n ∷ deploy_stage n (loop_of n stage p).actions ∷ steps)
            q

  -- what the loop over the stages adds to the steps that were made before it
  unfoldable pub Runs : ℕ → List DeploymentStage → Entries → List Step → Processed → Type 0
  Runs n stages p done r =
      (steps : List Step) × (r.steps ≡ done ++ steps)
      × (((r.error ≡ none) × Deploys n stages p steps r.entries)
          ⊎ ((text : String) × (r.error ≡ some text) × FailsWith text n stages p steps r.entries))

  Runs-next :
      (n : ℕ) (stage : DeploymentStage) (rest : List DeploymentStage) (p : Entries)
      (done : List Step) (r : Processed)
      → c.build_error n ≡ none
      → (loop_of n stage p).error ≡ none
      → Runs
          (suc n)
          rest
          (loop_of n stage p).entries
          (done ++ build n ∷ deploy_stage n (loop_of n stage p).actions ∷ [])
          r
      → Runs n (stage ∷ rest) p done r
  unfolding Runs
  Runs-next n stage rest p done r built fine (steps, made, how) =
      let two = build n ∷ deploy_stage n (loop_of n stage p).actions ∷ [] in
      (
        build n ∷ deploy_stage n (loop_of n stage p).actions ∷ steps,
        made ∙ append_assoc done two steps,
        elim how [
          | inl (ok, deployed) ↦ inl (ok, Deploys.next built fine deployed)
          | inr (text, wrong, fails) ↦ inr (text, wrong, FailsWith.later built fine fails)
        ],
      )

  process_stages-Runs :
      (n : ℕ) (stages : List DeploymentStage) (p : Entries) (done : List Step)
      → Runs n stages p done (process_stages c policy fragment n stages p done)
  unfolding process_stages Runs
  process_stages-Runs n [] p done = ([], sym (append-nil done), inl (refl, Deploys.all_done))
  process_stages-Runs n (stage ∷ rest) p done = elim (Option-cases (c.build_error n)) [
    | inr (text, wrong) ↦
        rw (wrong, process_stages) (build n ∷ [], refl, inr (text, refl, FailsWith.unbuilt wrong))
    | inl built ↦ elim (Option-cases (loop_of n stage p).error) [
      | inr (text, wrong) ↦
          rw (built, wrong, process_stages) (_, refl, inr (text, refl, FailsWith.stuck built wrong))
      | inl fine ↦
          rw (built, fine, process_stages)
            (Runs-next n stage rest p done _ built fine (
              process_stages-Runs (suc n) rest (loop_of n stage p).entries
                (done ++ build n ∷ deploy_stage n (loop_of n stage p).actions ∷ [])))
    ]
  ]

  FailsWith-IsFailed :
      (text : String) (n : ℕ) (stages : List DeploymentStage) (p q : Entries) (steps : List Step)
      → FailsWith text n stages p steps q
      → IsFailed fragment.fragment_id q
  FailsWith-IsFailed text n stages _ q steps (FailsWith.unbuilt {p = from} wrong) =
      set_entry_status-status fragment.fragment_id FragmentStatus.error (some text) from
  FailsWith-IsFailed text n stages _ q steps
        (FailsWith.stuck {n = m} {stage = stage} {p = from} built wrong) =
      set_entry_status-status fragment.fragment_id FragmentStatus.error (some text)
        (loop_of m stage from).entries
  FailsWith-IsFailed text n stages p q steps (FailsWith.later built fine fails) =
      FailsWith-IsFailed text _ _ _ q _ fails

  Runs-IsFailed :
      (p : Entries) (r : Processed)
      → Runs 0 fragment.stages p (prepare ∷ []) r
      → r.error ≢ none
      → IsFailed fragment.fragment_id r.entries
  unfolding Runs
  Runs-IsFailed p r (steps, made, inl (fine, deployed)) wrong = absurd (wrong fine)
  Runs-IsFailed p r (steps, made, inr (text, same, fails)) wrong =
      FailsWith-IsFailed text 0 fragment.stages p r.entries steps fails

  prepared_runs :
      (p : Entries)
      → c.namespace_error ≡ none
      → c.preparation.error ≡ none
      → process_request c policy fragment p
        ≡ process_stages c policy fragment 0 fragment.stages p (prepare ∷ [])
  unfolding process_request
  prepared_runs p named prepared = rw (named, prepared, process_request) refl

  -- When the namespace is found and the preparation has no error, processRequest builds the stages of
  -- the fragment in their order and runs the loop of each, up to the first that cannot be built or
  -- whose loop fails: it then returns that error and does not touch a later stage. It returns no
  -- error exactly when the loops of all stages have none. If it returns an error, though the
  -- namespace was found, and the fragment is monitored at the end, then the fragment has the status
  -- ERROR.
  pub process_request-Runs :
      (p : Entries)
      → let r = process_request c policy fragment p in
        (c.namespace_error ≡ none
          → c.preparation.error ≡ none
          → Runs 0 fragment.stages p (prepare ∷ []) r)
        × (c.namespace_error ≡ none
            → r.error ≢ none
            → (e : MonitoredAppEntry) → lookup fragment.fragment_id r.entries ≡ some e
            → e.status ≡ FragmentStatus.error)
  unfolding process_request preparation_failed
  process_request-Runs p = (
    runs,
    λ named wrong. elim (Option-cases c.preparation.error) [
      | inr (text, unprepared) ↦
          rw (named, unprepared, process_request, preparation_failed)
            (set_entry_status-status fragment.fragment_id FragmentStatus.error _ p)
      | inl prepared ↦
          Runs-IsFailed p (process_request c policy fragment p) (runs named prepared) wrong
    ],
  )
    where
      runs :
          c.namespace_error ≡ none
          → c.preparation.error ≡ none
          → Runs 0 fragment.stages p (prepare ∷ []) (process_request c policy fragment p)
      runs named prepared =
          subst (Runs 0 fragment.stages p (prepare ∷ [])) (sym (prepared_runs p named prepared))
            (process_stages-Runs 0 fragment.stages p (prepare ∷ []))
