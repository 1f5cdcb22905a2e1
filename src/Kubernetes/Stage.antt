-- ===== src/Kubernetes/Stage.antt =====
-- pkg/kubernetes/kubernetes_deployable.go: the parts of a stage, in the order in which they are
-- built, deployed and undeployed. What a part does is a parameter on a state of any type; the
-- calls are recorded.
use deployment_manager.Common.{
  sym, ◌∙◌, Advances, Advances-nil, Advances-fails, Advances-next, ℕ, suc, ◌≡◌, ap, inl, inr, Bool,
  true, false, none, some, List, [], ◌∷◌, arith, if◌then◌else◌, Option-cases,
}
use deployment_manager.Monitored.{Error}

-- the fields of DeployableKubernetesStage
pub data Part : Type 0 where
  deployments services ingresses configmaps secrets storage device_group_services load_balancers :
      Part

pub record Ran {ℓ} (W : Type ℓ) : Type ℓ where
  pub error : Error
  pub world : W
  pub calls : List Part

-- the orders of Build, Deploy and Undeploy
abbrev pub build_order : List Part
build_order =
    Part.deployments ∷ Part.services ∷ Part.device_group_services ∷ Part.ingresses ∷ Part.configmaps
    ∷ Part.secrets ∷ Part.storage ∷ Part.load_balancers ∷ []

abbrev pub deploy_order : List Part
deploy_order =
    Part.secrets ∷ Part.configmaps ∷ Part.storage ∷ Part.deployments ∷ Part.services
    ∷ Part.device_group_services ∷ Part.ingresses ∷ Part.load_balancers ∷ []

abbrev pub undeploy_order : List Part
undeploy_order =
    Part.deployments ∷ Part.services ∷ Part.device_group_services ∷ Part.ingresses ∷ Part.configmaps
    ∷ Part.secrets ∷ Part.storage ∷ Part.storage ∷ []

module _ {ℓ} {W : Type ℓ} (act : Part → W → Error × W) where
  -- one part after the other, up to the first error
  unfoldable pub run_parts : List Part → W → Ran W
  run_parts [] w = record { error = none; world = w; calls = [] }
  run_parts (part ∷ rest) w =
      let answer = act part w in
      let later = run_parts rest answer.1 in
      elim answer.0 [
        | none ↦ record { error = later.error; world = later.world; calls = part ∷ later.calls }
        | some err ↦ record { error = some err; world = answer.1; calls = part ∷ [] }
      ]

  -- Build
  unfoldable pub build_stage : W → Ran W
  build_stage = run_parts build_order

  -- Deploy
  unfoldable pub deploy_stage : W → Ran W
  deploy_stage = run_parts deploy_order

  -- Undeploy
  unfoldable pub undeploy_stage : W → Ran W
  undeploy_stage = run_parts undeploy_order

  -- the parts of the list are called in order, up to the first whose answer is an error, and that
  -- error is returned in the state that the answer leaves
  abbrev pub RunsUpTo : List Part → W → Ran W → Type ℓ
  RunsUpTo order w r = (done : List Part) × Advances act order w r.error r.world done r.calls

  run_parts-RunsUpTo : (order : List Part) (w : W) → RunsUpTo order w (run_parts order w)
  unfolding run_parts
  run_parts-RunsUpTo [] w = ([], Advances-nil act w)
  run_parts-RunsUpTo (part ∷ rest) w = elim (Option-cases (act part w).0) [
    | inr (err, fails) ↦ rw (fails, run_parts) ([], Advances-fails act part rest w err fails)
    | inl fine ↦
        let (done, later) = run_parts-RunsUpTo rest (act part w).1 in
        rw (fine, run_parts) (part ∷ done, Advances-next act part rest w _ _ done _ fine later)
  ]

abbrev pub is_part : Part → Part → Bool
is_part Part.deployments Part.deployments = true
is_part Part.services Part.services = true
is_part Part.ingresses Part.ingresses = true
is_part Part.configmaps Part.configmaps = true
is_part Part.secrets Part.secrets = true
is_part Part.storage Part.storage = true
is_part Part.device_group_services Part.device_group_services = true
is_part Part.load_balancers Part.load_balancers = true
is_part _ _ = false

-- how often a part stands in the list
abbrev pub calls_of : Part → List Part → ℕ
calls_of part [] = 0
calls_of part (p ∷ ps) = let later = calls_of part ps in if is_part part p then suc later else later

module _ {ℓ} {W : Type ℓ} (act : Part → W → Error × W) where
  undeploy_stage_leaves_load_balancers :
      (w : W)
      → (undeploy_stage act w).error ≡ none
      → (calls_of Part.load_balancers (undeploy_stage act w).calls ≡ 0)
        × (calls_of Part.storage (undeploy_stage act w).calls ≡ 2)
  unfolding undeploy_stage Advances
  undeploy_stage_leaves_load_balancers w ok =
      let (done, ran) = run_parts-RunsUpTo act undeploy_order w in
      elim ran [
        | inl (fine, all, same, passes) ↦
            (ap (calls_of Part.load_balancers) same, ap (calls_of Part.storage) same)
        | inr (bad, after, v, parts, last, passes, fails, err, end) ↦ absurd (fails (sym err ∙ ok))
      ]

  -- Build, Deploy and Undeploy call the parts in their order. When all answer without an error, they
  -- return none; otherwise they return the first error that a part answers, and call no part after
  -- it. Build and Deploy have each of the eight parts once in their orders; an Undeploy without an
  -- error has not called the load balancers, which Deploy creates, and has called the storage twice.
  pub stage-RunsUpTo :
      (w : W)
      → RunsUpTo act build_order w (build_stage act w)
        × RunsUpTo act deploy_order w (deploy_stage act w)
        × RunsUpTo act undeploy_order w (undeploy_stage act w)
        × ((part : Part) → (calls_of part build_order ≡ 1) × (calls_of part deploy_order ≡ 1))
        × ((undeploy_stage act w).error ≡ none
            → (calls_of Part.load_balancers (undeploy_stage act w).calls ≡ 0)
              × (calls_of Part.storage (undeploy_stage act w).calls ≡ 2))
  unfolding build_stage deploy_stage undeploy_stage
  stage-RunsUpTo w = (
    run_parts-RunsUpTo act build_order w,
    run_parts-RunsUpTo act deploy_order w,
    run_parts-RunsUpTo act undeploy_order w,
    λ part. ground arith,
    undeploy_stage_leaves_load_balancers w,
  )
