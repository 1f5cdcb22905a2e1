-- ===== src/Kubernetes/Executor.antt =====
-- pkg/kubernetes/kubernetes_executor.go: the namespace of an application, its preparation, and the
-- removal of a fragment. The answers of Kubernetes are parameters, on a state of any type; the
-- calls are recorded.
use deployment_manager.Common.{
  ◌≡◌, ◌≢◌, Bool, Option, none, some, List, [], ◌∷◌, ◌++◌, String, arith, if◌then◌else◌, str_eq,
  eq_iff, map,
}
use deployment_manager.Common.Result.{Result, failed, ok}
use deployment_manager.Monitored.{Error}
use deployment_manager.Common.{lookup}
use deployment_manager.Entities.Monitor.{MonitoredAppEntry}
use deployment_manager.Monitored.{Entries}
use deployment_manager.Handler.Requests.{UndeployFragmentRequest}
use deployment_manager.Handler.Undeploy.{undeploy_one, undeploy_one-effect}
use deployment_manager.Network.Updater.{Namespace, get_target_namespace, scan_namespaces}

-- the loop of GetApplicationNamespace
unfoldable pub first_active : String → List Namespace → Option String
first_active active [] = none
first_active active (ns ∷ rest) =
    let later = first_active active rest in if str_eq ns.phase active then some ns.name else later

-- GetApplicationNamespace; the last string is the new name that common.GetNamespace makes.
unfoldable pub get_application_namespace : String → Result (List Namespace) → String → Result String
get_application_namespace active (failed err) fresh = failed err
get_application_namespace active (ok namespaces) fresh = elim (first_active active namespaces) [
  | none ↦ ok fresh
  | some name ↦ ok name
]

-- If an application has just one namespace and it is active, the executor deploys into it, and it is
-- the one that GetTargetNamespace of the network updater takes too.
pub get_application_namespace-get_target_namespace :
    (active terminating fresh : String) (ns : Namespace)
    → active ≢ terminating
    → ns.phase ≡ active
    → (get_application_namespace active (ok (ns ∷ [])) fresh ≡ ok ns.name)
      × (get_target_namespace terminating (ok (ns ∷ [])) ≡ ok (some ns.name))
unfolding get_application_namespace first_active get_target_namespace scan_namespaces
get_application_namespace-get_target_namespace active terminating fresh ns differ same =
    ground (arith, eq_iff ns.phase active, eq_iff ns.phase terminating, eq_iff active terminating)

-- what UndeployFragment deletes
pub data Deleted : Type 0 where
  deployments replica_sets config_maps endpoints claims secrets jobs : Deleted
  service : String → Deleted

abbrev pub collections : List Deleted
collections =
    Deleted.deployments ∷ Deleted.replica_sets ∷ Deleted.config_maps ∷ Deleted.endpoints
    ∷ Deleted.claims ∷ Deleted.secrets ∷ Deleted.jobs ∷ []

pub record Cleared {ℓ} (W : Type ℓ) : Type ℓ where
  pub error : Error
  pub world : W
  pub calls : List Deleted

module _ {ℓ} {W : Type ℓ} (delete : Deleted → W → Error × W) where
  -- the deletions, whose errors are only logged
  unfoldable pub delete_each : List Deleted → W → W
  delete_each [] w = w
  delete_each (d ∷ rest) w = delete_each rest (delete d w).1

  -- UndeployFragment; the services that the list call names, none if it fails, may depend on the
  -- state.
  unfoldable pub undeploy_fragment : (W → List String) → W → Cleared W
  undeploy_fragment services w =
      let cleared = delete_each collections w in
      let named = map service (services cleared) in
      record { error = none; world = delete_each named cleared; calls = collections ++ named }

  -- the parts of PrepareEnvironmentForDeployment
  pub record Environment : Type ℓ where
    pub build : W → Error × W
    pub exists : W → Bool
    pub deploy : W → Error × W
    pub build_secret : W → Error × W
    pub deploy_secret : W → Error × W

  -- from the deployment of the namespace on; the error of the secret's build is only logged
  unfoldable pub create_namespace : Environment → W → Error × W
  create_namespace e w =
      let deployed = e.deploy w in
      elim deployed.0 [ some err ↦ deployed | none ↦ e.deploy_secret (e.build_secret deployed.1).1 ]

  -- PrepareEnvironmentForDeployment
  unfoldable pub prepare_environment : Environment → W → Error × W
  prepare_environment e w =
      let built = e.build w in
      let created = create_namespace e built.1 in
      elim built.0 [
        | some err ↦ built
        | none ↦ if e.exists built.1 then (none, built.1) else created
      ]

  -- The manager answers a request to undeploy a monitored fragment without an error, even when
  -- Kubernetes refuses all the deletions of the executor.
  pub undeploy_one-undeploy_fragment :
      (services : W → List String) (w : W) (request : UndeployFragmentRequest) (p : Entries)
      (e : MonitoredAppEntry)
      → lookup request.deployment_fragment_id p ≡ some e
      → (undeploy_one (undeploy_fragment services w).error request p).error ≡ none
  unfolding undeploy_fragment
  undeploy_one-undeploy_fragment services w request p e found =
      ((undeploy_one-effect none request p).1 e found).0
