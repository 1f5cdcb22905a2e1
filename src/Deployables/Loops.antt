-- ===== src/Deployables/Loops.antt =====
-- pkg/kubernetes: the loops in which the parts of a stage create and delete their objects. The client
-- of Kubernetes is a parameter on a state of any type. A Go map from a service to its objects is
-- visited in the order of the list.
use deployment_manager.Common.{
  Bool, true, false, none, some, List, [], ◌∷◌, ◌++◌, String, if◌then◌else◌, Map,
}
use deployment_manager.Common.Result.{Result, failed, ok}
use deployment_manager.Monitored.{Entries, Error, add_pending_resource}
use deployment_manager.Deployables.Selectors.{created_resource}

-- what the loops read of an object of the API
pub record Object : Type 0 where
  pub name : String
  pub labels : Map String

-- the typed client: a creation gives the uid and the labels of what was created
pub record Client {ℓ} (W : Type ℓ) : Type ℓ where
  pub create : Object → W → Result (String × Map String) × W
  pub delete : String → W → Error × W
  pub is_not_found : String → W → Bool  -- errors.IsNotFound of the error of Get

-- the cluster, the monitor, and the names of what has been created or deleted so far
pub record Progress {ℓ} (W : Type ℓ) : Type ℓ where
  pub world : W
  pub entries : Entries
  pub done : List String

module _ {ℓ} {W : Type ℓ} (client : Client W) where
  -- after a creation: AddMonitoredResource, if the part has its objects monitored
  unfoldable pub note_created : Bool → Object → String → Map String → W → Progress W → Progress W
  unfolding created_resource
  note_created monitored object uid labels w s = record {
    world = w;
    entries =
        if monitored
        then (add_pending_resource (created_resource labels uid) s.entries).0
        else s.entries;
    done = s.done ++ object.name ∷ [];
  }

  -- the loop of Deploy: deployments, ingresses, load balancers and device groups are monitored;
  -- secrets, config maps and claims are not
  unfoldable pub create_each : Bool → List Object → Progress W → Error × Progress W
  unfolding note_created
  create_each monitored [] s = (none, s)
  create_each monitored (object ∷ rest) s =
      let (answer, w) = client.create object s.world in
      elim answer [
        | failed err ↦ (some err, record s { world = w })
        | ok (uid, labels) ↦
            create_each monitored rest (note_created monitored object uid labels w s)
      ]

  -- the nested loops of Deploy over a map
  unfoldable pub create_groups : Bool → Map (List Object) → Progress W → Error × Progress W
  unfolding create_each
  create_groups monitored [] s = (none, s)
  create_groups monitored ((service_id, objects) ∷ rest) s =
      let (err, next) = create_each monitored objects s in
      elim err [ none ↦ create_groups monitored rest next | some text ↦ (some text, next) ]

  -- the loop of DeployableServices.Deploy, which passes over what Get does not miss
  unfoldable pub create_missing : List Object → Progress W → Error × Progress W
  unfolding note_created
  create_missing [] s = (none, s)
  create_missing (object ∷ rest) s =
      let (answer, w) = client.create object s.world in
      elim (client.is_not_found object.name s.world) [
        | false ↦ create_missing rest s
        | true ↦ elim answer as (λ _. Error × Progress W) [
          | failed err ↦ (some err, record s { world = w })
          | ok (uid, labels) ↦ create_missing rest (note_created true object uid labels w s)
        ]
      ]

  -- the loop of Undeploy
  unfoldable pub delete_each : List String → Progress W → Error × Progress W
  delete_each [] s = (none, s)
  delete_each (name ∷ rest) s =
      let (err, w) = client.delete name s.world in
      elim err [
        | some text ↦ (some text, record s { world = w })
        | none ↦ delete_each rest (record s { world = w; done = s.done ++ name ∷ [] })
      ]

  -- the nested loops of Undeploy over a map
  unfoldable pub delete_groups : Map (List String) → Progress W → Error × Progress W
  unfolding delete_each
  delete_groups [] s = (none, s)
  delete_groups ((service_id, names) ∷ rest) s =
      let (err, next) = delete_each names s in
      elim err [ none ↦ delete_groups rest next | some text ↦ (some text, next) ]
