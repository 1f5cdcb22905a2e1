-- ===== src/Decorators/Istio.antt =====
-- pkg/decorators/network/istio/istio_decorator.go: the services and virtual services that the public
-- rules of a stage need in the cluster. A write is a parameter on a state of any type; what it has
-- written is in the mesh. A look-up is taken to find what was written, or to say that it is missing.
use deployment_manager.Common.{
  ℕ, Bool, true, false, ◌&&◌, ◌||◌, none, some, List, [], ◌∷◌, ◌++◌, String, if◌then◌else◌, ◌==◌,
  Map, lookup, insert, str_eq,
}
use deployment_manager.Monitored.{Error}
use deployment_manager.Names.{format_name}

-- PublicSecurityRuleInstance, as this file reads it
pub record Rule : Type 0 where
  pub service_name : String
  pub target_service_group_instance_id : String
  pub target_service_instance_id : String
  pub target_port : ℕ

-- the ports of the services and of the virtual services, by their names
pub record Mesh : Type 0 where
  pub services : Map (List ℕ)
  pub virtual_services : Map (List ℕ)

-- a creation or an update, with the name and the ports that are written
pub data Write : Type 0 where
  create_service update_service create_virtual update_virtual : String → List ℕ → Write

pub record State {ℓ} (W : Type ℓ) : Type ℓ where
  pub world : W
  pub mesh : Mesh

abbrev pub has_port : ℕ → List ℕ → Bool
has_port port [] = false
has_port port (p ∷ ports) = (p == port) || has_port port ports

-- the loop over target.Services: the rule's service is one that the stage deploys
abbrev pub is_deployed : String → List String → Bool
is_deployed name [] = false
is_deployed name (s ∷ rest) = str_eq name s || is_deployed name rest

module _ {ℓ} {W : Type ℓ} (write : Write → W → Error × W) where
  unfoldable pub write_services : Write → String → List ℕ → State W → Error × State W
  write_services w name ports s =
      let (err, world) = write w s.world in
      elim err [
        | some text ↦ (some text, record s { world = world })
        | none ↦ (
          none,
          record {
            world = world;
            mesh = record s.mesh { services = insert name ports s.mesh.services };
          },
        )
      ]

  unfoldable pub write_virtual : Write → String → List ℕ → State W → Error × State W
  write_virtual w name ports s =
      let (err, world) = write w s.world in
      elim err [
        | some text ↦ (some text, record s { world = world })
        | none ↦ (
          none,
          record {
            world = world;
            mesh = record s.mesh { virtual_services = insert name ports s.mesh.virtual_services };
          },
        )
      ]

  -- updateServicePorts
  unfoldable pub update_service_ports : String → List ℕ → ℕ → State W → Error × State W
  unfolding write_services
  update_service_ports name ports port s =
      if has_port port ports
      then (none, s)
      else write_services (update_service name (ports ++ port ∷ [])) name (ports ++ port ∷ []) s

  -- updateVirtualServicePorts
  unfoldable pub update_virtual_service_ports : String → List ℕ → ℕ → State W → Error × State W
  unfolding write_virtual
  update_virtual_service_ports name ports port s =
      if has_port port ports
      then (none, s)
      else write_virtual (update_virtual name (ports ++ port ∷ [])) name (ports ++ port ∷ []) s

  -- the first half of the loop's body: the error of a creation is only logged
  unfoldable pub ensure_service : String → ℕ → State W → Error × State W
  unfolding write_services update_service_ports
  ensure_service name port s = elim (lookup name s.mesh.services) [
    | none ↦ (none, (write_services (create_service name (port ∷ [])) name (port ∷ []) s).1)
    | some ports ↦ update_service_ports name ports port s
  ]

  -- the second half: an error of the update is replaced by a text of its own
  unfoldable pub ensure_virtual_service : String → ℕ → State W → Error × State W
  unfolding write_virtual update_virtual_service_ports
  ensure_virtual_service name port s = elim (lookup name s.mesh.virtual_services) [
    | none ↦ write_virtual (create_virtual name (port ∷ [])) name (port ∷ []) s
    | some ports ↦ update_virtual_service_ports name ports port s
  ]

  -- decorateServices
  unfoldable pub decorate_services :
      (String → String) → List String → List Rule → State W → Error × State W
  unfolding ensure_service ensure_virtual_service
  decorate_services to_lower deployed [] s = (none, s)
  decorate_services to_lower deployed (rule ∷ rest) s =
      let name = format_name to_lower rule.service_name in
      let (err, middle) = ensure_service name rule.target_port s in
      let (err', end) = ensure_virtual_service name rule.target_port middle in
      elim (is_deployed rule.service_name deployed) [
        | true ↦ decorate_services to_lower deployed rest s
        | false ↦ elim err as (λ _. Error × State W) [
          | some text ↦ (some text, middle)
          | none ↦ elim err' as (λ _. Error × State W) [
            | some text ↦ (some text, end)
            | none ↦ decorate_services to_lower deployed rest end
          ]
        ]
      ]

-- what decorateDeployments reads of a deployment
pub record Deployed : Type 0 where
  pub service_group_instance_id : String
  pub service_instance_id : String
  pub annotations : Map String

-- the body of the inner loop of decorateDeployments
unfoldable pub decorate_deployment : Rule → Deployed → Deployed
decorate_deployment rule dep =
    if str_eq rule.target_service_group_instance_id dep.service_group_instance_id
      && str_eq rule.target_service_instance_id dep.service_instance_id
    then record dep {
      annotations = insert "traffic.sidecar.istio.io/includeInboundPorts" "" dep.annotations;
    }
    else dep

unfoldable pub decorate_each : Rule → List Deployed → List Deployed
unfolding decorate_deployment
decorate_each rule [] = []
decorate_each rule (dep ∷ rest) = decorate_deployment rule dep ∷ decorate_each rule rest

-- decorateDeployments
unfoldable pub decorate_deployments : List Rule → List Deployed → List Deployed
unfolding decorate_each
decorate_deployments [] deps = deps
decorate_deployments (rule ∷ rest) deps = decorate_deployments rest (decorate_each rule deps)
