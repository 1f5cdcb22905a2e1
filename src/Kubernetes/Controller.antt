-- ===== src/Kubernetes/Controller.antt =====
-- pkg/kubernetes/kubernetes_controller.go: OnDeployment, OnService and OnIngress. A Kubernetes
-- object is what the callbacks read of it; a condition comes with its printed form.
use deployment_manager.Common.{
  ℕ, Bool, true, false, ◌&&◌, ◌||◌, Option, none, some, List, [], ◌∷◌, ◌++◌, String, if◌then◌else◌,
  ◌==◌, ltb, Map, lookup, str_eq, concat,
}
use deployment_manager.Handler.Requests.{is_blank}
use deployment_manager.Entities.Status.{NalejServiceStatus}
use deployment_manager.Entities.Monitor.{EndpointType, EndpointInstance}
use deployment_manager.Entities.Translation.{
  ConditionType, kubernetes_deployment_status_translation,
}
use deployment_manager.Events.Dispatcher.{EventType}
use deployment_manager.Monitored.{Entries, Error}
use deployment_manager.Monitored.ResourceStatus.{set_resource_status}

pub record Condition : Type 0 where
  pub type : ConditionType
  pub text : String

pub record Deployment : Type 0 where
  pub labels : Map String
  pub uid : String
  pub unavailable_replicas : ℕ
  pub available_replicas : ℕ
  pub conditions : List Condition

pub record ServicePort : Type 0 where
  pub port : ℕ
  pub node_port : ℕ

pub data ServiceType : Type 0 where
  load_balancer node_port other : ServiceType

pub record Service : Type 0 where
  pub labels : Map String
  pub uid : String
  pub type : ServiceType
  pub ports : List ServicePort
  pub load_balancer_ips : List String

pub record LoadBalancerIngress : Type 0 where
  pub ip : String
  pub hostname : String

-- a rule with the ports of the backends of its paths; `none` is a nil HTTP
pub record Rule : Type 0 where
  pub host : String
  pub http : Option (List ℕ)

pub record Ingress : Type 0 where
  pub labels : Map String
  pub uid : String
  pub load_balancer : List LoadBalancerIngress
  pub rules : List Rule

-- m[key], which is "" if the key is not there
abbrev pub label_of : String → Map String → String
label_of key labels = elim (lookup key labels) [ none ↦ "" | some v ↦ v ]

-- SetResourceStatus for the fragment and the service instance that the labels name
unfoldable pub report :
    Map String
    → String
    → NalejServiceStatus
    → String
    → List EndpointInstance
    → Entries
    → Entries × Error
report labels uid status info endpoints p =
    set_resource_status (label_of "nalej-deployment-fragment" labels)
      (label_of "nalej-service-instance-id" labels) uid status info endpoints p

abbrev pub condition_types : List Condition → List ConditionType
condition_types [] = []
condition_types (c ∷ cs) = c.type ∷ condition_types cs

-- for _, condition := range dep.Status.Conditions
unfoldable pub conditions_info : String → List Condition → String
conditions_info info [] = info
conditions_info info (c ∷ cs) = conditions_info (concat info (concat " " c.text)) cs

-- enough replicas: none is unavailable and some are available
abbrev pub is_available : Deployment → Bool
is_available dep = dep.unavailable_replicas == 0 && ltb 0 dep.available_replicas

-- the status that OnDeployment reports
unfoldable pub deployment_status : Deployment → NalejServiceStatus
deployment_status dep =
    if is_available dep
    then NalejServiceStatus.running
    else kubernetes_deployment_status_translation (condition_types dep.conditions)

-- OnDeployment
unfoldable pub on_deployment : EventType → Deployment → Entries → Entries × Error
on_deployment EventType.delete dep p = (p, none)
on_deployment _ dep p =
    report dep.labels dep.uid (deployment_status dep)
      (if is_available dep then "" else conditions_info "" dep.conditions) [] p

abbrev pub ingestion_endpoint : String → String → ℕ → EndpointInstance
ingestion_endpoint uid fqdn port = record {
  endpoint_instance_id = uid;
  endpoint_type = EndpointType.ingestion;
  fqdn = fqdn;
  port = port;
}

unfoldable pub port_endpoints : String → String → List ServicePort → List EndpointInstance
port_endpoints uid fqdn [] = []
port_endpoints uid fqdn (p ∷ ps) = ingestion_endpoint uid fqdn p.port ∷ port_endpoints uid fqdn ps

-- for _, ip := range dep.Status.LoadBalancer.Ingress
unfoldable pub balancer_endpoints : String → List ServicePort → List String → List EndpointInstance
balancer_endpoints uid ports [] = []
balancer_endpoints uid ports (ip ∷ ips) =
    port_endpoints uid ip ports ++ balancer_endpoints uid ports ips

unfoldable pub node_port_endpoints : String → String → List ServicePort → List EndpointInstance
node_port_endpoints uid hostname [] = []
node_port_endpoints uid hostname (p ∷ ps) =
    ingestion_endpoint uid hostname p.node_port ∷ node_port_endpoints uid hostname ps

abbrev pub when_balanced : Service → Option (List EndpointInstance)
when_balanced s = elim s.load_balancer_ips [
  | [] ↦ none
  | ip ∷ ips ↦ some (balancer_endpoints s.uid s.ports (ip ∷ ips))
]

-- whether the label of the service's purpose is there and has the value
abbrev pub has_purpose : String → Service → Bool
has_purpose value s = elim (lookup "nalej-service-purpose" s.labels) [
  | none ↦ false
  | some v ↦ str_eq v value
]

-- The endpoints of a service, or `none` if its load balancer is not ready; the string is the
-- public hostname of the cluster.
unfoldable pub service_endpoints : String → Service → Option (List EndpointInstance)
service_endpoints hostname s =
    if has_purpose "device-group" s
    then elim s.type [
      | ServiceType.load_balancer ↦ when_balanced s
      | ServiceType.node_port ↦ some (node_port_endpoints s.uid hostname s.ports)
      | ServiceType.other ↦ some []
    ]
    else if has_purpose "load-balancer" s
    then elim s.type [
      | ServiceType.load_balancer ↦ when_balanced s
      | ServiceType.node_port ↦ some []
      | ServiceType.other ↦ some []
    ]
    else some []

-- the call for a service whose endpoints are known
unfoldable pub report_service : Option (List EndpointInstance) → Service → Entries → Entries × Error
report_service none s p = (p, none)
report_service (some endpoints) s p =
    report s.labels s.uid NalejServiceStatus.running "" endpoints p

-- OnService
unfoldable pub on_service : String → EventType → Service → Entries → Entries × Error
on_service hostname EventType.delete s p = (p, none)
on_service hostname _ s p = report_service (service_endpoints hostname s) s p

-- the loop of OnIngress
unfoldable pub is_ready : List LoadBalancerIngress → Bool
is_ready [] = true
is_ready (ing ∷ rest) =
    let later = is_ready rest in if is_blank ing.hostname || is_blank ing.ip then false else later

abbrev pub first_port : List ℕ → ℕ
first_port [] = 0
first_port (p ∷ ps) = p

-- the endpoint of the first rule
abbrev pub web_endpoint : String → String → ℕ → EndpointInstance
web_endpoint uid host port = record {
  endpoint_instance_id = uid;
  endpoint_type = EndpointType.web;
  fqdn = host;
  port = port;
}

-- the call for an ingress that is ready; `none` is the panic on a first rule whose HTTP is nil
unfoldable pub report_ingress : Bool → List Rule → Ingress → Entries → Option (Entries × Error)
report_ingress false rules i p = some (p, none)
report_ingress true [] i p = some (p, none)
report_ingress true (rule ∷ rules) i p = elim rule.http [
  | none ↦ none
  | some paths ↦ some (
      report i.labels i.uid NalejServiceStatus.running ""
        (web_endpoint i.uid rule.host (first_port paths) ∷ []) p)
]

-- OnIngress
unfoldable pub on_ingress : EventType → Ingress → Entries → Option (Entries × Error)
on_ingress EventType.delete i p = some (p, none)
on_ingress _ i p = report_ingress (is_ready i.load_balancer) i.rules i p
