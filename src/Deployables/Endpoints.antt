-- ===== src/Deployables/Endpoints.antt =====
-- pkg/kubernetes/kubernetes_ingress.go and kubernetes_loadbalancer.go: what a public rule opens of a
-- service. The two host names of the configuration are parameters.
use Prim.Native.String.{len, slice}
use deployment_manager.Common.{
  ℕ, Bool, true, false, ◌&&◌, Option, none, some, List, [], ◌∷◌, ◌++◌, String, if◌then◌else◌, ◌==◌,
  ltb, Map, lookup, insert, str_eq, concat, decimal,
}
use deployment_manager.Handler.Requests.{is_blank}
use deployment_manager.Names.{format_name, with_dash}
use deployment_manager.Deployables.{EndpointKind, Endpoint, Port, Service, PublicRule, Metadata}
use deployment_manager.Deployables.Labels.{object_labels, load_balancer_labels, selector_labels}

abbrev pub is_web : EndpointKind → Bool
is_web EndpointKind.web = true
is_web EndpointKind.rest = true
is_web _ = false

-- the inner loop of BuildIngressesForServiceWithRule, up to `found`
unfoldable pub find_web : List Endpoint → Option Endpoint
find_web [] = none
find_web (endpoint ∷ rest) =
    let later = find_web rest in if is_web endpoint.kind then some endpoint else later

-- the outer loop
unfoldable pub find_endpoint : ℕ → List Port → Option Endpoint
unfolding find_web
find_endpoint target [] = none
find_endpoint target (port ∷ rest) =
    let later = find_endpoint target rest in
    if port.exposed_port == target
    then elim (find_web port.endpoints) [ none ↦ later | some endpoint ↦ some endpoint ]
    else later

-- the loop of BuildLoadBalancerForServiceWithRule
unfoldable pub find_bare : ℕ → List Port → Option Port
find_bare target [] = none
find_bare target (port ∷ rest) =
    let later = find_bare target rest in
    if port.exposed_port == target
    then elim port.endpoints [ [] ↦ some port | endpoint ∷ more ↦ later ]
    else later

-- the first bytes of an id that is too long
abbrev first_bytes : ℕ → String → String
first_bytes n s = if ltb n (len s) then slice s 0 n else s

-- InstPrefixLength and OrgPrefixLength are 6 and 8
pub record NamePrefixes : Type 0 where
  pub ingress_name : String
  pub service_group_inst : String
  pub app_inst : String
  pub org : String

-- getNamePrefixes
unfoldable pub get_name_prefixes : Metadata → Service → PublicRule → NamePrefixes
get_name_prefixes meta service rule = record {
  ingress_name =
      if rule.target_port == 80
      then service.service_name
      else with_dash service.service_name (decimal rule.target_port);
  service_group_inst = first_bytes 6 service.service_group_instance_id;
  app_inst = first_bytes 6 service.app_instance_id;
  org = first_bytes 8 meta.organization_id;
}

-- fmt.Sprintf("%s.%s", a, b)
abbrev dotted : String → String → String
dotted a b = concat a (concat "." b)

-- a rule of an ingress, whose one path leads to a port of a service
pub record IngressRule : Type 0 where
  pub host : String
  pub service_name : String
  pub service_port : ℕ

abbrev rule_to : Service → PublicRule → String → IngressRule
rule_to service rule host = record {
  host = host;
  service_name = service.service_name;
  service_port = rule.target_port;
}

pub record Ingress : Type 0 where
  pub name : String
  pub labels : Map String
  pub annotations : Map String
  pub rules : List IngressRule

-- if the value is not blank { annotations[key] = value }
abbrev annotate : String → String → Map String → Map String
annotate key value annotations =
    if is_blank value then annotations else insert key value annotations

abbrev option_of : String → Endpoint → String
option_of key endpoint = elim (lookup key endpoint.options) [ none ↦ "" | some value ↦ value ]

module _ (management_host cluster_host : String) (meta : Metadata) where
  -- BuildIngressesForServiceWithRule
  unfoldable pub build_ingress : Service → PublicRule → Option Ingress
  unfolding find_endpoint get_name_prefixes object_labels
  build_ingress service rule = elim (find_endpoint rule.target_port service.exposed_ports) [
    | none ↦ none
    | some endpoint ↦
        let p = get_name_prefixes meta service rule in
        let prefix = dotted p.ingress_name (dotted p.service_group_inst p.app_inst) in
        some (record {
          name = concat "ingress-" (with_dash service.service_id (decimal rule.target_port));
          labels =
              ("cluster", "application")
              ∷ ("component", "ingress-nginx")
              ∷ ("nalej-endpoint", prefix)
              ∷ object_labels meta service.service_id service;
          annotations =
              annotate "nginx.ingress.kubernetes.io/app-root"
                (if str_eq endpoint.path "/" then "" else endpoint.path)
                (annotate "nginx.ingress.kubernetes.io/proxy-body-size"
                  (option_of "CLIENT_MAX_BODY_SIZE" endpoint)
                  (("kubernetes.io/ingress.class", "nginx")
                    ∷ ("nginx.ingress.kubernetes.io/service-upstream", "true")
                    ∷ ("organizationId", service.organization_id)
                    ∷ ("appInstanceId", meta.app_instance_id)
                    ∷ ("serviceId", service.service_id)
                    ∷ []));
          rules =
              rule_to service rule (dotted prefix (concat "appcluster." cluster_host))
              ∷ rule_to service rule (dotted prefix (dotted p.org (concat "ep." management_host)))
              ∷ elim (lookup "HOST_HEADER_CONFIGURATION" endpoint.options) [
                | none ↦ []
                | some host ↦ rule_to service rule host ∷ []
              ];
        })
  ]

pub record LoadBalancer : Type 0 where
  pub name : String
  pub labels : Map String
  pub selector : Map String
  pub port : ℕ
  pub target_port : ℕ
  pub port_name : String

-- BuildLoadBalancerForServiceWithRule
unfoldable pub build_load_balancer :
    (String → String) → Metadata → Service → PublicRule → Option LoadBalancer
unfolding find_bare load_balancer_labels selector_labels
build_load_balancer to_lower meta service rule =
    elim (find_bare rule.target_port service.exposed_ports) [
      | none ↦ none
      | some port ↦ some (record {
        name = concat "lb" (format_name to_lower service.service_name);
        labels = load_balancer_labels meta service;
        selector = selector_labels to_lower meta service;
        port = port.exposed_port;
        target_port = rule.target_port;
        port_name = concat "port" (decimal rule.target_port);
      })
    ]

-- the two loops of both Build: what is made of every service that a rule targets
module _ {ℓ} {A : Type ℓ} (build : Service → PublicRule → Option A) where
  abbrev targets : PublicRule → Service → Bool
  targets rule service =
      str_eq rule.target_service_group_instance_id service.service_group_instance_id
      && str_eq rule.target_service_instance_id service.service_instance_id

  unfoldable pub build_for_rule : PublicRule → List Service → List A
  build_for_rule rule [] = []
  build_for_rule rule (service ∷ rest) =
      let later = build_for_rule rule rest in
      if targets rule service
      then elim (build service rule) [ none ↦ later | some a ↦ a ∷ later ]
      else later

  unfoldable pub build_for_rules : List PublicRule → List Service → List A
  unfolding build_for_rule
  build_for_rules [] services = []
  build_for_rules (rule ∷ rest) services =
      build_for_rule rule services ++ build_for_rules rest services
