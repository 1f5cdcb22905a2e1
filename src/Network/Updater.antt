-- ===== src/Network/Updater.antt =====
-- pkg/network/updater.go: the namespaces and the pods that the network updater looks for. The
-- answers of the Kubernetes client and its constants are parameters.
use deployment_manager.Common.{
  Bool, true, false, not, ◌&&◌, ◌||◌, Option, none, some, List, [], ◌∷◌, String, if◌then◌else◌, Map,
  lookup, str_eq,
}
use deployment_manager.Common.Result.{Result, failed, ok, then_with}

pub record TargetPod : Type 0 where
  pub pod_name : String
  pub container_name : String
  pub outbound_proxy : Bool
  pub pod_ip : String

pub record Namespace : Type 0 where
  pub name : String
  pub phase : String

pub record EnvVar : Type 0 where
  pub name : String
  pub value : String

pub record Container : Type 0 where
  pub name : String
  pub env : List EnvVar

pub record Pod : Type 0 where
  pub name : String
  pub labels : Map String
  pub phase : String
  pub pod_ip : String
  pub containers : List Container

-- CheckIfNamespaceExists, on the answer of the list call
unfoldable pub check_if_namespace_exists : Result (List Namespace) → Result Bool
check_if_namespace_exists (failed err) = failed err
check_if_namespace_exists (ok []) = ok false
check_if_namespace_exists (ok (n ∷ ns)) = ok true

-- The loop of GetTargetNamespace. `targetNamespace` is nil or points to the loop's variable, which
-- the later rounds overwrite: the state is the variable and whether the pointer is set.
unfoldable pub scan_namespaces : String → List Namespace → Namespace → Bool → Namespace × Bool
scan_namespaces terminating [] variable is_set = (variable, is_set)
scan_namespaces terminating (n ∷ ns) variable is_set =
    scan_namespaces terminating ns n (is_set || not (str_eq n.phase terminating))

abbrev pub target_of : Namespace × Bool → Result (Option String)
target_of (variable, true) = ok (some variable.name)
target_of (variable, false) = failed "running namespaces not found"

-- GetTargetNamespace; `none` stands for `"", false, nil`
unfoldable pub get_target_namespace : String → Result (List Namespace) → Result (Option String)
get_target_namespace terminating (failed err) = failed err
get_target_namespace terminating (ok []) = ok none
get_target_namespace terminating (ok (n ∷ ns)) =
    target_of (scan_namespaces terminating (n ∷ ns) n false)

-- hasEnvVar
unfoldable pub has_env_var : List EnvVar → String → Option String
has_env_var [] name = none
has_env_var (v ∷ vs) name =
    let later = has_env_var vs name in if str_eq v.name name then some v.value else later

-- a label that exists and has the value
abbrev pub label_is : String → String → Map String → Bool
label_is key value labels = elim (lookup key labels) [ none ↦ false | some v ↦ str_eq v value ]

-- `failed_phase` is the phase of a failed pod, `parse_bool` is strconv.ParseBool.
module _ (failed_phase : String) (parse_bool : String → Option Bool) where
  abbrev pub target_pod : Pod → Container → Bool → TargetPod
  target_pod pod container is_proxy = record {
    pod_name = pod.name;
    container_name = container.name;
    outbound_proxy = is_proxy;
    pod_ip = pod.pod_ip;
  }

  -- whether the container says that it is a proxy; `none` if it has no such variable or the value
  -- is not a Boolean
  unfoldable pub proxy_flag : Container → Option Bool
  proxy_flag container = elim (has_env_var container.env "NALEJ_IS_PROXY") [
    | none ↦ none
    | some value ↦ parse_bool value
  ]

  abbrev pub without_proxies : Pod → Container → Option Bool → List TargetPod → List TargetPod
  without_proxies pod container none rest = rest
  without_proxies pod container (some true) rest = rest
  without_proxies pod container (some false) rest = target_pod pod container false ∷ rest

  abbrev pub with_proxies : Pod → Container → Option Bool → List TargetPod → List TargetPod
  with_proxies pod container none rest = rest
  with_proxies pod container (some is_proxy) rest = target_pod pod container is_proxy ∷ rest

  -- the loop over the containers in GetPodsForApp, before the targets that are found later
  unfoldable pub targets_of : Pod → List Container → List TargetPod → List TargetPod
  targets_of pod [] rest = rest
  targets_of pod (c ∷ cs) rest =
      let later = targets_of pod cs rest in
      if str_eq pod.phase failed_phase then later else without_proxies pod c (proxy_flag c) later

  -- the loop over the containers in GetAllPodsForApp
  unfoldable pub all_targets_of : Pod → List Container → List TargetPod → List TargetPod
  all_targets_of pod [] rest = rest
  all_targets_of pod (c ∷ cs) rest =
      let later = all_targets_of pod cs rest in
      if str_eq pod.phase failed_phase then later else with_proxies pod c (proxy_flag c) later

  -- the condition of GetAllPodsForApp
  abbrev pub is_of_service : String → String → String → Map String → Bool
  is_of_service organization_id app_instance_id service_id labels =
      label_is "nalej-organization" organization_id labels
      && (label_is "nalej-app-instance-id" app_instance_id labels
          && label_is "nalej-service-id" service_id labels)

  -- the condition of GetPodsForApp
  abbrev pub is_of_group : String → String → String → String → Map String → Bool
  is_of_group organization_id app_instance_id service_group_id service_id labels =
      label_is "nalej-organization" organization_id labels
      && (label_is "nalej-app-instance-id" app_instance_id labels
          && (label_is "nalej-service-group-id" service_group_id labels
              && label_is "nalej-service-id" service_id labels))

  unfoldable pub group_targets : String → String → String → String → List Pod → List TargetPod
  group_targets organization_id app_instance_id service_group_id service_id [] = []
  group_targets organization_id app_instance_id service_group_id service_id (pod ∷ pods) =
      let later = group_targets organization_id app_instance_id service_group_id service_id pods in
      if is_of_group organization_id app_instance_id service_group_id service_id pod.labels
      then targets_of pod pod.containers later
      else later

  unfoldable pub service_targets : String → String → String → List Pod → List TargetPod
  service_targets organization_id app_instance_id service_id [] = []
  service_targets organization_id app_instance_id service_id (pod ∷ pods) =
      let later = service_targets organization_id app_instance_id service_id pods in
      if is_of_service organization_id app_instance_id service_id pod.labels
      then all_targets_of pod pod.containers later
      else later

  -- GetPodsForApp, on the answer of the list call
  unfoldable pub get_pods_for_app :
      Result (List Pod) → String → String → String → String → Result (List TargetPod)
  get_pods_for_app listed organization_id app_instance_id service_group_id service_id =
      then_with listed (λ pods.
        ok (group_targets organization_id app_instance_id service_group_id service_id pods))

  -- GetAllPodsForApp, on the answer of the list call
  unfoldable pub get_all_pods_for_app :
      Result (List Pod) → String → String → String → Result (List TargetPod)
  get_all_pods_for_app listed organization_id app_instance_id service_id =
      then_with listed
        (λ pods. ok (service_targets organization_id app_instance_id service_id pods))

-- JoinMustBeSent
unfoldable pub join_must_be_sent : Bool → TargetPod → Bool
join_must_be_sent is_inbound pod =
    (is_inbound && pod.outbound_proxy) || (not is_inbound && not pod.outbound_proxy)
