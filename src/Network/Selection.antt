-- ===== src/Network/Selection.antt =====
-- The namespace and the pods that pkg/network/updater.go selects.
use deployment_manager.Common.{
  ◌≡◌, refl, ap, Bool, false, not, ◌||◌, Option, some, List, [], ◌∷◌, ◌++◌, String, arith,
  if◌then◌else◌, str_eq,
}
use deployment_manager.Common.Result.{failed, ok, then_with}
use deployment_manager.Network.Updater.{
  TargetPod, Namespace, Container, Pod, scan_namespaces, get_target_namespace, targets_of,
  all_targets_of, label_is, group_targets, service_targets, get_pods_for_app, get_all_pods_for_app,
}

abbrev pub some_running : String → List Namespace → Bool
some_running terminating [] = false
some_running terminating (n ∷ ns) =
    let later = some_running terminating ns in not (str_eq n.phase terminating) || later

scan_namespaces-append :
    (terminating : String) (ns : List Namespace) (last variable : Namespace) (is_set : Bool)
    → scan_namespaces terminating (ns ++ (last ∷ [])) variable is_set
      ≡ (last, is_set || some_running terminating (ns ++ (last ∷ [])))
unfolding scan_namespaces
scan_namespaces-append terminating [] last variable is_set = ground arith
scan_namespaces-append terminating (n ∷ ns) last variable is_set = ground (
  arith,
  scan_namespaces-append terminating ns last n (is_set || not (str_eq n.phase terminating)),
)

-- When the list call answers with some namespaces, GetTargetNamespace returns the name of the last
-- of them if any of them is not terminating, the last one or another, and fails if all are.
pub get_target_namespace_last :
    (terminating : String) (ns : List Namespace) (last : Namespace)
    → get_target_namespace terminating (ok (ns ++ (last ∷ []))) ≡ (
        if some_running terminating (ns ++ (last ∷ []))
        then ok (some last.name)
        else failed "running namespaces not found")
unfolding get_target_namespace
get_target_namespace_last terminating [] last =
    ground (arith, scan_namespaces-append terminating [] last last false)
get_target_namespace_last terminating (n ∷ ns) last =
    ground (arith, scan_namespaces-append terminating (n ∷ ns) last n false)

abbrev pub only : (Pod → Bool) → List Pod → List Pod
only p [] = []
only p (x ∷ xs) = let later = only p xs in if p x then x ∷ later else later

abbrev pub no_proxies : List TargetPod → List TargetPod
no_proxies [] = []
no_proxies (t ∷ ts) = let later = no_proxies ts in if t.outbound_proxy then later else t ∷ later

module _ (failed_phase : String) (parse_bool : String → Option Bool) where
  no_proxies-targets :
      (pod : Pod) (cs : List Container) (rest : List TargetPod)
      → no_proxies (all_targets_of failed_phase parse_bool pod cs rest)
        ≡ targets_of failed_phase parse_bool pod cs (no_proxies rest)
  unfolding all_targets_of targets_of
  no_proxies-targets pod [] rest = refl
  no_proxies-targets pod (c ∷ cs) rest = let step = no_proxies-targets pod cs rest in ground arith

  module _ (org app group service : String) where
    abbrev has_group : Pod → Bool
    has_group pod = label_is "nalej-service-group-id" group pod.labels

    group_targets-service_targets :
        (pods : List Pod)
        → group_targets failed_phase parse_bool org app group service pods
          ≡ no_proxies
              (service_targets failed_phase parse_bool org app service (only has_group pods))
    unfolding group_targets service_targets
    group_targets-service_targets [] = refl
    group_targets-service_targets (pod ∷ pods) =
        let step = group_targets-service_targets pods in
        ground (
          arith,
          no_proxies-targets pod pod.containers
              (service_targets failed_phase parse_bool org app service (only has_group pods)),
        )

  -- GetPodsForApp answers as GetAllPodsForApp does on the pods whose label has the service group,
  -- without the targets that are proxies; an error of the list call is returned by both.
  pub get_pods_for_app-get_all_pods_for_app :
      (org app group service : String) (err : String) (pods : List Pod)
      → (get_pods_for_app failed_phase parse_bool (ok pods) org app group service
          ≡ then_with
              (get_all_pods_for_app failed_phase parse_bool
                (ok (only (λ pod. label_is "nalej-service-group-id" group pod.labels) pods))
                org
                app
                service)
              (λ targets. ok (no_proxies targets)))
        × (get_pods_for_app failed_phase parse_bool (failed err) org app group service ≡ failed err)
        × (get_all_pods_for_app failed_phase parse_bool (failed err) org app service ≡ failed err)
  unfolding get_pods_for_app get_all_pods_for_app then_with
  get_pods_for_app-get_all_pods_for_app org app group service err pods =
      (ap ok (group_targets-service_targets org app group service pods), refl, refl)
