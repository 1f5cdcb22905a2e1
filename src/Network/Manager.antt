-- ===== src/Network/Manager.antt =====
-- pkg/network/manager.go and pkg/network/handler.go: the requests that set a route, join a network
-- or leave one. What Kubernetes lists and what the pods answer are parameters.
use deployment_manager.Common.{Bool, Option, none, some, List, [], String}
use deployment_manager.Common.Result.{Result, failed, ok}
use deployment_manager.Monitored.{Error}
use deployment_manager.Network.Updater.{
  TargetPod, Namespace, Pod, get_target_namespace, get_pods_for_app, get_all_pods_for_app,
}
use deployment_manager.Network.Sends.{
  Sent, update_pods_route, send_join_zt_connection, send_leave_zt_connection,
}
use deployment_manager.Network.Requests.{
  ServiceRoute, ZtNetworkRequest, valid_set_route, validate_zt_network_request,
}

-- The phases of Kubernetes and strconv.ParseBool; what the namespace and pod lists answer.
pub record Cluster : Type 0 where
  pub terminating : String
  pub failed_phase : String
  pub parse_bool : String → Option Bool
  pub namespaces : String → String → Result (List Namespace)
  pub pods : String → Result (List Pod)

abbrev pub no_namespace : String
no_namespace = "no namespace found for given organization ID and app instance ID"

-- the part that SetServiceRoute, JoinZTNetwork and LeaveZTNetwork share: the target namespace, then
-- the pods in it
unfoldable pub find_pods :
    Result (Option String) → (String → Result (List TargetPod)) → Result (List TargetPod)
find_pods (failed err) pods_in = failed err
find_pods (ok none) pods_in = failed no_namespace
find_pods (ok (some namespace)) pods_in = pods_in namespace

unfoldable pub route_pods : Cluster → ServiceRoute → Result (List TargetPod)
route_pods cluster request =
    find_pods
      (get_target_namespace cluster.terminating
        (cluster.namespaces request.organization_id request.app_instance_id))
      (λ namespace.
        get_pods_for_app cluster.failed_phase cluster.parse_bool (cluster.pods namespace)
          request.organization_id request.app_instance_id request.service_group_id
          request.service_id)

unfoldable pub network_pods : Cluster → ZtNetworkRequest → Result (List TargetPod)
network_pods cluster request =
    find_pods
      (get_target_namespace cluster.terminating
        (cluster.namespaces request.organization_id request.app_instance_id))
      (λ namespace.
        get_all_pods_for_app cluster.failed_phase cluster.parse_bool (cluster.pods namespace)
          request.organization_id request.app_instance_id request.service_id)

module _ {ℓ} {W : Type ℓ} (connect : TargetPod → W → Error × W) where
  abbrev pub refused : String → W → Sent W
  refused err w = record { error = some err; world = w; calls = [] }

  -- SetServiceRoute; `call` sends the route of the request to a pod.
  unfoldable pub set_service_route :
      Cluster → (ServiceRoute → TargetPod → W → Error × W) → ServiceRoute → W → Sent W
  set_service_route cluster call request w = elim (route_pods cluster request) [
    | failed err ↦ refused err w
    | ok pods ↦ update_pods_route connect (call request) pods w
  ]

  -- JoinZTNetwork. The message is sent by a goroutine, whose error is only logged; the state and
  -- the calls are those after it has ended.
  unfoldable pub join_zt_network :
      Cluster → (ZtNetworkRequest → TargetPod → W → Error × W) → ZtNetworkRequest → W → Sent W
  join_zt_network cluster call request w = elim (network_pods cluster request) [
    | failed err ↦ refused err w
    | ok pods ↦ record (send_join_zt_connection connect (call request) pods request.is_inbound w) {
      error = none;
    }
  ]

  -- LeaveZTNetwork; the error of the messages is only logged.
  unfoldable pub leave_zt_network :
      Cluster → (ZtNetworkRequest → TargetPod → W → Error × W) → ZtNetworkRequest → W → Sent W
  leave_zt_network cluster call request w = elim (network_pods cluster request) [
    | failed err ↦ refused err w
    | ok pods ↦ record (send_leave_zt_connection connect (call request) pods request.is_inbound w) {
      error = none;
    }
  ]

  -- a handler: the check of the request, then the manager
  abbrev pub checked : Error → Sent W → W → Sent W
  checked (some err) reply w = refused err w
  checked none reply w = reply

  -- Handler.SetServiceRoute
  unfoldable pub handle_set_service_route :
      Cluster → (ServiceRoute → TargetPod → W → Error × W) → ServiceRoute → W → Sent W
  handle_set_service_route cluster call request w =
      checked (valid_set_route request) (set_service_route cluster call request w) w

  -- Handler.JoinZTNetwork
  unfoldable pub handle_join_zt_network :
      Cluster → (ZtNetworkRequest → TargetPod → W → Error × W) → ZtNetworkRequest → W → Sent W
  handle_join_zt_network cluster call request w =
      checked (validate_zt_network_request request) (join_zt_network cluster call request w) w

  -- Handler.LeaveZTNetwork
  unfoldable pub handle_leave_zt_network :
      Cluster → (ZtNetworkRequest → TargetPod → W → Error × W) → ZtNetworkRequest → W → Sent W
  handle_leave_zt_network cluster call request w =
      checked (validate_zt_network_request request) (leave_zt_network cluster call request w) w
