-- ===== src/Tests/Network.antt =====
-- The network updater at concrete inputs: two namespaces, two pods, and pods that refuse the first
-- call.
use deployment_manager.Common.{
  ℕ, suc, ◌≡◌, refl, ◌↔◌, Bool, true, false, Option, none, some, List, [], ◌∷◌, String,
  if◌then◌else◌, ◌==◌, str_eq, Map, lookup,
}
use deployment_manager.Common.Result.{failed, ok, then_with}
use deployment_manager.Monitored.{Error}
use deployment_manager.Network.Updater.{
  scan_namespaces, group_targets, targets_of, proxy_flag, has_env_var, TargetPod, Namespace,
  Container, Pod, get_target_namespace, label_is, get_pods_for_app, get_all_pods_for_app,
  join_must_be_sent,
}
use deployment_manager.Network.Sends.{
  attempts, send_each, update_retries, join_retries, update_pods_route, send_join_zt_connection,
  send_leave_zt_connection,
}
use deployment_manager.Network.Selection.{only, no_proxies, get_pods_for_app-get_all_pods_for_app}
use deployment_manager.Network.Delivery.{Delivers, Outcome, send_zt_connection-Outcome}
use deployment_manager.Network.Requests.{valid_set_route, ServiceRoute, ZtNetworkRequest}
use deployment_manager.Network.Manager.{
  find_pods, set_service_route, Cluster, route_pods, handle_set_service_route,
}
use deployment_manager.Network.Routes.{IsRoutable, handle_set_service_route-Delivers}

abbrev up : Namespace
up = record { name = "ns-up"; phase = "Active" }

abbrev going : Namespace
going = record { name = "ns-going"; phase = "Terminating" }

abbrev parse_bool : String → Option Bool
parse_bool s = if str_eq s "true" then some true else if str_eq s "false" then some false else none

abbrev container : String → Container
container flag = record {
  name = "sidecar";
  env = record { name = "NALEJ_IS_PROXY"; value = flag } ∷ [];
}

abbrev labels : Map String
labels =
    ("nalej-organization", "org")
    ∷ ("nalej-app-instance-id", "app")
    ∷ ("nalej-service-group-id", "group")
    ∷ ("nalej-service-id", "service")
    ∷ []

abbrev pod : String → String → Pod
pod name flag = record {
  name = name;
  labels = labels;
  phase = "Running";
  pod_ip = "10.0.0.1";
  containers = container flag ∷ [];
}

abbrev pods : List Pod
pods = pod "web" "false" ∷ pod "proxy" "true" ∷ []

abbrev cluster : Cluster
cluster = record {
  terminating = "Terminating";
  failed_phase = "Failed";
  parse_bool = parse_bool;
  namespaces = λ org app. ok (up ∷ []);
  pods = λ namespace. ok pods;
}

abbrev target : String → Bool → TargetPod
target name is_proxy = record {
  pod_name = name;
  container_name = "sidecar";
  outbound_proxy = is_proxy;
  pod_ip = "10.0.0.1";
}

abbrev targets : List TargetPod
targets = target "web" false ∷ target "proxy" true ∷ []

abbrev connect : TargetPod → ℕ → Error × ℕ
connect t calls = (none, calls)

-- the first call is refused
abbrev call : TargetPod → ℕ → Error × ℕ
call t calls = (if calls == 0 then some "not yet" else none, suc calls)

abbrev route : ServiceRoute
route = record {
  organization_id = "org";
  app_instance_id = "app";
  service_group_id = "group";
  service_id = "service";
  vsa = "172.16.0.1";
  redirect_to_vpn = "10.1.0.1";
  drop = false;
}

abbrev network : ZtNetworkRequest
network = record {
  organization_id = "org";
  app_instance_id = "app";
  service_id = "service";
  network_id = "network";
  is_inbound = false;
}

get_pods_for_app-get_all_pods_for_app_example :
    (get_pods_for_app "Failed" parse_bool (ok pods) "org" "app" "group" "service"
      ≡ then_with
          (get_all_pods_for_app "Failed" parse_bool
            (ok (only (λ p. label_is "nalej-service-group-id" "group" p.labels) pods))
            "org"
            "app"
            "service")
          (λ found. ok (no_proxies found)))
    × (get_pods_for_app "Failed" parse_bool (failed "down") "org" "app" "group" "service"
        ≡ failed "down")
    × (get_all_pods_for_app "Failed" parse_bool (failed "down") "org" "app" "service"
        ≡ failed "down")
get_pods_for_app-get_all_pods_for_app_example =
    get_pods_for_app-get_all_pods_for_app "Failed" parse_bool "org" "app" "group" "service" "down"
      pods

send_zt_connection-Outcome_example :
    Outcome connect call
      (join_must_be_sent true)
      join_retries
      targets
      0
      (send_join_zt_connection connect call targets true 0)
    × Outcome connect call
        (join_must_be_sent true)
        join_retries
        targets
        0
        (send_leave_zt_connection connect call targets true 0)
    × ((t : TargetPod) → (join_must_be_sent true t ≡ true) ↔ (t.outbound_proxy ≡ true))
send_zt_connection-Outcome_example = send_zt_connection-Outcome connect call targets 0 true

handle_set_service_route-Delivers_example :
    IsRoutable route
    × ((found : List TargetPod) × (route_pods cluster route ≡ ok found)
        × Delivers connect call
            (λ t. true)
            update_retries
            found
            0
            (handle_set_service_route connect cluster (λ r. call) route 0).calls
            (handle_set_service_route connect cluster (λ r. call) route 0).world)
unfolding handle_set_service_route set_service_route valid_set_route route_pods find_pods
    get_target_namespace scan_namespaces get_pods_for_app then_with group_targets targets_of
    proxy_flag has_env_var update_pods_route send_each attempts lookup
handle_set_service_route-Delivers_example =
    handle_set_service_route-Delivers connect cluster (λ r. call) route 0 refl

-- conductor is not there
abbrev down : ℕ → Error × ℕ
down calls = (some "unavailable", suc calls)
