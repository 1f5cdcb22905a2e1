-- ===== src/Network/Routes.antt =====
-- What the answers of pkg/network/handler.go mean for the pods.
use deployment_manager.Common.{
  ◌≡◌, refl, ◌≢◌, ◌↔◌, ◌⊎◌, inl, inr, true, none, List, String, arith, eq_iff, Option-cases,
}
use deployment_manager.Common.Result.{Result, failed, ok}
use deployment_manager.Monitored.{Error}
use deployment_manager.Network.Updater.{TargetPod}
use deployment_manager.Network.Sends.{update_retries, update_pods_route}
use deployment_manager.Network.Requests.{
  ServiceRoute, ZtNetworkRequest, valid_set_route, validate_zt_network_request,
}
use deployment_manager.Network.Manager.{
  Cluster, route_pods, network_pods, set_service_route, join_zt_network, leave_zt_network,
  handle_set_service_route, handle_join_zt_network, handle_leave_zt_network,
}
use deployment_manager.Network.Delivery.{Delivers, Outcome, update_pods_route-Outcome}

abbrev pub IsRoutable : ServiceRoute → Type 0
IsRoutable req =
    (req.organization_id ≢ "")
    × (req.app_instance_id ≢ "")
    × (req.service_group_id ≢ "")
    × (req.service_id ≢ "")
    × (req.vsa ≢ "")
    × ((req.drop ≡ true) ⊎ (req.redirect_to_vpn ≢ ""))

valid_set_route_iff : (req : ServiceRoute) → (valid_set_route req ≡ none) ↔ IsRoutable req
unfolding valid_set_route
valid_set_route_iff req = ground (
  arith,
  eq_iff req.organization_id "",
  eq_iff req.app_instance_id "",
  eq_iff req.service_group_id "",
  eq_iff req.service_id "",
  eq_iff req.vsa "",
  eq_iff req.redirect_to_vpn "",
)

Result-cases :
    {A : Type 0} (r : Result A) → ((err : String) × (r ≡ failed err)) ⊎ ((a : A) × (r ≡ ok a))
Result-cases (failed err) = inl (err, refl)
Result-cases (ok a) = inr (a, refl)

module _ {ℓ} {W : Type ℓ} (connect : TargetPod → W → Error × W) (cluster : Cluster) where
  -- When the handler of SetServiceRoute answers without an error, the request had all its fields,
  -- with the VPN address unless it drops the traffic, a namespace and its pods were found, and
  -- every one of these pods has accepted the route of the request, in order, in one of three attempts
  -- at most.
  pub handle_set_service_route-Delivers :
      (call : ServiceRoute → TargetPod → W → Error × W) (request : ServiceRoute) (w : W)
      → (handle_set_service_route connect cluster call request w).error ≡ none
      → IsRoutable request
        × ((pods : List TargetPod) × (route_pods cluster request ≡ ok pods)
            × Delivers connect
                (call request)
                (λ target. true)
                update_retries
                pods
                w
                (handle_set_service_route connect cluster call request w).calls
                (handle_set_service_route connect cluster call request w).world)
  unfolding handle_set_service_route set_service_route Outcome
  handle_set_service_route-Delivers call request w answered =
      elim (Option-cases (valid_set_route request)) [
        | inr (err, bad) ↦ ground arith
        | inl good ↦ elim (Result-cases (route_pods cluster request)) [
          | inl (err, lost) ↦ ground arith
          | inr (pods, found) ↦
              let sent : (update_pods_route connect (call request) pods w).error ≡ none =
                ground arith in
              (
                (valid_set_route_iff request).0 good,
                (
                  pods,
                  found,
                  rw (good, found, handle_set_service_route, set_service_route)
                      (elim (update_pods_route-Outcome connect (call request) pods w) [
                        | inl (done, d) ↦ d
                        | inr (fails, stop) ↦ elim (fails sent) [ ]
                      ]),
                ),
              )
        ]
      ]

  -- The handlers of JoinZTNetwork and LeaveZTNetwork answer without an error exactly when the
  -- request passes its check and the pods are found, whether the messages reach the pods or not.
  pub handle_zt_network_error :
      (call : ZtNetworkRequest → TargetPod → W → Error × W) (request : ZtNetworkRequest) (w : W)
      → (((handle_join_zt_network connect cluster call request w).error ≡ none) ↔ (
          (validate_zt_network_request request ≡ none)
          × ((pods : List TargetPod) × (network_pods cluster request ≡ ok pods))))
        × ((handle_leave_zt_network connect cluster call request w).error
            ≡ (handle_join_zt_network connect cluster call request w).error)
  unfolding handle_join_zt_network handle_leave_zt_network join_zt_network leave_zt_network
  handle_zt_network_error call request w =
      elim (Option-cases (validate_zt_network_request request)) [
        | inr (err, bad) ↦ ground arith
        | inl good ↦ elim (Result-cases (network_pods cluster request)) [
          | inl (err, lost) ↦ ground arith
          | inr (pods, found) ↦ ground arith
        ]
      ]
