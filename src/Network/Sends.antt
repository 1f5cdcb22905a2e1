-- ===== src/Network/Sends.antt =====
-- pkg/network/updater.go: UpdatePodsRoute, SendJoinZTConnection and SendLeaveZTConnection. The pods
-- and the connections to them are a state of any type that the calls read and change; the calls
-- that are made are recorded in their order.
use deployment_manager.Common.{
  ℕ, zero, suc, Bool, true, none, some, List, [], ◌∷◌, ◌++◌, if◌then◌else◌,
}
use deployment_manager.Monitored.{Error}
use deployment_manager.Network.Updater.{TargetPod, join_must_be_sent}

pub record Sent {ℓ} (W : Type ℓ) : Type ℓ where
  pub error : Error
  pub world : W
  pub calls : List TargetPod

-- UpdateRetries and JoinRetries
abbrev pub update_retries : ℕ
update_retries = 3

abbrev pub join_retries : ℕ
join_retries = 3

module _ {ℓ} {W : Type ℓ} (connect : TargetPod → W → Error × W)
    (call : TargetPod → W → Error × W) where
  -- `for attempts := 0; attempts < retries; attempts++`; `rerr` is the last error of the call
  unfoldable pub attempts : ℕ → TargetPod → Error → W → Sent W
  attempts zero target rerr w = record { error = rerr; world = w; calls = [] }
  attempts (suc left) target rerr w =
      let answer = call target w in
      let later = attempts left target answer.0 answer.1 in
      elim answer.0 [
        | none ↦ record { error = none; world = answer.1; calls = target ∷ [] }
        | some err ↦ record {
          error = later.error;
          world = later.world;
          calls = target ∷ later.calls;
        }
      ]

  -- the loop over the pods: it stops at the first pod that cannot be connected to or whose
  -- attempts all fail
  unfoldable pub send_each : (TargetPod → Bool) → ℕ → List TargetPod → W → Sent W
  send_each must retries [] w = record { error = none; world = w; calls = [] }
  send_each must retries (target ∷ rest) w =
      let skipped = send_each must retries rest w in
      let connected = connect target w in
      let tried = attempts retries target none connected.1 in
      let later = send_each must retries rest tried.world in
      if must target
      then elim connected.0 [
        | some err ↦ record { error = some err; world = connected.1; calls = [] }
        | none ↦ elim tried.error [
          | some err ↦ tried
          | none ↦ record {
            error = later.error;
            world = later.world;
            calls = tried.calls ++ later.calls;
          }
        ]
      ]
      else skipped

  -- `connect` is getSidecarClient and `call` the SetRoute of the sidecar with the route.
  unfoldable pub update_pods_route : List TargetPod → W → Sent W
  update_pods_route = send_each (λ target. true) update_retries

  -- `connect` is getApplicationNetworkClient and `call` JoinZTNetwork with the network.
  unfoldable pub send_join_zt_connection : List TargetPod → Bool → W → Sent W
  send_join_zt_connection targets is_inbound =
      send_each (join_must_be_sent is_inbound) join_retries targets

  -- `connect` is getApplicationNetworkClient and `call` LeaveZTNetwork with the network.
  unfoldable pub send_leave_zt_connection : List TargetPod → Bool → W → Sent W
  send_leave_zt_connection targets is_inbound =
      send_each (join_must_be_sent is_inbound) join_retries targets
