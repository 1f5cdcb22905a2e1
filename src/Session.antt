-- ===== src/Session.antt =====
-- The calls to the cluster API, which every client in pkg/network/manager.go and
-- pkg/monitor/monitor_helper.go makes in the same way: a call that is refused as unauthenticated is
-- repeated once, after a new authentication. The call, the authentication and the test of the
-- error's code are parameters on a state of any type.
use deployment_manager.Common.{◌≡◌, Bool, true, false, none, some, String, arith, if◌then◌else◌}
use deployment_manager.Monitored.{Error}

module _ {ℓ} {W : Type ℓ} (unauthenticated : String → Bool) (call rerun : W → Error × W) where
  -- The error of the new authentication is only logged.
  unfoldable pub authenticated_call : W → Error × W
  authenticated_call w =
      let first = call w in
      let second = call ((rerun first.1).1) in
      elim first.0 [ none ↦ first | some err ↦ if unauthenticated err then second else first ]

  -- AuthorizeZTConnection: the error of a first call that is not repeated is only logged.
  unfoldable pub authorize_zt_connection : W → Error × W
  authorize_zt_connection w =
      let first = call w in
      let second = call ((rerun first.1).1) in
      elim first.0 [
        | none ↦ first
        | some err ↦ if unauthenticated err then second else (none, first.1)
      ]

  -- AuthorizeZTConnection leaves the state as the call with the new authentication does, and
  -- returns the error of that, except that it returns none when the first call fails for any other
  -- reason than the authentication.
  pub authorize_zt_connection-authenticated_call :
      (w : W)
      → ((authorize_zt_connection w).1 ≡ (authenticated_call w).1)
        × ((err : String)
            → (call w).0 ≡ some err
            → unauthenticated err ≡ false
            → ((authorize_zt_connection w).0 ≡ none) × ((authenticated_call w).0 ≡ some err))
        × ((err : String)
            → (call w).0 ≡ some err
            → unauthenticated err ≡ true
            → (authorize_zt_connection w).0 ≡ (authenticated_call w).0)
  unfolding authenticated_call authorize_zt_connection
  authorize_zt_connection-authenticated_call w =
      (ground arith, λ err h k. ground arith, λ err h k. ground arith)
