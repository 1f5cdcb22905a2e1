-- ===== src/Network/Delivery.antt =====
-- Which pods the three loops of pkg/network/updater.go reach, and how often.
use deployment_manager.Common.{
  elim_some, ℕ, zero, suc, ◌≤◌, ◌≡◌, refl, ap, ◌≢◌, ◌↔◌, ◌⊎◌, inl, inr, Bool, true, false, none,
  some, List, [], ◌∷◌, ◌++◌, String, arith, Bool-cases, Option-cases,
}
use deployment_manager.Monitored.{Error}
use deployment_manager.Network.Updater.{TargetPod, join_must_be_sent}
use deployment_manager.Network.Sends.{
  Sent, update_retries, join_retries, attempts, send_each, update_pods_route,
  send_join_zt_connection, send_leave_zt_connection,
}

abbrev pub copies : ℕ → TargetPod → List TargetPod
copies zero target = []
copies (suc n) target = target ∷ copies n target

module _ {ℓ} {W : Type ℓ} (connect call : TargetPod → W → Error × W) where
  -- `n` calls that the pod answers with an error, and then one that it accepts
  unfoldable pub Accepted : TargetPod → ℕ → W → W → Type ℓ
  Accepted target zero w end = ((call target w).0 ≡ none) × (end ≡ (call target w).1)
  Accepted target (suc n) w end =
      ((call target w).0 ≢ none) × Accepted target n (call target w).1 end

  -- `n` calls that the pod answers with an error
  unfoldable pub Refused : TargetPod → ℕ → W → W → Type ℓ
  Refused target zero w end = end ≡ w
  Refused target (suc n) w end = ((call target w).0 ≢ none) × Refused target n (call target w).1 end

  -- every pod that must be reached is, in order: there is a connection to it, and it accepts one of
  -- its first `retries` calls, which is the last; no other pod is called
  pub data Delivers (must : TargetPod → Bool) (retries : ℕ)
      : List TargetPod → W → List TargetPod → W → Type ℓ where
    nothing : {w : W} → Delivers must retries [] w [] w
    skipped :
        {target : TargetPod} {rest calls : List TargetPod} {w end : W}
        → must target ≡ false
        → Delivers must retries rest w calls end
        → Delivers must retries (target ∷ rest) w calls end
    reached :
        {target : TargetPod} {rest calls : List TargetPod} {w v end : W} (n : ℕ)
        → must target ≡ true
        → (connect target w).0 ≡ none
        → suc n ≤ retries
        → Accepted target n (connect target w).1 v
        → Delivers must retries rest v calls end
        → Delivers must retries (target ∷ rest) w (copies (suc n) target ++ calls) end

  -- the pods before the one that fails are reached; to that one there is no connection, or it
  -- refuses all its calls; no pod after it is called
  pub data StopsAt (must : TargetPod → Bool) (retries : ℕ)
      : List TargetPod → W → List TargetPod → W → Type ℓ where
    unconnected :
        {target : TargetPod} {rest : List TargetPod} {w : W}
        → must target ≡ true
        → (connect target w).0 ≢ none
        → StopsAt must retries (target ∷ rest) w [] (connect target w).1
    refuses :
        {target : TargetPod} {rest : List TargetPod} {w end : W}
        → must target ≡ true
        → (connect target w).0 ≡ none
        → Refused target retries (connect target w).1 end
        → StopsAt must retries (target ∷ rest) w (copies retries target) end
    skips :
        {target : TargetPod} {rest calls : List TargetPod} {w end : W}
        → must target ≡ false
        → StopsAt must retries rest w calls end
        → StopsAt must retries (target ∷ rest) w calls end
    reaches :
        {target : TargetPod} {rest calls : List TargetPod} {w v end : W} (n : ℕ)
        → must target ≡ true
        → (connect target w).0 ≡ none
        → suc n ≤ retries
        → Accepted target n (connect target w).1 v
        → StopsAt must retries rest v calls end
        → StopsAt must retries (target ∷ rest) w (copies (suc n) target ++ calls) end

  Accepted-zero :
      (target : TargetPod) (w : W)
      → (call target w).0 ≡ none
      → Accepted target 0 w (call target w).1
  unfolding Accepted
  Accepted-zero target w done = (done, refl)

  Accepted-suc :
      (target : TargetPod) (n : ℕ) (w end : W)
      → (call target w).0 ≢ none
      → Accepted target n (call target w).1 end
      → Accepted target (suc n) w end
  unfolding Accepted
  Accepted-suc target n w end fails later = (fails, later)

  Refused-suc :
      (target : TargetPod) (n : ℕ) (w end : W)
      → (call target w).0 ≢ none
      → Refused target n (call target w).1 end
      → Refused target (suc n) w end
  unfolding Refused
  Refused-suc target n w end fails later = (fails, later)

  Refused-zero : (target : TargetPod) (w : W) → Refused target 0 w w
  unfolding Refused
  Refused-zero target w = refl

  abbrev Tried : ℕ → TargetPod → W → Sent W → Type ℓ
  Tried retries target w r =
      ((r.error ≡ none)
        × ((n : ℕ) × (suc n ≤ retries)
            × Accepted target n w r.world
            × (r.calls ≡ copies (suc n) target)))
      ⊎ ((r.error ≢ none) × Refused target retries w r.world × (r.calls ≡ copies retries target))

  attempts_again :
      (left : ℕ) (target : TargetPod) (rerr : Error) (w : W) (text : String)
      → (call target w).0 ≡ some text
      → let later = attempts connect call left target (call target w).0 (call target w).1 in
        attempts connect call (suc left) target rerr w
        ≡ record { error = later.error; world = later.world; calls = target ∷ later.calls }
  unfolding attempts
  attempts_again left target rerr w text fails = elim_some (call target w).0 text _ _ fails

  attempts-Tried :
      (left : ℕ) (target : TargetPod) (rerr : Error) (w : W)
      → Tried (suc left) target w (attempts connect call (suc left) target rerr w)
  unfolding attempts
  attempts-Tried zero target rerr w = elim (Option-cases ((call target w).0)) [
    | inl done ↦
        rw (done, attempts) (inl (refl, (0, omega arith, Accepted-zero target w done, refl)))
    | inr (text, fails) ↦
        let bad : (call target w).0 ≢ none = λ h. ground arith in
        rw (attempts_again 0 target rerr w text fails)
          (inr (bad, Refused-suc target 0 w _ bad (Refused-zero target (call target w).1), refl))
  ]
  attempts-Tried (suc left) target rerr w = elim (Option-cases ((call target w).0)) [
    | inl done ↦
        rw (done, attempts) (inl (refl, (0, omega arith, Accepted-zero target w done, refl)))
    | inr (text, fails) ↦
        let bad : (call target w).0 ≢ none = λ h. ground arith in
        rw (attempts_again (suc left) target rerr w text fails)
          (elim (attempts-Tried left target (call target w).0 (call target w).1) [
            | inl (done, (n, low, accepted, same)) ↦ inl (
              done,
              (
                suc n,
                omega arith,
                Accepted-suc target n w _ bad accepted,
                ap (λ cs. target ∷ cs) same,
              ),
            )
            | inr (still, refused, same) ↦
                inr (
                  still,
                  Refused-suc target (suc left) w _ bad refused,
                  ap (λ cs. target ∷ cs) same,
                )
          ])
  ]

  -- what a run of `send_each` did
  unfoldable pub Outcome : (TargetPod → Bool) → ℕ → List TargetPod → W → Sent W → Type ℓ
  Outcome must retries targets w r =
      ((r.error ≡ none) × Delivers must retries targets w r.calls r.world)
      ⊎ ((r.error ≢ none) × StopsAt must retries targets w r.calls r.world)

  send_each-Outcome :
      (must : TargetPod → Bool) (left : ℕ) (targets : List TargetPod) (w : W)
      → Outcome must (suc left) targets w (send_each connect call must (suc left) targets w)
  unfolding send_each Outcome
  send_each-Outcome must left [] w = inl (refl, Delivers.nothing)
  send_each-Outcome must left (target ∷ rest) w =
      let tried = attempts connect call (suc left) target none (connect target w).1 in
      elim (Bool-cases (must target)) [
        | inr may_skip ↦
            rw (may_skip, send_each)
              (elim (send_each-Outcome must left rest w) [
                | inl (done, d) ↦ inl (done, Delivers.skipped may_skip d)
                | inr (fails, stop) ↦ inr (fails, StopsAt.skips may_skip stop)
              ])
        | inl must_reach ↦ elim (Option-cases ((connect target w).0)) [
          | inr (err, h) ↦
              let bad : (connect target w).0 ≢ none = λ e. ground arith in
              rw (must_reach, h, send_each)
                (inr (λ e. ground arith, StopsAt.unconnected must_reach bad))
          | inl h ↦ elim (attempts-Tried left target none ((connect target w).1)) [
            | inr (fails, refused, same) ↦ elim (Option-cases tried.error) [
              | inl e ↦ absurd (fails e)
              | inr (err, e) ↦
                  rw (must_reach, h, e, send_each)
                    (inr (fails, rw same (StopsAt.refuses must_reach h refused)))
            ]
            | inl (done, (n, low, accepted, same)) ↦
                rw (must_reach, h, done, same, send_each)
                  (elim (send_each-Outcome must left rest tried.world) [
                    | inl (all, d) ↦ inl (all, Delivers.reached n must_reach h low accepted d)
                    | inr (fails, stop) ↦
                        inr (fails, StopsAt.reaches n must_reach h low accepted stop)
                  ])
          ]
        ]
      ]

module _ {ℓ} {W : Type ℓ} (connect call : TargetPod → W → Error × W) (targets : List TargetPod)
    (w : W) where
  -- When UpdatePodsRoute returns no error, every pod has accepted the route, in order, in one of
  -- three attempts at most. When it returns one, the pods before the one that fails have, that one
  -- has refused three times or could not be connected to, and no pod after it is called.
  pub update_pods_route-Outcome :
      Outcome connect call
        (λ target. true)
        update_retries
        targets
        w
        (update_pods_route connect call targets w)
  unfolding update_pods_route
  update_pods_route-Outcome = send_each-Outcome connect call (λ target. true) 2 targets w

  -- When SendJoinZTConnection or SendLeaveZTConnection returns no error, every pod whose proxy flag
  -- agrees with the direction has accepted its message, in order, in one of three attempts at most,
  -- and no other pod was called. When it returns one, that holds of the pods before the one that
  -- fails, that one has refused three times or could not be connected to, and no pod after it is
  -- called.
  pub send_zt_connection-Outcome :
      (is_inbound : Bool)
      → Outcome connect call
          (join_must_be_sent is_inbound)
          join_retries
          targets
          w
          (send_join_zt_connection connect call targets is_inbound w)
        × Outcome connect call
            (join_must_be_sent is_inbound)
            join_retries
            targets
            w
            (send_leave_zt_connection connect call targets is_inbound w)
        × ((target : TargetPod)
            → (join_must_be_sent is_inbound target ≡ true) ↔ (target.outbound_proxy ≡ is_inbound))
  unfolding send_join_zt_connection send_leave_zt_connection join_must_be_sent
  send_zt_connection-Outcome is_inbound = (
    send_each-Outcome connect call (join_must_be_sent is_inbound) 2 targets w,
    send_each-Outcome connect call (join_must_be_sent is_inbound) 2 targets w,
    λ target. ground arith,
  )
