-- ===== src/Events/Retries.antt =====
-- How often pkg/kubernetes/events/dispatcher.go dispatches an event.
use deployment_manager.Common.{
  String, ℕ, zero, suc, ◌+◌, ◌≤◌, ◌≡◌, refl, ap, ◌≢◌, ◌⊎◌, inl, inr, true, false, none, some, arith,
  ltb, Option-cases,
}
use deployment_manager.Monitored.{Error}
use deployment_manager.Events.Dispatcher.{Verdict, verdict, max_retries, Worked, work}

-- the state after `n` rounds, and the error of the last of them
abbrev pub after_rounds {ℓ} : {W : Type ℓ} → (W → Error × W) → ℕ → W → W
after_rounds dispatched zero w = w
after_rounds dispatched (suc n) w = after_rounds dispatched n (dispatched w).1

module _ {ℓ} {W : Type ℓ} (dispatched : W → Error × W) where
  -- the rounds before the last all failed, and the last decided
  abbrev pub Handles : ℕ → W → Worked W → Type ℓ
  Handles limit w r =
      (before : ℕ) × (r.dispatched ≡ suc before)
      × (r.dispatched ≤ limit)
      × ((k : ℕ) → suc k ≤ before → (dispatched (after_rounds dispatched k w)).0 ≢ none)
      × (r.world ≡ after_rounds dispatched r.dispatched w)
      × (((r.verdict ≡ Verdict.forgotten)
            × ((dispatched (after_rounds dispatched before w)).0 ≡ none))
          ⊎ ((r.verdict ≡ Verdict.given_up)
              × ((dispatched (after_rounds dispatched before w)).0 ≢ none)
              × (r.dispatched ≡ limit)))

  all_failed :
      (before : ℕ) (w : W) {err : String}
      → (dispatched w).0 ≡ some err
      → ((k : ℕ)
          → suc k ≤ before
          → (dispatched (after_rounds dispatched k (dispatched w).1)).0 ≢ none)
      → (k : ℕ) → suc k ≤ suc before
      → (dispatched (after_rounds dispatched k w)).0 ≢ none
  all_failed before w fails later zero few = λ h. ground arith
  all_failed before w fails later (suc k) few = later k (omega arith)

  work-Handles :
      (left requeues : ℕ) (w : W)
      → left + requeues ≡ max_retries
      → (r : Worked W) × (work (suc left) dispatched requeues w ≡ some r) × Handles (suc left) w r
  unfolding work verdict
  work-Handles zero requeues w full = elim (Option-cases ((dispatched w).0)) [
    | inl done ↦
        rw (done, work, verdict)
          (
            record { verdict = Verdict.forgotten; world = (dispatched w).1; dispatched = 1 },
            refl,
            (0, refl, omega arith, λ k few. absurd (omega arith), refl, inl (refl, done)),
          )
    | inr (err, fails) ↦
        let over : ltb requeues max_retries ≡ false = ground arith in
        rw (fails, work, verdict, over)
          (
            record { verdict = Verdict.given_up; world = (dispatched w).1; dispatched = 1 },
            refl,
            (
              0,
              refl,
              omega arith,
              λ k few. absurd (omega arith),
              refl,
              inr (refl, λ h. ground arith, refl),
            ),
          )
  ]
  work-Handles (suc left) requeues w full = elim (Option-cases ((dispatched w).0)) [
    | inl done ↦
        rw (done, work, verdict)
          (
            record { verdict = Verdict.forgotten; world = (dispatched w).1; dispatched = 1 },
            refl,
            (0, refl, omega arith, λ k few. absurd (omega arith), refl, inl (refl, done)),
          )
    | inr (err, fails) ↦
        let again : ltb requeues max_retries ≡ true = ground arith in
        let (r, same, (before, count, limit, failing_before, world, how)) =
          work-Handles left (suc requeues) ((dispatched w).1) (omega arith) in
        rw (fails, work, verdict, again, same)
          (
            record r { dispatched = suc r.dispatched },
            refl,
            (
              suc before,
              ap suc count,
              omega arith,
              all_failed before w fails failing_before,
              world,
              elim how [
                | inl (kept, done) ↦ inl (kept, done)
                | inr (kept, failing, full_count) ↦ inr (kept, failing, ap suc full_count)
              ],
            ),
          )
  ]

  -- With the fuel of six rounds the worker comes to an end with every event: after one
  -- to six dispatches, of which the last is the first without an error, it forgets the event, or
  -- after exactly six, which all failed, it gives the event up. The state is the one that these dispatches
  -- leave behind.
  pub work_returns :
      (w : W)
      → (r : Worked W) × (work (suc max_retries) dispatched 0 w ≡ some r)
        × Handles (suc max_retries) w r
  work_returns w = work-Handles max_retries 0 w (omega arith)
