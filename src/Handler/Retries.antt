-- ===== src/Handler/Retries.antt =====
-- pkg/handler/manager.go: how often deploymentLoopStage deploys a stage, and what its result says.
use deployment_manager.Common.{
  ℕ, zero, suc, ◌+◌, ◌≤◌, ◌≡◌, refl, sym, ap, subst, ◌∙◌, ◌≢◌, inl, inr, none, List, [], ◌∷◌, ◌++◌,
  String, arith, ℤ, negsuc, Option-cases,
}
use mathlib.Core.List.{append_assoc, append-nil}
use deployment_manager.Monitored.{Entries}
use deployment_manager.Handler.Loop.{
  Attempt, Action, deploy, undeploy, Ended, attempt_stage, rounds, retry_stage,
  deployment_loop_stage,
}

unfoldable pub deploys : List Action → ℕ
deploys [] = 0
deploys (deploy ∷ rest) = suc (deploys rest)
deploys (undeploy ∷ rest) = deploys rest

-- the calls of `k` rounds in which the stage was deployed and undeployed again
abbrev pub undone : ℕ → List Action
undone zero = []
undone (suc k) = deploy ∷ undeploy ∷ undone k

-- `k` rounds from the one numbered `n` in which the wait of the stage failed and its Undeploy did
-- not, from one state of the monitor to another
unfoldable pub Retried : String → (ℕ → Attempt) → ℕ → ℕ → Entries → Entries → Type 0
Retried id cluster zero n p q = q ≡ p
Retried id cluster (suc k) n p q =
    ((attempt_stage id (cluster n) p).1 ≢ none)
    × ((cluster n).undeploy_error ≡ none)
    × Retried id cluster k (suc n) (attempt_stage id (cluster n) p).0 q

-- How the loop ends after `k` such rounds, in the one numbered `m`: its wait has no error; or its
-- Undeploy fails, with the error that is returned; or no round is left.
pub data Ends (id : String) (cluster : ℕ → Attempt) (left : ℕ) (made : List Action) (k m : ℕ)
    (q : Entries) (r : Ended) : Type 0 where
  succeeds :
      suc k ≤ left
      → (attempt_stage id (cluster m) q).1 ≡ none
      → r.error ≡ none
      → r.entries ≡ (attempt_stage id (cluster m) q).0
      → r.actions ≡ made ++ undone k ++ deploy ∷ []
      → Ends id cluster left made k m q r
  stuck :
      suc k ≤ left
      → (attempt_stage id (cluster m) q).1 ≢ none
      → (cluster m).undeploy_error ≢ none
      → r.error ≡ (cluster m).undeploy_error
      → r.entries ≡ (attempt_stage id (cluster m) q).0
      → r.actions ≡ made ++ undone (suc k)
      → Ends id cluster left made k m q r
  exhausted :
      k ≡ left
      → r.error ≢ none
      → r.entries ≡ q
      → r.actions ≡ made ++ undone k
      → Ends id cluster left made k m q r

-- one more round before
Ends-suc :
    (id : String) (cluster : ℕ → Attempt) (left : ℕ) (made : List Action) (k m : ℕ) (q : Entries)
    (r : Ended)
    → Ends id cluster left (made ++ deploy ∷ undeploy ∷ []) k m q r
    → Ends id cluster (suc left) made (suc k) m q r
Ends-suc id cluster left made k m q r (Ends.succeeds low done fine world calls) =
    Ends.succeeds (omega arith) done fine world
      (calls ∙ ap (λ xs. xs ++ deploy ∷ []) (append_assoc made (deploy ∷ undeploy ∷ []) (undone k)))
Ends-suc id cluster left made k m q r (Ends.stuck low bad wrong err world calls) =
    Ends.stuck (omega arith) bad wrong err world
      (calls ∙ append_assoc made (deploy ∷ undeploy ∷ []) (undone (suc k)))
Ends-suc id cluster left made k m q r (Ends.exhausted all wrong world calls) =
    Ends.exhausted (ap suc all) wrong world
      (calls ∙ append_assoc made (deploy ∷ undeploy ∷ []) (undone k))

Retried-zero :
    (id : String) (cluster : ℕ → Attempt) (n : ℕ) (p : Entries) → Retried id cluster 0 n p p
unfolding Retried
Retried-zero id cluster n p = refl

Retried-suc :
    (id : String) (cluster : ℕ → Attempt) (k n : ℕ) (p q : Entries)
    → (attempt_stage id (cluster n) p).1 ≢ none
    → (cluster n).undeploy_error ≡ none
    → Retried id cluster k (suc n) (attempt_stage id (cluster n) p).0 q
    → Retried id cluster (suc k) n p q
unfolding Retried
Retried-suc id cluster k n p q bad fine later = (bad, fine, later)

retry_stage-Ends :
    (id stage : String) (cluster : ℕ → Attempt) (left n : ℕ) (p : Entries) (made : List Action)
    → (k : ℕ) × (m : ℕ) × (q : Entries) × (m ≡ n + k)
      × Retried id cluster k n p q
      × Ends id cluster left made k m q (retry_stage id stage cluster left n p made)
unfolding retry_stage
retry_stage-Ends id stage cluster zero n p made = (
  0,
  n,
  p,
  omega arith,
  Retried-zero id cluster n p,
  Ends.exhausted refl (λ h. ground arith) refl (sym (append-nil made)),
)
retry_stage-Ends id stage cluster (suc left) n p made =
    elim (Option-cases (attempt_stage id (cluster n) p).1) [
      | inl done ↦ (
        0,
        n,
        p,
        omega arith,
        Retried-zero id cluster n p,
        Ends.succeeds (omega arith) done (rw (done, retry_stage) refl) (rw (done, retry_stage) refl)
            (rw (append-nil made, done, retry_stage) refl),
      )
      | inr (text, failed) ↦
          let bad : (attempt_stage id (cluster n) p).1 ≢ none = λ h. ground arith in
          elim (Option-cases (cluster n).undeploy_error) [
            | inr (err, wrong) ↦ (
              0,
              n,
              p,
              omega arith,
              Retried-zero id cluster n p,
              Ends.stuck (omega arith) bad (λ h. ground arith)
                  (rw (failed, wrong, retry_stage) refl) (rw (failed, wrong, retry_stage) refl)
                  (rw (failed, wrong, retry_stage) refl),
            )
            | inl fine ↦
                let p' = (attempt_stage id (cluster n) p).0 in
                let made' = made ++ deploy ∷ undeploy ∷ [] in
                let (k, m, q, number, retried, ends) =
                  retry_stage-Ends id stage cluster left (suc n) p' made' in
                (
                  suc k,
                  m,
                  q,
                  omega (arith, number),
                  Retried-suc id cluster k n p q bad fine retried,
                  rw (failed, fine, retry_stage)
                      (Ends-suc id cluster left made k m q
                        (retry_stage id stage cluster left (suc n) p' made') ends),
                )
          ]
    ]

-- The loop deploys the stage and, when its wait fails, undeploys it again, round after round, until
-- a wait has no error, which is when it returns none after that last deployment; or an Undeploy
-- fails, whose error it returns; or `maxRetries` rounds are over (none, if that is negative), when it
-- returns an error and every deployment was undeployed without one. The calls are exactly those of
-- these rounds in their order, and the monitor is as the last of them leaves it.
pub deployment_loop_stage-Ends :
    (id stage : String) (cluster : ℕ → Attempt) (max : ℤ) (p : Entries)
    → (k : ℕ) × (q : Entries) × Retried id cluster k 0 p q
      × Ends id cluster (rounds max) [] k k q (deployment_loop_stage id stage cluster max p)
unfolding deployment_loop_stage
deployment_loop_stage-Ends id stage cluster max p =
    let (k, m, q, number, retried, ends) = retry_stage-Ends id stage cluster (rounds max) 0 p [] in
    let r = retry_stage id stage cluster (rounds max) 0 p [] in
    let same : m ≡ k = omega (arith, number) in
    (k, q, retried, subst (λ i. Ends id cluster (rounds max) [] k i q r) same ends)

-- With a negative bound, as ALWAYS_RETRY gives, the loop fails at once: nothing is deployed and the
-- monitor is left as it was.
pub deployment_loop_stage_negative :
    (id stage : String) (cluster : ℕ → Attempt) (n : ℕ) (p : Entries)
    → let r = deployment_loop_stage id stage cluster (negsuc n) p in
      (r.error ≢ none) × (r.actions ≡ []) × (r.entries ≡ p)
unfolding deployment_loop_stage retry_stage
deployment_loop_stage_negative id stage cluster n p = (λ h. ground arith, refl, refl)
