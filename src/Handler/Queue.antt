-- ===== src/Handler/Queue.antt =====
-- internal/structures/requests_queue.go, and the parts of pkg/handler that use it: Handler.Execute,
-- Manager.Execute and Manager.Run. The queue of the third-party package is an interface, with what
-- it documents as laws.
use deployment_manager.Common.{
  ℕ, zero, suc, ◌≤◌, ◌≡◌, refl, sym, ap, ◌∙◌, inl, inr, Bool, true, false, not, Option, none, some,
  List, [], ◌∷◌, ◌++◌, String, arith, if◌then◌else◌, ◌==◌, length, Bool-cases,
}
use mathlib.Core.List.{append_assoc, append-nil}
use deployment_manager.Common.Result.{Result, failed, ok}
use deployment_manager.Handler.Requests.{DeploymentFragmentRequest, valid_deploy_fragment_request}

abbrev pub Request : Type 0
Request = DeploymentFragmentRequest

pub record Queue (Q : Type 0) : Type 0 where
  pub init : Q
  pub push_back : Request → Q → Q
  pub pop_front : Q → Option Request × Q
  pub len : Q → ℕ

-- the queue holds its elements in the order in which they were pushed
pub record QueueLaws {Q : Type 0} (queue : Queue Q) : Type 0 where
  pub contents : Q → List Request
  pub contents-init : contents queue.init ≡ []
  pub contents-push_back :
      (r : Request) (q : Q) → contents (queue.push_back r q) ≡ contents q ++ (r ∷ [])
  pub contents-pop_front :
      (r : Request) (rest : List Request) (q : Q)
      → contents q ≡ r ∷ rest
      → ((queue.pop_front q).0 ≡ some r) × (contents (queue.pop_front q).1 ≡ rest)
  pub len-contents : (q : Q) → queue.len q ≡ length (contents q)

module _ {Q : Type 0} (queue : Queue Q) where
  -- AvailableRequests
  unfoldable pub available_requests : Q → Bool
  available_requests q = not (queue.len q == 0)

  -- Handler.Execute: the answer is the id of the request, or an error; the request is pushed by
  -- Manager.Execute.
  unfoldable pub handle_execute : Option Request → Q → Result String × Q
  handle_execute none q = (failed "received nil deployment plan request", q)
  handle_execute (some request) q =
      if valid_deploy_fragment_request request
      then (ok request.request_id, queue.push_back request q)
      else (failed "non valid deployment fragment request", q)

  abbrev pub handle_all : List (Option Request) → Q → Q
  handle_all [] q = q
  handle_all (r ∷ rest) q = handle_all rest (handle_execute r q).1

  -- The inner loop of Run, at a tick: the requests that it hands to processRequest, in order.
  -- `none` stands for the panic of NextRequest on an empty queue, or for too little fuel.
  unfoldable pub drain : ℕ → Q → Option (List Request × Q)
  drain zero q = none
  drain (suc fuel) q =
      let next = queue.pop_front q in
      let later = drain fuel next.1 in
      if available_requests q
      then elim next.0 [
        | none ↦ none
        | some r ↦ elim later [ none ↦ none | some served ↦ some (r ∷ served.0, served.1) ]
      ]
      else some ([], q)

-- the requests that Handler.Execute takes
abbrev pub accepted : List (Option Request) → List Request
accepted [] = []
accepted (none ∷ rest) = accepted rest
accepted (some r ∷ rest) =
    let later = accepted rest in if valid_deploy_fragment_request r then r ∷ later else later

module _ {Q : Type 0} (queue : Queue Q) (laws : QueueLaws queue) where
  contents-handle_all :
      (rs : List (Option Request)) (q : Q)
      → laws.contents (handle_all queue rs q) ≡ laws.contents q ++ accepted rs
  unfolding handle_execute
  contents-handle_all [] q = sym (append-nil (laws.contents q))
  contents-handle_all (none ∷ rest) q = contents-handle_all rest q
  contents-handle_all (some r ∷ rest) q = elim (Bool-cases (valid_deploy_fragment_request r)) [
    | inl good ↦
        rw (good, handle_execute)
          (contents-handle_all rest (queue.push_back r q)
            ∙ ap (λ c. c ++ accepted rest) (laws.contents-push_back r q)
            ∙ append_assoc (laws.contents q) (r ∷ []) (accepted rest))
    | inr bad ↦ rw (bad, handle_execute) (contents-handle_all rest q)
  ]

  drain-contents :
      (fuel : ℕ) (held : List Request) (q : Q)
      → laws.contents q ≡ held
      → length held ≤ fuel
      → (left : Q) × (drain queue (suc fuel) q ≡ some (held, left)) × (laws.contents left ≡ [])
  unfolding drain available_requests
  drain-contents fuel [] q same enough =
      let empty : available_requests queue q ≡ false =
        ground (arith, laws.len-contents q, ap length same) in
      rw (empty, drain) (q, refl, same)
  drain-contents zero (r ∷ rest) q same enough = absurd (omega arith)
  drain-contents (suc fuel) (r ∷ rest) q same enough =
      let more : available_requests queue q ≡ true =
        ground (arith, laws.len-contents q, ap length same) in
      let (first, kept) = laws.contents-pop_front r rest q same in
      let (left, served, nothing) =
        drain-contents fuel rest (queue.pop_front q).1 kept (omega arith) in
      (left, rw (more, first, served, drain) refl, nothing)

  -- The loop of Run, started on what the calls of Handler.Execute have left in an empty queue, hands
  -- over the requests that pass the check, in the order of the calls and each once, and leaves the
  -- queue empty; it never panics, and one round for each request and one more are enough.
  pub drain-handle_all :
      (rs : List (Option Request))
      → (left : Q) × (drain queue (suc (length (accepted rs))) (handle_all queue rs queue.init)
          ≡ some (accepted rs, left))
        × (laws.contents left ≡ [])
  drain-handle_all rs =
      drain-contents (length (accepted rs)) (accepted rs) (handle_all queue rs queue.init)
        (contents-handle_all rs queue.init ∙ ap (λ c. c ++ accepted rs) laws.contents-init)
        (omega arith)
