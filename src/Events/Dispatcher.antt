-- ===== src/Events/Dispatcher.antt =====
-- pkg/kubernetes/events/dispatcher.go: dispatch, fetchObj and worker. The informers' indexers and
-- the store of deleted objects are parameters, on a state of any type for the store.
use deployment_manager.Common.{ℕ, zero, suc, Bool, Option, none, some, String, if◌then◌else◌, ltb}
use deployment_manager.Common.Result.{Result, failed, ok}
use deployment_manager.Monitored.{Error}
use deployment_manager.Handler.Requests.{is_blank}

pub data EventType : Type 0 where
  add update delete : EventType

pub record Event : Type 0 where
  pub key : String
  pub old_obj_key : String
  pub kind : String
  pub event_type : EventType

-- What a function of the dispatch table does: an error or none with the new state; `none` stands
-- for a panic.
abbrev pub Handled {ℓ} : Type ℓ → Type ℓ
Handled W = Option (Error × W)

-- indexer.GetByKey of a kind, if the kind has an indexer
abbrev pub Indexers : Type 0 → Type 0
Indexers O = String → Option (String → Result (Option O))

-- the operations of `deletedIndexer`
pub record DeletedStore (O D : Type 0) : Type 0 where
  pub get_by_key : String → D → Result (Option O)
  pub remove : String → D → D

module _ {O : Type 0} where
  -- the old object of an event: it is looked up by the key of the new one
  unfoldable pub fetch_old : (String → Result (Option O)) → Event → Result (Option O)
  fetch_old indexer event =
      if is_blank event.old_obj_key then ok none else elim (indexer event.key) [
        | failed err ↦ failed "error fetching key from store"
        | ok old ↦ ok old
      ]

  abbrev pub with_old : Result (Option O) → O → Result (Option O × O)
  with_old (failed err) obj = failed err
  with_old (ok old) obj = ok (old, obj)

  -- fetchObj
  unfoldable pub fetch_obj :
      {D : Type 0} → Indexers O → DeletedStore O D → Event → D → Result (Option O × O) × D
  fetch_obj indexers deleted event d = elim (indexers event.kind) [
    | none ↦ (failed "no indexer found", d)
    | some indexer ↦ elim (indexer event.key) [
      | failed err ↦ (failed "error fetching key from store", d)
      | ok (some obj) ↦ (with_old (fetch_old indexer event) obj, d)
      | ok none ↦ elim (deleted.get_by_key event.key d) [
        | failed err ↦ (failed "error fetching key from deleted object store", d)
        | ok none ↦ (failed "key does not exist in deleted object store while it should", d)
        | ok (some obj) ↦ (with_old (fetch_old indexer event) obj, deleted.remove event.key d)
      ]
    ]
  ]

  -- dispatch; `has_metadata` is meta.Accessor and `functions` the table of the functions.
  unfoldable pub dispatch {ℓ} :
      {D : Type 0} {W : Type ℓ}
      → Indexers O
      → DeletedStore O D
      → (O → Bool)
      → (String → Option (Option O → O → EventType → W → Handled W))
      → Event
      → D
      → W
      → Handled W × D
  dispatch indexers deleted has_metadata functions event d w =
      let fetched = fetch_obj indexers deleted event d in
      elim fetched.0 [
        | failed err ↦ (some (some err, w), fetched.1)
        | ok (old, obj) ↦ elim (functions event.kind) [
          | none ↦ (some (some "no translator found", w), fetched.1)
          | some f ↦
              if has_metadata obj
              then (f old obj event.event_type w, fetched.1)
              else (some (some "object does not implement the Object interfaces", w), fetched.1)
        ]
      ]

-- what `worker` does with an event after it has been dispatched
pub data Verdict : Type 0 where
  forgotten retried given_up : Verdict

abbrev pub max_retries : ℕ
max_retries = 5

-- the three cases of `worker`; the number is the queue's NumRequeues of the event
unfoldable pub verdict : Error → ℕ → Verdict
verdict none requeues = Verdict.forgotten
verdict (some err) requeues = if ltb requeues max_retries then Verdict.retried else Verdict.given_up

pub record Worked {ℓ} (W : Type ℓ) : Type ℓ where
  pub verdict : Verdict
  pub world : W
  pub dispatched : ℕ

-- The rounds of `worker` for one event, which the queue hands out again after AddRateLimited with
-- one more requeue. `none` means that the fuel was not enough.
unfoldable pub work {ℓ} : {W : Type ℓ} → ℕ → (W → Error × W) → ℕ → W → Option (Worked W)
work zero dispatched requeues w = none
work (suc fuel) dispatched requeues w =
    let answer = dispatched w in
    let later = work fuel dispatched (suc requeues) answer.1 in
    elim (verdict answer.0 requeues) [
      | Verdict.forgotten ↦
          some (record { verdict = Verdict.forgotten; world = answer.1; dispatched = 1 })
      | Verdict.given_up ↦
          some (record { verdict = Verdict.given_up; world = answer.1; dispatched = 1 })
      | Verdict.retried ↦ elim later [
        | none ↦ none
        | some r ↦ some (record r { dispatched = suc r.dispatched })
      ]
    ]
