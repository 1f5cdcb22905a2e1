-- ===== src/Events/Informers.antt =====
-- pkg/kubernetes/events/dispatcher.go: what the informers call, OnAdd, OnUpdate and OnDelete. The key
-- functions of the cache, the kind of an object, the queue and the store of deleted objects are
-- parameters.
use deployment_manager.Common.{
  ◌≡◌, Bool, true, Option, none, some, String, arith, if◌then◌else◌, Map, insert, has_key,
}
use deployment_manager.Common.Result.{Result, failed, ok}
use deployment_manager.Events.Dispatcher.{
  EventType, Event, Handled, Indexers, DeletedStore, fetch_old, fetch_obj, dispatch,
}

-- what the dispatcher calls to make an event of an object
pub record Keys (O : Type 0) : Type 0 where
  pub deletion_key : O → Result String  -- DeletionHandlingMetaNamespaceKeyFunc
  pub meta_key : O → Result String  -- MetaNamespaceKeyFunc
  pub kind_of : O → Result String  -- getKind

-- the queue of waiting events, and the store of deleted objects
pub record Waiting (Q D : Type 0) : Type 0 where
  pub queue : Q
  pub deleted : D

-- SetIndexer
unfoldable pub set_indexer {ℓ} : {I : Type ℓ} → String → I → Map I → Option String × Map I
set_indexer kind indexer indexers =
    if has_key kind indexers
    then (some "Store already set", indexers)
    else (none, insert kind indexer indexers)

module _ {O Q D : Type 0} (keys : Keys O) (enqueue : Event → Q → Q) (keep_deleted : O → D → D) where
  -- createEvent
  unfoldable pub create_event : O → EventType → Result Event
  create_event obj type = elim (keys.deletion_key obj) [
    | failed err ↦ failed err
    | ok key ↦ elim (keys.kind_of obj) [
      | failed err ↦ failed err
      | ok kind ↦ ok (record { key = key; old_obj_key = ""; kind = kind; event_type = type })
    ]
  ]

  -- OnAdd
  unfoldable pub on_add : O → Waiting Q D → Waiting Q D
  unfolding create_event
  on_add obj s = elim (create_event obj EventType.add) [
    | failed err ↦ s
    | ok e ↦ record s { queue = enqueue e s.queue }
  ]

  -- OnUpdate
  unfoldable pub on_update : O → O → Waiting Q D → Waiting Q D
  unfolding create_event
  on_update old new s = elim (create_event new EventType.update) [
    | failed err ↦ s
    | ok e ↦ elim (keys.meta_key old) [
      | failed err ↦ s
      | ok key ↦ record s { queue = enqueue (record e { old_obj_key = key }) s.queue }
    ]
  ]

  -- OnDelete: the object is kept before its event is queued
  unfoldable pub on_delete : O → Waiting Q D → Waiting Q D
  unfolding create_event
  on_delete obj s = elim (create_event obj EventType.delete) [
    | failed err ↦ s
    | ok e ↦ record { queue = enqueue e s.queue; deleted = keep_deleted obj s.deleted }
  ]

  module _ {ℓ} {W : Type ℓ} (indexers : Indexers O) (store : DeletedStore O D)
      (has_metadata : O → Bool)
      (functions : String → Option (Option O → O → EventType → W → Handled W)) where
    -- If the store of deleted objects finds what it is given under its key, an object that the
    -- informer deletes from its indexer is queued as a deletion, and the dispatch of that event calls
    -- the function of its kind once, with the deleted object and without an old one.
    pub on_delete-dispatch :
        (obj : O) (key kind : String) (indexer : String → Result (Option O))
        (f : Option O → O → EventType → W → Handled W) (s : Waiting Q D) (w : W)
        → ((d : D) → store.get_by_key key (keep_deleted obj d) ≡ ok (some obj))
        → keys.deletion_key obj ≡ ok key
        → keys.kind_of obj ≡ ok kind
        → indexers kind ≡ some indexer
        → indexer key ≡ ok none
        → functions kind ≡ some f
        → has_metadata obj ≡ true
        → (e : Event) × (create_event obj EventType.delete ≡ ok e)
          × ((on_delete obj s).queue ≡ enqueue e s.queue)
          × ((dispatch indexers store has_metadata functions e (on_delete obj s).deleted w).0
              ≡ f none obj EventType.delete w)
    unfolding on_delete create_event dispatch fetch_obj fetch_old
    on_delete-dispatch obj key kind indexer f s w finds keyed is indexed gone function meta = (
      record { key = key; old_obj_key = ""; kind = kind; event_type = EventType.delete },
      ground arith,
      ground arith,
      ground (arith, finds s.deleted),
    )
