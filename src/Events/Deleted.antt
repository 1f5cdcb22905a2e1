-- ===== src/Events/Deleted.antt =====
-- The store of deleted objects in pkg/kubernetes/events/dispatcher.go, from which fetchObj means to
-- remove an object when any event of it is dispatched. It gives the store the key for the object, so
-- that it depends on the store whether anything is removed.
use deployment_manager.Common.{◌≡◌, Bool, Option, none, some, String, arith}
use deployment_manager.Common.Result.{Result, ok}
use deployment_manager.Events.Dispatcher.{
  EventType, Event, Handled, Indexers, DeletedStore, fetch_obj, dispatch,
}

module _ {ℓ} {O D : Type 0} {W : Type ℓ} (indexers : Indexers O) (deleted : DeletedStore O D)
    (has_metadata : O → Bool)
    (functions : String → Option (Option O → O → EventType → W → Handled W)) (early late : Event)
    (indexer : String → Result (Option O)) (obj : O) (d : D) (v w : W)
    (indexed : indexers late.kind ≡ some indexer) (gone : indexer late.key ≡ ok none)
    (kept : deleted.get_by_key late.key d ≡ ok (some obj))
    (removes : (key : String) (s : D) → deleted.get_by_key key (deleted.remove key s) ≡ ok none)
    (same_kind : early.kind ≡ late.kind) (same_key : early.key ≡ late.key) where
  -- When an object is deleted while an earlier event of it still waits, the dispatch of the earlier
  -- event takes the object out of the store of deleted objects, and the dispatch of the later
  -- event, the deletion, fails without a call of its function, as often as it is repeated.
  pub late_deletion_fails :
      let after = (dispatch indexers deleted has_metadata functions early d v).1 in
      dispatch indexers deleted has_metadata functions late after w
      ≡ (some (some "key does not exist in deleted object store while it should", w), after)
  unfolding dispatch fetch_obj
  late_deletion_fails = ground (arith, removes late.key d)
