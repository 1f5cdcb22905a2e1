-- ===== src/Metrics/Warnings.antt =====
-- The updates of a warning, from pkg/kubernetes/events/dispatcher.go to
-- pkg/kubernetes/metrics_translator.go.
use deployment_manager.Common.{ℕ, ◌≡◌, ◌≢◌, true, false, Option, none, some, String, arith, eq_iff}
use deployment_manager.Common.Result.{Result, ok}
use deployment_manager.Events.Dispatcher.{
  EventType, Event, Handled, Indexers, DeletedStore, fetch_old, fetch_obj, dispatch,
}
use deployment_manager.Metrics.Collector.{Metrics}
use deployment_manager.Metrics.Translator.{
  Object, KubernetesEvent, Meta, Stores, is_discarded, on_event, on_object,
}

-- the dispatch table of the translator, whose functions return no error
abbrev pub functions :
    Stores → ℕ → String → Option (Option Object → Object → EventType → Metrics → Handled Metrics)
functions stores startup_time kind = some (λ old obj action m.
    elim (on_object stores startup_time old obj action m) [ none ↦ none | some n ↦ some (none, n) ])

module _ {D : Type 0} (indexers : Indexers Object) (deleted : DeletedStore Object D)
    (stores : Stores) (startup_time : ℕ) (happened : Event) (meta : Meta) (e : KubernetesEvent)
    (indexer : String → Result (Option Object)) (d : D) (m : Metrics)
    (is_update : happened.event_type ≡ EventType.update) (has_old : happened.old_obj_key ≢ "")
    (indexed : indexers happened.kind ≡ some indexer) where
  abbrev dispatched : Handled Metrics × D
  dispatched = dispatch indexers deleted (λ obj. true) (functions stores startup_time) happened d m

  update_not_counted :
      indexer happened.key ≡ ok (some (Object.event meta e)) → dispatched.0 ≡ some (none, m)
  unfolding dispatch fetch_obj fetch_old on_object on_event
  update_not_counted found = ground (arith, eq_iff happened.old_obj_key "")

  update_of_deleted_panics :
      indexer happened.key ≡ ok none
      → deleted.get_by_key happened.key d ≡ ok (some (Object.event meta e))
      → is_discarded startup_time e ≡ false
      → dispatched.0 ≡ none
  unfolding dispatch fetch_obj fetch_old on_object on_event
  update_of_deleted_panics gone kept warns = ground (arith, eq_iff happened.old_obj_key "")

  -- An update of an event object that is in the indexer counts nothing, whatever the old object
  -- was: the dispatcher looks the old object up by the key of the new one and passes the new one
  -- twice. If the object is a warning since the start and has been deleted meanwhile, the update
  -- makes the process panic: the old object is not in the indexer any more.
  pub update_of_warning :
      (indexer happened.key ≡ ok (some (Object.event meta e)) → dispatched.0 ≡ some (none, m))
      × (indexer happened.key ≡ ok none
          → deleted.get_by_key happened.key d ≡ ok (some (Object.event meta e))
          → is_discarded startup_time e ≡ false
          → dispatched.0 ≡ none)
  update_of_warning = (update_not_counted, update_of_deleted_panics)
