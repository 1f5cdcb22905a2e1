-- ===== src/Metrics/Balance.antt =====
-- What the counters of pkg/metrics say about the objects that were seen.
use deployment_manager.Common.{
  ℕ, suc, ◌+◌, ◌≡◌, refl, inl, inr, Bool, ◌&&◌, Option, some, List, [], ◌∷◌, arith, if◌then◌else◌,
  ℤ, pos, inc, dec, Option-cases,
}
use deployment_manager.Events.Dispatcher.{EventType}
use deployment_manager.Metrics.Translator.{
  Object, deployment, namespace, volume_claim, pod, ingress, service, event, KubernetesEvent,
  ObjectReference, Stores, translate, count_warning, count_referenced, on_event, on_object,
  get_referenced_object,
}
use deployment_manager.Metrics.Collector.{
  MetricType, Metrics, no_metrics, get_subsystem, create, existing, delete, count_error,
}
use deployment_manager.Metrics.Tally.{
  eq_metric, get_subsystem-change, shift, shift-dec, metric_of, counts_for, is_add, is_delete, Seen,
  tally, on_objects,
}

module _ (stores : Stores) (startup_time : ℕ) where
  module _ (t : MetricType) where
    abbrev running : Metrics → ℤ
    running m = (get_subsystem t m).running

    abbrev deleted : Metrics → ℕ
    deleted m = (get_subsystem t m).deleted

    -- what one event moves
    abbrev Moves : Bool → Bool → Metrics → Metrics → Type 0
    Moves up down m n =
        (running n ≡ (if up then inc (running m) else if down then dec (running m) else running m))
        × (deleted n ≡ (if down then suc (deleted m) else deleted m))

    translate-Moves :
        (action : EventType) (s : MetricType) (ts : ℕ) (m : Metrics)
        → Moves
            (is_add action && eq_metric s t)
            (is_delete action && eq_metric s t)
            m
            (translate startup_time action s ts m)
    unfolding translate create existing delete
    translate-Moves EventType.add s ts m = ground (
      arith,
      get_subsystem-change (λ c. record c { created = suc c.created; running = inc c.running }) s t
          m,
      get_subsystem-change (λ c. record c { running = inc c.running }) s t m,
    )
    translate-Moves EventType.update s ts m = (refl, refl)
    translate-Moves EventType.delete s ts m = ground (
      arith,
      get_subsystem-change (λ c. record c { deleted = suc c.deleted; running = dec c.running }) s t
          m,
    )

    abbrev Still : Metrics → Metrics → Type 0
    Still m n = (running n ≡ running m) × (deleted n ≡ deleted m)

    count_error-Still : (s : MetricType) (m : Metrics) → Still m (count_error s m)
    unfolding count_error
    count_error-Still s m =
        ground (arith, get_subsystem-change (λ c. record c { errors = suc c.errors }) s t m)

    count_warning-Still :
        (ref : ObjectReference) (obj : Object) (m : Metrics) → Still m (count_warning ref obj m)
    unfolding count_warning
    count_warning-Still ref obj m = ground (
      arith,
      count_error-Still MetricType.services m,
      count_error-Still MetricType.endpoints m,
      count_error-Still MetricType.volumes m,
      count_error-Still MetricType.fragments m,
    )

    count_referenced-Still :
        (e : KubernetesEvent) (m : Metrics) → Still m (count_referenced stores e m)
    unfolding count_referenced
    count_referenced-Still e m =
        elim (Option-cases (get_referenced_object stores e.involved_object)) [
          | inl lost ↦ rw (lost, count_referenced) (refl, refl)
          | inr (obj, found) ↦
              rw (found, count_referenced)
                (ground (arith, count_warning-Still e.involved_object obj m))
        ]

    on_event-Still :
        (old : Option Object) (e : KubernetesEvent) (action : EventType) (m n : Metrics)
        → on_event stores startup_time old e action m ≡ some n
        → Still m n
    unfolding on_event
    on_event-Still old e EventType.add m n h = ground (arith, count_referenced-Still e m)
    on_event-Still old e EventType.update m n h = ground (arith, count_referenced-Still e m)
    on_event-Still old e EventType.delete m n h = ground arith

    on_object-Moves :
        (old : Option Object) (obj : Object) (action : EventType) (m n : Metrics)
        → on_object stores startup_time old obj action m ≡ some n
        → Moves
            (is_add action && counts_for t (metric_of obj))
            (is_delete action && counts_for t (metric_of obj))
            m
            n
    unfolding on_object
    on_object-Moves old (deployment d) action m n h =
        ground (arith, translate-Moves action MetricType.services d.creation_timestamp m)
    on_object-Moves old (namespace d) action m n h =
        ground (arith, translate-Moves action MetricType.fragments d.creation_timestamp m)
    on_object-Moves old (volume_claim d) action m n h =
        ground (arith, translate-Moves action MetricType.volumes d.creation_timestamp m)
    on_object-Moves old (pod d) action m n h = ground arith
    on_object-Moves old (ingress d) action m n h =
        ground (arith, translate-Moves action MetricType.endpoints d.creation_timestamp m)
    on_object-Moves old (service d is_load_balancer) action m n h =
        ground (arith, translate-Moves action MetricType.endpoints d.creation_timestamp m)
    on_object-Moves old (event meta e) action m n h =
        ground (arith, on_event-Still old e action m n h)

    on_objects-shift :
        (seen : List Seen) (m n : Metrics)
        → on_objects stores startup_time seen m ≡ some n
        → (running n ≡ shift (running m) (tally t is_add seen) (tally t is_delete seen))
          × (deleted n ≡ deleted m + tally t is_delete seen)
    unfolding on_objects
    on_objects-shift [] m n h = ground arith
    on_objects-shift ((old, obj, action) ∷ seen) m n h =
        elim (Option-cases (on_object stores startup_time old obj action m)) [
          | inl panics ↦ ground arith
          | inr (k, step) ↦
              let moves = on_object-Moves old obj action m k step in
              let later = on_objects-shift seen k n (ground arith) in
              ground (arith, shift-dec (running m) (tally t is_add seen) (tally t is_delete seen))
        ]

    none_yet :
        (s : MetricType)
        → ((get_subsystem s no_metrics).running ≡ pos 0)
          × ((get_subsystem s no_metrics).deleted ≡ 0)
    none_yet MetricType.services = (refl, refl)
    none_yet MetricType.volumes = (refl, refl)
    none_yet MetricType.fragments = (refl, refl)
    none_yet MetricType.endpoints = (refl, refl)

    -- After the events that the translator has handled since it started, the gauge of what is
    -- running is the number of added objects of the metric less the number of deleted ones, and the
    -- counter of deleted objects is the latter, provided that no event made it panic.
    pub on_objects-running :
        (seen : List Seen) (n : Metrics)
        → on_objects stores startup_time seen no_metrics ≡ some n
        → ((get_subsystem t n).running
            ≡ shift (pos 0) (tally t is_add seen) (tally t is_delete seen))
          × ((get_subsystem t n).deleted ≡ tally t is_delete seen)
    on_objects-running seen n h =
        let start = none_yet t in let moved = on_objects-shift seen no_metrics n h in ground arith
