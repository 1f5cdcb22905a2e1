-- ===== src/Metrics/Tally.antt =====
-- How many objects of each metric were seen, which the counters of pkg/metrics are compared with.
use deployment_manager.Common.{
  ℕ, zero, suc, ◌≡◌, refl, ap, ◌∙◌, Bool, true, false, ◌&&◌, Option, none, some, List, [], ◌∷◌,
  arith, if◌then◌else◌, ℤ, pos, negsuc, inc, dec,
}
use deployment_manager.Events.Dispatcher.{EventType}
use deployment_manager.Metrics.Translator.{
  Object, deployment, namespace, volume_claim, pod, ingress, service, event, Stores,
  is_app_instance, on_object,
}
use deployment_manager.Metrics.Collector.{MetricType, Metric, Metrics, change, get_subsystem}

abbrev pub eq_metric : MetricType → MetricType → Bool
eq_metric MetricType.services MetricType.services = true
eq_metric MetricType.volumes MetricType.volumes = true
eq_metric MetricType.fragments MetricType.fragments = true
eq_metric MetricType.endpoints MetricType.endpoints = true
eq_metric _ _ = false

pub get_subsystem-change :
    (f : Metric → Metric) (s t : MetricType) (m : Metrics)
    → get_subsystem t (change f s m)
      ≡ (if eq_metric s t then f (get_subsystem t m) else get_subsystem t m)
get_subsystem-change f MetricType.services MetricType.services m = refl
get_subsystem-change f MetricType.services MetricType.volumes m = refl
get_subsystem-change f MetricType.services MetricType.fragments m = refl
get_subsystem-change f MetricType.services MetricType.endpoints m = refl
get_subsystem-change f MetricType.volumes MetricType.services m = refl
get_subsystem-change f MetricType.volumes MetricType.volumes m = refl
get_subsystem-change f MetricType.volumes MetricType.fragments m = refl
get_subsystem-change f MetricType.volumes MetricType.endpoints m = refl
get_subsystem-change f MetricType.fragments MetricType.services m = refl
get_subsystem-change f MetricType.fragments MetricType.volumes m = refl
get_subsystem-change f MetricType.fragments MetricType.fragments m = refl
get_subsystem-change f MetricType.fragments MetricType.endpoints m = refl
get_subsystem-change f MetricType.endpoints MetricType.services m = refl
get_subsystem-change f MetricType.endpoints MetricType.volumes m = refl
get_subsystem-change f MetricType.endpoints MetricType.fragments m = refl
get_subsystem-change f MetricType.endpoints MetricType.endpoints m = refl

-- `ups` more and `downs` less
abbrev pub shift : ℤ → ℕ → ℕ → ℤ
shift i zero zero = i
shift i zero (suc downs) = shift (dec i) zero downs
shift i (suc ups) downs = shift (inc i) ups downs

inc-dec : (i : ℤ) → inc (dec i) ≡ dec (inc i)
unfolding inc dec
inc-dec (pos zero) = ground arith
inc-dec (pos (suc n)) = ground arith
inc-dec (negsuc zero) = ground arith
inc-dec (negsuc (suc n)) = ground arith

pub shift-dec : (i : ℤ) (ups downs : ℕ) → shift (dec i) ups downs ≡ shift i ups (suc downs)
shift-dec i zero downs = refl
shift-dec i (suc ups) downs = ap (λ j. shift j ups downs) (inc-dec i) ∙ shift-dec (inc i) ups downs

-- the metric that an object counts for
abbrev pub metric_of : Object → Option MetricType
metric_of (deployment d) = if is_app_instance d then some MetricType.services else none
metric_of (namespace n) = some MetricType.fragments
metric_of (volume_claim pvc) = some MetricType.volumes
metric_of (pod p) = none
metric_of (ingress i) = some MetricType.endpoints
metric_of (service s is_load_balancer) =
    if is_load_balancer then some MetricType.endpoints else none
metric_of (event meta e) = none

abbrev pub counts_for : MetricType → Option MetricType → Bool
counts_for t none = false
counts_for t (some s) = eq_metric s t

abbrev pub is_add : EventType → Bool
is_add EventType.add = true
is_add _ = false

abbrev pub is_delete : EventType → Bool
is_delete EventType.delete = true
is_delete _ = false

-- an old object, an object and what happened to it
abbrev pub Seen : Type 0
Seen = Option Object × Object × EventType

-- how many objects of the metric have been added, or deleted
abbrev pub tally : MetricType → (EventType → Bool) → List Seen → ℕ
tally t which [] = 0
tally t which ((old, obj, action) ∷ seen) =
    let later = tally t which seen in
    if which action && counts_for t (metric_of obj) then suc later else later

module _ (stores : Stores) (startup_time : ℕ) where
  -- the translator's functions on one event after the other; `none` stands for a panic
  unfoldable pub on_objects : List Seen → Metrics → Option Metrics
  on_objects [] m = some m
  on_objects ((old, obj, action) ∷ seen) m = elim (on_object stores startup_time old obj action m) [
    | none ↦ none
    | some n ↦ on_objects seen n
  ]
