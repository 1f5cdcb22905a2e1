-- ===== src/Metrics/Translator.antt =====
-- pkg/kubernetes/metrics_translator.go: what an event of a Kubernetes object counts. A time is a
-- natural number; the stores of the informers are a parameter.
use deployment_manager.Common.{
  ℕ, Bool, true, false, not, ◌||◌, Option, none, some, String, if◌then◌else◌, ◌==◌, ltb, Map,
  lookup, has_key, str_eq, concat,
}
use deployment_manager.Common.Result.{Result, failed, ok}
use deployment_manager.Handler.Requests.{is_blank}
use deployment_manager.Events.Dispatcher.{EventType}
use deployment_manager.Metrics.Collector.{
  MetricType, Metrics, create, existing, delete, count_error,
}

pub record Meta : Type 0 where
  pub labels : Map String
  pub creation_timestamp : ℕ

pub record ObjectReference : Type 0 where
  pub kind : String
  pub namespace : String
  pub name : String
  pub field_path : String

pub record KubernetesEvent : Type 0 where
  pub type : String
  pub last_timestamp : ℕ
  pub count : ℕ
  pub involved_object : ObjectReference

-- the objects of the supported kinds; `service` says whether its type is LoadBalancer.
pub data Object : Type 0 where
  deployment namespace volume_claim pod ingress : Meta → Object
  service : Meta → Bool → Object
  event : Meta → KubernetesEvent → Object

abbrev pub meta_of : Object → Meta
meta_of (deployment m) = m
meta_of (namespace m) = m
meta_of (volume_claim m) = m
meta_of (pod m) = m
meta_of (ingress m) = m
meta_of (service m is_load_balancer) = m
meta_of (event m e) = m

-- GetByKey of the store of a kind, if SetStore has set one
abbrev pub Stores : Type 0
Stores = String → Option (String → Result (Option Object))

-- isAppInstance
unfoldable pub is_app_instance : Meta → Bool
is_app_instance m =
    if has_key "nalej-organization" m.labels
    then elim (lookup "agent" m.labels) [ none ↦ true | some label ↦ not (str_eq label "zt-agent") ]
    else false

-- translate; the first number is the time at which the translator started.
unfoldable pub translate : ℕ → EventType → MetricType → ℕ → Metrics → Metrics
translate startup_time EventType.add metric ts m =
    if ltb startup_time ts then create metric m else existing metric m
translate startup_time EventType.update metric ts m = m
translate startup_time EventType.delete metric ts m = delete metric m

abbrev pub reference_key : ObjectReference → String
reference_key ref =
    if is_blank ref.namespace then ref.name else concat ref.namespace (concat "/" ref.name)

-- getReferencedObject
unfoldable pub get_referenced_object : Stores → ObjectReference → Option Object
get_referenced_object stores ref = elim (stores ref.kind) [
  | none ↦ none
  | some store ↦ elim (store (reference_key ref)) [
    | failed err ↦ none
    | ok none ↦ none
    | ok (some obj) ↦ some obj
  ]
]

-- s.Spec.Type of the object that a reference of kind Service leads to; a panic on another type of
-- object cannot happen, since the store of a kind holds objects of this kind.
abbrev pub is_load_balancer : Object → Bool
is_load_balancer (service m yes_it_is) = yes_it_is
is_load_balancer _ = false

-- the `switch` of OnEvent
unfoldable pub count_warning : ObjectReference → Object → Metrics → Metrics
count_warning ref obj m =
    if str_eq ref.kind "Pod"
    then if str_eq ref.field_path "spec.containers{zt-sidecar}"
      then m
      else count_error MetricType.services m
    else if str_eq ref.kind "Deployment"
    then count_error MetricType.services m
    else if str_eq ref.kind "Service"
    then if is_load_balancer obj then count_error MetricType.endpoints m else m
    else if str_eq ref.kind "Ingress"
    then count_error MetricType.endpoints m
    else if str_eq ref.kind "PersistentVolumeClaim"
    then count_error MetricType.volumes m
    else if str_eq ref.kind "Namespace"
    then count_error MetricType.fragments m
    else m

-- OnEvent from the reference on
unfoldable pub count_referenced : Stores → KubernetesEvent → Metrics → Metrics
count_referenced stores e m = elim (get_referenced_object stores e.involved_object) [
  | none ↦ m
  | some obj ↦ if is_app_instance (meta_of obj) then count_warning e.involved_object obj m else m
]

-- e.Type != "Warning" || e.LastTimestamp.Before(&t.startupTime)
abbrev pub is_discarded : ℕ → KubernetesEvent → Bool
is_discarded startup_time e = not (str_eq e.type "Warning") || ltb e.last_timestamp startup_time

-- the count of the old object; `none` if the cast of `oldObj` panics
abbrev pub old_count : Option Object → Option ℕ
old_count (some (event meta e)) = some e.count
old_count _ = none

-- OnEvent; `none` stands for a panic.
unfoldable pub on_event :
    Stores → ℕ → Option Object → KubernetesEvent → EventType → Metrics → Option Metrics
on_event stores startup_time old e EventType.delete m = some m
on_event stores startup_time old e EventType.add m =
    if is_discarded startup_time e then some m else some (count_referenced stores e m)
on_event stores startup_time old e EventType.update m =
    if is_discarded startup_time e then some m else elim (old_count old) [
      | none ↦ none
      | some count ↦ if count == e.count then some m else some (count_referenced stores e m)
    ]

-- the function for the kind of the object: OnDeployment, OnNamespace, OnPersistentVolumeClaim,
-- OnPod, OnIngress, OnService and OnEvent
unfoldable pub on_object :
    Stores → ℕ → Option Object → Object → EventType → Metrics → Option Metrics
on_object stores startup_time old (deployment d) action m =
    if is_app_instance d
    then some (translate startup_time action MetricType.services d.creation_timestamp m)
    else some m
on_object stores startup_time old (namespace n) action m =
    some (translate startup_time action MetricType.fragments n.creation_timestamp m)
on_object stores startup_time old (volume_claim pvc) action m =
    some (translate startup_time action MetricType.volumes pvc.creation_timestamp m)
on_object stores startup_time old (pod p) action m = some m
on_object stores startup_time old (ingress i) action m =
    some (translate startup_time action MetricType.endpoints i.creation_timestamp m)
on_object stores startup_time old (service s is_load_balancer) action m =
    if is_load_balancer
    then some (translate startup_time action MetricType.endpoints s.creation_timestamp m)
    else some m
on_object stores startup_time old (event meta e) action m =
    on_event stores startup_time old e action m
