-- ===== src/Tests/Platform.antt =====
-- The callbacks of Kubernetes, the metrics and the messages to conductor at concrete inputs.
use deployment_manager.Common.{
  ℕ, suc, ◌≡◌, refl, ◌≢◌, Bool, true, false, Option, none, some, List, [], ◌∷◌, String,
  if◌then◌else◌, ltb, lookup, All, pos, inc, dec,
}
use deployment_manager.Common.Result.{Result, ok}
use deployment_manager.Entities.Translation.{ConditionType}
use deployment_manager.Monitored.{Entries, Error}
use deployment_manager.Monitored.Invariant.{IsValid}
use deployment_manager.Monitored.Notify.{get_pending_notifications, get_services_unnotified_status}
use deployment_manager.Events.Dispatcher.{EventType, Event, DeletedStore, Worked, work, dispatch}
use deployment_manager.Events.Retries.{Handles, work_returns}
use deployment_manager.Metrics.Collector.{
  MetricType, Metrics, no_metrics, get_subsystem, create, existing, delete,
}
use deployment_manager.Metrics.Translator.{
  Meta, Object, KubernetesEvent, Stores, translate, on_object,
}
use deployment_manager.Metrics.Tally.{shift, is_add, is_delete, Seen, tally, on_objects}
use deployment_manager.Metrics.Balance.{on_objects-running}
use deployment_manager.Metrics.Translator.{is_discarded}
use deployment_manager.Metrics.Warnings.{functions, update_of_warning}
use deployment_manager.Kubernetes.Controller.{Deployment, Service, Ingress}
use deployment_manager.Kubernetes.Reports.{ReportsStatus, ReportsAddress}
use deployment_manager.Kubernetes.Callbacks.{
  Callback, fragment_of, call, callbacks, HasNilHttp, callbacks-IsValid,
}
use deployment_manager.Kubernetes.Stage.{
  Part, build_order, deploy_order, undeploy_order, build_stage, deploy_stage, undeploy_stage,
  RunsUpTo, is_part, calls_of, stage-RunsUpTo,
}
use deployment_manager.Helper.{update_status, update_status_silent}
use deployment_manager.Tests.Data.{monitor}
use deployment_manager.Tests.Monitoring.{monitor-IsValid, program}

abbrev web : Deployment
web = record {
  labels = ("nalej-deployment-fragment", "frag") ∷ ("nalej-service-instance-id", "db") ∷ [];
  uid = "uid-db";
  unavailable_replicas = 0;
  available_replicas = 1;
  conditions = record { type = ConditionType.progressing; text = "rolling out" } ∷ [];
}

abbrev seen_callbacks : List Callback
seen_callbacks =
    Callback.deployment EventType.add web ∷ Callback.deployment EventType.delete web ∷ []

callbacks-IsValid_example :
    (All (λ c. ¬ HasNilHttp c) seen_callbacks → callbacks "cluster" seen_callbacks monitor ≢ none)
    × ((q : Entries)
        → callbacks "cluster" seen_callbacks monitor ≡ some q
        → IsValid q
          × ((j : String)
              → All (λ c. j ≢ fragment_of c) seen_callbacks
              → lookup j q ≡ lookup j monitor))
    × ((dep : Deployment) (s : Service) (i : Ingress)
        → (call "cluster" (Callback.deployment EventType.delete dep) monitor ≡ some (monitor, none))
          × (call "cluster" (Callback.service EventType.delete s) monitor ≡ some (monitor, none))
          × (call "cluster" (Callback.ingress EventType.delete i) monitor ≡ some (monitor, none)))
    × ((action : EventType) (dep : Deployment)
        → action ≢ EventType.delete
        → ReportsStatus dep monitor (call "cluster" (Callback.deployment action dep) monitor))
    × ((action : EventType) (i : Ingress)
        → action ≢ EventType.delete
        → ReportsAddress i monitor (call "cluster" (Callback.ingress action i) monitor))
callbacks-IsValid_example = callbacks-IsValid "cluster" seen_callbacks monitor monitor-IsValid

-- the first two dispatches fail
abbrev dispatched : ℕ → Error × ℕ
dispatched rounds = (if ltb rounds 2 then some "conflict" else none, suc rounds)

work_returns_example : (r : Worked ℕ) × (work 6 dispatched 0 0 ≡ some r) × Handles dispatched 6 0 r
work_returns_example = work_returns dispatched 0

abbrev fragment : Object
fragment =
    Object.namespace
      (record { labels = ("nalej-organization", "org") ∷ []; creation_timestamp = 7 })

abbrev stores : Stores
stores kind = none

-- a namespace that is added, updated and deleted
abbrev seen : List Seen
seen =
    (none, fragment, EventType.add)
    ∷ (some fragment, fragment, EventType.update)
    ∷ (none, fragment, EventType.delete)
    ∷ []

abbrev counted : Metrics
counted = record no_metrics {
  fragments = record { created = 1; deleted = 1; running = pos 0; errors = 0 };
}

on_objects-running_example :
    ((get_subsystem MetricType.fragments counted).running
      ≡ shift
          (pos 0)
          (tally MetricType.fragments is_add seen)
          (tally MetricType.fragments is_delete seen))
    × ((get_subsystem MetricType.fragments counted).deleted
        ≡ tally MetricType.fragments is_delete seen)
unfolding on_objects on_object translate create existing delete inc dec
on_objects-running_example = on_objects-running stores 5 MetricType.fragments seen counted refl

abbrev meta : Meta
meta = record { labels = []; creation_timestamp = 7 }

abbrev warning : KubernetesEvent
warning = record {
  type = "Warning";
  last_timestamp = 9;
  count = 2;
  involved_object = record { kind = "Pod"; namespace = "ns"; name = "web"; field_path = "" };
}

abbrev happened : Event
happened = record {
  key = "ns/back-off";
  old_obj_key = "ns/back-off";
  kind = "Event";
  event_type = EventType.update;
}

-- the deleted objects: the warning, or nothing
abbrev deleted : DeletedStore Object Bool
deleted = record {
  get_by_key = λ key is_kept. ok (if is_kept then some (Object.event meta warning) else none);
  remove = λ key is_kept. false;
}

abbrev present : String → Result (Option Object)
present key = ok (some (Object.event meta warning))

abbrev absent : String → Result (Option Object)
absent key = ok none

-- conductor is not there
abbrev refused : ℕ → Error × ℕ
refused calls = (some "unavailable", suc calls)

update_status_silent_example :
    let q =
      (update_status (λ err. false) (λ message. refused) refused "cluster" (λ p. p) monitor 0).0 in
    ((get_pending_notifications q).1 ≡ [])
    × (get_services_unnotified_status q ≡ [])
    × ((update_status (λ err. false) (λ message. refused) refused "cluster" (λ p. p) q 0).1 ≡ 0)
unfolding program get_pending_notifications
update_status_silent_example =
    update_status_silent (λ err. false) (λ message. refused) refused "cluster" (λ p. p) monitor 0 _
      _ refl

-- the ingresses fail
abbrev act : Part → ℕ → Error × ℕ
act part calls = (if is_part part Part.ingresses then some "no class" else none, suc calls)

stage-RunsUpTo_example :
    RunsUpTo act build_order 0 (build_stage act 0)
    × RunsUpTo act deploy_order 0 (deploy_stage act 0)
    × RunsUpTo act undeploy_order 0 (undeploy_stage act 0)
    × ((part : Part) → (calls_of part build_order ≡ 1) × (calls_of part deploy_order ≡ 1))
    × ((undeploy_stage act 0).error ≡ none
        → (calls_of Part.load_balancers (undeploy_stage act 0).calls ≡ 0)
          × (calls_of Part.storage (undeploy_stage act 0).calls ≡ 2))
stage-RunsUpTo_example = stage-RunsUpTo act 0

abbrev smooth : Part → ℕ → Error × ℕ
smooth part calls = (none, suc calls)

update_of_warning_example :
    let dispatched =
      dispatch
        (λ kind. some present)
        deleted
        (λ obj. true)
        (functions stores 5)
        happened
        false
        no_metrics in
    (present happened.key ≡ ok (some (Object.event meta warning))
      → dispatched.0 ≡ some (none, no_metrics))
    × (present happened.key ≡ ok none
        → deleted.get_by_key happened.key false ≡ ok (some (Object.event meta warning))
        → is_discarded 5 warning ≡ false
        → dispatched.0 ≡ none)
update_of_warning_example =
    update_of_warning (λ kind. some present) deleted stores 5 happened meta warning present false
      no_metrics refl (λ h. cc) refl
