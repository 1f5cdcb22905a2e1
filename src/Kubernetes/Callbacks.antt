-- ===== src/Kubernetes/Callbacks.antt =====
-- What the callbacks of pkg/kubernetes/kubernetes_controller.go do to the monitored entries.
use deployment_manager.Common.{
  some_inj, inl, inr, subst, Option-cases, ◌≡◌, refl, ◌∙◌, ◌≢◌, Bool, true, false, Option, none,
  some, List, [], ◌∷◌, String, arith, lookup, All, Map,
}
use deployment_manager.Entities.Status.{NalejServiceStatus}
use deployment_manager.Entities.Monitor.{EndpointInstance}
use deployment_manager.Events.Dispatcher.{EventType}
use deployment_manager.Monitored.{Entries, Error}
use deployment_manager.Monitored.Invariant.{IsValid}
use deployment_manager.Monitored.Keeps.{set_resource_status-IsValid}
use deployment_manager.Monitored.Outcome.{set_resource_status-frame}
use deployment_manager.Kubernetes.Reports.{
  ReportsStatus, ReportsAddress, deployment_status_running, report_ingress-ReportsAddress,
}
use deployment_manager.Kubernetes.Controller.{
  Deployment, Service, Ingress, label_of, report, on_deployment, on_service, on_ingress,
  report_service, report_ingress, Rule,
}

pub data Callback : Type 0 where
  deployment : EventType → Deployment → Callback
  service : EventType → Service → Callback
  ingress : EventType → Ingress → Callback

-- one callback; `none` stands for its panic
unfoldable pub call : String → Callback → Entries → Option (Entries × Error)
unfolding on_deployment on_service on_ingress
call hostname (deployment action dep) p = some (on_deployment action dep p)
call hostname (service action s) p = some (on_service hostname action s p)
call hostname (ingress action i) p = on_ingress action i p

abbrev pub labels_of : Callback → Map String
labels_of (deployment action dep) = dep.labels
labels_of (service action s) = s.labels
labels_of (ingress action i) = i.labels

abbrev pub fragment_of : Callback → String
fragment_of c = label_of "nalej-deployment-fragment" (labels_of c)

-- one callback after the other; the error of a callback goes back to the dispatcher, a panic ends
-- the program
unfoldable pub callbacks : String → List Callback → Entries → Option Entries
unfolding call
callbacks hostname [] p = some p
callbacks hostname (c ∷ cs) p = elim (call hostname c p) [
  | none ↦ none
  | some (q, err) ↦ callbacks hostname cs q
]

-- an ingress whose first rule has a nil HTTP
abbrev pub HasNilHttp : Callback → Type 0
HasNilHttp (ingress action i) = elim i.rules [ [] ↦ ⊥ | rule ∷ rules ↦ rule.http ≡ none ]
HasNilHttp _ = ⊥

-- what a callback leaves alone: the validity, and the entries of the other fragments; and nothing
-- changes when it fails
abbrev Keeps : String → Entries → Entries × Error → Type 0
Keeps id p r =
    (IsValid p → IsValid r.0)
    × ((j : String) → j ≢ id → lookup j r.0 ≡ lookup j p)
    × (r.1 ≢ none → r.0 ≡ p)

report-Keeps :
    (labels : Map String) (uid : String) (status : NalejServiceStatus) (info : String)
    (endpoints : List EndpointInstance) (p : Entries)
    → Keeps
        (label_of "nalej-deployment-fragment" labels)
        p
        (report labels uid status info endpoints p)
unfolding report
report-Keeps labels uid status info endpoints p =
    let id = label_of "nalej-deployment-fragment" labels in
    let service = label_of "nalej-service-instance-id" labels in
    let frame = set_resource_status-frame id service uid status info endpoints p in
    (set_resource_status-IsValid id service uid status info endpoints p, frame.2, frame.1)

same-Keeps : (id : String) (p : Entries) → Keeps id p (p, none)
same-Keeps id p = (λ v. v, λ j ne. refl, λ h. refl)

report_service-Keeps :
    (endpoints : Option (List EndpointInstance)) (s : Service) (p : Entries)
    → Keeps (label_of "nalej-deployment-fragment" s.labels) p (report_service endpoints s p)
unfolding report_service
report_service-Keeps none s p = same-Keeps _ p
report_service-Keeps (some endpoints) s p = report-Keeps s.labels _ _ _ _ p

-- a callback panics only on a nil HTTP, and keeps what it must when it returns
abbrev Returns : Callback → Entries → Option (Entries × Error) → Type 0
Returns c p r =
    (r ≡ none → HasNilHttp c) × ((s : Entries × Error) → r ≡ some s → Keeps (fragment_of c) p s)

Returns-some :
    (c : Callback) (p : Entries) (r : Entries × Error)
    → Keeps (fragment_of c) p r
    → Returns c p (some r)
Returns-some c p r k = (λ h. ground arith, λ s h. subst (Keeps (fragment_of c) p) (some_inj h) k)

report_ingress-Returns :
    (action : EventType) (ready : Bool) (i : Ingress) (p : Entries)
    → Returns (ingress action i) p (report_ingress ready i.rules i p)
unfolding report_ingress
report_ingress-Returns action false i p =
    Returns-some (ingress action i) p (p, none) (same-Keeps _ p)
report_ingress-Returns action true i p = first i.rules refl
  where
    first :
        (rules : List Rule)
        → i.rules ≡ rules
        → Returns (ingress action i) p (report_ingress true rules i p)
    first [] same = Returns-some (ingress action i) p (p, none) (same-Keeps _ p)
    first (rule ∷ rules) same = elim (Option-cases rule.http) [
      | inl nil ↦ (λ h. rw same nil, λ s h. absurd (ground arith))
      | inr (paths, found) ↦
          rw (found, report_ingress)
            (Returns-some (ingress action i) p _ (report-Keeps i.labels _ _ _ _ p))
    ]

call-Returns : (hostname : String) (c : Callback) (p : Entries) → Returns c p (call hostname c p)
unfolding call on_deployment on_service on_ingress
call-Returns hostname (deployment EventType.delete dep) p =
    Returns-some (deployment EventType.delete dep) p _ (same-Keeps _ p)
call-Returns hostname (deployment EventType.add dep) p =
    Returns-some (deployment EventType.add dep) p _ (report-Keeps dep.labels _ _ _ _ p)
call-Returns hostname (deployment EventType.update dep) p =
    Returns-some (deployment EventType.update dep) p _ (report-Keeps dep.labels _ _ _ _ p)
call-Returns hostname (service EventType.delete s) p =
    Returns-some (service EventType.delete s) p _ (same-Keeps _ p)
call-Returns hostname (service EventType.add s) p =
    Returns-some (service EventType.add s) p _ (report_service-Keeps _ s p)
call-Returns hostname (service EventType.update s) p =
    Returns-some (service EventType.update s) p _ (report_service-Keeps _ s p)
call-Returns hostname (ingress EventType.delete i) p =
    Returns-some (ingress EventType.delete i) p _ (same-Keeps _ p)
call-Returns hostname (ingress EventType.add i) p = report_ingress-Returns EventType.add _ i p
call-Returns hostname (ingress EventType.update i) p = report_ingress-Returns EventType.update _ i p

callbacks_keep :
    (hostname : String) (cs : List Callback) (p : Entries)
    → IsValid p
    → (callbacks hostname cs p ≡ none → All (λ c. ¬ HasNilHttp c) cs → ⊥)
      × ((q : Entries)
          → callbacks hostname cs p ≡ some q
          → IsValid q × ((j : String) → All (λ c. j ≢ fragment_of c) cs → lookup j q ≡ lookup j p))
unfolding callbacks
callbacks_keep hostname [] p v =
    (λ h all. ground arith, λ q h. subst Kept (some_inj h) (v, λ j others. refl))
  where
    Kept : Entries → Type 0
    Kept q = IsValid q × ((j : String) → Unit → lookup j q ≡ lookup j p)
callbacks_keep hostname (c ∷ cs) p v = elim (Option-cases (call hostname c p)) [
  | inl panics ↦
      (λ h all. all.0 ((call-Returns hostname c p).0 panics), λ q h. absurd (ground (arith)))
  | inr ((q, err), returned) ↦
      let keeps = (call-Returns hostname c p).1 (q, err) returned in
      let later = callbacks_keep hostname cs q (keeps.0 v) in
      rw (returned, callbacks)
        (
          λ h all. later.0 h all.1,
          λ end h.
              let (valid, frame) = later.1 end h in
              (valid, λ j others. frame j others.1 ∙ keeps.1 j others.0),
        )
]

call-ReportsStatus :
    (hostname : String) (action : EventType) (dep : Deployment) (p : Entries)
    → action ≢ EventType.delete
    → ReportsStatus dep p (call hostname (deployment action dep) p)
unfolding call on_deployment report
call-ReportsStatus hostname EventType.delete dep p other = absurd (other refl)
call-ReportsStatus hostname EventType.add dep p other =
    (_, _, refl, (deployment_status_running dep).0)
call-ReportsStatus hostname EventType.update dep p other =
    (_, _, refl, (deployment_status_running dep).0)

call_of_deletion :
    (hostname : String) (dep : Deployment) (s : Service) (i : Ingress) (p : Entries)
    → (call hostname (deployment EventType.delete dep) p ≡ some (p, none))
      × (call hostname (service EventType.delete s) p ≡ some (p, none))
      × (call hostname (ingress EventType.delete i) p ≡ some (p, none))
unfolding call on_deployment on_service on_ingress
call_of_deletion hostname dep s i p = (refl, refl, refl)

call-ReportsAddress :
    (hostname : String) (action : EventType) (i : Ingress) (p : Entries)
    → action ≢ EventType.delete
    → ReportsAddress i p (call hostname (ingress action i) p)
unfolding call on_ingress
call-ReportsAddress hostname EventType.delete i p other = absurd (other refl)
call-ReportsAddress hostname EventType.add i p other = report_ingress-ReportsAddress i p
call-ReportsAddress hostname EventType.update i p other = report_ingress-ReportsAddress i p

-- A sequence of callbacks on valid entries panics only if it has an ingress whose first rule has a
-- nil HTTP. Otherwise, whatever the events are and in whatever order they come, the entries stay
-- valid, and the entry of every fragment stays as it was that no label of an event names. A deletion
-- changes nothing. Any other event of a deployment sets the status of the resource that its labels
-- and its uid name: to RUNNING exactly when some replicas are available and none is unavailable, or
-- when there are conditions and all of them are of the type Available. Any other event of an ingress
-- changes nothing as long as an entry of its load balancer lacks its host name or its address; after
-- that, it sets the status of its resource to RUNNING, with the host of the first rule and the port
-- of its first path as the endpoint.
pub callbacks-IsValid :
    (hostname : String) (cs : List Callback) (p : Entries)
    → IsValid p
    → (All (λ c. ¬ HasNilHttp c) cs → callbacks hostname cs p ≢ none)
      × ((q : Entries)
          → callbacks hostname cs p ≡ some q
          → IsValid q × ((j : String) → All (λ c. j ≢ fragment_of c) cs → lookup j q ≡ lookup j p))
      × ((dep : Deployment) (s : Service) (i : Ingress)
          → (call hostname (deployment EventType.delete dep) p ≡ some (p, none))
            × (call hostname (service EventType.delete s) p ≡ some (p, none))
            × (call hostname (ingress EventType.delete i) p ≡ some (p, none)))
      × ((action : EventType) (dep : Deployment)
          → action ≢ EventType.delete
          → ReportsStatus dep p (call hostname (deployment action dep) p))
      × ((action : EventType) (i : Ingress)
          → action ≢ EventType.delete
          → ReportsAddress i p (call hostname (ingress action i) p))
callbacks-IsValid hostname cs p v =
    let (panics, keeps) = callbacks_keep hostname cs p v in
    (
      λ all h. panics h all,
      keeps,
      λ dep s i. call_of_deletion hostname dep s i p,
      λ action dep other. call-ReportsStatus hostname action dep p other,
      λ action i other. call-ReportsAddress hostname action i p other,
    )
