-- ===== src/Kubernetes/Reports.antt =====
-- pkg/kubernetes/kubernetes_controller.go: what OnDeployment and OnIngress report to the monitor.
use deployment_manager.Common.{
  ℕ, Bool-cases, eq_iff, inl, inr, ◌≡◌, refl, ◌≢◌, ◌≤◌, ◌↔◌, ◌⊎◌, true, Option, none, some, List,
  [], ◌∷◌, String, arith, All,
}
use deployment_manager.Entities.Status.{NalejServiceStatus}
use deployment_manager.Entities.Translation.{ConditionType, occurrences, translation-occurrences}
use deployment_manager.Monitored.{Entries, Error}
use deployment_manager.Monitored.ResourceStatus.{set_resource_status}
use deployment_manager.Kubernetes.Controller.{
  Deployment, Ingress, Rule, LoadBalancerIngress, label_of, report, condition_types,
  deployment_status, is_ready, web_endpoint, first_port, report_ingress,
}

-- OnDeployment reports RUNNING exactly when some replicas are available and none is unavailable, or
-- when there are conditions and all of them are of the type Available; it never reports WAITING.
pub deployment_status_running :
    (dep : Deployment)
    → ((deployment_status dep ≡ NalejServiceStatus.running) ↔ (
        ((dep.unavailable_replicas ≡ 0) × (1 ≤ dep.available_replicas))
        ⊎ ((1 ≤ occurrences ConditionType.available (condition_types dep.conditions))
            × (occurrences ConditionType.progressing (condition_types dep.conditions) ≡ 0)
            × (occurrences ConditionType.other (condition_types dep.conditions) ≡ 0))))
      × (deployment_status dep ≢ NalejServiceStatus.waiting)
unfolding deployment_status
deployment_status_running dep =
    ground (arith, translation-occurrences (condition_types dep.conditions))

-- what OnDeployment does with an event that is no deletion
abbrev pub ReportsStatus : Deployment → Entries → Option (Entries × Error) → Type 0
ReportsStatus dep p r =
    (status : NalejServiceStatus) × (info : String) × (r
      ≡ some (
          set_resource_status (label_of "nalej-deployment-fragment" dep.labels)
            (label_of "nalej-service-instance-id" dep.labels) dep.uid status info [] p))
    × ((status ≡ NalejServiceStatus.running) ↔ (
        ((dep.unavailable_replicas ≡ 0) × (1 ≤ dep.available_replicas))
        ⊎ ((1 ≤ occurrences ConditionType.available (condition_types dep.conditions))
            × (occurrences ConditionType.progressing (condition_types dep.conditions) ≡ 0)
            × (occurrences ConditionType.other (condition_types dep.conditions) ≡ 0))))

abbrev pub HasAddress : LoadBalancerIngress → Type 0
HasAddress ing = (ing.hostname ≢ "") × (ing.ip ≢ "")

is_ready_iff : (ings : List LoadBalancerIngress) → (is_ready ings ≡ true) ↔ All HasAddress ings
unfolding is_ready
is_ready_iff [] = (λ h. tt, λ h. refl)
is_ready_iff (ing ∷ rest) =
    ground (arith, is_ready_iff rest, eq_iff ing.hostname "", eq_iff ing.ip "")

-- what OnIngress does with an event that is no deletion: it waits for the addresses, and reports the
-- host of the first rule and the port of its first path
abbrev pub ReportsAddress : Ingress → Entries → Option (Entries × Error) → Type 0
ReportsAddress i p r =
    (¬ All HasAddress i.load_balancer → r ≡ some (p, none))
    × ((rule : Rule) (rules : List Rule) (paths : List ℕ)
        → All HasAddress i.load_balancer
        → i.rules ≡ rule ∷ rules
        → rule.http ≡ some paths
        → r
          ≡ some (
              set_resource_status (label_of "nalej-deployment-fragment" i.labels)
                (label_of "nalej-service-instance-id" i.labels) i.uid NalejServiceStatus.running ""
                (web_endpoint i.uid rule.host (first_port paths) ∷ []) p))

pub report_ingress-ReportsAddress :
    (i : Ingress) (p : Entries)
    → ReportsAddress i p (report_ingress (is_ready i.load_balancer) i.rules i p)
unfolding report_ingress report
report_ingress-ReportsAddress i p = (
  λ waits. elim (Bool-cases (is_ready i.load_balancer)) [
    | inl ready ↦ absurd (waits ((is_ready_iff i.load_balancer).0 ready))
    | inr not_ready ↦ rw (not_ready, report_ingress) refl
  ],
  λ rule rules paths all same found.
      rw ((is_ready_iff i.load_balancer).1 all, same, found, report_ingress) refl,
)
