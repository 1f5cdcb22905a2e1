-- ===== src/Deployables/Labels.antt =====
-- pkg/kubernetes/kubernetes_deployment.go, kubernetes_service.go, kubernetes_loadbalancer.go,
-- kubernetes_ingress.go and kubernetes_devicegroups.go: the labels and selectors of the objects.
use deployment_manager.Common.{
  ◌≡◌, refl, Option, none, some, [], ◌∷◌, String, arith, if◌then◌else◌, Map, lookup, insert, str_eq,
  lookup-insert,
}
use deployment_manager.Names.{format_name, format_name_with_hyphen}
use deployment_manager.Deployables.{Service, DeviceGroupRule, Metadata}

-- labels[k] = v, one after the other
unfoldable pub set_all : Map String → Map String → Map String
set_all [] labels = labels
set_all ((k, v) ∷ rest) labels = set_all rest (insert k v labels)

-- what the Build of the deployments writes into the labels of a service
unfoldable pub deployment_labels : Metadata → Service → Map String
deployment_labels meta service =
    ("nalej-deployment-fragment", meta.fragment_id)
    ∷ ("nalej-organization", meta.organization_id)
    ∷ ("nalej-organization-name", format_name_with_hyphen meta.organization_name)
    ∷ ("nalej-app-descriptor", meta.app_descriptor_id)
    ∷ ("nalej-app-descriptor-name", format_name_with_hyphen meta.app_descriptor_name)
    ∷ ("nalej-app-instance-id", meta.app_instance_id)
    ∷ ("nalej-app-name", format_name_with_hyphen meta.app_name)
    ∷ ("nalej-stage-id", meta.stage.stage_id)
    ∷ ("nalej-service-id", service.service_id)
    ∷ ("nalej-service-name", format_name_with_hyphen service.service_name)
    ∷ ("nalej-service-instance-id", service.service_instance_id)
    ∷ ("nalej-service-group-id", service.service_group_id)
    ∷ ("nalej-service-group-name", format_name_with_hyphen service.service_group_name)
    ∷ ("nalej-service-group-instance-id", service.service_group_instance_id)
    ∷ ("nalej-is-proxy", "false")
    ∷ []

-- extendedLabels: the map of the request itself, which the deployment and its pods share
unfoldable pub extended_labels : Metadata → Service → Map String
unfolding set_all deployment_labels
extended_labels meta service = set_all (deployment_labels meta service) service.labels

-- selectorLabels of a deployment, a service and a load balancer, which are written alike
unfoldable pub selector_labels : (String → String) → Metadata → Service → Map String
selector_labels to_lower meta service =
    ("nalej-app-instance-id", meta.app_instance_id)
    ∷ ("nalej-organization", service.organization_id)
    ∷ ("nalej-service-name", format_name to_lower service.service_name)
    ∷ []

-- the labels of a Kubernetes service
unfoldable pub service_labels : Metadata → Map String
service_labels meta =
    ("nalej-organization", meta.organization_id)
    ∷ ("nalej-app-descriptor", meta.app_descriptor_id)
    ∷ ("nalej-app-instance-id", meta.app_instance_id)
    ∷ ("nalej-is-proxy", "false")
    ∷ []

-- the labels that a load balancer, an ingress, a secret, a config map and a claim have in common
unfoldable pub object_labels : Metadata → String → Service → Map String
object_labels meta service_id service =
    ("nalej-deployment-fragment", meta.fragment_id)
    ∷ ("nalej-organization", meta.organization_id)
    ∷ ("nalej-app-descriptor", meta.app_descriptor_id)
    ∷ ("nalej-app-instance-id", meta.app_instance_id)
    ∷ ("nalej-stage-id", meta.stage.stage_id)
    ∷ ("nalej-service-id", service_id)
    ∷ ("nalej-service-instance-id", service.service_instance_id)
    ∷ ("nalej-service-group-id", service.service_group_id)
    ∷ ("nalej-service-group-instance-id", service.service_group_instance_id)
    ∷ []

unfoldable pub load_balancer_labels : Metadata → Service → Map String
unfolding object_labels
load_balancer_labels meta service =
    set_all (("nalej-service-purpose", "load-balancer") ∷ [])
      (object_labels meta service.service_id service)

-- the labels of the service of a device group
unfoldable pub device_group_labels : Metadata → DeviceGroupRule → Map String
device_group_labels meta sr =
    ("nalej-deployment-fragment", meta.fragment_id)
    ∷ ("nalej-organization", meta.organization_id)
    ∷ ("nalej-app-descriptor", meta.app_descriptor_id)
    ∷ ("nalej-app-instance-id", meta.app_instance_id)
    ∷ ("nalej-stage-id", meta.stage.stage_id)
    ∷ ("nalej-security-rule-id", sr.rule_id)
    ∷ ("nalej-service-id", sr.target_service_id)
    ∷ ("nalej-service-instance-id", sr.target_service_instance_id)
    ∷ ("nalej-service-purpose", "device-group")
    ∷ []

-- the selector of the service of a device group
unfoldable pub device_group_selector : Metadata → DeviceGroupRule → Map String
device_group_selector meta sr =
    ("nalej-organization", meta.organization_id)
    ∷ ("nalej-app-descriptor", meta.app_descriptor_id)
    ∷ ("nalej-app-instance-id", meta.app_instance_id)
    ∷ ("nalej-stage-id", meta.stage.stage_id)
    ∷ ("nalej-service-id", sr.target_service_id)
    ∷ ("nalej-service-instance-id", sr.target_service_instance_id)
    ∷ []

-- the value that is written last
unfoldable pub last_value : String → Map String → Option String
last_value key [] = none
last_value key ((k, v) ∷ rest) =
    let later = last_value key rest in
    elim later [ some w ↦ some w | none ↦ if str_eq k key then some v else none ]

-- A label has the value that is written last, or the one that it had.
pub lookup-set_all :
    (key : String) (written labels : Map String)
    → lookup key (set_all written labels) ≡ elim (last_value key written) as (λ _. Option String) [
      | some w ↦ some w
      | none ↦ lookup key labels
    ]
unfolding set_all last_value
lookup-set_all key [] labels = refl
lookup-set_all key ((k, v) ∷ rest) labels =
    ground (arith, lookup-set_all key rest (insert k v labels), lookup-insert k key v labels)
