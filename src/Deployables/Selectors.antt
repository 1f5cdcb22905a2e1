-- ===== src/Deployables/Selectors.antt =====
-- pkg/kubernetes: which pods the selectors find, and what a created object registers with the
-- monitor.
use deployment_manager.Common.{
  ◌≡◌, refl, sym, ap, ◌∙◌, ◌↔◌, false, none, some, [], ◌∷◌, String, arith, Map, lookup, insert,
}
use deployment_manager.Entities.Monitor.{MonitoredPlatformResource, new_monitored_platform_resource}
use deployment_manager.Monitored.{Entries, add_pending_resource}
use deployment_manager.Names.{format_name, format_name_with_hyphen}
use deployment_manager.Deployables.{Service, DeviceGroupRule, Metadata}
use deployment_manager.Deployables.Labels.{
  set_all, deployment_labels, extended_labels, selector_labels, service_labels, object_labels,
  load_balancer_labels, device_group_labels, device_group_selector, last_value, lookup-set_all,
}

-- A selector finds the objects whose labels have all its values.
abbrev pub Selects : Map String → Map String → Type 0
Selects [] labels = Unit
Selects ((k, v) ∷ rest) labels = (lookup k labels ≡ some v) × Selects rest labels

-- labels[k], which is blank when there is none
unfoldable pub label : String → Map String → String
label k labels = elim (lookup k labels) [ none ↦ "" | some v ↦ v ]

-- NewMonitoredPlatformResource of the labels of what was created
unfoldable pub created_resource : Map String → String → MonitoredPlatformResource
unfolding label new_monitored_platform_resource
created_resource labels uid =
    new_monitored_platform_resource (label "nalej-deployment-fragment" labels) uid
      (label "nalej-app-descriptor" labels) (label "nalej-app-instance-id" labels)
      (label "nalej-service-group-id" labels) (label "nalej-service-group-instance-id" labels)
      (label "nalej-service-id" labels) (label "nalej-service-instance-id" labels) ""

module _ (meta : Metadata) (service : Service) where
  -- a label that the Build writes, at a key for which the lists compute
  extended_label :
      (key value : String)
      → last_value key (deployment_labels meta service) ≡ some value
      → lookup key (extended_labels meta service) ≡ some value
  unfolding extended_labels
  extended_label key value h =
      ground (arith, lookup-set_all key (deployment_labels meta service) service.labels)

  selector_labels_lem :
      (to_lower : String → String)
      → Selects (selector_labels to_lower meta service) (extended_labels meta service) ↔ (
          (service.organization_id ≡ meta.organization_id)
          × (format_name to_lower service.service_name
              ≡ format_name_with_hyphen service.service_name))
  unfolding selector_labels last_value deployment_labels
  selector_labels_lem to_lower = (
    λ (_, (org, (name, _))). (
      ground (arith, extended_label "nalej-organization" meta.organization_id refl),
      ground (
        arith,
        extended_label "nalej-service-name" (format_name_with_hyphen service.service_name) refl,
      ),
    ),
    λ (org, name). (
      extended_label "nalej-app-instance-id" meta.app_instance_id refl,
      (
        extended_label "nalej-organization" meta.organization_id refl ∙ ap some (sym org),
        (
          extended_label "nalej-service-name" (format_name_with_hyphen service.service_name) refl
              ∙ ap some (sym name),
          tt,
        ),
      ),
    ),
  )

  device_group_selector_lem :
      (sr : DeviceGroupRule)
      → sr.target_service_id ≡ service.service_id
      → sr.target_service_instance_id ≡ service.service_instance_id
      → Selects (device_group_selector meta sr) (extended_labels meta service)
  unfolding device_group_selector last_value deployment_labels
  device_group_selector_lem sr same instance' = (
    extended_label "nalej-organization" meta.organization_id refl,
    (
      extended_label "nalej-app-descriptor" meta.app_descriptor_id refl,
      (
        extended_label "nalej-app-instance-id" meta.app_instance_id refl,
        (
          extended_label "nalej-stage-id" meta.stage.stage_id refl,
          (
            extended_label "nalej-service-id" service.service_id refl ∙ ap some (sym same),
            (
              extended_label "nalej-service-instance-id" service.service_instance_id refl
                  ∙ ap some (sym instance'),
              tt,
            ),
          ),
        ),
      ),
    ),
  )

  -- The selector that a deployment, its service and its load balancer share finds the pods of the
  -- deployment exactly when the service belongs to the organization of the deployment and its name
  -- is the same without its spaces in lower case as with hyphens for spaces. The selector of a device
  -- group always finds the pods of the service that its rule names.
  pub selector_labels-Selects :
      (to_lower : String → String)
      → (Selects (selector_labels to_lower meta service) (extended_labels meta service) ↔ (
          (service.organization_id ≡ meta.organization_id)
          × (format_name to_lower service.service_name
              ≡ format_name_with_hyphen service.service_name)))
        × ((sr : DeviceGroupRule)
            → sr.target_service_id ≡ service.service_id
            → sr.target_service_instance_id ≡ service.service_instance_id
            → Selects (device_group_selector meta sr) (extended_labels meta service))
  selector_labels-Selects to_lower = (selector_labels_lem to_lower, device_group_selector_lem)

  extended_label-eq :
      (key value : String)
      → last_value key (deployment_labels meta service) ≡ some value
      → label key (extended_labels meta service) ≡ value
  unfolding label
  extended_label-eq key value h = rw (extended_label key value h, label) refl

  -- the resource is registered for the service in the fragment of the deployment
  abbrev pub RegistersFor : Map String → Type 0
  RegistersFor labels =
      (uid : String)
      → let r = created_resource labels uid in
        (r.fragment_id ≡ meta.fragment_id)
        × (r.service_instance_id ≡ service.service_instance_id)
        × (r.service_id ≡ service.service_id)
        × (r.uid ≡ uid)

  -- Deployments, ingresses and load balancers, and the services of device groups whose rule names
  -- the service, are registered for their service in the fragment of the deployment. A service of
  -- Kubernetes is not: it is registered for a blank fragment, so that the monitor ignores it unless
  -- a fragment with a blank id is monitored.
  pub created_resource-RegistersFor :
      RegistersFor (extended_labels meta service)
      × RegistersFor (object_labels meta service.service_id service)
      × RegistersFor (load_balancer_labels meta service)
      × ((sr : DeviceGroupRule)
          → sr.target_service_id ≡ service.service_id
          → sr.target_service_instance_id ≡ service.service_instance_id
          → RegistersFor (device_group_labels meta sr))
      × ((uid : String) (p : Entries)
          → lookup "" p ≡ none
          → add_pending_resource (created_resource (service_labels meta) uid) p ≡ (p, false))
  unfolding created_resource new_monitored_platform_resource last_value deployment_labels label
      object_labels load_balancer_labels device_group_labels service_labels set_all lookup
      add_pending_resource insert
  created_resource-RegistersFor = (
    λ uid. (
      extended_label-eq "nalej-deployment-fragment" meta.fragment_id refl,
      extended_label-eq "nalej-service-instance-id" service.service_instance_id refl,
      extended_label-eq "nalej-service-id" service.service_id refl,
      refl,
    ),
    λ uid. (refl, refl, refl, refl),
    λ uid. (refl, refl, refl, refl),
    λ sr same instance' uid. (refl, instance', same, refl),
    λ uid p missing. rw (missing, add_pending_resource) refl,
  )
