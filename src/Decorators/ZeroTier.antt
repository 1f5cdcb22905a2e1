-- ===== src/Decorators/ZeroTier.antt =====
-- pkg/decorators/network/zerotier/zerotier_decorator.go: the sidecar that every deployment of a stage
-- gets, and the inbounds that are deployed beside them. Fields that are the same for all of them are
-- left out; `none` stands for the panic of a slice or an index out of range.
use deployment_manager.Common.{ℕ, Option, none, some, List, [], ◌∷◌, ◌++◌, String, Map, concat, map}
use deployment_manager.Names.{format_name, get_service_fqdn}
use deployment_manager.Deployables.{Port, Service, Metadata}
use deployment_manager.Deployables.Labels.{set_all, extended_labels}
use deployment_manager.Deployables.Environment.{EnvVar}
use deployment_manager.Deployables.Deployment.{ContainerPort, Deployment}

-- what the decorator reads of its configuration and of the metadata, beside Metadata
pub record Settings : Type 0 where
  pub zt_agent_image_name : String
  pub cluster_id : String
  pub deployment_mgr_address : String
  pub zt_sidecar_port : ℕ
  pub deployment_id : String
  pub zt_network_id : String
  pub stage_fragment_id : String
  pub dns_hosts : List String

-- apiv1.Container; the command is the one of the liveness probe
pub record Container : Type 0 where
  pub name : String
  pub image : String
  pub args : List String
  pub env : List EnvVar
  pub command : List String
  pub ports : List ContainerPort
  pub mounts : List String

-- appsv1.Deployment with all its containers; the name servers are set with the policy DNSNone
pub record PodDeployment : Type 0 where
  pub name : String
  pub namespace : String
  pub labels : Map String
  pub selector : Map String
  pub template_labels : Map String
  pub containers : List Container
  pub volumes : List String
  pub nameservers : Option (List String)

-- service.Labels after the Build of the deployments, which writes into the map of the request when
-- there is one
unfoldable pub labels_after_build : Metadata → Service → Map String
unfolding extended_labels
labels_after_build meta service = elim service.labels [
  | [] ↦ []
  | label ∷ rest ↦ extended_labels meta service
]

-- what generateContainerLabelsInbound writes
unfoldable pub inbound_written : Settings → Metadata → Service → Map String
inbound_written settings meta service =
    ("nalej-deployment-fragment", meta.fragment_id)
    ∷ ("nalej-organization", meta.organization_id)
    ∷ ("nalej-app-descriptor", meta.app_descriptor_id)
    ∷ ("nalej-app-instance-id", meta.app_instance_id)
    ∷ ("nalej-stage-id", meta.stage.stage_id)
    ∷ ("nalej-deployment-id", settings.deployment_id)
    ∷ ("nalej-deployment-fragment", settings.stage_fragment_id)
    ∷ ("nalej-service-id", service.service_id)
    ∷ ("nalej-service-instance-id", service.service_instance_id)
    ∷ ("nalej-service-group-id", service.service_group_id)
    ∷ ("nalej-service-group-instance-id", service.service_group_instance_id)
    ∷ ("nalej-is-proxy", "true")
    ∷ []

-- generateContainerLabelsInbound: a copy of the labels of the service, written over
unfoldable pub inbound_labels : Settings → Metadata → Service → Map String
unfolding set_all inbound_written labels_after_build
inbound_labels settings meta service =
    set_all (inbound_written settings meta service) (labels_after_build meta service)

-- getContainerPorts: the ports of the service and the one of the sidecar
unfoldable pub get_sidecar_ports : Settings → List Port → List ContainerPort
get_sidecar_ports settings [] =
    record { container_port = settings.zt_sidecar_port; name = "ztrouteport" } ∷ []
get_sidecar_ports settings (p ∷ rest) =
    record { container_port = p.exposed_port; name = p.name } ∷ get_sidecar_ports settings rest

-- the command of the liveness probe
unfoldable pub check_command : Settings → Metadata → Service → String → List String
check_command settings meta service service_name =
    "./nalej/zt-agent" ∷ "check" ∷ "--appInstanceId" ∷ meta.app_instance_id ∷ "--appName"
    ∷ meta.app_name ∷ "--serviceName" ∷ service_name ∷ "--deploymentId" ∷ settings.deployment_id
    ∷ "--fragmentId" ∷ settings.stage_fragment_id ∷ "--managerAddr"
    ∷ settings.deployment_mgr_address ∷ "--organizationId" ∷ meta.organization_id
    ∷ "--organizationName" ∷ meta.organization_name ∷ "--networkId" ∷ settings.zt_network_id
    ∷ "--serviceGroupInstanceId" ∷ service.service_group_instance_id ∷ "--serviceAppInstanceId"
    ∷ service.service_instance_id ∷ []

module _ (to_lower : String → String) (settings : Settings) (meta : Metadata) where
  -- generateContainerVars; the flag is written as text
  unfoldable pub generate_container_vars : Service → String → Option (List EnvVar)
  unfolding get_service_fqdn
  generate_container_vars service is_proxy =
      elim (get_service_fqdn to_lower service.service_name service.organization_id
        service.app_instance_id) [
          | none ↦ none
          | some fqdn ↦ some (
              record { name = "CLUSTER_ID"; value = settings.cluster_id }
              ∷ record { name = "NALEJ_IS_PROXY"; value = is_proxy }
              ∷ record { name = "NALEJ_ZT_NETWORK_ID"; value = settings.zt_network_id }
              ∷ record { name = "NALEJ_MANAGER_ADDR"; value = settings.deployment_mgr_address }
              ∷ record { name = "NALEJ_DEPLOYMENT_ID"; value = settings.deployment_id }
              ∷ record { name = "NALEJ_DEPLOYMENT_FRAGMENT"; value = settings.stage_fragment_id }
              ∷ record { name = "NALEJ_ORGANIZATION"; value = meta.organization_id }
              ∷ record { name = "NALEJ_ORGANIZATION_NAME"; value = meta.organization_name }
              ∷ record { name = "NALEJ_APP_DESCRIPTOR"; value = meta.app_descriptor_id }
              ∷ record { name = "NALEJ_APP_NAME"; value = meta.app_name }
              ∷ record { name = "NALEJ_APP_INSTANCE_ID"; value = meta.app_instance_id }
              ∷ record { name = "NALEJ_STAGE_ID"; value = meta.stage.stage_id }
              ∷ record { name = "NALEJ_SERVICE_NAME"; value = service.service_name }
              ∷ record { name = "NALEJ_SERVICE_ID"; value = service.service_id }
              ∷ record { name = "NALEJ_SERVICE_FQDN"; value = fqdn }
              ∷ record { name = "NALEJ_SERVICE_INSTANCE_ID"; value = service.service_instance_id }
              ∷ record { name = "NALEJ_SERVICE_GROUP_ID"; value = service.service_group_id }
              ∷ record {
                name = "NALEJ_SERVICE_GROUP_INSTANCE_ID";
                value = service.service_group_instance_id;
              }
              ∷ [])
        ]

  -- the body of the loop of createSidecars
  unfoldable pub add_sidecar : Service → List EnvVar → PodDeployment → PodDeployment
  unfolding get_sidecar_ports check_command
  add_sidecar service vars dep = record dep {
    containers =
        dep.containers
        ++ record {
          name = "zt-sidecar";
          image = settings.zt_agent_image_name;
          args = "run" ∷ [];
          env = vars;
          command = check_command settings meta service service.service_name;
          ports = get_sidecar_ports settings service.exposed_ports;
          mounts = "dev-net-tun" ∷ [];
        }
          ∷ [];
    volumes = dep.volumes ++ "dev-net-tun" ∷ [];
    nameservers = some settings.dns_hosts;
  }

  -- createSidecars: the deployment of a service is the one at its index
  unfoldable pub create_sidecars : List Service → List PodDeployment → Option (List PodDeployment)
  unfolding generate_container_vars add_sidecar
  create_sidecars [] deps = some deps
  create_sidecars (service ∷ rest) [] = none
  create_sidecars (service ∷ rest) (dep ∷ deps) = elim (generate_container_vars service "false") [
    | none ↦ none
    | some vars ↦ elim (create_sidecars rest deps) [
      | none ↦ none
      | some more ↦ some (add_sidecar service vars dep ∷ more)
    ]
  ]

  unfoldable pub inbound_name : Service → String
  unfolding format_name
  inbound_name service = concat "zt-" (format_name to_lower service.service_name)

  -- the agent of createInbounds
  unfoldable pub inbound : Service → List EnvVar → PodDeployment
  unfolding get_sidecar_ports check_command inbound_name inbound_labels format_name
  inbound service vars = record {
    name = inbound_name service;
    namespace = meta.namespace;
    labels = inbound_labels settings meta service;
    selector = inbound_labels settings meta service;
    template_labels = inbound_labels settings meta service;
    containers =
        record {
          name = inbound_name service;
          image = settings.zt_agent_image_name;
          args = "run" ∷ "--debug" ∷ [];
          env = vars;
          command = check_command settings meta service (format_name to_lower service.service_name);
          ports = get_sidecar_ports settings service.exposed_ports;
          mounts = "dev-net-tun" ∷ [];
        }
        ∷ [];
    volumes = "dev-net-tun" ∷ [];
    nameservers = none;
  }

  -- createInbounds: a service without ports has none
  unfoldable pub create_inbounds : List Service → List PodDeployment → Option (List PodDeployment)
  unfolding generate_container_vars inbound
  create_inbounds [] deps = some deps
  create_inbounds (service ∷ rest) deps = elim service.exposed_ports [
    | [] ↦ create_inbounds rest deps
    | port ∷ ports ↦ elim (generate_container_vars service "true") [
      | none ↦ none
      | some vars ↦ create_inbounds rest (deps ++ inbound service vars ∷ [])
    ]
  ]

  -- Build of the decorator on the deployments of a stage
  unfoldable pub build : List Service → List PodDeployment → Option (List PodDeployment)
  unfolding create_sidecars create_inbounds
  build services deps = elim (create_sidecars services deps) [
    | none ↦ none
    | some decorated ↦ create_inbounds services decorated
  ]

-- a deployment as the Build of the deployments makes it, with the one container of the service
unfoldable pub of_deployment : Deployment → PodDeployment
of_deployment dep = record {
  name = dep.name;
  namespace = dep.namespace;
  labels = dep.labels;
  selector = dep.selector;
  template_labels = dep.template_labels;
  containers =
      record {
        name = dep.name;
        image = dep.image;
        args = dep.args;
        env = dep.env;
        command = [];
        ports = dep.ports;
        mounts = map (λ m. m.name) dep.mounts;
      }
      ∷ [];
  volumes = map (λ v. v.name) dep.volumes;
  nameservers = none;
}
