-- ===== src/Deployables/Deployment.antt =====
-- pkg/kubernetes/kubernetes_deployment.go: Build, the deployment of every service of a stage.
use deployment_manager.Common.{ℕ, Option, none, some, List, [], ◌∷◌, String, Map}
use deployment_manager.Names.{format_name}
use deployment_manager.Deployables.{Port, Service, Metadata}
use deployment_manager.Deployables.Labels.{extended_labels, selector_labels}
use deployment_manager.Deployables.Volumes.{Volume, VolumeMount, pod_volumes}
use deployment_manager.Deployables.Environment.{
  EnvVar, get_env_variables, add_device_group_env_variables,
}

-- apiv1.ContainerPort
pub record ContainerPort : Type 0 where
  pub container_port : ℕ
  pub name : String

-- getContainerPorts
unfoldable pub get_container_ports : List Port → List ContainerPort
get_container_ports [] = []
get_container_ports (p ∷ rest) =
    record { container_port = p.exposed_port; name = p.name } ∷ get_container_ports rest

-- appsv1.Deployment, with its one container
pub record Deployment : Type 0 where
  pub name : String
  pub namespace : String
  pub labels : Map String
  pub replicas : ℕ
  pub selector : Map String
  pub template_labels : Map String
  pub image : String
  pub env : List EnvVar
  pub ports : List ContainerPort
  pub args : List String
  pub image_pull_secrets : List String
  pub volumes : List Volume
  pub mounts : List VolumeMount

module _ (to_lower : String → String) (replace : String → String → String → String)
    (cluster_id : String) (meta : Metadata) where
  -- the body of the loop of Build; `none` stands for the panic of the volumes
  unfoldable pub build_deployment : Service → Option Deployment
  unfolding extended_labels selector_labels get_container_ports get_env_variables
      add_device_group_env_variables pod_volumes format_name
  build_deployment service = elim (pod_volumes service) [
    | none ↦ none
    | some (volumes, mounts) ↦ some (record {
      name = format_name to_lower service.service_name;
      namespace = meta.namespace;
      labels = extended_labels meta service;
      replicas = service.replicas;
      selector = selector_labels to_lower meta service;
      template_labels = extended_labels meta service;
      image = service.image;
      env =
          add_device_group_env_variables meta.stage.device_group_rules
            service.service_group_instance_id service.service_instance_id
            (get_env_variables replace cluster_id meta.nalej_variables
              service.environment_variables);
      ports = get_container_ports service.exposed_ports;
      args = service.run_arguments;
      image_pull_secrets = elim service.credentials [
        | none ↦ []
        | some credentials ↦ service.service_name ∷ []
      ];
      volumes = volumes;
      mounts = mounts;
    })
  ]

  -- the loop of Build
  unfoldable pub build_deployments : List Service → Option (List Deployment)
  unfolding build_deployment
  build_deployments [] = some []
  build_deployments (service ∷ rest) = elim (build_deployment service) [
    | none ↦ none
    | some deployment ↦ elim (build_deployments rest) [
      | none ↦ none
      | some more ↦ some (deployment ∷ more)
    ]
  ]
