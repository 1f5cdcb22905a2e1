-- ===== src/Deployables/Objects.antt =====
-- pkg/kubernetes/kubernetes_service.go, kubernetes_devicegroups.go, kubernetes_configmaps.go and
-- kubernetes_secrets.go: the objects that are built for the services of a stage. The encoding in base
-- 64 is a parameter.
use Prim.Native.String.{len, slice}
use deployment_manager.Common.{
  ℕ, Bool, Option, none, some, List, [], ◌∷◌, ◌++◌, String, if◌then◌else◌, ltb, Map, lookup, insert,
  concat, decimal,
}
use deployment_manager.Names.{format_name, with_dash}
use deployment_manager.Deployables.{
  Port, ConfigFile, ImageCredentials, Service, DeviceGroupRule, Metadata,
}
use deployment_manager.Deployables.Labels.{
  service_labels, selector_labels, object_labels, device_group_labels, device_group_selector,
}
use deployment_manager.Deployables.Storages.{Platform}
use deployment_manager.Deployables.Volumes.{config_map_name}

-- apiv1.ServicePort
pub record ServicePort : Type 0 where
  pub port : ℕ
  pub target_port : ℕ
  pub name : String

-- getServicePorts; nil is the empty list
unfoldable pub get_service_ports : List Port → List ServicePort
get_service_ports [] = []
get_service_ports (p ∷ rest) =
    record {
      port = p.exposed_port;
      target_port = p.internal_port;
      name = concat "port" (decimal p.exposed_port);
    }
    ∷ get_service_ports rest

pub data ServiceType : Type 0 where
  cluster_ip load_balancer node_port : ServiceType

-- apiv1.Service
pub record KubernetesService : Type 0 where
  pub name : String
  pub labels : Map String
  pub selector : Map String
  pub ports : List ServicePort
  pub type : ServiceType

-- the loop of DeployableServices.Build; `is_not_found` is what Get says of a name
unfoldable pub build_kubernetes_services :
    (String → String) → (String → Bool) → Metadata → List Service → List KubernetesService
unfolding get_service_ports service_labels selector_labels format_name
build_kubernetes_services to_lower is_not_found meta [] = []
build_kubernetes_services to_lower is_not_found meta (service ∷ rest) =
    let later = build_kubernetes_services to_lower is_not_found meta rest in
    let name = format_name to_lower service.service_name in
    if is_not_found name
    then elim (get_service_ports service.exposed_ports) [
      | [] ↦ later
      | port ∷ more ↦
          record {
            name = name;
            labels = service_labels meta;
            selector = selector_labels to_lower meta service;
            ports = port ∷ more;
            type = ServiceType.cluster_ip;
          }
          ∷ later
    ]
    else later

-- getK8sService of the device groups
unfoldable pub device_group_service : Platform → Metadata → DeviceGroupRule → KubernetesService
unfolding device_group_labels device_group_selector
device_group_service platform meta sr =
    let name = concat "dg-" (with_dash sr.rule_id sr.target_service_instance_id) in
    record {
      name = if ltb 63 (len name) then slice name 0 63 else name;
      labels = device_group_labels meta sr;
      selector = device_group_selector meta sr;
      ports = record { port = sr.target_port; target_port = sr.target_port; name = "dg-port" } ∷ [];
      type = elim platform [
        | Platform.minikube ↦ ServiceType.node_port
        | _ ↦ ServiceType.load_balancer
      ];
    }

-- the Build of the device groups
unfoldable pub build_device_groups :
    Platform → Metadata → List DeviceGroupRule → List KubernetesService
unfolding device_group_service
build_device_groups platform meta [] = []
build_device_groups platform meta (sr ∷ rest) =
    device_group_service platform meta sr ∷ build_device_groups platform meta rest

-- a config map or a secret, with its data
pub record DataObject : Type 0 where
  pub name : String
  pub labels : Map String
  pub contents : Map String

-- for _, config := range cf
unfoldable pub binary_data : List ConfigFile → Map String → Map String
binary_data [] filled = filled
binary_data (config ∷ rest) filled =
    binary_data rest (insert config.config_file_id config.content filled)

-- generateConsolidateConfigMap
unfoldable pub generate_consolidate_config_map : Metadata → Service → Option DataObject
unfolding binary_data object_labels
generate_consolidate_config_map meta service = elim service.configs [
  | [] ↦ none
  | first ∷ rest ↦ some (record {
    name = config_map_name service.service_id service.service_instance_id;
    labels = object_labels meta service.service_id service;
    contents = binary_data (first ∷ rest) [];
  })
]

-- dc.configmaps[service.ServiceId] = append(dc.configmaps[service.ServiceId], toAdd), in the loop of
-- Build
unfoldable pub build_config_maps :
    Metadata → List Service → Map (List DataObject) → Map (List DataObject)
unfolding generate_consolidate_config_map
build_config_maps meta [] built = built
build_config_maps meta (service ∷ rest) built =
    build_config_maps meta rest (elim (generate_consolidate_config_map meta service) [
      | none ↦ built
      | some to_add ↦
          insert service.service_id
            (elim (lookup service.service_id built) [
              | none ↦ to_add ∷ []
              | some before ↦ before ++ to_add ∷ []
            ])
            built
    ])

module _ (base64 : String → String) where
  -- getAuth
  unfoldable pub get_auth : String → String → String
  get_auth username password = base64 (concat username (concat ":" password))

  -- getDockerConfigJSON
  unfoldable pub get_docker_config_json : ImageCredentials → String
  unfolding get_auth
  get_docker_config_json ic = concat "{\"auths\":{\"" (
      concat ic.docker_repository (
        concat "\":{\"username\":\"" (
          concat ic.username (
            concat "\",\"password\":\"" (
              concat ic.password (
                concat "\",\"email\":\"" (
                  concat ic.email (
                    concat "\",\"auth\":\""
                      (concat (get_auth ic.username ic.password) "\"}}}")))))))))

  -- BuildSecretsForService, with generateDockerSecret
  unfoldable pub build_secrets_for_service : Metadata → Service → List DataObject
  unfolding get_docker_config_json object_labels
  build_secrets_for_service meta service = elim service.credentials [
    | none ↦ []
    | some ic ↦
        record {
          name = service.service_name;
          labels = object_labels meta service.service_id service;
          contents = (".dockerconfigjson", get_docker_config_json ic) ∷ [];
        }
        ∷ []
  ]

  -- the loop of Build: the secrets of a service replace those of an earlier one with its id
  unfoldable pub build_secrets :
      Metadata → List Service → Map (List DataObject) → Map (List DataObject)
  unfolding build_secrets_for_service
  build_secrets meta [] built = built
  build_secrets meta (service ∷ rest) built =
      build_secrets meta rest (elim (build_secrets_for_service meta service) [
        | [] ↦ built
        | secret ∷ more ↦ insert service.service_id (secret ∷ more) built
      ])
