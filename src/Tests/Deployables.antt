-- ===== src/Tests/Deployables.antt =====
-- The parts of a stage at concrete inputs: a service with two ports, two files and two storages.
use Prim.Native.String.{len}
use deployment_manager.Common.{
  ℕ, suc, cut, ◌≡◌, refl, ◌≢◌, ◌↔◌, ◌≤◌, ◌<◌, ◌⊎◌, true, false, none, some, List, [], ◌∷◌, ◌++◌,
  String, All, Map, concat, lookup, if◌then◌else◌, ltb, has_key, trim_space, trim_left, trim_right,
  is_space, keep_where,
}
use deployment_manager.Common.Result.{failed, ok}
use deployment_manager.Monitored.{Entries, add_pending_resource}
use deployment_manager.Monitored.Invariant.{IsValid}
use deployment_manager.Handler.Requests.{is_blank}
use deployment_manager.Names.{
  get_namespace, with_dash, format_name, format_name_with_hyphen, get_namespace-distinct,
  reformat_label,
}
use deployment_manager.Deployables.{
  StorageType, Storage, EndpointKind, Port, ConfigFile, Service, PublicRule, DeviceGroupRule,
  Metadata,
}
use deployment_manager.Deployables.Labels.{
  extended_labels, selector_labels, service_labels, object_labels, load_balancer_labels,
  device_group_labels, device_group_selector,
}
use deployment_manager.Deployables.Selectors.{
  Selects, created_resource, RegistersFor, selector_labels-Selects, created_resource-RegistersFor,
}
use deployment_manager.Deployables.Storages.{
  Platform, class_of, DeployableStorage, build_services, class_when_created, Claim, field_of_part,
  build_storage-last_class,
}
use deployment_manager.Deployables.Volumes.{
  Built, config_map_name, storage_volumes, generate_all_volumes, split_at_last, add_files, add_file,
  add_item_at, item_of, clear_path_of, create_volume_name, drop_first_slash, drop_last_slash,
  get_config_map_path,
}
use deployment_manager.Deployables.Objects.{DataObject, generate_consolidate_config_map}
use deployment_manager.Deployables.Files.{Unique, IsConfig, volume_names}
use deployment_manager.Deployables.Mounted.{mount_names, IsPlaced}
use deployment_manager.Deployables.Provided.{built_volumes, IsIn, generate_all_volumes-IsPlaced}
use deployment_manager.Deployables.Claims.{
  IsPart, IsProvided, claims_of, names_of, claims_for, build_services-claims,
}
use deployment_manager.Deployables.Endpoints.{LoadBalancer, build_load_balancer}
use deployment_manager.Deployables.Exclusive.{
  HasWeb, port_at, ingress, load_balancer, build_ingress-build_load_balancer,
}
use deployment_manager.Deployables.Loops.{
  Object, Client, Progress, note_created, create_each, create_groups, delete_each, delete_groups,
}
use deployment_manager.Deployables.Created.{Reaches, creation, StopsAtError}
use deployment_manager.Deployables.Groups.{all_of, create_each-delete_each}
use deployment_manager.Deployables.Namespace.{Namespaces, deploy_namespace, deploy_namespace_ends}
use deployment_manager.Tests.Data.{monitor}

abbrev long_org : String
long_org = "0123456789abcdefghij"

abbrev app_a : String
app_a = "a"

abbrev app_b : String
app_b = "b"

get_namespace-distinct_example :
    ((get_namespace long_org app_a 0 ≡ none) ↔ (len long_org < 18))
    × ((ns : String)
        → get_namespace long_org app_a 0 ≡ some ns
        → (len ns ≤ 63)
          × ((front : String) × (t : String) × (cut 0 18 long_org ≡ some front)
              × (concat t ns ≡ with_dash front app_a)))
    × ((m : ℕ) → get_namespace long_org app_a 0 ≡ get_namespace long_org app_a m)
    × ((ns : String)
        → len app_a ≤ 44
        → len app_b ≤ 44
        → get_namespace long_org app_a 0 ≡ some ns
        → get_namespace long_org app_b 0 ≡ some ns
        → app_a ≡ app_b)
get_namespace-distinct_example = get_namespace-distinct long_org app_a app_b 0

abbrev port : ℕ → Port
port n = record { name = "http"; internal_port = n; exposed_port = n; endpoints = [] }

abbrev local_data : Storage
local_data = record { size = 0; mount_path = "/data"; type = StorageType.cluster_local }

abbrev replica : Storage
replica = record { size = 10; mount_path = "/copy"; type = StorageType.cluster_replica }

abbrev web_config : ConfigFile
web_config = record { config_file_id = "c1"; mount_path = "/etc/web/app.conf"; content = "" }

abbrev flat_config : ConfigFile
flat_config = record { config_file_id = "c2"; mount_path = "app.conf"; content = "" }

abbrev pub service : Service
service = record {
  organization_id = "org";
  app_instance_id = "app";
  service_id = "s";
  service_name = "my web";
  service_instance_id = "si";
  service_group_id = "g";
  service_group_name = "group";
  service_group_instance_id = "gi";
  labels = [];
  environment_variables = [];
  storage = local_data ∷ replica ∷ [];
  exposed_ports =
      record (port 80) {
        endpoints = record { kind = EndpointKind.web; path = "/"; options = [] } ∷ [];
      }
      ∷ port 5432
      ∷ [];
  configs = web_config ∷ [];
  image = "nginx";
  replicas = 1;
  credentials = none;
  run_arguments = [];
}

abbrev pub meta : Metadata
meta = record {
  fragment_id = "frag";
  stage = record {
    stage_id = "stage";
    services = service ∷ [];
    public_rules = [];
    device_group_rules = [];
  };
  namespace = "ns";
  nalej_variables = [];
  organization_id = "org";
  organization_name = "The org";
  app_descriptor_id = "desc";
  app_descriptor_name = "The app";
  app_instance_id = "app";
  app_name = "app";
}

selector_labels-Selects_example :
    (Selects (selector_labels (λ s. s) meta service) (extended_labels meta service) ↔ (
      (service.organization_id ≡ meta.organization_id)
      × (format_name (λ s. s) service.service_name ≡ format_name_with_hyphen service.service_name)))
    × ((sr : DeviceGroupRule)
        → sr.target_service_id ≡ service.service_id
        → sr.target_service_instance_id ≡ service.service_instance_id
        → Selects (device_group_selector meta sr) (extended_labels meta service))
selector_labels-Selects_example = selector_labels-Selects meta service (λ s. s)

created_resource-RegistersFor_example :
    RegistersFor meta service (extended_labels meta service)
    × RegistersFor meta service (object_labels meta service.service_id service)
    × RegistersFor meta service (load_balancer_labels meta service)
    × ((sr : DeviceGroupRule)
        → sr.target_service_id ≡ service.service_id
        → sr.target_service_instance_id ≡ service.service_instance_id
        → RegistersFor meta service (device_group_labels meta sr))
    × ((uid : String) (p : Entries)
        → lookup "" p ≡ none
        → add_pending_resource (created_resource (service_labels meta) uid) p ≡ (p, false))
created_resource-RegistersFor_example = created_resource-RegistersFor meta service

-- both claims are created with the class of the replica
abbrev empty_storage : DeployableStorage
empty_storage = record { class = ""; pvcs = [] }

abbrev local_claim : Claim
local_claim = record { storage_class_name = field_of_part; name = "gis-0"; labels = []; size = 0 }

build_storage-last_class_example :
    class_when_created
      (build_services Platform.minikube meta (service ∷ []) empty_storage)
      local_claim
    ≡ class_of Platform.minikube meta service replica
build_storage-last_class_example =
    build_storage-last_class Platform.minikube meta [] service [] (local_data ∷ []) replica []
      empty_storage local_claim refl refl tt tt

build_services-claims_example :
    let created =
      names_of
        (claims_for "s" (build_services Platform.minikube meta (service ∷ []) empty_storage)) in
    let named = claims_of (storage_volumes service 0 service.storage).0 in
    IsPart created named
    × (All (IsProvided Platform.minikube meta service) service.storage → created ≡ named)
unfolding lookup
build_services-claims_example =
    build_services-claims Platform.minikube meta [] service [] empty_storage tt tt refl

abbrev flat_service : Service
flat_service = record service { configs = web_config ∷ flat_config ∷ [] }

generate_all_volumes-IsPlaced_example :
    ((built : Built)
      → built_volumes meta flat_service ≡ some built
      → Unique built.volumes
        × (volume_names built.volumes ≡ mount_names built.mounts)
        × All (IsPlaced built) flat_service.configs
        × All (IsConfig (config_map_name "s" "si")) built.volumes)
    × ((m : DataObject)
        → generate_consolidate_config_map meta flat_service ≡ some m
        → (m.name ≡ config_map_name "s" "si") × All (IsIn m.contents) flat_service.configs)
    × ((before after : List ConfigFile) (file : ConfigFile)
        → flat_service.configs ≡ before ++ file ∷ after
        → split_at_last file.mount_path ≡ none
        → built_volumes meta flat_service ≡ none)
generate_all_volumes-IsPlaced_example = generate_all_volumes-IsPlaced meta flat_service

-- the second file makes it panic, and the first alone does not
flat_panics : built_volumes meta flat_service ≡ none
unfolding split_at_last
flat_panics =
    (generate_all_volumes-IsPlaced meta flat_service).2 (web_config ∷ []) [] flat_config refl refl

web_is_placed : (built : Built) × (generate_all_volumes "s" "si" (web_config ∷ []) ≡ some built)
unfolding generate_all_volumes add_files add_file add_item_at item_of clear_path_of
    create_volume_name drop_first_slash drop_last_slash trim_space trim_left trim_right is_space
    reformat_label keep_where get_config_map_path split_at_last has_key
web_is_placed = (_, refl)

abbrev database : PublicRule
database = record {
  target_service_group_instance_id = "gi";
  target_service_instance_id = "si";
  target_port = 5432;
}

build_ingress-build_load_balancer_example :
    ((ingress (λ s. s) "m" "c" meta service database ≢ none)
      ↔ ((p : Port) × (port_at 5432 service.exposed_ports ≡ some p) × HasWeb p.endpoints))
    × ((load_balancer (λ s. s) "m" "c" meta service database ≢ none)
        ↔ ((p : Port) × (port_at 5432 service.exposed_ports ≡ some p) × (p.endpoints ≡ [])))
    × ((ingress (λ s. s) "m" "c" meta service database ≡ none)
        ⊎ (load_balancer (λ s. s) "m" "c" meta service database ≡ none))
    × ((rule : PublicRule) (a b : LoadBalancer)
        → load_balancer (λ s. s) "m" "c" meta service database ≡ some a
        → build_load_balancer (λ s. s) meta service rule ≡ some b
        → a.name ≡ b.name)
build_ingress-build_load_balancer_example =
    build_ingress-build_load_balancer (λ s. s) "m" "c" meta service database (refl, (refl, tt))

-- a cluster that counts its objects, takes two, and refuses every deletion
abbrev client : Client ℕ
client = record {
  create = λ object n. (if ltb n 2 then ok (object.name, object.labels) else failed "full", suc n);
  delete = λ name n. (some "forbidden", n);
  is_not_found = λ name n. true;
}

abbrev groups : Map (List Object)
groups =
    ("s", record { name = "a"; labels = [] } ∷ record { name = "b"; labels = [] } ∷ [])
    ∷ ("t", record { name = "c"; labels = [] } ∷ [])
    ∷ []

abbrev start : Progress ℕ
start = record { world = 0; entries = monitor; done = [] }

create_each-delete_each_example :
    let made = create_each client true (all_of groups) start in
    let gone = delete_each client ("a" ∷ []) start in
    StopsAtError client Object (λ o. o.name) (creation client) (all_of groups) start made
    × Reaches monitor made.1.entries
    × (IsValid monitor → IsValid made.1.entries)
    × StopsAtError client String (λ n. n) client.delete ("a" ∷ []) start gone
    × (gone.1.entries ≡ monitor)
    × (create_groups client true groups start ≡ made)
    × (delete_groups client (("s", "a" ∷ []) ∷ []) start ≡ gone)
create_each-delete_each_example =
    create_each-delete_each client true groups (("s", "a" ∷ []) ∷ []) start

two_of_three : (create_each client true (all_of groups) start).1.done ≡ "a" ∷ "b" ∷ []
unfolding create_each note_created
two_of_three = refl

-- a cluster with one name, blank while there is none
abbrev namespaces : Namespaces String
namespaces = record {
  get = λ name w. w;
  create =
      λ name w. (if is_blank name then some "invalid" else none, if is_blank name then w else name);
  delete = λ name w. (none, "");
}

deploy_namespace_ends_example :
    deploy_namespace namespaces 2 "ns" ""
    ≡ some (if is_blank (namespaces.get "ns" "") then namespaces.create "ns" "" else (none, ""))
deploy_namespace_ends_example = deploy_namespace_ends namespaces 0 "ns" "" (λ v made. refl)
