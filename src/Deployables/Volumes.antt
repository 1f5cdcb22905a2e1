-- ===== src/Deployables/Volumes.antt =====
-- pkg/kubernetes/kubernetes_deployment.go and kubernetes_configmaps.go: the volumes of a pod. A
-- function is `none` where the source panics on an index that is out of range.
use Prim.Native.Char.{code}
use Prim.Native.String.{[] as empty, ◌∷◌ as cons}
use deployment_manager.Common.{
  ℕ, suc, Bool, true, Option, none, some, List, [], ◌∷◌, ◌++◌, String, if◌then◌else◌, ◌==◌, Map,
  has_key, insert, str_eq, concat, decimal, trim_space,
}
use deployment_manager.Handler.Requests.{is_blank}
use deployment_manager.Names.{reformat_label, with_dash}
use deployment_manager.Deployables.{StorageType, Storage, ConfigFile, Service}
use deployment_manager.Deployables.Storages.{size_of, pvc_id}

-- apiv1.KeyToPath
pub record KeyToPath : Type 0 where
  pub key : String
  pub path : String

pub data Source : Type 0 where
  config_map : String → List KeyToPath → Source
  empty_dir : ℕ → Source
  claim : String → Source

pub record Volume : Type 0 where
  pub name : String
  pub source : Source

pub record VolumeMount : Type 0 where
  pub name : String
  pub mount_path : String

-- res[0] == '/', and res[1:]
unfoldable pub drop_first_slash : String → Option String
drop_first_slash empty = none
drop_first_slash (cons c s) = some (if code c == 47 then s else cons c s)

-- res[len(res)-1] == '/', and res[:len(res)-1]
unfoldable pub drop_last_slash : String → Option String
drop_last_slash empty = none
drop_last_slash (cons c s) = elim (drop_last_slash s) [
  | none ↦ some (if code c == 47 then empty else cons c empty)
  | some rest ↦ some (cons c rest)
]

-- createVolumeName
unfoldable pub create_volume_name : String → Option String
unfolding drop_first_slash drop_last_slash
create_volume_name name =
    if is_blank name then some "" else elim (drop_first_slash (trim_space name)) [
      | none ↦ none
      | some res ↦ elim (drop_last_slash res) [
        | none ↦ none
        | some kept ↦ some (reformat_label kept)
      ]
    ]

-- the text up to the last '/', with it, and the text after
unfoldable pub split_at_last : String → Option (String × String)
split_at_last empty = none
split_at_last (cons c s) = elim (split_at_last s) [
  | some parts ↦ some (cons c parts.0, parts.1)
  | none ↦ if code c == 47 then some (cons c empty, s) else none
]

-- GetConfigMapPath
unfoldable pub get_config_map_path : String → String × String
unfolding split_at_last
get_config_map_path mount_path = elim (split_at_last mount_path) [
  | none ↦ ("/", mount_path)
  | some parts ↦ parts
]

-- fmt.Sprintf("config-map-%s-%s", ...)
abbrev pub config_map_name : String → String → String
config_map_name service_id service_instance_id =
    concat "config-map-" (with_dash service_id service_instance_id)

abbrev pub add_item : KeyToPath → Source → Source
add_item item (config_map name items) = config_map name (items ++ item ∷ [])
add_item item (empty_dir size) = empty_dir size
add_item item (claim name) = claim name

-- the loop that finds the volume of a path that is known, and adds the file to it
unfoldable pub add_to_volume : String → KeyToPath → List Volume → List Volume
add_to_volume name item [] = []
add_to_volume name item (volume ∷ rest) =
    let later = add_to_volume name item rest in
    if str_eq volume.name name
    then record volume { source = add_item item volume.source } ∷ rest
    else volume ∷ later

-- volumes, volumesMount and pathAdded
pub record Built : Type 0 where
  pub volumes : List Volume
  pub mounts : List VolumeMount
  pub path_added : Map Bool

-- the two branches of the body of the loop of generateAllVolumes
unfoldable pub add_item_at : String → String → KeyToPath → String → Built → Built
unfolding add_to_volume
add_item_at config_name path item clear_path built =
    if has_key clear_path built.path_added
    then record built { volumes = add_to_volume clear_path item built.volumes }
    else record {
      volumes =
          built.volumes
          ++ record { name = clear_path; source = config_map config_name (item ∷ []) } ∷ [];
      mounts = built.mounts ++ record { name = clear_path; mount_path = path } ∷ [];
      path_added = insert clear_path true built.path_added;
    }

-- the item of a file: its id, and its name without the directory
unfoldable pub item_of : ConfigFile → KeyToPath
unfolding get_config_map_path
item_of config = record {
  key = config.config_file_id;
  path = (get_config_map_path config.mount_path).1;
}

-- the name of the volume of a file
unfoldable pub clear_path_of : ConfigFile → Option String
unfolding create_volume_name get_config_map_path
clear_path_of config = create_volume_name (get_config_map_path config.mount_path).0

-- the body of the loop of generateAllVolumes
unfoldable pub add_file : String → ConfigFile → Built → Option Built
unfolding add_item_at item_of clear_path_of
add_file config_name config built = elim (clear_path_of config) [
  | none ↦ none
  | some clear_path ↦ some (
      add_item_at config_name (get_config_map_path config.mount_path).0 (item_of config) clear_path
        built)
]

unfoldable pub add_files : String → List ConfigFile → Built → Option Built
unfolding add_file
add_files config_name [] built = some built
add_files config_name (config ∷ rest) built = elim (add_file config_name config built) [
  | none ↦ none
  | some next ↦ add_files config_name rest next
]

-- generateAllVolumes
unfoldable pub generate_all_volumes : String → String → List ConfigFile → Option Built
unfolding add_files
generate_all_volumes service_id service_instance_id config_files =
    add_files (config_map_name service_id service_instance_id) config_files
      (record { volumes = []; mounts = []; path_added = [] })

-- v, in the loop of Build over the storage
unfoldable pub storage_volume : Service → ℕ → Storage → Volume
storage_volume service i storage = record {
  name = concat "vol-1" (decimal i);
  source = elim storage.type [
    | StorageType.ephemeral ↦ empty_dir (size_of storage)
    | _ ↦ claim (pvc_id service i)
  ];
}

-- the loop of Build over the storage: the volumes and the mounts
unfoldable pub storage_volumes : Service → ℕ → List Storage → List Volume × List VolumeMount
unfolding storage_volume
storage_volumes service i [] = ([], [])
storage_volumes service i (storage ∷ rest) =
    let (volumes, mounts) = storage_volumes service (suc i) rest in
    let v = storage_volume service i storage in
    (v ∷ volumes, record { name = v.name; mount_path = storage.mount_path } ∷ mounts)

-- the volumes of the pod, and the mounts of its container
unfoldable pub pod_volumes : Service → Option (List Volume × List VolumeMount)
unfolding generate_all_volumes storage_volumes
pod_volumes service =
    elim (generate_all_volumes service.service_id service.service_instance_id service.configs) [
      | none ↦ none
      | some built ↦
          let (volumes, mounts) = storage_volumes service 0 service.storage in
          some (built.volumes ++ volumes, built.mounts ++ mounts)
    ]
