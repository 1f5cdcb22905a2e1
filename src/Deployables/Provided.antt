-- ===== src/Deployables/Provided.antt =====
-- pkg/kubernetes/kubernetes_deployment.go and kubernetes_configmaps.go: the volumes of the files of a
-- service and its config map.
use deployment_manager.Common.{
  ◌≡◌, refl, Map, Option, insert, ◌∙◌, ap, subst, trim_space, trim_left, trim_right, is_space, inl,
  inr, true, none, some, List, [], ◌∷◌, ◌++◌, String, All, arith, has_key, has_key-insert,
  Option-cases, eq_iff,
}
use deployment_manager.Deployables.{ConfigFile, Service, Metadata}
use deployment_manager.Deployables.Objects.{
  DataObject, binary_data, generate_consolidate_config_map,
}
use deployment_manager.Deployables.Volumes.{
  Built, clear_path_of, add_file, add_files, generate_all_volumes, get_config_map_path,
  config_map_name, split_at_last, create_volume_name, drop_first_slash, drop_last_slash,
}
use deployment_manager.Deployables.Files.{Unique, IsConfig, volume_names}
use deployment_manager.Deployables.Mounted.{IsPlaced, mount_names, add_files-IsSound}

generate_all_volumes_lem :
    (service_id service_instance_id : String) (files : List ConfigFile) (built : Built)
    → generate_all_volumes service_id service_instance_id files ≡ some built
    → Unique built.volumes
      × (volume_names built.volumes ≡ mount_names built.mounts)
      × All (IsPlaced built) files
      × All (IsConfig (config_map_name service_id service_instance_id)) built.volumes
unfolding generate_all_volumes has_key
generate_all_volumes_lem service_id service_instance_id files built h =
    let (sound, keeps, placed) =
      add_files-IsSound (config_map_name service_id service_instance_id) files
        (record { volumes = []; mounts = []; path_added = [] }) built
        (record { mounted = refl; unique = tt; known = λ k. refl; configs = tt }) h in
    (sound.unique, sound.mounted, placed, sound.configs)

add_files_panics :
    (config_name : String) (before after : List ConfigFile) (file : ConfigFile) (built : Built)
    → clear_path_of file ≡ none
    → add_files config_name (before ++ file ∷ after) built ≡ none
unfolding add_files add_file
add_files_panics config_name [] after file built bad = rw (bad, add_files, add_file) refl
add_files_panics config_name (first ∷ before) after file built bad =
    elim (Option-cases (clear_path_of first)) [
      | inl panics ↦ rw (panics, add_files, add_file) refl
      | inr (name, clear) ↦
          rw (clear, add_files, add_file) (add_files_panics config_name before after file _ bad)
    ]

no_directory :
    (file : ConfigFile) → split_at_last file.mount_path ≡ none → clear_path_of file ≡ none
unfolding clear_path_of get_config_map_path create_volume_name drop_first_slash drop_last_slash
    trim_space trim_left trim_right is_space
no_directory file flat = rw (flat, get_config_map_path) refl

generate_all_volumes_panics :
    (service_id service_instance_id : String) (before after : List ConfigFile) (file : ConfigFile)
    → split_at_last file.mount_path ≡ none
    → generate_all_volumes service_id service_instance_id (before ++ file ∷ after) ≡ none
unfolding generate_all_volumes
generate_all_volumes_panics service_id service_instance_id before after file flat =
    add_files_panics (config_map_name service_id service_instance_id) before after file _
      (no_directory file flat)

contents-keep :
    (files : List ConfigFile) (filled : Map String) (k : String)
    → has_key k filled ≡ true
    → has_key k (binary_data files filled) ≡ true
unfolding binary_data
contents-keep [] filled k h = h
contents-keep (file ∷ rest) filled k h =
    contents-keep rest (insert file.config_file_id file.content filled) k
      (ground (arith, has_key-insert file.config_file_id k file.content filled))

-- the config map has the contents of the file under its id
abbrev pub IsIn : Map String → ConfigFile → Type 0
IsIn contents file = has_key file.config_file_id contents ≡ true

binary_data-IsIn :
    (files : List ConfigFile) (filled : Map String) → All (IsIn (binary_data files filled)) files
unfolding binary_data
binary_data-IsIn [] filled = tt
binary_data-IsIn (file ∷ rest) filled =
    let next = insert file.config_file_id file.content filled in
    (
      contents-keep rest next file.config_file_id (
          ground (
            arith,
            has_key-insert file.config_file_id file.config_file_id file.content filled,
            eq_iff file.config_file_id file.config_file_id,
          )),
      binary_data-IsIn rest next,
    )

config_map_lem :
    (meta : Metadata) (service : Service) (files : List ConfigFile) (m : DataObject)
    → service.configs ≡ files
    → generate_consolidate_config_map meta service ≡ some m
    → (m.name ≡ config_map_name service.service_id service.service_instance_id)
      × All (IsIn m.contents) files
unfolding generate_consolidate_config_map
config_map_lem meta service [] m is h = (ground arith, tt)
config_map_lem meta service (file ∷ rest) m is h = (
  ground arith,
  subst (λ c. All (IsIn c) (file ∷ rest)) (ground arith) (binary_data-IsIn (file ∷ rest) []),
)

module _ (meta : Metadata) (service : Service) where
  abbrev pub built_volumes : Option Built
  built_volumes =
      generate_all_volumes service.service_id service.service_instance_id service.configs

  -- When generateAllVolumes does not panic on the configuration files of a service, the volumes have
  -- different names, each is mounted under its name in the same order, every file is an item of the
  -- volume that is named after its directory, and all volumes show the config map of the service,
  -- which has every file. It panics when some file is mounted without a directory, as in `app.conf`.
  pub generate_all_volumes-IsPlaced :
      ((built : Built)
        → built_volumes ≡ some built
        → Unique built.volumes
          × (volume_names built.volumes ≡ mount_names built.mounts)
          × All (IsPlaced built) service.configs
          × All
              (IsConfig (config_map_name service.service_id service.service_instance_id))
              built.volumes)
      × ((m : DataObject)
          → generate_consolidate_config_map meta service ≡ some m
          → (m.name ≡ config_map_name service.service_id service.service_instance_id)
            × All (IsIn m.contents) service.configs)
      × ((before after : List ConfigFile) (file : ConfigFile)
          → service.configs ≡ before ++ file ∷ after
          → split_at_last file.mount_path ≡ none
          → built_volumes ≡ none)
  generate_all_volumes-IsPlaced = (
    generate_all_volumes_lem service.service_id service.service_instance_id service.configs,
    λ m made. config_map_lem meta service service.configs m refl made,
    λ before after file parts flat.
        ap (generate_all_volumes service.service_id service.service_instance_id) parts
        ∙ generate_all_volumes_panics service.service_id service.service_instance_id before after
            file flat,
  )
