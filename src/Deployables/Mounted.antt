-- ===== src/Deployables/Mounted.antt =====
-- pkg/kubernetes/kubernetes_deployment.go: what generateAllVolumes makes of the configuration files.
use deployment_manager.Common.{
  ◌≡◌, refl, ◌∙◌, sym, ap, subst, inl, inr, true, some, List, [], ◌∷◌, ◌++◌, String, All, arith,
  has_key, map, has_key-insert, Bool-cases, Option-cases,
}
use deployment_manager.Deployables.{ConfigFile}
use deployment_manager.Deployables.Volumes.{
  KeyToPath, config_map, Volume, VolumeMount, Built, add_item_at, item_of, clear_path_of, add_file,
  add_files, get_config_map_path,
}
use deployment_manager.Deployables.Files.{
  Holds, named, Unique, IsConfig, volume_names, names-add_to_volume, named-add_to_volume,
  Unique-add_to_volume, IsConfig-add_to_volume, Holds-add_to_volume, Holds-added, names-end,
  named-end, Unique-end, IsConfig-end, Holds-before, Holds-end,
}

abbrev pub mount_names : List VolumeMount → List String
mount_names = map (λ m. m.name)

mounts-end :
    (ms : List VolumeMount) (m : VolumeMount)
    → mount_names (ms ++ m ∷ []) ≡ mount_names ms ++ m.name ∷ []
mounts-end [] m = refl
mounts-end (first ∷ ms) m = ap (λ ns. first.name ∷ ns) (mounts-end ms m)

pub record IsSound (config_name : String) (built : Built) : Type 0 where
  pub mounted : volume_names built.volumes ≡ mount_names built.mounts
  pub unique : Unique built.volumes
  pub known : (k : String) → has_key k built.path_added ≡ named k built.volumes
  pub configs : All (IsConfig config_name) built.volumes

module _ (config_name path : String) (item : KeyToPath) (name : String) (built : Built) where
  abbrev next : Built
  next = add_item_at config_name path item name built

  abbrev new : Volume
  new = record { name = name; source = config_map config_name (item ∷ []) }

  add_item_at-IsSound : IsSound config_name built → IsSound config_name next
  unfolding add_item_at
  add_item_at-IsSound s = elim (Bool-cases (has_key name built.path_added)) [
    | inl here ↦
        rw (here, add_item_at)
          record {
            mounted = names-add_to_volume name item built.volumes ∙ s.mounted;
            unique = Unique-add_to_volume name item built.volumes s.unique;
            known = λ k. s.known k ∙ sym (named-add_to_volume name item k built.volumes);
            configs = IsConfig-add_to_volume name item config_name built.volumes s.configs;
          }
    | inr missing ↦
        rw (missing, add_item_at)
          record {
            mounted =
                names-end built.volumes new
                ∙ ap (λ ns. ns ++ name ∷ []) s.mounted
                ∙ sym (mounts-end built.mounts (record { name = name; mount_path = path }));
            unique = Unique-end built.volumes new s.unique (sym (s.known name) ∙ missing);
            known = λ k. ground (
              arith,
              has_key-insert name k true built.path_added,
              named-end k built.volumes new,
              s.known k,
            );
            configs = IsConfig-end config_name built.volumes new s.configs (item ∷ [], refl);
          }
  ]

  add_item_at-Holds : IsSound config_name built → Holds name item next.volumes
  unfolding add_item_at
  add_item_at-Holds s = elim (Bool-cases (has_key name built.path_added)) [
    | inl here ↦
        rw (here, add_item_at)
          (Holds-added name item config_name built.volumes s.configs (sym (s.known name) ∙ here))
    | inr missing ↦ rw (missing, add_item_at) (Holds-end config_name item built.volumes new refl)
  ]

  add_item_at-keeps :
      (k : String) (i : KeyToPath) → Holds k i built.volumes → Holds k i next.volumes
  unfolding add_item_at
  add_item_at-keeps k i h = elim (Bool-cases (has_key name built.path_added)) [
    | inl here ↦ rw (here, add_item_at) (Holds-add_to_volume name item k i built.volumes h)
    | inr missing ↦ rw (missing, add_item_at) (Holds-before k i built.volumes new h)
  ]

-- the file is an item of the volume that is named after its directory
abbrev pub IsPlaced : Built → ConfigFile → Type 0
IsPlaced built config =
    (name : String) × (clear_path_of config ≡ some name) × Holds name (item_of config) built.volumes

some_inj : {x y : Built} → some x ≡ some y → x ≡ y
some_inj h = ground arith

pub add_files-IsSound :
    (config_name : String) (files : List ConfigFile) (built done : Built)
    → IsSound config_name built
    → add_files config_name files built ≡ some done
    → IsSound config_name done
      × ((k : String) (i : KeyToPath) → Holds k i built.volumes → Holds k i done.volumes)
      × All (IsPlaced done) files
unfolding add_files add_file
add_files-IsSound config_name [] built done s h =
    subst
      (λ d.
        IsSound config_name d
        × ((k : String) (i : KeyToPath) → Holds k i built.volumes → Holds k i d.volumes)
        × Unit)
      (some_inj h) (s, λ k i x. x, tt)
add_files-IsSound config_name (file ∷ rest) built done s h =
    elim (Option-cases (clear_path_of file)) [
      | inl panics ↦ absurd (ground arith)
      | inr (name, clear) ↦
          let path = (get_config_map_path file.mount_path).0 in
          let item = item_of file in
          let next = add_item_at config_name path item name built in
          let (sound, keeps, placed) =
            add_files-IsSound config_name rest (add_item_at config_name path item name built) done
              (add_item_at-IsSound config_name path item name built s)
              (rw (clear, add_files, add_file) at h) in
          (
            sound,
            λ k i x. keeps k i (add_item_at-keeps config_name path item name built k i x),
            (
              (name, clear, keeps name item (add_item_at-Holds config_name path item name built s)),
              placed,
            ),
          )
    ]
