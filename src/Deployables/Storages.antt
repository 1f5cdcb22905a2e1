-- ===== src/Deployables/Storages.antt =====
-- pkg/kubernetes/kubernetes_storages.go: the claims of a stage and the classes of their storage.
-- A claim keeps a pointer to its class, as the source's does, and the part is where it points to.
use deployment_manager.Common.{
  All, refl, ap, ◌∙◌, ℕ, suc, ◌≡◌, Bool, true, false, List, [], ◌∷◌, ◌++◌, String, arith,
  if◌then◌else◌, ◌==◌, Map, insert, concat, decimal, remove_char,
}
use deployment_manager.Handler.Requests.{is_blank}
use deployment_manager.Names.{generate_pvc_name}
use deployment_manager.Deployables.{StorageType, Storage, Service, Metadata}
use deployment_manager.Deployables.Labels.{object_labels}

-- the constants of grpc_installer_go.Platform that the source names, and any other value
pub data Platform : Type 0 where
  azure minikube other : Platform

-- StorageType.String(); no claim is made for the other types
abbrev pub type_name : StorageType → String
type_name StorageType.ephemeral = "EPHEMERAL"
type_name StorageType.cluster_local = "CLUSTER_LOCAL"
type_name StorageType.cluster_replica = "CLUSTER_REPLICA"
type_name StorageType.experimental_cluster_replica = "EXPERIMENTAL_CLUSTER_REPLICA"
type_name StorageType.other = ""

-- createExperimentalStorageClassName
unfoldable pub experimental_class : String → String → String → String
experimental_class organization_id app_instance_id service_instance_id =
    concat (remove_char 45 organization_id)
      (concat (remove_char 45 app_instance_id) (remove_char 45 service_instance_id))

-- GetStorageClass
unfoldable pub get_storage_class : Platform → StorageType → String → String → String → String
unfolding experimental_class
get_storage_class Platform.azure StorageType.cluster_local org app serv = "managed-premium"
get_storage_class Platform.azure StorageType.cluster_replica org app serv = "managed-premium"
get_storage_class Platform.azure StorageType.experimental_cluster_replica org app serv =
    experimental_class org app serv
get_storage_class Platform.azure _ org app serv = ""
get_storage_class Platform.minikube StorageType.cluster_local org app serv = "nalej-sc-local"
get_storage_class Platform.minikube StorageType.cluster_replica org app serv =
    "nalej-sc-local-replica"
get_storage_class Platform.minikube _ org app serv = ""
get_storage_class Platform.other _ org app serv = ""

-- DefaultStorageAllocationSize
abbrev pub default_size : ℕ
default_size = 104857600

-- if storage.Size == 0 { storage.Size = DefaultStorageAllocationSize }
abbrev pub size_of : Storage → ℕ
size_of storage = if storage.size == 0 then default_size else storage.size

-- what StorageClassName points to: &ds.class, the field of the part
pub data ClassPointer : Type 0 where
  field_of_part : ClassPointer

pub record Claim : Type 0 where
  pub storage_class_name : ClassPointer
  pub name : String
  pub labels : Map String
  pub size : ℕ

-- generatePVC
unfoldable pub generate_pvc : Metadata → String → Service → Storage → Claim
unfolding object_labels
generate_pvc meta storage_id service storage = record {
  storage_class_name = field_of_part;
  name = storage_id;
  labels =
      object_labels meta storage_id service ++ ("nalej-storage-type", type_name storage.type) ∷ [];
  size = size_of storage;
}

-- the types that are not passed over
abbrev pub is_claimable : StorageType → Bool
is_claimable StorageType.ephemeral = false
is_claimable StorageType.other = false
is_claimable _ = true

-- pvcId
abbrev pub pvc_id : Service → ℕ → String
pvc_id service index =
    generate_pvc_name service.service_group_instance_id service.service_id (decimal index)

module _ (platform : Platform) (meta : Metadata) (service : Service) where
  abbrev pub class_of : Storage → String
  class_of storage =
      get_storage_class platform storage.type service.organization_id service.app_instance_id
        service.service_instance_id

  -- the loop of BuildStorageForServices: the class that it leaves in the part, and the claims
  unfoldable pub build_claims : ℕ → List Storage → String → String × List Claim
  unfolding get_storage_class generate_pvc
  build_claims index [] class = (class, [])
  build_claims index (storage ∷ rest) class =
      let new = class_of storage in
      let passed = build_claims (suc index) rest class in
      let later = build_claims (suc index) rest new in
      if is_claimable storage.type
      then (if is_blank new
          then later
          else (later.0, generate_pvc meta (pvc_id service index) service storage ∷ later.1))
      else passed

  -- BuildStorageForServices
  unfoldable pub build_storage_for_services : String → String × List Claim
  unfolding build_claims
  build_storage_for_services = build_claims 0 service.storage

pub record DeployableStorage : Type 0 where
  pub class : String
  pub pvcs : Map (List Claim)

-- the loop of Build
unfoldable pub build_services :
    Platform → Metadata → List Service → DeployableStorage → DeployableStorage
unfolding build_storage_for_services
build_services platform meta [] ds = ds
build_services platform meta (service ∷ rest) ds =
    let (class, to_add) = build_storage_for_services platform meta service ds.class in
    build_services platform meta rest (record {
      class = class;
      pvcs = elim to_add [
        | [] ↦ ds.pvcs
        | claim ∷ more ↦ insert service.service_id (claim ∷ more) ds.pvcs
      ];
    })

-- Build
unfoldable pub build_storage : Platform → Metadata → DeployableStorage → DeployableStorage
unfolding build_services
build_storage platform meta ds = build_services platform meta meta.stage.services ds

-- what a pointer gives when it is followed
unfoldable pub deref : DeployableStorage → ClassPointer → String
deref ds field_of_part = ds.class

-- *pvc.Spec.StorageClassName, when the claim is created
unfoldable pub class_when_created : DeployableStorage → Claim → String
unfolding deref
class_when_created ds claim = deref ds claim.storage_class_name

abbrev pub IsPassedOver : Storage → Type 0
IsPassedOver storage = is_claimable storage.type ≡ false

module _ (platform : Platform) (meta : Metadata) where
  build_claims-passed :
      (service : Service) (index : ℕ) (after : List Storage) (class : String)
      → All IsPassedOver after
      → (build_claims platform meta service index after class).0 ≡ class
  unfolding build_claims
  build_claims-passed service index [] class none_claimed = refl
  build_claims-passed service index (storage ∷ after) class (passed, rest) =
      ground (arith, build_claims-passed service (suc index) after class rest)

  build_claims-class :
      (service : Service) (index : ℕ) (before : List Storage) (last : Storage)
      (after : List Storage) (class : String)
      → is_claimable last.type ≡ true
      → All IsPassedOver after
      → (build_claims platform meta service index (before ++ last ∷ after) class).0
        ≡ class_of platform meta service last
  unfolding build_claims
  build_claims-class service index [] last after class ok passed = ground (
    arith,
    build_claims-passed service (suc index) after (class_of platform meta service last) passed,
  )
  build_claims-class service index (storage ∷ before) last after class ok passed = ground (
    arith,
    build_claims-class service (suc index) before last after class ok passed,
    build_claims-class service (suc index) before last after
        (class_of platform meta service storage) ok passed,
  )

  build_services-passed :
      (services : List Service) (ds : DeployableStorage)
      → All (λ s. All IsPassedOver s.storage) services
      → (build_services platform meta services ds).class ≡ ds.class
  unfolding build_services build_storage_for_services
  build_services-passed [] ds passed = refl
  build_services-passed (service ∷ rest) ds (passed, others) =
      build_services-passed rest _ others
      ∙ build_claims-passed service 0 service.storage ds.class passed

  build_services-class :
      (before : List Service) (service : Service) (after : List Service) (first : List Storage)
      (last : Storage) (others : List Storage) (ds : DeployableStorage)
      → service.storage ≡ first ++ last ∷ others
      → is_claimable last.type ≡ true
      → All IsPassedOver others
      → All (λ s. All IsPassedOver s.storage) after
      → (build_services platform meta (before ++ service ∷ after) ds).class
        ≡ class_of platform meta service last
  unfolding build_services build_storage_for_services
  build_services-class [] service after first last others ds parts ok passed silent =
      build_services-passed after _ silent
      ∙ ap (λ storage. (build_claims platform meta service 0 storage ds.class).0) parts
      ∙ build_claims-class service 0 first last others ds.class ok passed
  build_services-class (earlier ∷ before) service after first last others ds parts ok passed
        silent =
      build_services-class before service after first last others _ parts ok passed silent

  deref-class : (ds : DeployableStorage) (pointer : ClassPointer) → deref ds pointer ≡ ds.class
  unfolding deref
  deref-class ds field_of_part = refl

  -- Every claim of a stage, whatever service and storage it is made for, is created with the class of
  -- the last claimable storage of the stage: the last one of the last service that has any.
  pub build_storage-last_class :
      (before : List Service) (service : Service) (after : List Service) (first : List Storage)
      (last : Storage) (others : List Storage) (ds : DeployableStorage) (claim : Claim)
      → service.storage ≡ first ++ last ∷ others
      → is_claimable last.type ≡ true
      → All IsPassedOver others
      → All (λ s. All IsPassedOver s.storage) after
      → class_when_created (build_services platform meta (before ++ service ∷ after) ds) claim
        ≡ class_of platform meta service last
  unfolding class_when_created
  build_storage-last_class before service after first last others ds claim parts ok passed silent =
      deref-class (build_services platform meta (before ++ service ∷ after) ds)
        claim.storage_class_name
      ∙ build_services-class before service after first last others ds parts ok passed silent
