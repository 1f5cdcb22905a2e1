-- ===== src/Deployables/Claims.antt =====
-- pkg/kubernetes/kubernetes_storages.go and kubernetes_deployment.go: the claims that are created and
-- the claims that the volumes of the pods name.
use deployment_manager.Common.{
  ◌≢◌, ◌∙◌, ◌++◌, sym, ap, subst, none, some, lookup, lookup-insert, lookup-insert_self, eq_iff,
  List-cases, ℕ, suc, ◌≡◌, refl, ◌⊎◌, inl, inr, Bool, true, false, List, [], ◌∷◌, String, All,
  arith, map, Bool-cases,
}
use deployment_manager.Handler.Requests.{is_blank}
use deployment_manager.Deployables.{StorageType, Storage, Service, Metadata}
use deployment_manager.Deployables.Storages.{
  Platform, Claim, DeployableStorage, build_services, is_claimable, class_of, build_claims,
  build_storage_for_services, generate_pvc, pvc_id,
}
use deployment_manager.Deployables.Volumes.{claim, Volume, storage_volume, storage_volumes}

-- the first list is the second without some of its elements
abbrev pub IsPart : List String → List String → Type 0
IsPart [] ys = Unit
IsPart (x ∷ xs) [] = ⊥
IsPart (x ∷ xs) (y ∷ ys) = ((x ≡ y) × IsPart xs ys) ⊎ IsPart (x ∷ xs) ys

IsPart-skip : (xs ys : List String) (y : String) → IsPart xs ys → IsPart xs (y ∷ ys)
IsPart-skip [] ys y h = tt
IsPart-skip (x ∷ xs) ys y h = inr h

abbrev pub claims_of : List Volume → List String
claims_of [] = []
claims_of (v ∷ rest) = elim v.source [ claim name ↦ name ∷ claims_of rest | _ ↦ claims_of rest ]

abbrev pub names_of : List Claim → List String
names_of = map (λ c. c.name)

abbrev is_temporary : StorageType → Bool
is_temporary StorageType.ephemeral = true
is_temporary _ = false

kind : (t : StorageType) → (t ≡ StorageType.ephemeral) ⊎ (is_temporary t ≡ false)
kind StorageType.ephemeral = inl refl
kind _ = inr refl

claims_of-claim :
    (service : Service) (index : ℕ) (s : Storage) (rest : List Storage)
    → is_temporary s.type ≡ false
    → claims_of (storage_volumes service index (s ∷ rest)).0
      ≡ pvc_id service index ∷ claims_of (storage_volumes service (suc index) rest).0
unfolding storage_volumes storage_volume
claims_of-claim service index s rest named = ground arith

module _ (platform : Platform) (meta : Metadata) (service : Service) where
  -- the storage needs no claim, or the platform has a class for it
  abbrev pub IsProvided : Storage → Type 0
  IsProvided storage =
      (storage.type ≡ StorageType.ephemeral)
      ⊎ ((is_claimable storage.type ≡ true)
          × (is_blank (class_of platform meta service storage) ≡ false))

  build_claims-IsPart :
      (index : ℕ) (storage : List Storage) (class : String)
      → IsPart
          (names_of (build_claims platform meta service index storage class).1)
          (claims_of (storage_volumes service index storage).0)
  unfolding build_claims generate_pvc storage_volumes storage_volume
  build_claims-IsPart index [] class = tt
  build_claims-IsPart index (s ∷ rest) class = elim (kind s.type) [
    | inl temporary ↦ rw temporary (build_claims-IsPart (suc index) rest class)
    | inr named ↦
        let new = class_of platform meta service s in
        let later = build_claims-IsPart (suc index) rest new in
        let passed = build_claims-IsPart (suc index) rest class in
        rw (claims_of-claim service index s rest named) (elim (Bool-cases (is_claimable s.type)) [
          | inr other ↦
              rw (other, build_claims)
                (IsPart-skip
                  (names_of (build_claims platform meta service (suc index) rest class).1) _ _
                  passed)
          | inl claimable ↦ elim (Bool-cases (is_blank new)) [
            | inl unknown ↦
                rw (claimable, unknown, build_claims)
                  (IsPart-skip
                    (names_of (build_claims platform meta service (suc index) rest new).1) _ _
                    later)
            | inr known ↦ rw (claimable, known, build_claims) (inl (refl, later))
          ]
        ])
  ]

  build_claims-eq :
      (index : ℕ) (storage : List Storage) (class : String)
      → All IsProvided storage
      → names_of (build_claims platform meta service index storage class).1
        ≡ claims_of (storage_volumes service index storage).0
  unfolding build_claims generate_pvc storage_volumes storage_volume
  build_claims-eq index [] class a = refl
  build_claims-eq index (s ∷ rest) class (inl temporary, a) =
      rw temporary (build_claims-eq (suc index) rest class a)
  build_claims-eq index (s ∷ rest) class (inr (claimable, classed), a) =
      ground (arith, build_claims-eq (suc index) rest (class_of platform meta service s) a)

unfoldable pub claims_for : String → DeployableStorage → List Claim
claims_for service_id ds = elim (lookup service_id ds.pvcs) [ none ↦ [] | some claims ↦ claims ]

module _ (platform : Platform) (meta : Metadata) where
  -- a service with another id leaves the claims alone
  build_services-other :
      (id : String) (services : List Service) (ds : DeployableStorage)
      → All (λ s. s.service_id ≢ id) services
      → lookup id (build_services platform meta services ds).pvcs ≡ lookup id ds.pvcs
  unfolding build_services build_storage_for_services
  build_services-other id [] ds others = refl
  build_services-other id (service ∷ rest) ds (differs, others) =
      build_services-other id rest _ others
      ∙ (elim (List-cases (build_storage_for_services platform meta service ds.class).1) [
        | inl nothing ↦ rw nothing refl
        | inr (first_claim, more, some_claims) ↦ rw some_claims (
            ground (
              arith,
              lookup-insert service.service_id id (first_claim ∷ more) ds.pvcs,
              eq_iff service.service_id id,
            ))
      ])

  -- the claims that are there for a service of its own id
  build_services-own :
      (before : List Service) (service : Service) (after : List Service) (ds : DeployableStorage)
      → All (λ s. s.service_id ≢ service.service_id) before
      → All (λ s. s.service_id ≢ service.service_id) after
      → lookup service.service_id ds.pvcs ≡ none
      → (class : String) × (claims_for service.service_id
            (build_services platform meta (before ++ service ∷ after) ds)
          ≡ (build_storage_for_services platform meta service class).1)
  unfolding build_services build_storage_for_services claims_for
  build_services-own [] service after ds first last fresh = (
    ds.class,
    ap (λ o. elim o as (λ _. List Claim) [ none ↦ [] | some claims ↦ claims ])
          (build_services-other service.service_id after _ last)
        ∙ (elim (List-cases (build_storage_for_services platform meta service ds.class).1) [
          | inl nothing ↦ rw (nothing, fresh) refl
          | inr (first_claim, more, some_claims) ↦
              rw (some_claims, lookup-insert_self service.service_id (first_claim ∷ more) ds.pvcs)
                refl
        ]),
  )
  build_services-own (other ∷ before) service after ds (differs, first) last fresh =
      build_services-own before service after _ first last
        (elim (List-cases (build_storage_for_services platform meta other ds.class).1) [
          | inl nothing ↦ rw nothing fresh
          | inr (first_claim, more, some_claims) ↦ rw some_claims (
              ground (
                arith,
                lookup-insert other.service_id service.service_id (first_claim ∷ more) ds.pvcs,
                eq_iff other.service_id service.service_id,
              ))
        ])

  -- When no other service of the stage has the id of a service, the claims that Build leaves for it
  -- are ones that the volumes of its pods name, in their order. If moreover the platform has a class
  -- for every storage of the service that is not ephemeral, they are all the claims that these
  -- volumes name.
  pub build_services-claims :
      (before : List Service) (service : Service) (after : List Service) (ds : DeployableStorage)
      → All (λ s. s.service_id ≢ service.service_id) before
      → All (λ s. s.service_id ≢ service.service_id) after
      → lookup service.service_id ds.pvcs ≡ none
      → let created = names_of (
          claims_for service.service_id
            (build_services platform meta (before ++ service ∷ after) ds)) in
        let named = claims_of (storage_volumes service 0 service.storage).0 in
        IsPart created named
        × (All (IsProvided platform meta service) service.storage → created ≡ named)
  unfolding build_storage_for_services
  build_services-claims before service after ds first last fresh =
      let (class, same) = build_services-own before service after ds first last fresh in
      let named = claims_of (storage_volumes service 0 service.storage).0 in
      (
        subst (λ claims. IsPart (names_of claims) named) (sym same)
            (build_claims-IsPart platform meta service 0 service.storage class),
        λ provided.
            ap names_of same
            ∙ build_claims-eq platform meta service 0 service.storage class provided,
      )
