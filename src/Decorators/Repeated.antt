-- ===== src/Decorators/Repeated.antt =====
-- pkg/decorators/network/zerotier/zerotier_decorator.go: what the decorator leaves when it runs again
-- on the same deployments, as Build and Deploy of pkg/kubernetes/kubernetes_deployment.go have it do.
use deployment_manager.Common.{
  elim_some, ℕ, zero, suc, ◌≤◌, ◌≡◌, refl, sym, ap, ◌∙◌, Option, none, some, List, [], ◌++◌, String,
  All, arith, length,
}
use mathlib.Core.List.{append_assoc, append-nil}
use deployment_manager.Deployables.{Service, Metadata}
use deployment_manager.Decorators.ZeroTier.{
  Settings, PodDeployment, create_sidecars, create_inbounds, build,
}
use deployment_manager.Decorators.Agents.{
  names_of, HasFqdn, inbound_names, create_sidecars-names, create_inbounds-names,
}

abbrev pub repeated : ℕ → List String → List String
repeated zero names = []
repeated (suc n) names = names ++ repeated n names

module _ (to_lower : String → String) (settings : Settings) (meta : Metadata) where
  -- the Build of the decorator, a number of times
  unfoldable pub builds : ℕ → List Service → List PodDeployment → Option (List PodDeployment)
  unfolding build
  builds zero services deps = some deps
  builds (suc n) services deps = elim (build to_lower settings meta services deps) [
    | none ↦ none
    | some decorated ↦ builds n services decorated
  ]

  build-names :
      (services : List Service) (deps : List PodDeployment)
      → All HasFqdn services
      → length services ≤ length deps
      → (decorated : List PodDeployment) × (build to_lower settings meta services deps
          ≡ some decorated)
        × (names_of decorated ≡ names_of deps ++ inbound_names to_lower settings meta services)
        × (length deps ≤ length decorated)
  unfolding build
  build-names services deps named enough =
      let (beside, made, same, long) =
        create_sidecars-names to_lower settings meta services deps named enough in
      let (decorated, added, names, longer) =
        create_inbounds-names to_lower settings meta services beside named in
      (
        decorated,
        elim_some (create_sidecars to_lower settings meta services deps) beside none
              (create_inbounds to_lower settings meta services) made
            ∙ added,
        names ∙ ap (λ front. front ++ inbound_names to_lower settings meta services) same,
        omega (arith, long, longer),
      )

  -- When every service of the stage has a deployment and ids of at least ten bytes, any number of runs
  -- of the decorator ends without a panic. The names of the deployments are then those that they
  -- were, followed, once for every run, by the name of the inbound of each service with ports.
  pub builds-names :
      (n : ℕ) (services : List Service) (deps : List PodDeployment)
      → All HasFqdn services
      → length services ≤ length deps
      → (decorated : List PodDeployment) × (builds n services deps ≡ some decorated)
        × (names_of decorated
            ≡ names_of deps ++ repeated n (inbound_names to_lower settings meta services))
  unfolding builds
  builds-names zero services deps named enough = (deps, refl, sym (append-nil (names_of deps)))
  builds-names (suc n) services deps named enough =
      let (once, made, same, long) = build-names services deps named enough in
      let (decorated, more, names) = builds-names n services once named (omega arith) in
      (
        decorated,
        elim_some (build to_lower settings meta services deps) once none (builds n services) made
            ∙ more,
        names
            ∙ ap (λ front. front ++ repeated n (inbound_names to_lower settings meta services)) same
            ∙ append_assoc (names_of deps) (inbound_names to_lower settings meta services)
                (repeated n (inbound_names to_lower settings meta services)),
      )
