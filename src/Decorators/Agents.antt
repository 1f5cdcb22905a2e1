-- ===== src/Decorators/Agents.antt =====
-- pkg/decorators/network/zerotier/zerotier_decorator.go: the names of the deployments that the two
-- loops of the decorator leave.
use Prim.Native.String.{len, slice}
use deployment_manager.Common.{
  elim_some, suc, ◌≤◌, ◌≡◌, refl, sym, ap, ◌∙◌, none, some, List, [], ◌∷◌, ◌++◌, String, All, arith,
  map, length, length-append, cut, Option-cases, List-cases, inl, inr,
}
use mathlib.Core.List.{append_assoc, append-nil}
use deployment_manager.Names.{get_service_fqdn}
use deployment_manager.Deployables.{Port, Service, Metadata}
use deployment_manager.Deployables.Environment.{EnvVar}
use deployment_manager.Decorators.ZeroTier.{
  Settings, PodDeployment, generate_container_vars, add_sidecar, create_sidecars, inbound_name,
  inbound, create_inbounds,
}

abbrev pub names_of : List PodDeployment → List String
names_of = map (λ d. d.name)

-- the ids are long enough for the name of the service on the network
abbrev pub HasFqdn : Service → Type 0
HasFqdn service = (10 ≤ len service.organization_id) × (10 ≤ len service.app_instance_id)

-- a match on a list that an equation gives
elim_cons {ℓ κ} :
    {A : Type ℓ} {B : Type κ} (xs : List A) (x : A) (rest : List A) (blank used : B)
    → xs ≡ x ∷ rest
    → (elim xs as (λ _. B) [ [] ↦ blank | _ ∷ _ ↦ used ]) ≡ used
elim_cons xs x rest blank used h = rw (h) refl

elim_nil {ℓ κ} :
    {A : Type ℓ} {B : Type κ} (xs : List A) (blank used : B)
    → xs ≡ []
    → (elim xs as (λ _. B) [ [] ↦ blank | _ ∷ _ ↦ used ]) ≡ blank
elim_nil xs blank used h = rw (h) refl

cut-some : (s : String) → 10 ≤ len s → (front : String) × (cut 0 10 s ≡ some front)
unfolding cut
cut-some s enough = (slice s 0 10, ground arith)

module _ (to_lower : String → String) (settings : Settings) (meta : Metadata) where
  abbrev pub inbound_names : List Service → List String
  inbound_names [] = []
  inbound_names (service ∷ rest) = elim service.exposed_ports [
    | [] ↦ inbound_names rest
    | _ ∷ _ ↦ inbound_name to_lower settings meta service ∷ inbound_names rest
  ]

  generate_container_vars-some :
      (service : Service) (is_proxy : String)
      → HasFqdn service
      → (vars : List EnvVar) × (generate_container_vars to_lower settings meta service is_proxy
          ≡ some vars)
  unfolding generate_container_vars get_service_fqdn
  generate_container_vars-some service is_proxy (long_org, long_app) =
      let (org, cut_org) = cut-some service.organization_id long_org in
      let (app, cut_app) = cut-some service.app_instance_id long_app in
      elim (Option-cases (generate_container_vars to_lower settings meta service is_proxy)) [
        | inl absent ↦ absurd (ground arith)
        | inr present ↦ present
      ]

  create_sidecars-some :
      (service : Service) (rest : List Service) (dep : PodDeployment)
      (deps more : List PodDeployment) (vars : List EnvVar)
      → generate_container_vars to_lower settings meta service "false" ≡ some vars
      → create_sidecars to_lower settings meta rest deps ≡ some more
      → create_sidecars to_lower settings meta (service ∷ rest) (dep ∷ deps)
        ≡ some (add_sidecar to_lower settings meta service vars dep ∷ more)
  unfolding create_sidecars
  create_sidecars-some service rest dep deps more vars have made =
      elim_some (generate_container_vars to_lower settings meta service "false") vars none
        (λ vars. elim (create_sidecars to_lower settings meta rest deps) [
          | none ↦ none
          | some more ↦ some (add_sidecar to_lower settings meta service vars dep ∷ more)
        ])
        have
      ∙ elim_some (create_sidecars to_lower settings meta rest deps) more none
          (λ more. some (add_sidecar to_lower settings meta service vars dep ∷ more)) made

  pub create_sidecars-names :
      (services : List Service) (deps : List PodDeployment)
      → All HasFqdn services
      → length services ≤ length deps
      → (decorated : List PodDeployment) × (create_sidecars to_lower settings meta services deps
          ≡ some decorated)
        × (names_of decorated ≡ names_of deps)
        × (length decorated ≡ length deps)
  unfolding create_sidecars add_sidecar
  create_sidecars-names [] deps named enough = (deps, refl, refl, refl)
  create_sidecars-names (service ∷ rest) [] named enough = absurd (omega arith)
  create_sidecars-names (service ∷ rest) (dep ∷ deps) (fqdn, named) enough =
      let (vars, have) = generate_container_vars-some service "false" fqdn in
      let (more, made, same, long) = create_sidecars-names rest deps named (omega arith) in
      (
        add_sidecar to_lower settings meta service vars dep ∷ more,
        create_sidecars-some service rest dep deps more vars have made,
        ap (◌∷◌ dep.name) same,
        ap suc long,
      )

  -- the step of the loop for a service with ports, and for one without
  create_inbounds-exposed :
      (service : Service) (rest : List Service) (deps : List PodDeployment) (vars : List EnvVar)
      (port : Port) (ports : List Port)
      → service.exposed_ports ≡ port ∷ ports
      → generate_container_vars to_lower settings meta service "true" ≡ some vars
      → (create_inbounds to_lower settings meta (service ∷ rest) deps
          ≡ create_inbounds to_lower settings meta rest
              (deps ++ inbound to_lower settings meta service vars ∷ []))
        × (inbound_names (service ∷ rest)
            ≡ inbound_name to_lower settings meta service ∷ inbound_names rest)
  unfolding create_inbounds
  create_inbounds-exposed service rest deps vars port ports exposed have = (
    elim_cons service.exposed_ports port ports (create_inbounds to_lower settings meta rest deps)
          (elim (generate_container_vars to_lower settings meta service "true") [
            | none ↦ none
            | some vars ↦
                create_inbounds to_lower settings meta rest
                  (deps ++ inbound to_lower settings meta service vars ∷ [])
          ])
          exposed
        ∙ elim_some (generate_container_vars to_lower settings meta service "true") vars none
            (λ vars.
              create_inbounds to_lower settings meta rest
                (deps ++ inbound to_lower settings meta service vars ∷ []))
            have,
    elim_cons service.exposed_ports port ports (inbound_names rest)
        (inbound_name to_lower settings meta service ∷ inbound_names rest) exposed,
  )

  create_inbounds-closed :
      (service : Service) (rest : List Service) (deps : List PodDeployment)
      → service.exposed_ports ≡ []
      → (create_inbounds to_lower settings meta (service ∷ rest) deps
          ≡ create_inbounds to_lower settings meta rest deps)
        × (inbound_names (service ∷ rest) ≡ inbound_names rest)
  unfolding create_inbounds
  create_inbounds-closed service rest deps closed = (
    elim_nil service.exposed_ports (create_inbounds to_lower settings meta rest deps)
        (elim (generate_container_vars to_lower settings meta service "true") [
          | none ↦ none
          | some vars ↦
              create_inbounds to_lower settings meta rest
                (deps ++ inbound to_lower settings meta service vars ∷ [])
        ])
        closed,
    elim_nil service.exposed_ports (inbound_names rest)
        (inbound_name to_lower settings meta service ∷ inbound_names rest) closed,
  )

  inbound-name :
      (service : Service) (vars : List EnvVar) (deps : List PodDeployment)
      → names_of (deps ++ inbound to_lower settings meta service vars ∷ [])
        ≡ names_of deps ++ inbound_name to_lower settings meta service ∷ []
  unfolding inbound
  inbound-name service vars [] = refl
  inbound-name service vars (dep ∷ deps) = ap (◌∷◌ dep.name) (inbound-name service vars deps)

  pub create_inbounds-names :
      (services : List Service) (deps : List PodDeployment)
      → All HasFqdn services
      → (decorated : List PodDeployment) × (create_inbounds to_lower settings meta services deps
          ≡ some decorated)
        × (names_of decorated ≡ names_of deps ++ inbound_names services)
        × (length deps ≤ length decorated)
  unfolding create_inbounds
  create_inbounds-names [] deps named = (deps, refl, sym (append-nil (names_of deps)), omega arith)
  create_inbounds-names (service ∷ rest) deps (fqdn, named) =
      elim (List-cases service.exposed_ports) [
        | inl closed ↦
            let (decorated, made, same, long) = create_inbounds-names rest deps named in
            let (step, names) = create_inbounds-closed service rest deps closed in
            (decorated, step ∙ made, same ∙ ap (λ x. names_of deps ++ x) (sym names), long)
        | inr (port, ports, exposed) ↦
            let (vars, have) = generate_container_vars-some service "true" fqdn in
            let agent = inbound to_lower settings meta service vars in
            let (decorated, made, same, long) =
              create_inbounds-names rest (deps ++ agent ∷ []) named in
            let (step, names) =
              create_inbounds-exposed service rest deps vars port ports exposed have in
            (
              decorated,
              step ∙ made,
              same
                  ∙ ap (λ x. x ++ inbound_names rest) (inbound-name service vars deps)
                  ∙ append_assoc (names_of deps) (inbound_name to_lower settings meta service ∷ [])
                      (inbound_names rest)
                  ∙ ap (λ x. names_of deps ++ x) (sym names),
              omega (arith, length-append deps (agent ∷ []), long),
            )
      ]
