-- ===== src/Deployables/Exclusive.antt =====
-- pkg/kubernetes/kubernetes_ingress.go and kubernetes_loadbalancer.go: a public rule opens a port of
-- a service with an ingress or with a load balancer.
use deployment_manager.Common.{
  List-cases, ℕ, ◌≡◌, refl, ◌∙◌, ◌↔◌, ◌⊎◌, ◌≢◌, inl, inr, Bool, true, false, Bool-cases, ◌||◌,
  Option, none, some, List, [], ◌∷◌, String, arith, if◌then◌else◌, ◌==◌, Option-cases,
}
use deployment_manager.Deployables.{EndpointKind, Endpoint, Port, Service, PublicRule, Metadata}
use deployment_manager.Deployables.Endpoints.{
  is_web, find_web, find_endpoint, find_bare, Ingress, LoadBalancer, build_ingress,
  build_load_balancer,
}

-- a port of the number
abbrev pub exposes : ℕ → List Port → Bool
exposes target [] = false
exposes target (port ∷ rest) = (port.exposed_port == target) || exposes target rest

-- the ports have different numbers
abbrev pub DifferentPorts : List Port → Type 0
DifferentPorts [] = Unit
DifferentPorts (port ∷ rest) = (exposes port.exposed_port rest ≡ false) × DifferentPorts rest

-- the port of the number
abbrev pub port_at : ℕ → List Port → Option Port
port_at target [] = none
port_at target (port ∷ rest) =
    if port.exposed_port == target then some port else port_at target rest

find_endpoint_absent :
    (target : ℕ) (ports : List Port)
    → exposes target ports ≡ false
    → find_endpoint target ports ≡ none
unfolding find_endpoint
find_endpoint_absent target [] h = refl
find_endpoint_absent target (port ∷ rest) h = ground (arith, find_endpoint_absent target rest)

find_bare_absent :
    (target : ℕ) (ports : List Port) → exposes target ports ≡ false → find_bare target ports ≡ none
unfolding find_bare
find_bare_absent target [] h = refl
find_bare_absent target (port ∷ rest) h = ground (arith, find_bare_absent target rest)

find_endpoint-port_at :
    (target : ℕ) (ports : List Port)
    → DifferentPorts ports
    → find_endpoint target ports ≡ elim (port_at target ports) as (λ _. Option Endpoint) [
      | none ↦ none
      | some port ↦ find_web port.endpoints
    ]
unfolding find_endpoint
find_endpoint-port_at target [] d = refl
find_endpoint-port_at target (port ∷ rest) d =
    ground (arith, find_endpoint-port_at target rest d.1, find_endpoint_absent target rest)

find_bare-port_at :
    (target : ℕ) (ports : List Port)
    → DifferentPorts ports
    → find_bare target ports ≡ elim (port_at target ports) as (λ _. Option Port) [
      | none ↦ none
      | some port ↦ elim port.endpoints as (λ _. Option Port) [
        | [] ↦ some port
        | endpoint ∷ more ↦ none
      ]
    ]
unfolding find_bare
find_bare-port_at target [] d = refl
find_bare-port_at target (port ∷ rest) d =
    ground (arith, find_bare-port_at target rest d.1, find_bare_absent target rest)

-- one of the endpoints is of the kind WEB or REST
abbrev pub HasWeb : List Endpoint → Type 0
HasWeb [] = ⊥
HasWeb (e ∷ rest) = ((e.kind ≡ EndpointKind.web) ⊎ (e.kind ≡ EndpointKind.rest)) ⊎ HasWeb rest

is_web_iff :
    (k : EndpointKind) → (is_web k ≡ true) ↔ ((k ≡ EndpointKind.web) ⊎ (k ≡ EndpointKind.rest))
is_web_iff k = ground arith

find_web-HasWeb : (es : List Endpoint) → (find_web es ≢ none) ↔ HasWeb es
unfolding find_web
find_web-HasWeb [] = (λ h. absurd (h refl), λ h. absurd h)
find_web-HasWeb (e ∷ rest) = elim (Bool-cases (is_web e.kind)) [
  | inl web ↦ (λ h. inl ((is_web_iff e.kind).0 web), λ h. rw (web, find_web) (λ n. ground arith))
  | inr other ↦ (
    λ h. inr ((find_web-HasWeb rest).0 (λ n. h (rw (other, find_web) n))),
    λ h. elim h [
      | inl here ↦ absurd (ground (arith, (is_web_iff e.kind).1 here))
      | inr later ↦ λ n. (find_web-HasWeb rest).1 later (rw (other, find_web) at n)
    ],
  )
]

module _ (to_lower : String → String) (management_host cluster_host : String) (meta : Metadata)
    (service : Service) (rule : PublicRule) where
  abbrev pub ingress : Option Ingress
  ingress = build_ingress management_host cluster_host meta service rule

  abbrev pub load_balancer : Option LoadBalancer
  load_balancer = build_load_balancer to_lower meta service rule

  ingress-none : (find_endpoint rule.target_port service.exposed_ports ≡ none) ↔ (ingress ≡ none)
  unfolding build_ingress
  ingress-none = ground arith

  load_balancer-none :
      (find_bare rule.target_port service.exposed_ports ≡ none) ↔ (load_balancer ≡ none)
  unfolding build_load_balancer
  load_balancer-none = ground arith

  abbrev port_of_rule : Option Port
  port_of_rule = port_at rule.target_port service.exposed_ports

  opened_by :
      DifferentPorts service.exposed_ports
      → ((ingress ≢ none) ↔ (
          (port : Port) × (port_at rule.target_port service.exposed_ports ≡ some port)
          × (find_web port.endpoints ≢ none)))
        × ((load_balancer ≢ none) ↔ (
            (port : Port) × (port_at rule.target_port service.exposed_ports ≡ some port)
            × (port.endpoints ≡ [])))
        × ((ingress ≡ none) ⊎ (load_balancer ≡ none))
  unfolding find_web
  opened_by d = (
    (
      λ some_ingress. elim (Option-cases port_of_rule) [
        | inl missing ↦ absurd (some_ingress (ingress-none.0 (ground (arith, fe))))
        | inr (port, found) ↦
            (port, found, λ bare. some_ingress (ingress-none.0 (ground (arith, fe))))
      ],
      λ (port, found, web) no_ingress. web (ground (arith, fe, ingress-none.1 no_ingress)),
    ),
    (
      λ some_lb. elim (Option-cases port_of_rule) [
        | inl missing ↦ absurd (some_lb (load_balancer-none.0 (ground (arith, fb))))
        | inr (port, found) ↦ (
          port,
          found,
          elim (List-cases port.endpoints) [
            | inl bare ↦ bare
            | inr (e, es, full) ↦ absurd (some_lb (load_balancer-none.0 (ground (arith, fb))))
          ],
        )
      ],
      λ (port, found, bare) no_lb. ground (arith, fb, load_balancer-none.1 no_lb),
    ),
    elim (Option-cases port_of_rule) [
      | inl missing ↦ inl (ingress-none.0 (ground (arith, fe)))
      | inr (port, found) ↦ elim (List-cases port.endpoints) [
        | inl bare ↦ inl (ingress-none.0 (fe ∙ rw (found, bare) refl))
        | inr (e, es, full) ↦ inr (load_balancer-none.0 (ground (arith, fb)))
      ]
    ],
  )
    where
      fe :
          find_endpoint rule.target_port service.exposed_ports
          ≡ elim port_of_rule as (λ _. Option Endpoint) [
            | none ↦ none
            | some port ↦ find_web port.endpoints
          ]
      fe = find_endpoint-port_at rule.target_port service.exposed_ports d

      fb :
          find_bare rule.target_port service.exposed_ports
          ≡ elim port_of_rule as (λ _. Option Port) [
            | none ↦ none
            | some port ↦ elim port.endpoints as (λ _. Option Port) [
              | [] ↦ some port
              | endpoint ∷ more ↦ none
            ]
          ]
      fb = find_bare-port_at rule.target_port service.exposed_ports d

  build_load_balancer_one_name :
      (other : PublicRule) (a b : LoadBalancer)
      → load_balancer ≡ some a
      → build_load_balancer to_lower meta service other ≡ some b
      → a.name ≡ b.name
  unfolding build_load_balancer
  build_load_balancer_one_name other a b ha hb = ground arith

  -- For a service whose ports have different numbers, a public rule gives an ingress exactly when
  -- its port is there with a WEB or REST endpoint, a load balancer exactly when its port is there
  -- without any endpoint, and so never both. Two rules that give a service two load balancers give
  -- them one name, whatever their ports are.
  pub build_ingress-build_load_balancer :
      DifferentPorts service.exposed_ports
      → ((ingress ≢ none) ↔ (
          (port : Port) × (port_at rule.target_port service.exposed_ports ≡ some port)
          × HasWeb port.endpoints))
        × ((load_balancer ≢ none) ↔ (
            (port : Port) × (port_at rule.target_port service.exposed_ports ≡ some port)
            × (port.endpoints ≡ [])))
        × ((ingress ≡ none) ⊎ (load_balancer ≡ none))
        × ((other : PublicRule) (a b : LoadBalancer)
            → load_balancer ≡ some a
            → build_load_balancer to_lower meta service other ≡ some b
            → a.name ≡ b.name)
  build_ingress-build_load_balancer d =
      let (i, l, one) = opened_by d in
      (
        (
          λ opened.
              let (port, found, web) = i.0 opened in
              (port, found, (find_web-HasWeb port.endpoints).0 web),
          λ (port, found, web). i.1 (port, found, (find_web-HasWeb port.endpoints).1 web),
        ),
        l,
        one,
        build_load_balancer_one_name,
      )
