-- ===== src/Decorators/Mesh.antt =====
-- pkg/decorators/network/istio/istio_decorator.go: what one step of decorateServices opens.
use deployment_manager.Common.{
  ℕ, ◌≡◌, refl, inl, inr, Bool, true, false, none, some, List, [], ◌∷◌, ◌++◌, String, arith, ==_iff,
  Map, lookup, insert, eq_iff, Bool-cases, Option-cases, lookup-insert,
}
use deployment_manager.Monitored.{Error}
use deployment_manager.Decorators.Istio.{
  Write, create_service, create_virtual, update_virtual, update_service, State, has_port,
  write_services, write_virtual, update_service_ports, update_virtual_service_ports, ensure_service,
  ensure_virtual_service,
}

-- the name has the port
abbrev pub opens : String → ℕ → Map (List ℕ) → Bool
opens name port m = elim (lookup name m) [ none ↦ false | some ports ↦ has_port port ports ]

-- what is open stays open
abbrev pub Keeps : Map (List ℕ) → Map (List ℕ) → Type 0
Keeps m n = (name : String) (port : ℕ) → opens name port m ≡ true → opens name port n ≡ true

has_port-end : (port : ℕ) (ports : List ℕ) → has_port port (ports ++ port ∷ []) ≡ true
has_port-end port [] = ground (arith, ==_iff port port)
has_port-end port (p ∷ ports) = ground (arith, has_port-end port ports)

has_port-append :
    (port new : ℕ) (ports : List ℕ)
    → has_port port ports ≡ true
    → has_port port (ports ++ new ∷ []) ≡ true
has_port-append port new [] h = absurd (ground arith)
has_port-append port new (p ∷ ports) h = ground (arith, has_port-append port new ports)

opens-insert :
    (name : String) (port : ℕ) (ports : List ℕ) (m : Map (List ℕ))
    → has_port port ports ≡ true
    → opens name port (insert name ports m) ≡ true
opens-insert name port ports m h = ground (arith, lookup-insert name name ports m, eq_iff name name)

opens_of :
    (name : String) (port : ℕ) (ports : List ℕ) (m : Map (List ℕ))
    → lookup name m ≡ some ports
    → has_port port ports ≡ true
    → opens name port m ≡ true
opens_of name port ports m found has = ground arith

-- a write of more ports
Keeps-insert :
    (name : String) (ports : List ℕ) (m : Map (List ℕ))
    → ((port : ℕ) → opens name port m ≡ true → has_port port ports ≡ true)
    → Keeps m (insert name ports m)
Keeps-insert name ports m more other port h =
    ground (arith, lookup-insert name other ports m, eq_iff name other, more port)

abbrev pub services_of {ℓ} : {W : Type ℓ} → State W → Map (List ℕ)
services_of s = s.mesh.services

abbrev pub virtuals_of {ℓ} : {W : Type ℓ} → State W → Map (List ℕ)
virtuals_of s = s.mesh.virtual_services

module _ {ℓ} {W : Type ℓ} (write : Write → W → Error × W) where
  -- the step opens the port, if it has no error, and closes none
  abbrev pub Opens : String → ℕ → Map (List ℕ) → Error → Map (List ℕ) → Type 0
  Opens name port m err n = (err ≡ none → opens name port n ≡ true) × Keeps m n

  write_services-Opens :
      (w : Write) (name : String) (port : ℕ) (ports : List ℕ) (s : State W)
      → has_port port ports ≡ true
      → ((p : ℕ) → opens name p (services_of s) ≡ true → has_port p ports ≡ true)
      → let r = write_services write w name ports s in
        Opens name port (services_of s) r.0 (services_of r.1) × (virtuals_of r.1 ≡ virtuals_of s)
  unfolding write_services
  write_services-Opens w name port ports s has more = elim (Option-cases (write w s.world).0) [
    | inr (text, refused) ↦
        rw (refused, write_services) ((λ fine. absurd (ground arith), λ n p h. h), refl)
    | inl fine ↦
        rw (fine, write_services)
          (
            (
              λ done. opens-insert name port ports (services_of s) has,
              Keeps-insert name ports (services_of s) more,
            ),
            refl,
          )
  ]

  write_virtual-Opens :
      (w : Write) (name : String) (port : ℕ) (ports : List ℕ) (s : State W)
      → has_port port ports ≡ true
      → ((p : ℕ) → opens name p (virtuals_of s) ≡ true → has_port p ports ≡ true)
      → let r = write_virtual write w name ports s in
        Opens name port (virtuals_of s) r.0 (virtuals_of r.1) × (services_of r.1 ≡ services_of s)
  unfolding write_virtual
  write_virtual-Opens w name port ports s has more = elim (Option-cases (write w s.world).0) [
    | inr (text, refused) ↦
        rw (refused, write_virtual) ((λ fine. absurd (ground arith), λ n p h. h), refl)
    | inl fine ↦
        rw (fine, write_virtual)
          (
            (
              λ done. opens-insert name port ports (virtuals_of s) has,
              Keeps-insert name ports (virtuals_of s) more,
            ),
            refl,
          )
  ]

  pub ensure_virtual_service-Opens :
      (name : String) (port : ℕ) (s : State W)
      → let r = ensure_virtual_service write name port s in
        Opens name port (virtuals_of s) r.0 (virtuals_of r.1) × (services_of r.1 ≡ services_of s)
  unfolding ensure_virtual_service update_virtual_service_ports
  ensure_virtual_service-Opens name port s = elim (Option-cases (lookup name (virtuals_of s))) [
    | inl missing ↦
        rw (missing, ensure_virtual_service)
          (write_virtual-Opens (create_virtual name (port ∷ [])) name port (port ∷ []) s
            (ground (arith, ==_iff port port)) (λ p h. absurd (ground arith)))
    | inr (ports, found) ↦ elim (Bool-cases (has_port port ports)) [
      | inl there ↦
          rw (found, there, ensure_virtual_service)
            ((λ fine. opens_of name port ports (virtuals_of s) found there, λ n p h. h), refl)
      | inr closed ↦
          let more = ports ++ port ∷ [] in
          rw (found, closed, ensure_virtual_service)
            (write_virtual-Opens (update_virtual name more) name port more s
              (has_port-end port ports) (λ p h. has_port-append p port ports (ground arith)))
    ]
  ]

  pub ensure_service-Opens :
      (name : String) (port : ℕ) (s : State W)
      → let r = ensure_service write name port s in
        ((((n : String) (ps : List ℕ) (w : W) → (write (create_service n ps) w).0 ≡ none)
            → r.0 ≡ none
            → opens name port (services_of r.1) ≡ true)
          × Keeps (services_of s) (services_of r.1))
        × (virtuals_of r.1 ≡ virtuals_of s)
  unfolding ensure_service update_service_ports
  ensure_service-Opens name port s = elim (Option-cases (lookup name (services_of s))) [
    | inl missing ↦
        let new = create_service name (port ∷ []) in
        let (wrote, same) =
          write_services-Opens new name port (port ∷ []) s (ground (arith, ==_iff port port))
            (λ p h. absurd (ground arith)) in
        rw (missing, ensure_service)
          (
            (
              λ allowed fine. wrote.0 (rw (allowed name (port ∷ []) s.world, write_services) refl),
              wrote.1,
            ),
            same,
          )
    | inr (ports, found) ↦ elim (Bool-cases (has_port port ports)) [
      | inl there ↦
          rw (found, there, ensure_service)
            (
              (λ allowed fine. opens_of name port ports (services_of s) found there, λ n p h. h),
              refl,
            )
      | inr closed ↦
          let more = ports ++ port ∷ [] in
          let (wrote, same) =
            write_services-Opens (update_service name more) name port more s
              (has_port-end port ports) (λ p h. has_port-append p port ports (ground arith)) in
          rw (found, closed, ensure_service) ((λ allowed fine. wrote.0 fine, wrote.1), same)
    ]
  ]
