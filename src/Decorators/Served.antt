-- ===== src/Decorators/Served.antt =====
-- pkg/decorators/network/istio/istio_decorator.go: what decorateServices sees to.
use deployment_manager.Common.{
  ℕ, ◌≡◌, refl, sym, subst, inl, inr, true, false, none, List, [], ◌∷◌, String, All, arith, Map,
  Bool-cases, Option-cases,
}
use deployment_manager.Monitored.{Error}
use deployment_manager.Names.{format_name}
use deployment_manager.Decorators.Istio.{
  Rule, Write, create_service, State, is_deployed, ensure_service, ensure_virtual_service,
  decorate_services,
}
use deployment_manager.Decorators.Mesh.{
  opens, Keeps, services_of, virtuals_of, ensure_service-Opens, ensure_virtual_service-Opens,
}

module _ {ℓ} {W : Type ℓ} (write : Write → W → Error × W) (to_lower : String → String)
    (deployed : List String) where
  -- the rule asks for a service that the stage does not deploy, and it has its port
  abbrev pub IsServed : Map (List ℕ) → Rule → Type 0
  IsServed m rule =
      is_deployed rule.service_name deployed ≡ false
      → opens (format_name to_lower rule.service_name) rule.target_port m ≡ true

  -- what a run of the loop from a state has seen to, for its rules
  abbrev Serves : List Rule → State W → Error × State W → Type ℓ
  Serves rules s r =
      r.0 ≡ none
      → Keeps (services_of s) (services_of r.1)
        × Keeps (virtuals_of s) (virtuals_of r.1)
        × All (IsServed (virtuals_of r.1)) rules
        × (((n : String) (ps : List ℕ) (w : W) → (write (create_service n ps) w).0 ≡ none)
            → All (IsServed (services_of r.1)) rules)

  own_run :
      (rule : Rule) (rest : List Rule) (s : State W)
      → is_deployed rule.service_name deployed ≡ true
      → decorate_services write to_lower deployed (rule ∷ rest) s
        ≡ decorate_services write to_lower deployed rest s
  unfolding decorate_services
  own_run rule rest s own = rw (own, decorate_services) refl

  next_run :
      (rule : Rule) (rest : List Rule) (s : State W)
      → let name = format_name to_lower rule.service_name in
        let first = ensure_service write name rule.target_port s in
        let second = ensure_virtual_service write name rule.target_port first.1 in
        is_deployed rule.service_name deployed ≡ false
        → first.0 ≡ none
        → second.0 ≡ none
        → decorate_services write to_lower deployed (rule ∷ rest) s
          ≡ decorate_services write to_lower deployed rest second.1
  unfolding decorate_services
  next_run rule rest s other fine fine' = rw (other, fine, fine', decorate_services) refl

  Serves-next :
      (rule : Rule) (rest : List Rule) (s : State W) (r : Error × State W)
      → let name = format_name to_lower rule.service_name in
        let first = ensure_service write name rule.target_port s in
        let second = ensure_virtual_service write name rule.target_port first.1 in
        first.0 ≡ none → second.0 ≡ none → Serves rest second.1 r → Serves (rule ∷ rest) s r
  Serves-next rule rest s r fine fine' later done =
      let name = format_name to_lower rule.service_name in
      let port = rule.target_port in
      let ((opened, kept), same) = ensure_service-Opens write name port s in
      let ((opened', kept'), same') =
        ensure_virtual_service-Opens write name port (ensure_service write name port s).1 in
      let (ks, kv, virtual, served) = later done in
      (
        λ n p h. ks n p (subst (λ m. opens n p m ≡ true) (sym same') (kept n p h)),
        λ n p h. kv n p (kept' n p (subst (λ m. opens n p m ≡ true) (sym same) h)),
        (λ mine. kv name port (opened' fine'), virtual),
        λ allowed. (
          λ mine.
              ks name port
                (subst (λ m. opens name port m ≡ true) (sym same') (opened allowed fine)),
          served allowed,
        ),
      )

  Serves-own :
      (rule : Rule) (rest : List Rule) (s : State W) (r : Error × State W)
      → is_deployed rule.service_name deployed ≡ true
      → Serves rest s r
      → Serves (rule ∷ rest) s r
  Serves-own rule rest s r own later done =
      let (ks, kv, virtual, served) = later done in
      (
        ks,
        kv,
        (λ mine. absurd (ground arith), virtual),
        λ allowed. (λ mine. absurd (ground arith), served allowed),
      )

  decorate_services-Serves :
      (rules : List Rule) (s : State W)
      → Serves rules s (decorate_services write to_lower deployed rules s)
  unfolding decorate_services
  decorate_services-Serves [] s = λ done. (λ n p h. h, λ n p h. h, tt, λ allowed. tt)
  decorate_services-Serves (rule ∷ rest) s =
      let name = format_name to_lower rule.service_name in
      let first = ensure_service write name rule.target_port s in
      let second = ensure_virtual_service write name rule.target_port first.1 in
      elim (Bool-cases (is_deployed rule.service_name deployed)) [
        | inl own ↦ subst (Serves (rule ∷ rest) s) (sym (own_run rule rest s own)) (
            Serves-own rule rest s (decorate_services write to_lower deployed rest s) own
              (decorate_services-Serves rest s))
        | inr other ↦ elim (Option-cases first.0) [
          | inr (text, failed) ↦ λ done. absurd (ground arith)
          | inl fine ↦ elim (Option-cases second.0) [
            | inr (text, failed) ↦ λ done. absurd (ground arith)
            | inl fine' ↦
                subst (Serves (rule ∷ rest) s) (sym (next_run rule rest s other fine fine')) (
                  Serves-next rule rest s (decorate_services write to_lower deployed rest second.1)
                    fine fine' (decorate_services-Serves rest second.1))
          ]
        ]
      ]

  -- When decorateServices returns no error, every public rule of a service that the stage does
  -- not deploy has its port in a virtual service, and, if the creation of services is never
  -- refused, in a service; no port that was there is closed.
  pub decorate_services-IsServed :
      (rules : List Rule) (s : State W)
      → let r = decorate_services write to_lower deployed rules s in
        r.0 ≡ none
        → Keeps (services_of s) (services_of r.1)
          × Keeps (virtuals_of s) (virtuals_of r.1)
          × All (IsServed (virtuals_of r.1)) rules
          × (((n : String) (ps : List ℕ) (w : W) → (write (create_service n ps) w).0 ≡ none)
              → All (IsServed (services_of r.1)) rules)
  decorate_services-IsServed rules s done = decorate_services-Serves rules s done
