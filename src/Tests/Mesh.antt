-- ===== src/Tests/Mesh.antt =====
-- The Istio decorator at a concrete input: a mesh with one service, to which a rule adds a port.
use deployment_manager.Common.{
  ℕ, suc, ◌≡◌, refl, none, List, [], ◌∷◌, String, lookup, All, remove_char, keep_where,
}
use deployment_manager.Monitored.{Error}
use deployment_manager.Decorators.Istio.{
  Rule, Write, create_service, State, write_services, write_virtual, update_service_ports,
  update_virtual_service_ports, ensure_service, ensure_virtual_service, decorate_services,
}
use deployment_manager.Names.{format_name}
use deployment_manager.Decorators.Mesh.{Keeps, services_of, virtuals_of}
use deployment_manager.Decorators.Served.{IsServed, decorate_services-IsServed}

abbrev database : Rule
database = record {
  service_name = "db";
  target_service_group_instance_id = "gi";
  target_service_instance_id = "si";
  target_port = 5432;
}

abbrev accept : Write → ℕ → Error × ℕ
accept w n = (none, suc n)

abbrev start : State ℕ
start = record {
  world = 0;
  mesh = record { services = ("db", 80 ∷ []) ∷ []; virtual_services = [] };
}

decorate_services-IsServed_example :
    let r = decorate_services accept (λ s. s) ("web" ∷ []) (database ∷ []) start in
    Keeps (services_of start) (services_of r.1)
    × Keeps (virtuals_of start) (virtuals_of r.1)
    × All (IsServed accept (λ s. s) ("web" ∷ []) (virtuals_of r.1)) (database ∷ [])
    × (((n : String) (ps : List ℕ) (w : ℕ) → (accept (create_service n ps) w).0 ≡ none)
        → All (IsServed accept (λ s. s) ("web" ∷ []) (services_of r.1)) (database ∷ []))
unfolding decorate_services ensure_service ensure_virtual_service update_service_ports
    update_virtual_service_ports write_services write_virtual lookup format_name remove_char
    keep_where
decorate_services-IsServed_example =
    decorate_services-IsServed accept (λ s. s) ("web" ∷ []) (database ∷ []) start refl
