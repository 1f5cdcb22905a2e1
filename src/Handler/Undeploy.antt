-- ===== src/Handler/Undeploy.antt =====
-- pkg/handler/manager.go: Undeploy, UndeployFragment and checkNamespaceToExpireLogs. What the
-- executor answers is a parameter; the calls that reach it are recorded in their order.
use deployment_manager.Common.{
  ◌≡◌, refl, ◌≢◌, Bool, true, false, Option, none, some, List, [], ◌∷◌, String, arith,
  if◌then◌else◌, Map, lookup, insert, map_values, eq_iff, concat, AllEntries, lookup-insert,
  lookup-insert_self,
}
use deployment_manager.Entities.Status.{NalejServiceStatus, FragmentStatus, eq_fragment}
use deployment_manager.Entities.Monitor.{MonitoredServiceEntry, MonitoredAppEntry}
use deployment_manager.Monitored.{
  Entries, Error, get_entry, terminate_service, entry_with_status, set_entry_status, set_app_status,
  get_app_status,
}
use deployment_manager.Handler.Requests.{UndeployRequest, UndeployFragmentRequest}

-- the calls to the executor
pub data Call : Type 0 where
  undeploy_namespace : UndeployRequest → Call
  -- the namespace and the fragment
  undeploy_fragment : String → String → Call

pub record Undeployed : Type 0 where
  pub entries : Entries
  pub error : Error
  pub calls : List Call

-- Undeploy; the goroutine that it starts is `check_namespace_to_expire_logs`
unfoldable pub undeploy : Error → UndeployRequest → Entries → Undeployed
undeploy executor_error request p = record {
  entries = set_app_status request.app_instance_id FragmentStatus.terminating none p;
  error = executor_error;
  calls = undeploy_namespace request ∷ [];
}

-- appStatus == nil, or *appStatus == FRAGMENT_TERMINATING
abbrev pub namespace_goes : Option FragmentStatus → Bool
namespace_goes none = true
namespace_goes (some status) = eq_fragment status FragmentStatus.terminating

-- UndeployFragment
unfoldable pub undeploy_one : Error → UndeployFragmentRequest → Entries → Undeployed
undeploy_one executor_error request p = elim (get_entry request.deployment_fragment_id p) [
  | none ↦ record {
    entries = p;
    error = some (
        concat "deployment fragment "
          (concat request.deployment_fragment_id " was not found to be undeployed"));
    calls = [];
  }
  | some entry ↦
      let q = set_entry_status request.deployment_fragment_id FragmentStatus.terminating none p in
      let first = undeploy_fragment entry.namespace request.deployment_fragment_id in
      let whole = undeploy_namespace (record {
        organization_id = request.organization_id;
        app_instance_id = request.app_instance_id;
      }) in
      record {
        entries = q;
        error = executor_error;
        calls =
            if namespace_goes (get_app_status request.app_instance_id q)
            then first ∷ whole ∷ []
            else first ∷ [];
      }
]

-- What the loop of checkNamespaceToExpireLogs meets: a tick, with the answer of
-- CheckIfNamespaceExists, or the deadline of the context.
pub data ExpireEvent : Type 0 where
  tick : Bool → Error → ExpireEvent
  deadline : ExpireEvent

-- checkNamespaceToExpireLogs: whether the logs were expired when it returns; `none` means that it
-- still waits when the events end. The error of a tick is only logged.
unfoldable pub check_namespace_to_expire_logs : List ExpireEvent → Option Bool
check_namespace_to_expire_logs [] = none
check_namespace_to_expire_logs (deadline ∷ rest) = some false
check_namespace_to_expire_logs (tick exists err ∷ rest) =
    let later = check_namespace_to_expire_logs rest in if exists then later else some true

abbrev pub AllTerminating : MonitoredAppEntry → Type 0
AllTerminating e = AllEntries (λ k s. s.status ≡ NalejServiceStatus.terminating) e.services

AllTerminating-map_values :
    (m : Map MonitoredServiceEntry)
    → AllEntries (λ k s. s.status ≡ NalejServiceStatus.terminating) (map_values terminate_service m)
unfolding map_values
AllTerminating-map_values [] = tt
AllTerminating-map_values ((k, s) ∷ m) = (refl, AllTerminating-map_values m)

module _ (executor_error : Error) (request : UndeployFragmentRequest) (p : Entries) where
  abbrev id : String
  id = request.deployment_fragment_id

  abbrev result : Undeployed
  result = undeploy_one executor_error request p

  -- UndeployFragment fails on a fragment that is not monitored, and then changes and calls
  -- nothing. On a monitored one it returns the executor's error, marks the fragment and all its
  -- services as TERMINATING, leaves the entries of the other fragments alone, and undeploys the
  -- fragment in the namespace that is recorded for it.
  pub undeploy_one-effect :
      (lookup id p ≡ none → (result.error ≢ none) × (result.entries ≡ p) × (result.calls ≡ []))
      × ((e : MonitoredAppEntry)
          → lookup id p ≡ some e
          → (result.error ≡ executor_error)
            × ((t : MonitoredAppEntry) × (lookup id result.entries ≡ some t)
                × (t.status ≡ FragmentStatus.terminating)
                × AllTerminating t)
            × ((j : String) → j ≢ id → lookup j result.entries ≡ lookup j p)
            × ((later : List Call) × (result.calls ≡ undeploy_fragment e.namespace id ∷ later)))
  unfolding undeploy_one get_entry set_entry_status entry_with_status
  undeploy_one-effect = (
    λ missing. rw (missing, undeploy_one) (λ h. ground arith, refl, refl),
    λ e found.
        rw (found, undeploy_one)
          (
            refl,
            (
              entry_with_status FragmentStatus.terminating none e,
              rw (found, set_entry_status) (lookup-insert_self id _ p),
              refl,
              AllTerminating-map_values e.services,
            ),
            λ j ne.
                rw (found, set_entry_status)
                  (ground (
                    arith,
                    lookup-insert id j (entry_with_status FragmentStatus.terminating none e) p,
                    eq_iff id j,
                  )),
            (
              if namespace_goes (
                    get_app_status request.app_instance_id
                      (set_entry_status id FragmentStatus.terminating none p))
                  then undeploy_namespace (record {
                    organization_id = request.organization_id;
                    app_instance_id = request.app_instance_id;
                  })
                    ∷ []
                  else [],
              ground arith,
            ),
          ),
  )

-- If the map yields the fragment first among the fragments of the application, the whole namespace
-- is undeployed, whatever the status of the other fragments is.
pub undeploy_one_first :
    (executor_error : Error) (request : UndeployFragmentRequest) (e : MonitoredAppEntry)
    (rest : Entries)
    → e.app_instance_id ≡ request.app_instance_id
    → (undeploy_one executor_error request ((request.deployment_fragment_id, e) ∷ rest)).calls
      ≡ undeploy_fragment e.namespace request.deployment_fragment_id
        ∷ undeploy_namespace (record {
          organization_id = request.organization_id;
          app_instance_id = request.app_instance_id;
        })
        ∷ []
unfolding undeploy_one get_entry set_entry_status entry_with_status get_app_status lookup insert
undeploy_one_first executor_error request e rest same = ground (
  arith,
  eq_iff request.deployment_fragment_id request.deployment_fragment_id,
  eq_iff e.app_instance_id request.app_instance_id,
)
