-- ===== src/Monitored/ServiceInvariant.antt =====
-- The invariant of a monitored service (internal/entities/monitor.go), and what keeps it.
use deployment_manager.Common.{
  lookup-insert_self, ℕ, ◌+◌, ◌≡◌, refl, ap, ◌∙◌, inl, inr, Bool, true, false, some, List, String,
  arith, if◌then◌else◌, pos, lookup, insert, total, eq_iff, AllEntries, Distinct, Bool-cases,
  Option-cases, has_key-lookup, has_key-lookup-none, lookup-insert, Distinct-insert, total-insert,
  total-insert_new, AllEntries-lookup, AllEntries-insert, inc-pos, dec-pos_of_eq,
}
use deployment_manager.Entities.Status.{NalejServiceStatus, eq_service}
use deployment_manager.Entities.Monitor.{
  EndpointInstance, MonitoredPlatformResource, MonitoredServiceEntry, add_pending, remove_pending,
}
use deployment_manager.Monitored.ResourceStatus.{
  write_resource, settle_resource, refresh_service, service_after,
}

abbrev pub is_running : NalejServiceStatus → Bool
is_running s = eq_service s NalejServiceStatus.running

-- a resource that is not running is one pending check
abbrev pub pending_check : MonitoredPlatformResource → ℕ
pending_check r = if is_running r.status then 0 else 1

abbrev pub HasUid : String → MonitoredPlatformResource → Type 0
HasUid k r = r.uid ≡ k

-- Resources stand under their uids, each once, and the counter is the number of resources that
-- are not running.
pub record IsValidService (s : MonitoredServiceEntry) : Type 0 where
  pub uids : AllEntries HasUid s.resources
  pub distinct : Distinct s.resources
  pub counted : s.num_pending_checks ≡ pos (total pending_check s.resources)

pub add_pending-IsValidService :
    (s : MonitoredServiceEntry) (r : MonitoredPlatformResource)
    → is_running r.status ≡ false
    → IsValidService s
    → IsValidService (add_pending s r)
unfolding add_pending
add_pending-IsValidService s r idle v = elim (Option-cases (lookup r.uid s.resources)) [
  | inl new ↦ rw (has_key-lookup-none r.uid s.resources new) (record {
    uids = AllEntries-insert HasUid r.uid (record r { pending = true }) s.resources v.uids refl;
    distinct = Distinct-insert r.uid (record r { pending = true }) s.resources v.distinct;
    counted =
        rw (v.counted, inc-pos)
          (ap pos (
            ground (
              arith,
              total-insert_new pending_check r.uid (record r { pending = true }) s.resources,
            )));
  })
  | inr (old, e) ↦ rw (has_key-lookup r.uid s.resources old e) v
]

-- the counter is one too high, and the resource that is taken off it runs
remove_pending-IsValidService :
    (t : MonitoredServiceEntry) (uid : String) (x : MonitoredPlatformResource)
    → AllEntries HasUid t.resources
    → Distinct t.resources
    → lookup uid t.resources ≡ some x
    → x.uid ≡ uid
    → is_running x.status ≡ true
    → t.num_pending_checks ≡ pos (total pending_check t.resources + 1)
    → IsValidService (remove_pending t uid)
unfolding remove_pending
remove_pending-IsValidService t uid x uids distinct e same run counted =
    rw (e, remove_pending)
      (record {
        uids = AllEntries-insert HasUid uid (record x { pending = false }) t.resources uids same;
        distinct = Distinct-insert uid (record x { pending = false }) t.resources distinct;
        counted = rw counted (
            dec-pos_of_eq (total pending_check t.resources + 1)
              (total pending_check (insert uid (record x { pending = false }) t.resources))
              (ground (
                arith,
                total-insert pending_check uid (record x { pending = false }) x t.resources e,
              )));
      })

module _ (s : MonitoredServiceEntry) (r : MonitoredPlatformResource) (uid : String)
    (status : NalejServiceStatus) (info : String) (endpoints : List EndpointInstance)
    (found : lookup uid s.resources ≡ some r) (changed : eq_service r.status status ≡ false)
    (v : IsValidService s) where
  abbrev written : MonitoredPlatformResource
  written = record r { status = status; info = info }

  written-uids : AllEntries HasUid (insert uid written s.resources)
  written-uids =
      AllEntries-insert HasUid uid written s.resources v.uids
        (AllEntries-lookup HasUid uid r s.resources v.uids found)

  -- the counter after the write, before it is settled
  write_resource-counted :
      (write_resource r uid status info endpoints s).num_pending_checks
      ≡ pos (
          total pending_check (insert uid written s.resources)
          + (if is_running status then 1 else 0))
  unfolding write_resource
  write_resource-counted = ground (
    arith,
    v.counted,
    inc-pos (total pending_check s.resources),
    total-insert pending_check uid written r s.resources found,
  )

  lookup-written : lookup r.uid (insert uid written s.resources) ≡ some written
  lookup-written =
      let same : r.uid ≡ uid = AllEntries-lookup HasUid uid r s.resources v.uids found in
      ground (arith, lookup-insert uid r.uid written s.resources, eq_iff uid r.uid)

  settled-IsValidService :
      IsValidService (settle_resource r.uid status (write_resource r uid status info endpoints s))
  unfolding settle_resource write_resource
  settled-IsValidService = elim (Bool-cases (is_running status)) [
    | inl run ↦ rw run (
        remove_pending-IsValidService (write_resource r uid status info endpoints s) r.uid written
          written-uids (Distinct-insert uid written s.resources v.distinct) lookup-written refl run
          (write_resource-counted ∙ rw run refl))
    | inr idle ↦ rw idle (record {
      uids = written-uids;
      distinct = Distinct-insert uid written s.resources v.distinct;
      counted = write_resource-counted ∙ ap pos (ground arith);
    })
  ]

  pub service_after-IsValidService : IsValidService (service_after r uid status info endpoints s)
  unfolding service_after refresh_service
  service_after-IsValidService =
      let w = settled-IsValidService in
      record { uids = w.uids; distinct = w.distinct; counted = w.counted }

  -- what becomes of the resource: it is no longer pending once it runs
  abbrev pub resource_after : MonitoredPlatformResource
  resource_after = record r {
    status = status;
    info = info;
    pending = if is_running status then false else r.pending;
  }

  pub service_after-lookup :
      lookup uid (service_after r uid status info endpoints s).resources ≡ some resource_after
  unfolding service_after refresh_service settle_resource write_resource remove_pending lookup
  service_after-lookup = elim (Bool-cases (is_running status)) [
    | inl run ↦ rw run (
        rw (lookup-written, remove_pending)
          (ground (
            arith,
            lookup-insert r.uid uid (record written { pending = false })
                (insert uid written s.resources),
            eq_iff r.uid uid,
            AllEntries-lookup HasUid uid r s.resources v.uids found,
          )))
    | inr idle ↦ rw idle (ground (arith, lookup-insert_self uid written s.resources))
  ]
