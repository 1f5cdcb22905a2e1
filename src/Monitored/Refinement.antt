-- ===== src/Monitored/Refinement.antt =====
-- internal/structures/monitor/memory_monitored_services.go: the monitor seen as one machine for
-- each fragment. The map disappears: a call acts on what is known of one fragment, and nothing else
-- of the map plays a part in it.
use deployment_manager.Common.{
  ◌≡◌, refl, subst, ◌∙◌, ap, inl, inr, none, some, Option, List, [], ◌∷◌, String, All, arith,
  if◌then◌else◌, pos, lookup, insert, str_eq, eq_iff, Bool-cases, Option-cases, lookup-insert,
  lookup-map_values, eq_ℤ, eq_ℤ_iff,
}
use deployment_manager.Entities.Status.{NalejServiceStatus, FragmentStatus, eq_fragment, eq_service}
use deployment_manager.Entities.Monitor.{
  EndpointInstance, MonitoredPlatformResource, MonitoredAppEntry, append_services, add_pending,
}
use deployment_manager.Monitored.{
  Entries, Error, add_entry, entry_with_status, set_entry_status, app_with_status, set_app_status,
  add_pending_resource,
}
use deployment_manager.Monitored.ResourceStatus.{service_after, refresh_app, set_resource_status}
use deployment_manager.Monitored.Notify.{reset_entry, reset_services_unnotified_status}
use deployment_manager.Monitored.Checks.{count_not_running, update_app_status}
use deployment_manager.Monitored.Invariant.{IsValid}
use deployment_manager.Monitored.Notified.{get_pending_notifications-lookup, lookup-remove_entry}
use deployment_manager.Monitored.Histories.{
  Call, adds_entry, sets_entry_status, sets_app_status, adds_pending_resource, sets_resource_status,
  updates_app_status, notifies, resets, removes_entry, step, run, IsProper, step-IsValid,
}

-- what is known of one fragment
abbrev pub Known : Type 0
Known = Option MonitoredAppEntry

-- a change of the entry, if there is one
unfoldable pub change_entry : (MonitoredAppEntry → MonitoredAppEntry) → Known → Known
change_entry change none = none
change_entry change (some entry) = some (change entry)

-- a change of the fragment `id`, seen from the fragment `own`
unfoldable pub change_at : String → (MonitoredAppEntry → MonitoredAppEntry) → String → Known → Known
unfolding change_entry
change_at id change own known = if str_eq id own then change_entry change known else known

unfoldable pub with_pending : MonitoredPlatformResource → MonitoredAppEntry → MonitoredAppEntry
with_pending r app = elim (lookup r.service_instance_id app.services) [
  | none ↦ app
  | some service ↦ record app {
    services = insert r.service_instance_id (add_pending service r) app.services;
  }
]

unfoldable pub with_resource_status :
    String
    → String
    → NalejServiceStatus
    → String
    → List EndpointInstance
    → MonitoredAppEntry
    → MonitoredAppEntry
with_resource_status service_id uid status info endpoints app =
    elim (lookup service_id app.services) [
      | none ↦ app
      | some service ↦ elim (lookup uid service.resources) [
        | none ↦ app
        | some resource ↦
            if eq_service resource.status status
            then app
            else refresh_app (record app {
              services =
                  insert service_id (service_after resource uid status info endpoints service)
                    app.services;
            })
      ]
    ]

abbrev pub with_count : MonitoredAppEntry → MonitoredAppEntry
with_count app = record app { num_pending_checks = pos (count_not_running app.services 0) }

-- one call, on what is known of the fragment `own`
unfoldable pub fragment_step : Call → String → Known → Known
unfolding change_at with_pending with_resource_status
fragment_step (adds_entry e) own known =
    if str_eq e.fragment_id own
    then some (elim known as (λ _. MonitoredAppEntry) [
      | none ↦ e
      | some current ↦ append_services current e
    ])
    else known
fragment_step (sets_entry_status id status err) own known =
    change_at id (entry_with_status status err) own known
fragment_step (sets_app_status app status err) own known =
    change_entry (app_with_status app status err) known
fragment_step (adds_pending_resource r) own known =
    change_at r.fragment_id (with_pending r) own known
fragment_step (sets_resource_status id service uid status info endpoints) own known =
    change_at id (with_resource_status service uid status info endpoints) own known
fragment_step (updates_app_status id) own known = change_at id with_count own known
fragment_step notifies own known = elim known [
  | none ↦ none
  | some e ↦ if eq_fragment e.status FragmentStatus.terminating then none else some e
]
fragment_step resets own known = change_entry reset_entry known
fragment_step (removes_entry id) own known = if str_eq id own then none else known

unfoldable pub fragment_run : List Call → String → Known → Known
unfolding fragment_step
fragment_run [] own known = known
fragment_run (c ∷ cs) own known = fragment_run cs own (fragment_step c own known)

module _ (id own : String) (change : MonitoredAppEntry → MonitoredAppEntry) (p : Entries) where
  lookup-change_at :
      (e : MonitoredAppEntry)
      → lookup id p ≡ some e
      → lookup own (insert id (change e) p) ≡ change_at id change own (lookup own p)
  unfolding change_at
  lookup-change_at e found = ground (arith, lookup-insert id own (change e) p, eq_iff id own)

  change_at_missing : lookup id p ≡ none → lookup own p ≡ change_at id change own (lookup own p)
  unfolding change_at
  change_at_missing missing = ground (arith, eq_iff id own)

  change_at_same :
      (e : MonitoredAppEntry)
      → lookup id p ≡ some e
      → change e ≡ e
      → lookup own p ≡ change_at id change own (lookup own p)
  unfolding change_at
  change_at_same e found same = ground (arith, eq_iff id own)

module _ (own : String) (p : Entries) where
  add_entry-fragment :
      (e : MonitoredAppEntry)
      → lookup own (add_entry e p) ≡ fragment_step (adds_entry e) own (lookup own p)
  unfolding add_entry fragment_step
  add_entry-fragment e = elim (Option-cases (lookup e.fragment_id p)) [
    | inl missing ↦
        rw (missing, add_entry)
          (ground (arith, lookup-insert e.fragment_id own e p, eq_iff e.fragment_id own))
    | inr (current, found) ↦
        rw (found, add_entry)
          (ground (
            arith,
            lookup-insert e.fragment_id own (append_services current e) p,
            eq_iff e.fragment_id own,
          ))
  ]

  set_entry_status-fragment :
      (id : String) (status : FragmentStatus) (err : Error)
      → lookup own (set_entry_status id status err p)
        ≡ change_at id (entry_with_status status err) own (lookup own p)
  unfolding set_entry_status
  set_entry_status-fragment id status err = elim (Option-cases (lookup id p)) [
    | inl missing ↦
        rw (missing, set_entry_status)
          (change_at_missing id own (entry_with_status status err) p missing)
    | inr (e, found) ↦
        rw (found, set_entry_status)
          (lookup-change_at id own (entry_with_status status err) p e found)
  ]

  set_app_status-fragment :
      (app : String) (status : FragmentStatus) (err : Error)
      → lookup own (set_app_status app status err p)
        ≡ change_entry (app_with_status app status err) (lookup own p)
  unfolding set_app_status change_entry
  set_app_status-fragment app status err =
      ground (arith, lookup-map_values (app_with_status app status err) own p)

  reset-fragment :
      lookup own (reset_services_unnotified_status p) ≡ change_entry reset_entry (lookup own p)
  unfolding reset_services_unnotified_status change_entry
  reset-fragment = ground (arith, lookup-map_values reset_entry own p)

  add_pending_resource-fragment :
      (r : MonitoredPlatformResource)
      → lookup own (add_pending_resource r p).0
        ≡ change_at r.fragment_id (with_pending r) own (lookup own p)
  unfolding add_pending_resource with_pending
  add_pending_resource-fragment r = elim (Option-cases (lookup r.fragment_id p)) [
    | inl missing ↦
        rw (missing, add_pending_resource)
          (change_at_missing r.fragment_id own (with_pending r) p missing)
    | inr (e, found) ↦ elim (Option-cases (lookup r.service_instance_id e.services)) [
      | inl gone ↦
          rw (found, gone, add_pending_resource)
            (change_at_same r.fragment_id own (with_pending r) p e found
              (rw (gone, with_pending) refl))
      | inr (service, there) ↦
          rw (found, there, add_pending_resource)
            (subst
              (λ x.
                lookup own (insert r.fragment_id x p)
                ≡ change_at r.fragment_id (with_pending r) own (lookup own p))
              (rw (there, with_pending) refl)
              (lookup-change_at r.fragment_id own (with_pending r) p e found))
    ]
  ]

  pub set_resource_status-fragment :
      (id service_id uid : String) (status : NalejServiceStatus) (info : String)
      (endpoints : List EndpointInstance)
      → lookup own (set_resource_status id service_id uid status info endpoints p).0
        ≡ change_at id
            (with_resource_status service_id uid status info endpoints)
            own
            (lookup own p)
  unfolding set_resource_status with_resource_status
  set_resource_status-fragment id service_id uid status info endpoints =
      let change = with_resource_status service_id uid status info endpoints in
      elim (Option-cases (lookup id p)) [
        | inl missing ↦
            rw (missing, set_resource_status) (change_at_missing id own change p missing)
        | inr (e, found) ↦ elim (Option-cases (lookup service_id e.services)) [
          | inl gone ↦
              rw (found, gone, set_resource_status)
                (change_at_same id own change p e found (rw (gone, with_resource_status) refl))
          | inr (service, there) ↦ elim (Option-cases (lookup uid service.resources)) [
            | inl unknown ↦
                rw (found, there, unknown, set_resource_status)
                  (change_at_same id own change p e found
                    (rw (there, unknown, with_resource_status) refl))
            | inr (resource, held) ↦ elim (Bool-cases (eq_service resource.status status)) [
              | inl same ↦
                  rw (found, there, held, same, set_resource_status)
                    (change_at_same id own change p e found
                      (rw (there, held, same, with_resource_status) refl))
              | inr new ↦
                  rw (found, there, held, new, set_resource_status)
                    (subst
                      (λ x. lookup own (insert id x p) ≡ change_at id change own (lookup own p))
                      (rw (there, held, new, with_resource_status) refl)
                      (lookup-change_at id own change p e found))
            ]
          ]
        ]
      ]

  update_app_status-fragment :
      (id : String)
      → lookup own (update_app_status id p) ≡ change_at id with_count own (lookup own p)
  unfolding update_app_status
  update_app_status-fragment id = elim (Option-cases (lookup id p)) [
    | inl missing ↦ rw (missing, update_app_status) (change_at_missing id own with_count p missing)
    | inr (e, found) ↦
        let pending = pos (count_not_running e.services 0) in
        elim (Bool-cases (eq_ℤ e.num_pending_checks pending)) [
          | inl same ↦
              rw (found, same, update_app_status)
                (change_at_same id own with_count p e found
                  (rw ((eq_ℤ_iff e.num_pending_checks pending).0 same) refl))
          | inr other ↦
              rw (found, other, update_app_status) (lookup-change_at id own with_count p e found)
        ]
  ]

  step-fragment :
      (c : Call) → IsValid p → lookup own (step c p) ≡ fragment_step c own (lookup own p)
  unfolding step fragment_step
  step-fragment (adds_entry e) v = add_entry-fragment e
  step-fragment (sets_entry_status id status err) v = set_entry_status-fragment id status err
  step-fragment (sets_app_status app status err) v = set_app_status-fragment app status err
  step-fragment (adds_pending_resource r) v = add_pending_resource-fragment r
  step-fragment (sets_resource_status id service uid status info endpoints) v =
      set_resource_status-fragment id service uid status info endpoints
  step-fragment (updates_app_status id) v = update_app_status-fragment id
  step-fragment notifies v = get_pending_notifications-lookup own p v
  step-fragment resets v = reset-fragment
  step-fragment (removes_entry id) v = lookup-remove_entry id own p

-- The map implements one machine for each fragment: after any history of proper calls on a valid
-- map, what a look-up gives for a fragment is what the same calls make of what was known of that
-- fragment alone, whatever the other entries are and whatever order the map is visited in.
pub run-fragment_run :
    (cs : List Call) (own : String) (p : Entries)
    → All IsProper cs
    → IsValid p
    → lookup own (run cs p) ≡ fragment_run cs own (lookup own p)
unfolding run fragment_run
run-fragment_run [] own p ok v = refl
run-fragment_run (c ∷ cs) own p ok v =
    run-fragment_run cs own (step c p) ok.1 (step-IsValid c p ok.0 v)
    ∙ ap (fragment_run cs own) (step-fragment own p c v)
