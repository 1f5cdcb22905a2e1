-- ===== src/Entities/Status.antt =====
-- internal/entities/entities.go: the two statuses, their order as Go constants, and the tables
-- that translate one into the other.
use deployment_manager.Common.{ℕ, ◌≡◌, ◌↔◌, ◌≢◌, Bool, true, arith, ltb, ◌==◌}

-- `iota` from NALEJ_SERVICE_SCHEDULED = 0
pub data NalejServiceStatus : Type 0 where
  scheduled waiting deploying running error terminating : NalejServiceStatus

-- the constant's value
abbrev pub service_ord : NalejServiceStatus → ℕ
service_ord NalejServiceStatus.scheduled = 0
service_ord NalejServiceStatus.waiting = 1
service_ord NalejServiceStatus.deploying = 2
service_ord NalejServiceStatus.running = 3
service_ord NalejServiceStatus.error = 4
service_ord NalejServiceStatus.terminating = 5

-- `iota` from FRAGMENT_WAITING = 0
pub data FragmentStatus : Type 0 where
  waiting deploying done error retrying terminating : FragmentStatus

abbrev pub fragment_ord : FragmentStatus → ℕ
fragment_ord FragmentStatus.waiting = 0
fragment_ord FragmentStatus.deploying = 1
fragment_ord FragmentStatus.done = 2
fragment_ord FragmentStatus.error = 3
fragment_ord FragmentStatus.retrying = 4
fragment_ord FragmentStatus.terminating = 5

-- a == b
abbrev pub eq_service : NalejServiceStatus → NalejServiceStatus → Bool
eq_service a b = service_ord a == service_ord b

abbrev pub eq_fragment : FragmentStatus → FragmentStatus → Bool
eq_fragment a b = fragment_ord a == fragment_ord b

-- a < b
abbrev pub lt_service : NalejServiceStatus → NalejServiceStatus → Bool
lt_service a b = ltb (service_ord a) (service_ord b)

-- ServicesToFragmentStatus
unfoldable pub services_to_fragment_status : NalejServiceStatus → FragmentStatus
services_to_fragment_status NalejServiceStatus.scheduled = FragmentStatus.waiting
services_to_fragment_status NalejServiceStatus.waiting = FragmentStatus.waiting
services_to_fragment_status NalejServiceStatus.deploying = FragmentStatus.deploying
services_to_fragment_status NalejServiceStatus.running = FragmentStatus.done
services_to_fragment_status NalejServiceStatus.error = FragmentStatus.error
services_to_fragment_status NalejServiceStatus.terminating = FragmentStatus.terminating

-- FragmentStatusToNalejServiceStatus
unfoldable pub fragment_status_to_nalej_service_status : FragmentStatus → NalejServiceStatus
fragment_status_to_nalej_service_status FragmentStatus.waiting = NalejServiceStatus.waiting
fragment_status_to_nalej_service_status FragmentStatus.terminating = NalejServiceStatus.terminating
fragment_status_to_nalej_service_status FragmentStatus.retrying = NalejServiceStatus.deploying
fragment_status_to_nalej_service_status FragmentStatus.deploying = NalejServiceStatus.deploying
fragment_status_to_nalej_service_status FragmentStatus.error = NalejServiceStatus.error
fragment_status_to_nalej_service_status FragmentStatus.done = NalejServiceStatus.running

pub eq_service_iff : (a b : NalejServiceStatus) → (eq_service a b ≡ true) ↔ (a ≡ b)
eq_service_iff a b = ground arith

pub eq_fragment_iff : (a b : FragmentStatus) → (eq_fragment a b ≡ true) ↔ (a ≡ b)
eq_fragment_iff a b = ground arith

pub NalejServiceStatus-discrete : Discrete NalejServiceStatus
NalejServiceStatus-discrete = hlevel

-- A fragment status survives the trip through the service statuses exactly when it is not
-- RETRYING, and a service status the trip through the fragment statuses exactly when it is not
-- SCHEDULED.
pub status_tables_inverse :
    ((f : FragmentStatus)
      → (services_to_fragment_status (fragment_status_to_nalej_service_status f) ≡ f)
        ↔ (f ≢ FragmentStatus.retrying))
    × ((s : NalejServiceStatus)
        → (fragment_status_to_nalej_service_status (services_to_fragment_status s) ≡ s)
          ↔ (s ≢ NalejServiceStatus.scheduled))
unfolding services_to_fragment_status fragment_status_to_nalej_service_status
status_tables_inverse = (fragments, services)
  where
    fragments :
        (f : FragmentStatus)
        → (services_to_fragment_status (fragment_status_to_nalej_service_status f) ≡ f)
          ↔ (f ≢ FragmentStatus.retrying)
    fragments f = ground arith

    services :
        (s : NalejServiceStatus)
        → (fragment_status_to_nalej_service_status (services_to_fragment_status s) ≡ s)
          ↔ (s ≢ NalejServiceStatus.scheduled)
    services s = ground arith
