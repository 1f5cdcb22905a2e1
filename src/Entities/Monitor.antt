-- ===== src/Entities/Monitor.antt =====
-- internal/entities/monitor.go: the records that the monitor keeps, and their methods. A Go map
-- from an identifier to a pointer is a map to the record; a nil slice is the empty list.
use deployment_manager.Common.{
  ℕ, Bool, true, false, none, some, List, [], ◌∷◌, String, if◌then◌else◌, ℤ, inc, dec, Map, lookup,
  has_key, insert,
}
use deployment_manager.Entities.Status.{NalejServiceStatus, FragmentStatus}

-- `iota` from ENDPOINT_TYPE_IS_ALIVE
pub data EndpointType : Type 0 where
  is_alive rest web prometheus ingestion : EndpointType

pub record EndpointInstance : Type 0 where
  pub endpoint_instance_id : String
  pub endpoint_type : EndpointType
  pub fqdn : String
  pub port : ℕ  -- int32, never negative in the source

pub record MonitoredPlatformResource : Type 0 where
  pub fragment_id : String
  pub app_id : String
  pub app_instance_id : String
  pub service_group_id : String
  pub service_group_instance_id : String
  pub service_id : String
  pub service_instance_id : String
  pub uid : String
  pub info : String
  pub pending : Bool
  pub status : NalejServiceStatus

pub record MonitoredServiceEntry : Type 0 where
  pub organization_id : String
  pub app_descriptor_id : String
  pub app_instance_id : String
  pub service_group_id : String
  pub service_group_instance_id : String
  pub fragment_id : String
  pub service_id : String
  pub service_name : String
  pub service_instance_id : String
  pub num_pending_checks : ℤ
  pub resources : Map MonitoredPlatformResource
  pub status : NalejServiceStatus
  pub new_status : Bool
  pub info : String
  pub endpoints : List EndpointInstance

pub record MonitoredAppEntry : Type 0 where
  pub organization_id : String
  pub app_descriptor_id : String
  pub app_instance_id : String
  pub deployment_id : String
  pub status : FragmentStatus
  pub fragment_id : String
  pub services : Map MonitoredServiceEntry
  pub num_pending_checks : ℤ
  pub info : String
  pub total_services : ℤ
  pub new_status : Bool
  pub namespace : String

-- NewMonitoredPlatformResource
unfoldable pub new_monitored_platform_resource :
    String
    → String
    → String
    → String
    → String
    → String
    → String
    → String
    → String
    → MonitoredPlatformResource
new_monitored_platform_resource frag uid descriptor app group group_instance service instance'
      info =
    record {
      fragment_id = frag;
      app_id = descriptor;
      app_instance_id = app;
      service_group_id = group;
      service_group_instance_id = group_instance;
      service_id = service;
      service_instance_id = instance';
      uid = uid;
      info = info;
      pending = true;
      status = NalejServiceStatus.scheduled;
    }

-- the body of the loop of AppendServices
unfoldable pub append_service : MonitoredServiceEntry → MonitoredAppEntry → MonitoredAppEntry
append_service serv m = if has_key serv.service_instance_id m.services then m else record m {
  services = insert serv.service_instance_id serv m.services;
  num_pending_checks = inc m.num_pending_checks;
  total_services = inc m.total_services;
}

-- for _, serv := range new.Services
unfoldable pub append_each : Map MonitoredServiceEntry → MonitoredAppEntry → MonitoredAppEntry
unfolding append_service
append_each [] m = m
append_each ((k, serv) ∷ others) m = append_each others (append_service serv m)

-- (m *MonitoredAppEntry) AppendServices
unfoldable pub append_services : MonitoredAppEntry → MonitoredAppEntry → MonitoredAppEntry
unfolding append_each
append_services m new = append_each new.services m

-- (m *MonitoredServiceEntry) AddPendingResource
unfoldable pub add_pending :
    MonitoredServiceEntry → MonitoredPlatformResource → MonitoredServiceEntry
add_pending m to_add = if has_key to_add.uid m.resources then m else record m {
  resources = insert to_add.uid (record to_add { pending = true }) m.resources;
  num_pending_checks = inc m.num_pending_checks;
}

-- (m *MonitoredServiceEntry) RemovePendingResource
unfoldable pub remove_pending : MonitoredServiceEntry → String → MonitoredServiceEntry
remove_pending m uid = elim (lookup uid m.resources) [
  | none ↦ m
  | some res ↦ record m {
    resources = insert uid (record res { pending = false }) m.resources;
    num_pending_checks = dec m.num_pending_checks;
  }
]
