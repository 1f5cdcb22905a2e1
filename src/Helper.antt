-- ===== src/Helper.antt =====
-- pkg/monitor/monitor_helper.go: UpdateStatus and the two messages that it sends to conductor. The
-- calls to conductor, the new authentication and the test of an error's code are parameters on a
-- state of any type. A status is sent as it is here: the table of its codes is generated.
use deployment_manager.Common.{◌≡◌, Bool, List, [], ◌∷◌, String, arith, Map}
use deployment_manager.Entities.Status.{NalejServiceStatus, FragmentStatus}
use deployment_manager.Entities.Monitor.{EndpointInstance, MonitoredServiceEntry, MonitoredAppEntry}
use deployment_manager.Monitored.{Entries, Error}
use deployment_manager.Monitored.Notify.{
  get_pending_notifications, get_services_unnotified_status, reset_services_unnotified_status,
}
use deployment_manager.Monitored.Notified.{reset_silent}
use deployment_manager.Session.{authenticated_call}

pub record ServiceUpdate : Type 0 where
  pub application_id : String
  pub application_instance_id : String
  pub service_group_id : String
  pub service_group_instance_id : String
  pub service_id : String
  pub service_name : String
  pub service_instance_id : String
  pub organization_id : String
  pub status : NalejServiceStatus
  pub cluster_id : String
  pub endpoints : List EndpointInstance
  pub info : String

-- the two requests that UpdateStatus sends for an entry
pub data Message : Type 0 where
  -- DeploymentServiceUpdateRequest: the organization, the fragment, the cluster and the list
  service_status : String → String → String → List ServiceUpdate → Message
  -- DeploymentFragmentUpdateRequest: the organization, the deployment, the fragment, the status,
  -- the cluster, the application instance and the information
  fragment_status : String → String → String → FragmentStatus → String → String → String → Message

unfoldable pub service_update : String → MonitoredServiceEntry → ServiceUpdate
service_update cluster_id serv = record {
  application_id = serv.app_descriptor_id;
  application_instance_id = serv.app_instance_id;
  service_group_id = serv.service_group_id;
  service_group_instance_id = serv.service_group_instance_id;
  service_id = serv.service_id;
  service_name = serv.service_name;
  service_instance_id = serv.service_instance_id;
  organization_id = serv.organization_id;
  status = serv.status;
  cluster_id = cluster_id;
  endpoints = serv.endpoints;
  info = serv.info;
}

-- for _, serv := range entry.Services
unfoldable pub service_updates : String → Map MonitoredServiceEntry → List ServiceUpdate
service_updates cluster_id [] = []
service_updates cluster_id ((k, serv) ∷ rest) =
    service_update cluster_id serv ∷ service_updates cluster_id rest

-- for _, entry := range notificationPending
unfoldable pub messages : String → List MonitoredAppEntry → List Message
messages cluster_id [] = []
messages cluster_id (entry ∷ rest) =
    service_status entry.organization_id entry.fragment_id cluster_id
      (service_updates cluster_id entry.services)
    ∷ fragment_status entry.organization_id entry.deployment_id entry.fragment_id entry.status
        cluster_id entry.app_instance_id entry.info
    ∷ messages cluster_id rest

module _ {ℓ} {W : Type ℓ} (unauthenticated : String → Bool) (send : Message → W → Error × W)
    (rerun : W → Error × W) where
  -- sendUpdateService or sendFragmentStatus on one message after the other; an error is only logged
  unfoldable pub send_all : List Message → W → W
  send_all [] w = w
  send_all (message ∷ rest) w =
      send_all rest (authenticated_call unauthenticated (send message) rerun w).1

  -- UpdateStatus. The entries are not locked while the messages are sent: `meanwhile` is what other
  -- goroutines do to them. The source collects pointers to the services, so that a message may show
  -- a service later than it was collected; here it shows the service as it was then.
  unfoldable pub update_status : String → (Entries → Entries) → Entries → W → Entries × W
  update_status cluster_id meanwhile p w =
      let pending = get_pending_notifications p in
      elim pending.1 [
        | [] ↦ (pending.0, w)
        | entry ∷ rest ↦ (
          reset_services_unnotified_status (meanwhile pending.0),
          send_all (messages cluster_id (entry ∷ rest)) w,
        )
      ]

  -- After a round of UpdateStatus nothing is pending any more, whatever the answers of conductor
  -- were and whatever other goroutines did to the entries while the messages were sent, provided
  -- that there was something to send. So a change that no message has told, or whose message was
  -- refused, is not sent in the next round.
  pub update_status_silent :
      (cluster_id : String) (meanwhile : Entries → Entries) (p : Entries) (w : W)
      (entry : MonitoredAppEntry) (rest : List MonitoredAppEntry)
      → (get_pending_notifications p).1 ≡ entry ∷ rest
      → let q = (update_status cluster_id meanwhile p w).0 in
        ((get_pending_notifications q).1 ≡ [])
        × (get_services_unnotified_status q ≡ [])
        × ((update_status cluster_id (λ entries. entries) q w).1 ≡ w)
  unfolding update_status
  update_status_silent cluster_id meanwhile p w entry rest some_pending =
      let silent = reset_silent (meanwhile (get_pending_notifications p).0) in ground arith
