-- ===== src/Network/Requests.antt =====
-- The requests of pkg/network and their checks: pkg/network/validator.go and the validations of
-- internal/entities/entities.go.
use deployment_manager.Common.{Bool, none, some, String, if◌then◌else◌}
use deployment_manager.Monitored.{Error}
use deployment_manager.Handler.Requests.{is_blank}

pub record ServiceRoute : Type 0 where
  pub organization_id : String
  pub app_instance_id : String
  pub service_group_id : String
  pub service_id : String
  pub vsa : String
  pub redirect_to_vpn : String
  pub drop : Bool

-- JoinZTNetworkRequest and LeaveZTNetworkRequest, which have the same fields
pub record ZtNetworkRequest : Type 0 where
  pub organization_id : String
  pub app_instance_id : String
  pub service_id : String
  pub network_id : String
  pub is_inbound : Bool

pub record AuthorizeZtConnectionRequest : Type 0 where
  pub organization_id : String
  pub app_instance_id : String
  pub network_id : String
  pub member_id : String

-- ValidSetRoute
unfoldable pub valid_set_route : ServiceRoute → Error
valid_set_route req =
    if is_blank req.organization_id
    then some "organization_id must not be empty"
    else if is_blank req.app_instance_id
    then some "app_instance_id must not be empty"
    else if is_blank req.service_group_id
    then some "service_group_id must not be empty"
    else if is_blank req.service_id
    then some "service_id must not be empty"
    else if is_blank req.vsa
    then some "vsa must not be empty"
    else if req.drop
    then none
    else if is_blank req.redirect_to_vpn
    then some "redirect_to_vpn must not be empty"
    else none

-- ValidateJoinZTNetworkRequest and ValidateLeaveZTNetworkRequest
unfoldable pub validate_zt_network_request : ZtNetworkRequest → Error
validate_zt_network_request request =
    if is_blank request.organization_id
    then some "organization_id cannot be empty"
    else if is_blank request.app_instance_id
    then some "app_instance_id cannot be empty"
    else if is_blank request.service_id
    then some "service_id cannot be empty"
    else if is_blank request.network_id
    then some "network_id cannot be empty"
    else none

-- ValidateAuthorizeZTConnectionRequest
unfoldable pub validate_authorize_zt_connection_request : AuthorizeZtConnectionRequest → Error
validate_authorize_zt_connection_request request =
    if is_blank request.organization_id
    then some "organization_id cannot be empty"
    else if is_blank request.app_instance_id
    then some "app_instance_id cannot be empty"
    else if is_blank request.member_id
    then some "member_id cannot be empty"
    else if is_blank request.network_id
    then some "network_id cannot be empty"
    else none
