-- ===== src/Deployables/Environment.antt =====
-- pkg/kubernetes/kubernetes_deployment.go: the environment variables of a container. The replacement
-- of all occurrences of a text, strings.Replace, is a parameter.
use deployment_manager.Common.{
  ◌&&◌, List, [], ◌∷◌, ◌++◌, String, if◌then◌else◌, Map, str_eq, has_prefix, concat,
}
use deployment_manager.Deployables.{DeviceGroupRule}

-- apiv1.EnvVar
pub record EnvVar : Type 0 where
  pub name : String
  pub value : String

-- strings.Join(_, ",")
unfoldable pub join_commas : List String → String
join_commas [] = ""
join_commas (first ∷ rest) = elim rest [
  | [] ↦ first
  | second ∷ more ↦ concat first (concat "," (join_commas rest))
]

-- for k, v := range nalejVariables
unfoldable pub plain_variables : Map String → List EnvVar
plain_variables [] = []
plain_variables ((k, v) ∷ rest) = record { name = k; value = v } ∷ plain_variables rest

module _ (replace : String → String → String → String) where
  -- the inner loop: the occurrences of every Nalej variable are replaced, one variable after another
  unfoldable pub replace_variables : Map String → String → String
  replace_variables [] value = value
  replace_variables ((k, v) ∷ rest) value = replace_variables rest (replace value k v)

  -- for k, v := range variables: a reserved name is left out
  unfoldable pub user_variables : Map String → Map String → List EnvVar
  unfolding replace_variables
  user_variables nalej [] = []
  user_variables nalej ((k, v) ∷ rest) =
      let later = user_variables nalej rest in
      if has_prefix k "NALEJ_SERV_"
      then later
      else record { name = k; value = replace_variables nalej v } ∷ later

  -- getEnvVariables
  unfoldable pub get_env_variables : String → Map String → Map String → List EnvVar
  unfolding user_variables plain_variables
  get_env_variables cluster_id nalej variables =
      record { name = "CLUSTER_ID"; value = cluster_id }
      ∷ (user_variables nalej variables ++ plain_variables nalej)

-- addDeviceGroupEnvVariables
unfoldable pub add_device_group_env_variables :
    List DeviceGroupRule → String → String → List EnvVar → List EnvVar
unfolding join_commas
add_device_group_env_variables [] group service previous = previous
add_device_group_env_variables (sr ∷ rest) group service previous =
    let later = add_device_group_env_variables rest group service previous in
    if str_eq sr.target_service_group_instance_id group
      && str_eq sr.target_service_instance_id service
    then previous
      ++ record {
        name = "NALEJ_DG_SHARED_SECRETS";
        value = join_commas sr.device_group_jwt_secrets;
      }
        ∷ []
    else later
