-- ===== src/Tests/Executor.antt =====
-- The executor and the offline policy at concrete inputs: a Kubernetes that refuses some calls.
use deployment_manager.Common.{
  ℕ, suc, ◌≡◌, ◌↔◌, true, none, some, [], ◌∷◌, String, if◌then◌else◌, str_eq,
}
use deployment_manager.Common.Result.{ok}
use deployment_manager.Monitored.{Error}
use deployment_manager.Offline.{
  remove_all, application_names, all_deleted, remove_all-application_names,
}

abbrev labelled : String → String → deployment_manager.Offline.Namespace
labelled name phase = record {
  name = name;
  phase = phase;
  labels = ("nalej-app-instance-id", "app") ∷ [];
}

abbrev delete : String → ℕ → Error × ℕ
delete name calls = (if str_eq name "stuck" then some "timeout" else none, suc calls)

remove_all-application_names_example :
    let namespaces =
      labelled "stuck" "Active" ∷ labelled "gone" "Terminating" ∷ labelled "web" "Active" ∷ [] in
    ((remove_all "Terminating" delete (ok namespaces) 0).deleted
      ≡ application_names "Terminating" delete namespaces)
    × (((remove_all "Terminating" delete (ok namespaces) 0).error ≡ none) ↔ (
        all_deleted "Terminating" delete (application_names "Terminating" delete namespaces) 0
        ≡ true))
remove_all-application_names_example =
    remove_all-application_names "Terminating" delete
      (labelled "stuck" "Active" ∷ labelled "gone" "Terminating" ∷ labelled "web" "Active" ∷ []) 0
