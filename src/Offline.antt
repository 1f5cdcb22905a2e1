-- ===== src/Offline.antt =====
-- pkg/offline-policy/manager.go: RemoveAll. What Kubernetes lists, and what it answers to a
-- deletion on a state of any type, are parameters; the deletions are recorded.
use deployment_manager.Common.{
  ◌≡◌, refl, ◌≢◌, ◌↔◌, Bool, true, false, not, ◌&&◌, none, some, List, [], ◌∷◌, String, arith,
  if◌then◌else◌, Map, has_key, str_eq, concat,
}
use deployment_manager.Common.Result.{Result, failed, ok}
use deployment_manager.Monitored.{Error}

pub record Namespace : Type 0 where
  pub name : String
  pub phase : String
  pub labels : Map String

pub record Removed {ℓ} (W : Type ℓ) : Type ℓ where
  pub error : Error
  pub world : W
  pub deleted : List String

module _ {ℓ} {W : Type ℓ} (terminating : String) (delete : String → W → Error × W) where
  -- toDelete
  unfoldable pub to_delete : Namespace → Bool
  to_delete ns = not (str_eq ns.phase terminating) && has_key "nalej-app-instance-id" ns.labels

  abbrev pub later_error : Error → String → Error
  later_error none name = some (concat "impossible to delete namespace " name)
  later_error (some err) name = some (concat "impossible to delete namespace " name)

  -- the loop, with finalResult
  unfoldable pub remove_each : List Namespace → Error → W → Removed W
  remove_each [] final w = record { error = final; world = w; deleted = [] }
  remove_each (ns ∷ rest) final w =
      let answer = delete ns.name w in
      let skipped = remove_each rest final w in
      let gone = remove_each rest final answer.1 in
      let kept = remove_each rest (later_error final ns.name) answer.1 in
      if to_delete ns
      then elim answer.0 [
        | none ↦ record gone { deleted = ns.name ∷ gone.deleted }
        | some err ↦ record kept { deleted = ns.name ∷ kept.deleted }
      ]
      else skipped

  -- RemoveAll
  unfoldable pub remove_all : Result (List Namespace) → W → Removed W
  remove_all (failed err) w = record { error = some err; world = w; deleted = [] }
  remove_all (ok namespaces) w = remove_each namespaces none w

  -- the names of the namespaces of applications that are not terminating
  abbrev pub application_names : List Namespace → List String
  application_names [] = []
  application_names (ns ∷ rest) =
      let later = application_names rest in
      if not (str_eq ns.phase terminating)
      then if has_key "nalej-app-instance-id" ns.labels then ns.name ∷ later else later
      else later

  -- the deletions in order, from the state on: whether all of them succeed
  abbrev pub all_deleted : List String → W → Bool
  all_deleted [] w = true
  all_deleted (name ∷ rest) w =
      let answer = delete name w in
      let later = all_deleted rest answer.1 in elim answer.0 [ none ↦ later | some err ↦ false ]

  remove_each-deleted :
      (namespaces : List Namespace) (final : Error) (w : W)
      → (remove_each namespaces final w).deleted ≡ application_names namespaces
  unfolding remove_each to_delete
  remove_each-deleted [] final w = refl
  remove_each-deleted (ns ∷ rest) final w = ground (
    arith,
    remove_each-deleted rest final w,
    remove_each-deleted rest final (delete ns.name w).1,
    remove_each-deleted rest (later_error final ns.name) (delete ns.name w).1,
  )

  remove_each_fails :
      (namespaces : List Namespace) (err : String) (w : W)
      → (remove_each namespaces (some err) w).error ≢ none
  unfolding remove_each to_delete
  remove_each_fails [] err w h = ground arith
  remove_each_fails (ns ∷ rest) err w h = ground (
    arith,
    remove_each_fails rest err w,
    remove_each_fails rest err (delete ns.name w).1,
    remove_each_fails rest (concat "impossible to delete namespace " ns.name) (delete ns.name w).1,
  )

  remove_each_error :
      (namespaces : List Namespace) (w : W)
      → ((remove_each namespaces none w).error ≡ none)
        ↔ (all_deleted (application_names namespaces) w ≡ true)
  unfolding remove_each to_delete
  remove_each_error [] w = ground arith
  remove_each_error (ns ∷ rest) w = ground (
    arith,
    remove_each_error rest w,
    remove_each_error rest (delete ns.name w).1,
    remove_each_fails rest (concat "impossible to delete namespace " ns.name) (delete ns.name w).1,
  )

  -- RemoveAll tries to delete the namespaces of applications that are not terminating, each once, in
  -- the order of the list and in spite of errors, and no other namespace; it returns no error
  -- exactly when all of these deletions succeed.
  pub remove_all-application_names :
      (namespaces : List Namespace) (w : W)
      → ((remove_all (ok namespaces) w).deleted ≡ application_names namespaces)
        × (((remove_all (ok namespaces) w).error ≡ none)
            ↔ (all_deleted (application_names namespaces) w ≡ true))
  unfolding remove_all
  remove_all-application_names namespaces w =
      (remove_each-deleted namespaces none w, remove_each_error namespaces w)
