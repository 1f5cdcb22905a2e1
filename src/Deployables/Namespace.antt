-- ===== src/Deployables/Namespace.antt =====
-- pkg/kubernetes/kubernetes_namespace.go: Deploy, which calls itself where the decorator's Deploy is
-- meant, and Undeploy.
use deployment_manager.Common.{
  ℕ, zero, suc, ◌≡◌, refl, inl, inr, false, Option, none, some, List, [], ◌∷◌, String, Bool-cases,
  Option-cases, if◌then◌else◌,
}
use deployment_manager.Common.Result.{Result, failed, ok}
use deployment_manager.Handler.Requests.{is_blank}
use deployment_manager.Monitored.{Error}

-- the client of namespaces: the name that Get gives, blank if there is none, and a creation
pub record Namespaces {ℓ} (W : Type ℓ) : Type ℓ where
  pub get : String → W → String
  pub create : String → W → Error × W
  pub delete : String → W → Error × W

module _ {ℓ} {W : Type ℓ} (client : Namespaces W) where
  -- Deploy, on fuel: the error, and the world. The error of the inner call is only logged.
  unfoldable pub deploy_namespace : ℕ → String → W → Option (Error × W)
  deploy_namespace zero name w = none
  deploy_namespace (suc fuel) name w =
      let (err, w') = client.create name w in
      let again = deploy_namespace fuel name w' in
      if is_blank (client.get name w)
      then elim err as (λ _. Option (Error × W)) [
        | some text ↦ some (some text, w')
        | none ↦ elim again [ none ↦ none | some (net_err, end) ↦ some (none, end) ]
      ]
      else some (none, w)

  -- the loop of Undeploy over the namespaces that were listed; an error is only logged
  unfoldable pub undeploy_namespaces : List String → W → W
  undeploy_namespaces [] w = w
  undeploy_namespaces (name ∷ rest) w = undeploy_namespaces rest (client.delete name w).1

  -- Undeploy: the namespaces with the labels of the application
  unfoldable pub undeploy_listed : (W → Result (List String)) → W → Error × W
  unfolding undeploy_namespaces
  undeploy_listed list w = elim (list w) [
    | failed err ↦ (some err, w)
    | ok names ↦ (none, undeploy_namespaces names w)
  ]

  -- UndeployNamespace of pkg/kubernetes/kubernetes_executor.go; the Build is a parameter
  unfoldable pub undeploy_application : (W → Error × W) → (W → Result (List String)) → W → Error × W
  unfolding undeploy_listed
  undeploy_application build list w =
      let built = build w in elim built.0 [ some err ↦ built | none ↦ undeploy_listed list built.1 ]

  -- If a namespace that was created is found by the next look-up, two rounds of Deploy are enough:
  -- an existing namespace is left alone, a new one is created once, and the error is the one of the
  -- creation.
  pub deploy_namespace_ends :
      (fuel : ℕ) (name : String) (w : W)
      → ((v : W)
          → (client.create name v).0 ≡ none
          → is_blank (client.get name (client.create name v).1) ≡ false)
      → deploy_namespace (suc (suc fuel)) name w
        ≡ some (if is_blank (client.get name w) then client.create name w else (none, w))
  unfolding deploy_namespace
  deploy_namespace_ends fuel name w found = elim (Bool-cases (is_blank (client.get name w))) [
    | inr here ↦ rw (here, deploy_namespace) refl
    | inl missing ↦ elim (Option-cases (client.create name w).0) [
      | inr (text, refused) ↦ rw (missing, refused, deploy_namespace) refl
      | inl fine ↦ rw (missing, fine, found w fine, deploy_namespace) refl
    ]
  ]
