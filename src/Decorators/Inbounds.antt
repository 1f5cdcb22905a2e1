-- ===== src/Decorators/Inbounds.antt =====
-- pkg/decorators/network/zerotier/zerotier_decorator.go: which pods the selector of a service finds
-- among those of the inbounds.
use deployment_manager.Common.{
  ◌≡◌, ◌≢◌, List-cases, inl, inr, refl, sym, ap, ◌∙◌, ◌↔◌, none, some, [], ◌∷◌, String, arith, Map,
  lookup,
}
use deployment_manager.Deployables.{Service, Metadata}
use deployment_manager.Deployables.Labels.{
  deployment_labels, extended_labels, selector_labels, last_value, lookup-set_all,
}
use deployment_manager.Deployables.Selectors.{Selects}
use deployment_manager.Decorators.ZeroTier.{
  Settings, labels_after_build, inbound_written, inbound_labels,
}

module _ (settings : Settings) (meta : Metadata) (service : Service) where
  inbound_label :
      (key value : String)
      → last_value key (inbound_written settings meta service) ≡ some value
      → lookup key (inbound_labels settings meta service) ≡ some value
  unfolding inbound_labels
  inbound_label key value h = ground (
    arith,
    lookup-set_all key (inbound_written settings meta service) (labels_after_build meta service),
  )

  -- a label that the decorator does not write is the one of the service
  copied_label :
      (key : String)
      → last_value key (inbound_written settings meta service) ≡ none
      → lookup key (inbound_labels settings meta service)
        ≡ lookup key (labels_after_build meta service)
  unfolding inbound_labels
  copied_label key h = ground (
    arith,
    lookup-set_all key (inbound_written settings meta service) (labels_after_build meta service),
  )

  written_label :
      (key value : String)
      → last_value key (deployment_labels meta service) ≡ some value
      → lookup key (extended_labels meta service) ≡ some value
  unfolding extended_labels
  written_label key value h =
      ground (arith, lookup-set_all key (deployment_labels meta service) service.labels)

  no_service_name :
      service.labels ≡ []
      → lookup "nalej-service-name" (inbound_labels settings meta service) ≡ none
  unfolding labels_after_build last_value inbound_written lookup
  no_service_name blank =
      copied_label "nalej-service-name" refl ∙ rw (blank, labels_after_build) refl

  if_used {ℓ} :
      {A : Type ℓ} (labels : Map String) (label : String × String) (rest : Map String)
      (none_used used : A)
      → labels ≡ label ∷ rest
      → (elim labels as (λ _. A) [ [] ↦ none_used | _ ∷ _ ↦ used ]) ≡ used
  if_used labels label rest none_used used h = rw (h) refl

  used_labels :
      (label : String × String) (rest : Map String)
      → service.labels ≡ label ∷ rest
      → labels_after_build meta service ≡ extended_labels meta service
  unfolding labels_after_build
  used_labels label rest h = if_used service.labels label rest [] (extended_labels meta service) h

  -- The selector of a service finds the pods of its inbound exactly when the request has labels for
  -- the service and the selector finds the pods of the service itself. The labels of an inbound
  -- always say that it is a proxy.
  pub inbound_labels-Selects :
      (to_lower : String → String)
      → (Selects (selector_labels to_lower meta service) (inbound_labels settings meta service) ↔ (
          (service.labels ≢ [])
          × Selects (selector_labels to_lower meta service) (extended_labels meta service)))
        × (lookup "nalej-is-proxy" (inbound_labels settings meta service) ≡ some "true")
  unfolding selector_labels last_value inbound_written deployment_labels
  inbound_labels-Selects to_lower = (
    (
      λ (a, (o, (n, _))).
          let used : service.labels ≢ [] = λ blank. cc (no_service_name blank, n) in
          (used, (sym app ∙ a, (sym org ∙ o, (sym (name used) ∙ n, tt)))),
      λ (used, (a, (o, (n, _)))). (app ∙ a, (org ∙ o, (name used ∙ n, tt))),
    ),
    inbound_label "nalej-is-proxy" "true" refl,
  )
    where
      app :
          lookup "nalej-app-instance-id" (inbound_labels settings meta service)
          ≡ lookup "nalej-app-instance-id" (extended_labels meta service)
      app =
          inbound_label "nalej-app-instance-id" meta.app_instance_id refl
          ∙ sym (written_label "nalej-app-instance-id" meta.app_instance_id refl)

      --
      org :
          lookup "nalej-organization" (inbound_labels settings meta service)
          ≡ lookup "nalej-organization" (extended_labels meta service)
      org =
          inbound_label "nalej-organization" meta.organization_id refl
          ∙ sym (written_label "nalej-organization" meta.organization_id refl)

      --
      name :
          service.labels ≢ []
          → lookup "nalej-service-name" (inbound_labels settings meta service)
            ≡ lookup "nalej-service-name" (extended_labels meta service)
      name used = elim (List-cases service.labels) [
        | inl blank ↦ absurd (used blank)
        | inr (label, rest, same) ↦
            copied_label "nalej-service-name" refl
            ∙ ap (lookup "nalej-service-name") (used_labels label rest same)
      ]
