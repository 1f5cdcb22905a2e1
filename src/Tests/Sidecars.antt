-- ===== src/Tests/Sidecars.antt =====
-- The ZeroTier decorator at a concrete input: a stage with one service that has ports and labels.
use deployment_manager.Common.{◌≡◌, ◌≢◌, ◌↔◌, some, none, List, [], ◌∷◌, ◌++◌, lookup, arith}
use deployment_manager.Deployables.{Service}
use deployment_manager.Deployables.Labels.{extended_labels, selector_labels}
use deployment_manager.Deployables.Selectors.{Selects}
use deployment_manager.Decorators.ZeroTier.{Settings, PodDeployment, inbound_labels}
use deployment_manager.Decorators.Inbounds.{inbound_labels-Selects}
use deployment_manager.Decorators.Agents.{names_of, inbound_names}
use deployment_manager.Decorators.Repeated.{repeated, builds, builds-names}
use deployment_manager.Tests.Deployables.{service, meta}

abbrev settings : Settings
settings = record {
  zt_agent_image_name = "zt-agent";
  cluster_id = "cluster";
  deployment_mgr_address = "manager:5200";
  zt_sidecar_port = 1000;
  deployment_id = "dep";
  zt_network_id = "network";
  stage_fragment_id = "frag";
  dns_hosts = [];
}

abbrev labelled : Service
labelled = record service {
  organization_id = "0123456789ab";
  app_instance_id = "ba9876543210";
  labels = ("tier", "front") ∷ [];
}

abbrev deployed : PodDeployment
deployed = record {
  name = "myweb";
  namespace = "ns";
  labels = [];
  selector = [];
  template_labels = [];
  containers = [];
  volumes = [];
  nameservers = none;
}

inbound_labels-Selects_example :
    (Selects (selector_labels (λ s. s) meta labelled) (inbound_labels settings meta labelled) ↔ (
      (labelled.labels ≢ [])
      × Selects (selector_labels (λ s. s) meta labelled) (extended_labels meta labelled)))
    × (lookup "nalej-is-proxy" (inbound_labels settings meta labelled) ≡ some "true")
inbound_labels-Selects_example = inbound_labels-Selects settings meta labelled (λ s. s)

builds-names_example :
    (decorated : List PodDeployment) × (builds
        (λ s. s)
        settings
        meta
        2
        (labelled ∷ [])
        (deployed ∷ [])
      ≡ some decorated)
    × (names_of decorated
        ≡ names_of (deployed ∷ [])
          ++ repeated 2 (inbound_names (λ s. s) settings meta (labelled ∷ [])))
builds-names_example =
    builds-names (λ s. s) settings meta 2 (labelled ∷ []) (deployed ∷ [])
      ((omega arith, omega arith), tt) (omega arith)
