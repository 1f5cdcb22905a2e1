-- ===== src/Metrics/Collector.antt =====
-- pkg/metrics/metrics.go and pkg/metrics/prometheus/prometheus.go: the counters of each metric and
-- the collector that moves them. A counter of Prometheus that counts up is a natural number, the
-- gauge of what is running an integer.
use deployment_manager.Common.{ℕ, suc, ℤ, pos, inc, dec}

pub data MetricType : Type 0 where
  services volumes fragments endpoints : MetricType

pub record Metric : Type 0 where
  pub created : ℕ
  pub deleted : ℕ
  pub running : ℤ
  pub errors : ℕ

-- map[MetricType]*Subsystem; a subsystem that is not there yet is created with all counters at 0.
pub record Metrics : Type 0 where
  pub services : Metric
  pub volumes : Metric
  pub fragments : Metric
  pub endpoints : Metric

abbrev pub no_metric : Metric
no_metric = record { created = 0; deleted = 0; running = pos 0; errors = 0 }

abbrev pub no_metrics : Metrics
no_metrics = record {
  services = no_metric;
  volumes = no_metric;
  fragments = no_metric;
  endpoints = no_metric;
}

-- getSubsystem
abbrev pub get_subsystem : MetricType → Metrics → Metric
get_subsystem MetricType.services m = m.services
get_subsystem MetricType.volumes m = m.volumes
get_subsystem MetricType.fragments m = m.fragments
get_subsystem MetricType.endpoints m = m.endpoints

abbrev pub change : (Metric → Metric) → MetricType → Metrics → Metrics
change f MetricType.services m = record m { services = f m.services }
change f MetricType.volumes m = record m { volumes = f m.volumes }
change f MetricType.fragments m = record m { fragments = f m.fragments }
change f MetricType.endpoints m = record m { endpoints = f m.endpoints }

-- Create
unfoldable pub create : MetricType → Metrics → Metrics
create = change (λ c. record c { created = suc c.created; running = inc c.running })

-- Existing
unfoldable pub existing : MetricType → Metrics → Metrics
existing = change (λ c. record c { running = inc c.running })

-- Delete
unfoldable pub delete : MetricType → Metrics → Metrics
delete = change (λ c. record c { deleted = suc c.deleted; running = dec c.running })

-- Error
unfoldable pub count_error : MetricType → Metrics → Metrics
count_error = change (λ c. record c { errors = suc c.errors })
