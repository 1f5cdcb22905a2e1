-- ===== src/Metrics.antt =====
-- pkg/metrics and pkg/kubernetes/metrics_translator.go: the counters of the platform, and the
-- Kubernetes events that move them.
pub mod Collector
pub mod Translator
pub mod Tally
pub mod Balance
pub mod Warnings
