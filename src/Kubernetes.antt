-- ===== src/Kubernetes.antt =====
-- pkg/kubernetes: the controller that reports the status of the resources, the parts of a stage, and
-- the executor.
pub mod Controller
pub mod Reports
pub mod Callbacks
pub mod Stage
pub mod Executor
