-- ===== src/Events.antt =====
-- pkg/kubernetes/events: the dispatcher between the Kubernetes informers and the functions that
-- handle the events of an object.
pub mod Dispatcher
pub mod Retries
pub mod Deleted
pub mod Informers
