-- ===== src/Lib.antt =====
-- The deployment manager of a cluster: it receives requests to deploy and undeploy fragments of
-- applications, has them deployed on Kubernetes stage by stage, follows the status of what it
-- deployed, and tells conductor about it.
--
-- The parts, and the files that model them:
--
-- - Entities: internal/entities/entities.go and internal/entities/monitor.go. Status has the
--   statuses of services and fragments with the tables between them, Translation the status of a
--   Kubernetes deployment, Monitor the records of what is monitored and their methods.
-- - Monitored: internal/structures/monitor/memory_monitored_services.go. A Go map is an
--   association list (Common/Maps), whose order stands for the order of a `range` loop, which Go
--   leaves open. Every method is one step: a function from the map to the map and what the method
--   returns. The source holds a lock over most of them, but none over UpdateAppStatus,
--   GetNumFragments and the check of WaitPendingChecks, and GetPendingNotifications removes entries
--   after it has unlocked what it read; a tick of WaitPendingChecks has what other goroutines do
--   between UpdateAppStatus and the check, and what they do inside of these steps is left out.
--   SetResourceStatus is in ResourceStatus, the notifications in Notify, UpdateAppStatus and
--   WaitPendingChecks in Checks. Invariant says what a valid map is; Keeps, Histories, Outcome,
--   Waits and Notified have the theorems, Refinement the one machine of every fragment that the map
--   implements, Progress when a wait ends, Ready what its end says.
-- - Handler: pkg/handler/manager.go and pkg/handler/handler.go. Process is processRequest, Loop
--   the retries of a stage (deploymentLoopStage), Monitoring the entry that a stage adds
--   (getMonitoringData), Undeploy the two ways to undeploy, Requests the requests and their
--   checks, Queue the queue of internal/structures/requests_queue.go with Execute and Run. The
--   answers of the executor, and what other goroutines do to the monitor while a stage is
--   deployed, are parameters (Loop.Attempt, Process.Cluster).
-- - Names: pkg/common/common.go, GetNetworkingName of pkg/network/utils.go and ReformatLabel of
--   pkg/kubernetes/kubernetes_utils.go. A slice of a string is one of bytes, as in Go
--   (Common/Strings); one out of range, which panics, is none.
-- - Deployables: the parts of a stage in pkg/kubernetes. Labels are the labels and selectors of all
--   of them, Selectors which pods they find. Deployment and Environment are the Build of
--   kubernetes_deployment.go, Volumes its volumes (with Files, Mounted and Provided); Storages is
--   kubernetes_storages.go (with Claims), Objects the services, device groups, config maps and
--   secrets, Endpoints the ingresses and load balancers (with Exclusive). Loops are the loops of
--   Deploy and Undeploy that the parts share (with Created and Groups), Namespace is
--   kubernetes_namespace.go.
-- - Decorators: Istio is pkg/decorators/network/istio (with Mesh and Served), ZeroTier is
--   pkg/decorators/network/zerotier (with Inbounds, Agents and Repeated), which adds containers and
--   deployments to those of Deployables/Deployment.
-- - Kubernetes: Controller is pkg/kubernetes/kubernetes_controller.go, whose callbacks report
--   the status of resources to the monitor, Stage the parts of a stage in
--   pkg/kubernetes/kubernetes_deployable.go, Executor the namespace of an application and the
--   removal of a fragment in pkg/kubernetes/kubernetes_executor.go.
-- - Events: pkg/kubernetes/events/dispatcher.go, which hands the events of Kubernetes to the
--   callbacks and retries them. Informers is what an informer calls: OnAdd, OnUpdate and OnDelete.
-- - Metrics: pkg/metrics and pkg/kubernetes/metrics_translator.go, what the events count.
-- - Helper: pkg/monitor/monitor_helper.go, the round in which conductor is told what changed.
-- - Offline: pkg/offline-policy/manager.go, which removes all applications.
-- - Network: pkg/network, the routes and network memberships of the pods. Session is the call to
--   the cluster API with a new authentication, which Network and Helper share.
-- - Configuration: pkg/config/config.go, what is asked of the configuration.
-- - Common: the types and lemmas that these share; Tests: runs at concrete inputs.
--
-- Numbers are natural numbers, or integers where the source counts down; the counters move by
-- one at a time, so that the wrap-around of Go's 64-bit integers is out of reach and left out.
-- The retry loop is a recursion on the rounds that the bound allows. WaitPendingChecks is a
-- recursion on the events that it meets, and the wait of a stage ends with the timeout. The
-- worker of the dispatcher runs on fuel, of which six rounds are enough, the loop of Run on one
-- more than there are requests, the Deploy of a namespace, which calls itself, on two rounds, and
-- the digits of a number on one more than the number. An error is its text, or none; time is left
-- out, but for the order of what happens.
--
-- Not modelled: the fields of Kubernetes objects that are the same for all of them, the calls of
-- the storage fabric, the secret of the public registry, what Istio does to ingresses and
-- namespaces, the provider and watcher of the events, the login and the connections of gRPC, the
-- HTTP endpoint of the metrics, the proxy, the wiring of the servers, and logging. What the source
-- calls of other packages (the Kubernetes client, its stores and queues, gRPC, the lower case of
-- Unicode) is a parameter of the definitions that use it.
mod Common
pub mod Entities
pub mod Monitored
pub mod Handler
pub mod Session
pub mod Network
pub mod Events
pub mod Metrics
pub mod Decorators
pub mod Deployables
pub mod Kubernetes
pub mod Helper
pub mod Names
pub mod Offline
pub mod Configuration
mod Tests
