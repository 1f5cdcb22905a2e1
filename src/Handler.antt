-- ===== src/Handler.antt =====
-- pkg/handler: the manager that deploys and undeploys the fragments of applications, and the
-- checks of the requests that reach it.
pub mod Requests
pub mod Loop
pub mod Retries
pub mod Monitoring
pub mod Process
pub mod Stages
pub mod Failures
pub mod Validity
pub mod Undeploy
pub mod Queue
