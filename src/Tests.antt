-- ===== src/Tests.antt =====
-- Runs of the model at concrete inputs: the theorems at inputs that meet their hypotheses, and tests.
mod Data
mod Monitoring
mod Progress
mod Handling
mod Network
mod Platform
mod Deployables
mod Mesh
mod Sidecars
mod Informers
mod Executor
