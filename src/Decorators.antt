-- ===== src/Decorators.antt =====
-- pkg/decorators/network: what a kind of network adds to the parts of a stage.
pub mod Istio
pub mod Mesh
pub mod Served
pub mod ZeroTier
pub mod Inbounds
pub mod Agents
pub mod Repeated
