-- ===== src/Network.antt =====
-- pkg/network: the routes and the network connections of the pods of an application.
pub mod Updater
pub mod Sends
pub mod Selection
pub mod Delivery
pub mod Requests
pub mod Manager
pub mod Routes
