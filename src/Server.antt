-- ===== src/Server.antt =====
-- packages/mas-server: the broker.
pub mod StateStore
pub mod PeerValidation
pub mod Sessions
pub mod Routing
pub mod Delivery
pub mod Policy
pub mod Ingress
