-- ===== src/Gateway.antt =====
-- packages/mas-gateway: the policy modules of the message gateway.
pub mod CircuitBreaker
pub mod RateLimit
pub mod Authorization
pub mod Dlp
