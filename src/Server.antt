-- ===== src/Server.antt =====
-- internal/server: the parts of the unified server that keep state between calls.
pub mod CircuitBreaker
pub mod GuardSetup
pub mod Hmac
pub mod RateLimit
pub mod Session
pub mod Tool
pub mod ToolLimit
