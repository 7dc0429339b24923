-- ===== src/Config.antt =====
-- internal/config: the guard policies of the configuration.
pub mod Failure
pub mod Integrity
pub mod Scope
pub mod Sink
pub mod Policy
pub mod Env
pub mod Build
pub mod Codec
pub mod Parse
pub mod Rules
