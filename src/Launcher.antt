-- ===== src/Launcher.antt =====
-- internal/launcher: the backend connections, the state of the servers and their health checks.
pub mod Pool
pub mod State
pub mod Health
