-- ===== src/Proxy.antt =====
-- The proxy for the API of GitHub: internal/proxy.
pub mod Response
pub mod Router
