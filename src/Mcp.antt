-- ===== src/Mcp.antt =====
-- internal/mcp: the client side of the protocol.
pub mod Pagination
pub mod Result
