-- ===== src/Syncutil.antt =====
-- internal/syncutil: caches behind a lock.
pub mod MapCache
pub mod TtlCache
