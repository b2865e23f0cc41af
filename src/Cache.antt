-- ===== src/Cache.antt =====
-- pkg/cache: the cache with least-recently-used eviction and expiry.
pub mod Lru
