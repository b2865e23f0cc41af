-- ===== src/Repository.antt =====
-- internal/repository/postgres: the SQL of each repository, and the caches in front of the orders.
pub mod Orders
pub mod Outbox
pub mod Dlq
pub mod Cached
