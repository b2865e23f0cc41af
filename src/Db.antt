-- ===== src/Db.antt =====
-- pkg/db and the tables of migrations/: rows, statements, transactions, and what a run may meet.
pub mod Tables
pub mod World
pub mod Client
