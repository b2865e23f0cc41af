-- ===== src/App.antt =====
-- internal/app: the order service.
pub mod Paginate
pub mod Service
pub mod Accept
pub mod Issue
pub mod ReturnClient
pub mod ReturnDelivery
pub mod Queries
pub mod Record
pub mod Outcome
pub mod Concurrent
pub mod Guards
pub mod Progress
pub mod Lifecycle
