-- ===== src/Domain.antt =====
-- internal/domain: orders, errors, events, the outbox and the dead letter queue.
pub mod Platform
pub mod Order
pub mod Error
pub mod Event
