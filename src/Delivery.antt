-- ===== src/Delivery.antt =====
-- go-core/internal/delivery: the in-memory message bus and the delivery supervisor.
pub mod Bus
pub mod Interface
pub mod Record
pub mod Supervisor
pub mod Workers
