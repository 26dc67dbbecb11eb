-- ===== src/Delivery.antt =====
-- scripts/delivery: the protected delivery of one commit to a host.
pub mod Gates
pub mod Request
pub mod Executor
pub mod Rollback
