-- ===== src/Security.antt =====
-- scripts/security_gate: what the scans of an image mean for its promotion.
pub mod Classifications
pub mod Aggregate
pub mod Promotion
mod Examples
