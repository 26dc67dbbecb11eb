-- ===== src/Retry.antt =====
-- scripts/container_release/retry_network.py: one registry command with bounded retry.
pub mod Patterns
pub mod Run
pub mod Attempts
pub mod Sleeps
pub mod Contract
mod Examples
