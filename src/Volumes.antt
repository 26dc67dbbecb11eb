-- ===== src/Volumes.antt =====
-- scripts/deploy/volume_probe_contract.py: volumes and networks that a deployment needs.
pub mod Contract
pub mod Docker
pub mod Resources
pub mod Probes
mod Examples
