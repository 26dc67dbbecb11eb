-- ===== src/Remediation/Window.antt =====
-- scripts/security_gate/remediation_window.py: policies, observations and the decision on them.
pub mod Observations
pub mod Policy
pub mod Evaluation
pub mod Decision
pub mod Matching
pub mod Coverage
pub mod Allowance
mod Examples
