-- ===== src/Remediation.antt =====
-- scripts/security_gate/remediation_lifecycle.py and remediation_window.py: when a known
-- vulnerability may wait for its fix.
pub mod Calendar
pub mod Lifecycle
pub mod Window
