-- ===== src/Triage.antt =====
-- scripts/ci/classify_actions_failure.py: what saved evidence of a workflow run shows.
pub mod Evidence
pub mod Causes
mod Examples
