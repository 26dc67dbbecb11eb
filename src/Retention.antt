-- ===== src/Retention.antt =====
-- .github/actions/deploy-snapshot-retention/prune.py: the retention of deploy snapshots.
-- Times are microseconds since the start of year 1. A path is written as its name below the root.
-- Python's `survivors` and `deletions` are kept with their last element first, so that `append`
-- and `pop` work at the head of the list.
pub mod Selection
pub mod Run
pub mod Accounting
pub mod Untouched
mod Examples
