-- ===== src/PullRequest.antt =====
-- .github/actions/pr-metadata-validation/validate.py: what a pull request has to be like.
pub mod Transport
pub mod Pages
pub mod Lifecycle
mod Examples
