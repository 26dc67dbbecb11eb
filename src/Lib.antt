-- ===== src/Lib.antt =====
-- Optimizr Actions: the decision logic of the Python scripts behind the reusable workflows.
--
-- The repository holds GitHub workflows and the scripts that they call. Each script decides something
-- from files, from the environment or from the answers of external tools, and fails closed. This
-- library models the decisions as functions, the effects as values or traces, and the answers of the
-- outside world as arguments.
--
-- Prelude: Boolean tests, lists, texts as lists of code points, dicts in insertion order, sorting,
-- results of calls that may raise, JSON values and regular expressions, as Python has them.
-- Retention: .github/actions/deploy-snapshot-retention/prune.py. `Selection` has the loops of
--   `prune_snapshots`, `Run` its checks, the directory and the report.
-- Retry: scripts/container_release/retry_network.py. `Patterns` has the signatures and `classify`,
--   `Run` has `run_with_retry` as a result and a trace of attempts, sleeps and messages.
-- Remediation: scripts/security_gate/remediation_lifecycle.py. `Calendar` has the timestamps,
--   `Lifecycle` has `normalize_lifecycle`,
--   `Window` has remediation_window.py: `Observations` the fields that it reads, `Policy` its
--   `load_policy`, `Evaluation` one finding and `Decision` the aggregate.
-- Delivery: scripts/delivery. `Gates` has the evidence of gate_evidence.py, `Request` the requests of
--   request.py, `Executor` the locked flow of executor.py as a result and a trace of callbacks, and
--   `Rollback` the plans of rollback.py.
-- Volumes: scripts/deploy/volume_probe_contract.py. `Contract` reads the inputs into a manifest,
--   `Docker` is the monad of programs that call Docker, `Resources` creates networks and volumes and
--   `Probes` verifies containers and writes in them. An `Engine` answers each call from its arguments
--   and all calls before it, so a statement for every engine holds whatever Docker does.
-- Security: scripts/security_gate and .github/actions/security-retry-result. `Classifications` has the
--   names of what a scan may find, `Aggregate` the sums of aggregate.py and `Promotion` the decision of
--   retry_result.py from the scans before and after a rebuild.
-- PullRequest: .github/actions/pr-metadata-validation/validate.py. `Transport` is the client with its
--   retries, over a network and a clock that answer from all that was done before, `Pages` the lists
--   that GitHub gives page by page, and `Lifecycle` the checks of the pull request and its branch.
-- Triage: scripts/ci/classify_actions_failure.py. `Evidence` has `classify_evidence` on a JSON value.
--
-- Choices. Integers that may be negative are ℤ; counts, sizes and times are ℕ. Checks of a type
-- (`isinstance`) of values that the model types have no branch. Messages of exceptions are
-- constructors with the parts that vary. Unicode tables for `\w` and `\d` are arguments. Loops over
-- collections and counted loops are structural; the loop of a request has its 3 attempts as fuel, and
-- does not run out of them; the repetition in a regular expression has the length of the text as its
-- fuel, which suffices because each round consumes a character. Years are written in four digits. Time
-- stamps that Python compares as aware datetimes are compared by the seconds since the start of year 1;
-- the times of the client in `PullRequest` are nanoseconds. `str.casefold`, `int` of a text and `str` of
-- a value that is no text are arguments.
--
-- Not modelled: command lines, file and network access, the external tools, and the parts listed as
-- such in the manifest.
pub mod Prelude
pub mod Retention
pub mod Retry
pub mod Remediation
pub mod Delivery
pub mod Volumes
pub mod Security
pub mod PullRequest
pub mod Triage
