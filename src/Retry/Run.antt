-- ===== src/Retry/Run.antt =====
-- `run_with_retry`. The runner answers each attempt by its number; what the wrapper prints and how
-- long it sleeps is a list of events, in order.
use optimizr_actions.Prelude.{
  ℕ, zero, suc, ◌+◌, ◌-◌, ◌*◌, ◌^◌, min, Bool, true, false, ◌&&◌, List, [], ◌∷◌, ◌++◌, Text, codes,
  ltb, leb, ◌==◌, if◌then◌else◌, Result, ok, ◌>>◌, guard, raise_if,
}
use mathlib.Core.List.{reverse}
use optimizr_actions.Prelude.Integers.{ℤ, pos, negsuc, pos_part, ltb_ℤ, leb_ℤ}
use optimizr_actions.Retry.Patterns.{
  CharTables, Failure, permanent, transient, unclassified, classify,
}

abbrev pub max_attempts : ℕ
max_attempts = 5

abbrev pub max_backoff_seconds : ℕ
max_backoff_seconds = 30

abbrev pub max_sleep_seconds : ℕ
max_sleep_seconds = 60

-- What `subprocess.run` does: it returns, or it raises `OSError`.
pub data Outcome : Type 0 where
  completed : ℤ → Text → Text → Outcome
  os_error : Text → Outcome

pub data Classification : Type 0 where
  success recovered permanent_failure unclassified_failure : Classification
  transient_exhausted retry_disabled : Classification

pub record RetryResult : Type 0 where
  pub returncode : ℕ
  pub attempts : ℕ
  pub classification : Classification
  pub stdout : Text

-- The messages, with the numbers that they show.
pub data Event : Type 0 where
  ran : (attempt : ℕ) → Event
  slept : (seconds : ℕ) → Event
  stderr_shown : Text → Event
  notice_recovered : (attempt : ℕ) → Event
  warning_initial : (delay next : ℕ) → Event
  warning_transient : (returncode attempt delay : ℕ) → Event
  error_disabled : (prior : ℕ) → Event
  error_failed : Classification → (attempt returncode : ℕ) → Event

pub data RetryError : Type 0 where
  attempts_out_of_range backoff_out_of_range command_required prior_out_of_range : RetryError

unfoldable pub backoff_delay : ℕ → ℕ → ℕ
backoff_delay base_seconds attempt = min (base_seconds * 2 ^ (attempt - 1)) max_sleep_seconds

unfoldable pub validate_bounds : ℤ → ℤ → Result RetryError (Unit {0})
validate_bounds attempts backoff_seconds = do
  guard (leb_ℤ (pos 1) attempts && leb_ℤ attempts (pos max_attempts)) attempts_out_of_range
  guard (leb_ℤ (pos 0) backoff_seconds && leb_ℤ backoff_seconds (pos max_backoff_seconds))
      backoff_out_of_range

-- `returncode`, `stdout` and `stderr` after the `try`.
pub record Observed : Type 0 where
  pub returncode : ℤ
  pub stdout : Text
  pub stderr : Text

abbrev pub observe : Text → Outcome → Observed
observe label (completed code out error) = record {
  returncode = code;
  stdout = out;
  stderr = error;
}
observe label (os_error error) = record {
  returncode = pos 127;
  stdout = [];
  stderr = label ++ codes ": " ++ error;
}

unfoldable pub lstrip_newlines : Text → Text
lstrip_newlines [] = []
lstrip_newlines (c ∷ s) = let rest = lstrip_newlines s in if c == 10 then rest else c ∷ s

-- `if stderr: emit(stderr.rstrip("\n"))`
unfoldable pub show_stderr : Text → List Event
unfolding lstrip_newlines
show_stderr [] = []
show_stderr (c ∷ s) = stderr_shown (reverse (lstrip_newlines (reverse (c ∷ s)))) ∷ []

abbrev pub succeeded : ℤ → Bool
succeeded (pos zero) = true
succeeded (pos (suc n)) = false
succeeded (negsuc n) = false

-- `returncode if returncode > 0 else 1`
abbrev pub failure_code : ℤ → ℕ
failure_code (pos zero) = 1
failure_code (pos (suc n)) = suc n
failure_code (negsuc n) = 1

-- `final`, from the last classification.
abbrev pub final_classification : Failure → Classification
final_classification permanent = permanent_failure
final_classification transient = transient_exhausted
final_classification unclassified = unclassified_failure

unfoldable pub give_up : ℕ → ℕ → Failure → RetryResult × List Event
give_up returncode attempt failure = (
  record {
    returncode = returncode;
    attempts = attempt;
    classification = final_classification failure;
    stdout = [];
  },
  error_failed (final_classification failure) attempt returncode ∷ [],
)

abbrev pub prepend : List Event → RetryResult × List Event → RetryResult × List Event
prepend events (r, later) = (r, events ++ later)

module _ (label : Text) (runner : ℕ → Outcome) where
  abbrev pub observed : ℕ → Observed
  observed attempt = observe label (runner attempt)

  unfoldable pub failure_of : CharTables → ℕ → Failure
  failure_of tables attempt =
      classify tables ((observed attempt).stdout ++ 10 ∷ (observed attempt).stderr)

  -- The `return` inside the loop.
  unfoldable pub succeed : ℕ → RetryResult × List Event
  succeed attempt = (
    record {
      returncode = 0;
      attempts = attempt;
      classification = if attempt == 1 then success else recovered;
      stdout = (observed attempt).stdout;
    },
    if ltb 1 attempt then notice_recovered attempt ∷ [] else [],
  )

module _ (tables : CharTables) (label : Text) (runner : ℕ → Outcome) (attempts backoff : ℕ) where
  -- `if attempt < attempts: …`
  unfoldable pub pause : ℕ → ℕ → List Event
  unfolding backoff_delay
  pause code attempt =
      if ltb attempt attempts
      then warning_transient code attempt (backoff_delay backoff attempt)
        ∷ slept (backoff_delay backoff attempt)
        ∷ []
      else []

  -- What follows a failed attempt, given what the next round of the loop would do.
  unfoldable pub after_failure :
      Failure → ℕ → ℕ → RetryResult × List Event → RetryResult × List Event
  unfolding give_up pause
  after_failure permanent code attempt next = give_up code attempt permanent
  after_failure unclassified code attempt next = give_up code attempt unclassified
  after_failure transient code attempt next = prepend (pause code attempt) next

  unfoldable pub after_attempt : ℕ → RetryResult × List Event → RetryResult × List Event
  unfolding succeed failure_of after_failure
  after_attempt attempt next =
      if succeeded (observed label runner attempt).returncode
      then succeed label runner attempt
      else after_failure (failure_of label runner tables attempt)
          (failure_code (observed label runner attempt).returncode) attempt next

  -- `for attempt in range(…): …` with `left` rounds to go, after `attempt` with its failure.
  unfoldable pub attempt_loop : ℕ → ℕ → Failure → ℕ → RetryResult × List Event
  unfolding after_attempt show_stderr give_up
  attempt_loop zero attempt failure returncode = give_up returncode attempt failure
  attempt_loop (suc left) attempt failure returncode =
      let seen = observed label runner (attempt + 1) in
      let next =
        attempt_loop left (attempt + 1) (failure_of label runner tables (attempt + 1))
          (failure_code seen.returncode) in
      prepend (ran (attempt + 1) ∷ show_stderr seen.stderr) (after_attempt (attempt + 1) next)

  -- What a caller's earlier attempts lead to before the loop.
  unfoldable pub resume : ℕ → List Event
  unfolding backoff_delay
  resume prior =
      if ltb 0 prior
      then warning_initial (backoff_delay backoff prior) (prior + 1)
        ∷ slept (backoff_delay backoff prior)
        ∷ []
      else []

  -- The part of `run_with_retry` after its checks, with the number of attempts already spent.
  unfoldable pub run_from : ℕ → RetryResult × List Event
  unfolding attempt_loop resume
  run_from prior =
      if leb attempts prior
      then (
        record { returncode = 1; attempts = prior; classification = retry_disabled; stdout = [] },
        error_disabled prior ∷ [],
      )
      else prepend (resume prior) (attempt_loop (attempts - prior) prior unclassified 1)

-- `command` is the list of words that the runner runs.
unfoldable pub run_with_retry :
    CharTables
    → (ℕ → Outcome)
    → List Text
    → Text
    → ℤ
    → ℤ
    → ℤ
    → Result RetryError (RetryResult × List Event)
unfolding validate_bounds run_from
run_with_retry tables runner command label attempts backoff_seconds prior = do
  validate_bounds attempts backoff_seconds
  raise_if (elim command [ [] ↦ true | _ ∷ _ ↦ false ]) command_required
  guard (leb_ℤ (pos 0) prior && ltb_ℤ prior (pos max_attempts)) prior_out_of_range
  ok (run_from tables label runner (pos_part attempts) (pos_part backoff_seconds) (pos_part prior))
