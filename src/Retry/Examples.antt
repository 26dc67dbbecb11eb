-- ===== src/Retry/Examples.antt =====
-- A registry that loses its route once and then answers.
use optimizr_actions.Prelude.{
  ℕ, zero, suc, ◌≡◌, ◌≢◌, ◌≤◌, ◌<◌, ◌↔◌, ◌⊎◌, refl, List, [], ◌∷◌, codes, Text, ◌||◌, ◌==◌, ok,
}
use optimizr_actions.Prelude.Regex.{is_ascii_alnum, between, search, fold}
use optimizr_actions.Prelude.Integers.{pos}
use optimizr_actions.Retry.Patterns.{CharTables, permanent, transient, unclassified, classify}
use optimizr_actions.Retry.Run.{
  Outcome, completed, RetryResult, Event, success, recovered, ran, slept, stderr_shown,
  warning_transient, notice_recovered, run_with_retry, max_attempts,
}
use optimizr_actions.Retry.Attempts.{runs, Decided}
use optimizr_actions.Retry.Contract.{
  IsAccepted, IsDisabled, run_with_retry-accepts, run_with_retry-Decided, run_with_retry-bounds,
  run_with_retry-exit_code,
}

abbrev ascii : CharTables
ascii = record { is_word = λ c. is_ascii_alnum c || c == b'_'; is_decimal = between b'0' b'9' }

program : Unit {0}
unfolding run_with_retry classify search fold
program = tt

classify_transient : classify ascii (codes "dial tcp: No Route to Host") ≡ transient
unfolding program
classify_transient = refl

classify_denied : classify ascii (codes "denied: connection reset by peer") ≡ permanent
unfolding program
classify_denied = refl

classify_status : classify ascii (codes "unexpected status code: 503") ≡ transient
unfolding program
classify_status = refl

classify_in_word : classify ascii (codes "undenied") ≡ unclassified
unfolding program
classify_in_word = refl

abbrev flaky : ℕ → Outcome
flaky zero = completed (pos 1) [] []
flaky (suc zero) = completed (pos 1) [] (codes "i/o timeout")
flaky (suc (suc n)) = completed (pos 0) (codes "{}") []

abbrev docker : List Text
docker = codes "docker" ∷ []

abbrev outcome : RetryResult × List Event
outcome = (
  record { returncode = 0; attempts = 2; classification = recovered; stdout = codes "{}" },
  ran 1
      ∷ stderr_shown (codes "i/o timeout")
      ∷ warning_transient 1 1 5
      ∷ slept 5
      ∷ ran 2
      ∷ notice_recovered 2
      ∷ [],
)

run : run_with_retry ascii flaky docker (codes "pull") (pos 3) (pos 5) (pos 0) ≡ ok outcome
unfolding program
run = refl

run_with_retry-accepts_example :
    (((out : RetryResult × List Event) × (run_with_retry ascii flaky docker
            (codes "pull")
            (pos 3)
            (pos 5)
            (pos 0)
          ≡ ok out))
      ↔ IsAccepted docker (pos 3) (pos 5) (pos 0))
    × ((out : RetryResult × List Event)
        → run_with_retry ascii flaky docker (codes "pull") (pos 3) (pos 5) (pos 0) ≡ ok out
        → (runs out.1 ≢ []) ↔ (0 < 3))
run_with_retry-accepts_example =
    run_with_retry-accepts ascii flaky docker (codes "pull") (pos 3) (pos 5) (pos 0)

run_with_retry-Decided_example :
    (Decided ascii (codes "pull") flaky 3 5 0 outcome × (0 < outcome.0.attempts))
    ⊎ IsDisabled 3 0 outcome
run_with_retry-Decided_example =
    run_with_retry-Decided ascii flaky docker (codes "pull") (pos 3) (pos 5) (pos 0) outcome run

run_with_retry-bounds_example : (2 ≤ max_attempts) × (5 ≤ 240)
run_with_retry-bounds_example =
    run_with_retry-bounds ascii flaky docker (codes "pull") (pos 3) (pos 5) (pos 0) outcome run

run_with_retry-exit_code_example :
    (outcome.0.returncode ≡ 0)
    ↔ ((outcome.0.classification ≡ success) ⊎ (outcome.0.classification ≡ recovered))
run_with_retry-exit_code_example =
    run_with_retry-exit_code ascii flaky docker (codes "pull") (pos 3) (pos 5) (pos 0) outcome run
