-- ===== src/Retry/Sleeps.antt =====
-- How long `run_with_retry` sleeps.
use optimizr_actions.Prelude.{
  ℕ, zero, suc, ◌+◌, ◌-◌, ◌*◌, ◌≤◌, ◌<◌, ◌≡◌, refl, Bool-cases, List, [], ◌∷◌, ◌++◌, Text, leb,
  arith, inl, inr, min,
}
use optimizr_actions.Retry.Patterns.{CharTables, Failure, permanent, transient, unclassified}
use optimizr_actions.Retry.Run.{
  Outcome, RetryResult, Event, ran, slept, stderr_shown, notice_recovered, warning_initial,
  warning_transient, error_disabled, error_failed, observed, succeeded, failure_of, failure_code,
  show_stderr, give_up, succeed, pause, prepend, resume, after_failure, after_attempt, attempt_loop,
  run_from, backoff_delay, max_sleep_seconds, transient_exhausted,
}

-- The seconds slept in a trace.
abbrev pub slept_total : List Event → ℕ
slept_total [] = 0
slept_total (slept n ∷ events) = n + slept_total events
slept_total (_ ∷ events) = slept_total events

slept-append : (xs ys : List Event) → slept_total (xs ++ ys) ≡ slept_total xs + slept_total ys
slept-append [] ys = omega arith
slept-append (slept n ∷ xs) ys = omega (arith, slept-append xs ys)
slept-append (ran n ∷ xs) ys = slept-append xs ys
slept-append (stderr_shown n ∷ xs) ys = slept-append xs ys
slept-append (notice_recovered n ∷ xs) ys = slept-append xs ys
slept-append (warning_initial n m ∷ xs) ys = slept-append xs ys
slept-append (warning_transient n m d ∷ xs) ys = slept-append xs ys
slept-append (error_disabled n ∷ xs) ys = slept-append xs ys
slept-append (error_failed c n m ∷ xs) ys = slept-append xs ys

slept-show_stderr : (s : Text) → slept_total (show_stderr s) ≡ 0
unfolding show_stderr
slept-show_stderr [] = refl
slept-show_stderr (c ∷ s) = refl

backoff_delay-le : (base n : ℕ) → backoff_delay base n ≤ max_sleep_seconds
unfolding backoff_delay
backoff_delay-le base n = omega arith

module _ (tables : CharTables) (label : Text) (runner : ℕ → Outcome) (attempts backoff : ℕ) where
  slept-succeed : (n : ℕ) → slept_total (succeed label runner n).1 ≡ 0
  unfolding succeed
  slept-succeed n = ground arith

  -- One pause at most for each further attempt.
  abbrev Within : ℕ → RetryResult × List Event → Type 0
  Within n out = slept_total out.1 + max_sleep_seconds * n ≤ max_sleep_seconds * out.0.attempts

  Within-round :
      (n : ℕ) (s : Text) (out : RetryResult × List Event)
      → Within n out
      → Within n (prepend (ran n ∷ show_stderr s) out)
  Within-round n s out h = omega (arith, slept-append (show_stderr s) out.1, slept-show_stderr s)

  after_attempt-Within :
      (n : ℕ) (next : RetryResult × List Event)
      → (failure_of label runner tables n ≡ transient
          → Within n (
              prepend
                (pause tables label runner attempts backoff
                  (failure_code (observed label runner n).returncode)
                  n)
                next))
      → Within n (after_attempt tables label runner attempts backoff n next)
  unfolding after_attempt succeed after_failure give_up
  after_attempt-Within n next go =
      elim (Bool-cases (succeeded (observed label runner n).returncode)) [
        | inl good ↦ rw good (omega (arith, slept-succeed n))
        | inr bad ↦ rw bad (failing (failure_of label runner tables n) go)
      ]
    where
      failing :
          (f : Failure)
          → (f ≡ transient
              → Within n (
                  prepend
                    (pause tables label runner attempts backoff
                      (failure_code (observed label runner n).returncode)
                      n)
                    next))
          → Within n (
              after_failure tables label runner attempts backoff f
                (failure_code (observed label runner n).returncode)
                n
                next)
      failing permanent go = omega arith
      failing unclassified go = omega arith
      failing transient go = go refl

  pause-le :
      (c n : ℕ) → slept_total (pause tables label runner attempts backoff c n) ≤ max_sleep_seconds
  unfolding pause
  pause-le c n = ground (arith, backoff_delay-le backoff n)

  attempt_loop-Within :
      (left n c d : ℕ)
      → n + left ≡ attempts
      → Within n (
          prepend
            (pause tables label runner attempts backoff d n)
            (attempt_loop tables label runner attempts backoff left n transient c))
  unfolding attempt_loop give_up
  attempt_loop-Within zero n c d e =
      let none : slept_total (pause tables label runner attempts backoff d n) ≡ 0 =
        unfold pause in ground arith in
      omega (
        arith,
        none,
        slept-append (pause tables label runner attempts backoff d n)
            (error_failed transient_exhausted n c ∷ []),
      )
  attempt_loop-Within (suc left) n c d e =
      let seen = observed label runner (n + 1) in
      let next =
        attempt_loop tables label runner attempts backoff left (n + 1)
          (failure_of label runner tables (n + 1)) (failure_code seen.returncode) in
      let round =
        prepend (ran (n + 1) ∷ show_stderr seen.stderr)
          (after_attempt tables label runner attempts backoff (n + 1) next) in
      let h =
        Within-round (n + 1) seen.stderr
          (after_attempt tables label runner attempts backoff (n + 1) next)
          (after_attempt-Within (n + 1) next
            (λ f. rw f (attempt_loop-Within left (n + 1) _ _ (omega arith)))) in
      omega (
        arith,
        h,
        pause-le d n,
        slept-append (pause tables label runner attempts backoff d n) round.1,
      )

  resume-le :
      (prior : ℕ)
      → slept_total (resume tables label runner attempts backoff prior)
        ≤ max_sleep_seconds * min prior 1
  unfolding resume
  resume-le prior = ground (arith, backoff_delay-le backoff prior)

  first_loop-Within :
      (left prior : ℕ)
      → prior + left ≡ attempts
      → 0 < left
      → Within
          (prior + 1)
          (attempt_loop tables label runner attempts backoff left prior unclassified 1)
  unfolding attempt_loop
  first_loop-Within zero prior e p = absurd (omega arith)
  first_loop-Within (suc left) prior e p =
      let seen = observed label runner (prior + 1) in
      let next =
        attempt_loop tables label runner attempts backoff left (prior + 1)
          (failure_of label runner tables (prior + 1)) (failure_code seen.returncode) in
      Within-round (prior + 1) seen.stderr
        (after_attempt tables label runner attempts backoff (prior + 1) next)
        (after_attempt-Within (prior + 1) next
          (λ f. rw f (attempt_loop-Within left (prior + 1) _ _ (omega arith))))

  -- A run sleeps for at most 60 seconds before each attempt but the first.
  pub run_from-slept :
      (prior : ℕ)
      → let out = run_from tables label runner attempts backoff prior in
        slept_total out.1 ≤ max_sleep_seconds * (out.0.attempts - 1)
  unfolding run_from
  run_from-slept prior = elim (Bool-cases (leb attempts prior)) [
    | inl none ↦ rw none (omega arith)
    | inr some ↦ rw some (
        omega (
          arith,
          first_loop-Within (attempts - prior) prior (ground arith) (ground arith),
          resume-le prior,
          slept-append (resume tables label runner attempts backoff prior)
              (attempt_loop tables label runner attempts backoff (attempts - prior) prior
                unclassified 1).1,
        ))
  ]
