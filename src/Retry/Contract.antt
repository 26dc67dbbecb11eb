-- ===== src/Retry/Contract.antt =====
-- What `run_with_retry` promises its callers.
use optimizr_actions.Prelude.{
  ℕ, ◌-◌, ◌*◌, ◌≤◌, ◌<◌, ◌≡◌, ◌≢◌, ◌↔◌, refl, sym, ap, ◌∙◌, ◌⊎◌, inl, inr, true, Bool-cases, List,
  [], Text, leb, ltb, ok, arith,
}
use optimizr_actions.Prelude.Integers.{ℤ, pos, pos_part, leb_ℤ, ltb_ℤ}
use optimizr_actions.Retry.Patterns.{CharTables}
use optimizr_actions.Retry.Run.{
  Outcome, success, recovered, retry_disabled, RetryResult, Event, max_attempts,
  max_backoff_seconds, max_sleep_seconds, validate_bounds, run_from, run_with_retry,
}
use optimizr_actions.Retry.Attempts.{
  runs, Decided, EndsAs, run_from-Decided, run_from-begins, run_from-progress,
}
use optimizr_actions.Retry.Sleeps.{slept_total, run_from-slept}

-- The arguments that the wrapper accepts.
abbrev pub IsAccepted : List Text → ℤ → ℤ → ℤ → Type 0
IsAccepted command attempts backoff prior =
    (command ≢ [])
    × (leb_ℤ (pos 1) attempts ≡ true)
    × (leb_ℤ attempts (pos max_attempts) ≡ true)
    × (leb_ℤ (pos 0) backoff ≡ true)
    × (leb_ℤ backoff (pos max_backoff_seconds) ≡ true)
    × (leb_ℤ (pos 0) prior ≡ true)
    × (ltb_ℤ prior (pos max_attempts) ≡ true)

-- No attempts were left: nothing is run, and the result is a failure.
abbrev pub IsDisabled : ℕ → ℕ → RetryResult × List Event → Type 0
IsDisabled attempts spent out =
    (attempts ≤ spent)
    × (out.0.classification ≡ retry_disabled)
    × (out.0.returncode ≡ 1)
    × (out.0.attempts ≡ spent)
    × (runs out.1 ≡ [])

module _ (tables : CharTables) (runner : ℕ → Outcome) (command : List Text) (label : Text)
    (attempts backoff prior : ℤ) where
  -- The command is run exactly when attempts are left.
  abbrev pub Runs : RetryResult × List Event → Type 0
  Runs out = (runs out.1 ≢ []) ↔ (pos_part prior < pos_part attempts)

  run_with_retry-IsAccepted :
      (out : RetryResult × List Event)
      → run_with_retry tables runner command label attempts backoff prior ≡ ok out
      → IsAccepted command attempts backoff prior
        × (out
            ≡ run_from tables label runner (pos_part attempts) (pos_part backoff) (pos_part prior))
  unfolding run_with_retry validate_bounds
  run_with_retry-IsAccepted out h = ground arith

  run_from-IsDisabled : (a b p : ℕ) → a ≤ p → IsDisabled a p (run_from tables label runner a b p)
  unfolding run_from
  run_from-IsDisabled a b p h =
      let e : leb a p ≡ true = ground arith in rw e (h, refl, refl, refl, refl)

  returned :
      (out : RetryResult × List Event)
      → run_with_retry tables runner command label attempts backoff prior ≡ ok out
      → Runs out
  returned out h =
      let e = (run_with_retry-IsAccepted out h).1 in
      (
        λ some_run. elim (Bool-cases (ltb (pos_part prior) (pos_part attempts))) [
          | inl room ↦ ground arith
          | inr full ↦ absurd (
              some_run (
                ap (λ o. runs o.1) e
                ∙ (run_from-IsDisabled (pos_part attempts) (pos_part backoff) (pos_part prior)
                    (ground arith)).4))
        ],
        λ room none_run.
            let (rest, first) =
              run_from-begins tables label runner (pos_part attempts) (pos_part backoff)
                (pos_part prior) room in
            let clash = sym none_run ∙ ap (λ o. runs o.1) e ∙ first in absurd cc,
      )

  -- The wrapper returns exactly when there is a command, the attempts are 1 to 5, the backoff is 0 to
  -- 30 seconds and the attempts already spent are 0 to 4; otherwise it raises. A call that returns has
  -- run the command at least once exactly when fewer attempts were spent than are allowed.
  pub run_with_retry-accepts :
      (((out : RetryResult × List Event) × (run_with_retry tables runner command label attempts
              backoff prior
            ≡ ok out))
        ↔ IsAccepted command attempts backoff prior)
      × ((out : RetryResult × List Event)
          → run_with_retry tables runner command label attempts backoff prior ≡ ok out
          → Runs out)
  unfolding run_with_retry validate_bounds
  run_with_retry-accepts = (
    (
      λ (out, h). (run_with_retry-IsAccepted out h).0,
      λ a. (
        run_from tables label runner (pos_part attempts) (pos_part backoff) (pos_part prior),
        ground arith,
      ),
    ),
    returned,
  )

  -- A run that is accepted either has no attempts left, because those already spent reach the limit,
  -- and then nothing is run and it fails; or it makes at least one attempt, and its attempts follow
  -- those already spent without a gap, never past the limit. Each attempt but the last failed with a
  -- transient signature, and the last one alone decides the result: its output if it succeeded, an
  -- empty output and a positive exit code if not.
  pub run_with_retry-Decided :
      (out : RetryResult × List Event)
      → run_with_retry tables runner command label attempts backoff prior ≡ ok out
      → (Decided tables label runner (pos_part attempts) (pos_part backoff) (pos_part prior) out
          × (pos_part prior < out.0.attempts))
        ⊎ IsDisabled (pos_part attempts) (pos_part prior) out
  run_with_retry-Decided out h =
      let e = (run_with_retry-IsAccepted out h).1 in
      elim (Bool-cases (ltb (pos_part prior) (pos_part attempts))) [
        | inl room ↦ inl (
            rw e (
              run_from-Decided tables label runner (pos_part attempts) (pos_part backoff)
                  (pos_part prior) (ground arith),
              run_from-progress tables label runner (pos_part attempts) (pos_part backoff)
                  (pos_part prior) (ground arith),
            ))
        | inr full ↦ inr (
            rw e (
              run_from-IsDisabled (pos_part attempts) (pos_part backoff) (pos_part prior)
                (ground arith)))
      ]

  -- An accepted run makes at most 5 attempts in all and sleeps for at most 240 seconds.
  pub run_with_retry-bounds :
      (out : RetryResult × List Event)
      → run_with_retry tables runner command label attempts backoff prior ≡ ok out
      → (out.0.attempts ≤ max_attempts) × (slept_total out.1 ≤ 240)
  run_with_retry-bounds out h =
      let (accepted, e) = run_with_retry-IsAccepted out h in
      let slept : slept_total out.1 ≤ max_sleep_seconds * (out.0.attempts - 1) = rw e (
        run_from-slept tables label runner (pos_part attempts) (pos_part backoff)
          (pos_part prior)) in
      let bounded : out.0.attempts ≤ max_attempts = elim (run_with_retry-Decided out h) [
        | inl d ↦ at_most attempts accepted.2 d.0.bounded
        | inr off ↦ below prior accepted.6 off.3
      ] in
      (bounded, omega arith)
    where
      at_most :
          (a : ℤ)
          → leb_ℤ a (pos max_attempts) ≡ true
          → out.0.attempts ≤ pos_part a
          → out.0.attempts ≤ max_attempts
      at_most a k b = ground arith

      below :
          (p : ℤ)
          → ltb_ℤ p (pos max_attempts) ≡ true
          → out.0.attempts ≡ pos_part p
          → out.0.attempts ≤ max_attempts
      below p k b = ground arith

  ends-zero :
      (a b : ℕ) (r : RetryResult)
      → EndsAs tables label runner a b r.classification r
      → (r.returncode ≡ 0) ↔ ((r.classification ≡ success) ⊎ (r.classification ≡ recovered))
  ends-zero a b r h = ground arith

  -- The exit code is 0 exactly when the result is classified as a success.
  pub run_with_retry-exit_code :
      (out : RetryResult × List Event)
      → run_with_retry tables runner command label attempts backoff prior ≡ ok out
      → (out.0.returncode ≡ 0)
        ↔ ((out.0.classification ≡ success) ⊎ (out.0.classification ≡ recovered))
  run_with_retry-exit_code out h = elim (run_with_retry-Decided out h) [
    | inl d ↦ ends-zero (pos_part attempts) (pos_part backoff) out.0 d.0.ended
    | inr off ↦ ground arith
  ]
