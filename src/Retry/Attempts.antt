-- ===== src/Retry/Attempts.antt =====
-- Which attempts `run_with_retry` makes, and how it ends.
use optimizr_actions.Prelude.{
  ℕ, zero, suc, ◌+◌, ◌-◌, ◌≤◌, ◌<◌, ◌≡◌, ◌≢◌, refl, sym, ap, inl, inr, true, false, Bool-cases,
  List, [], ◌∷◌, ◌++◌, Text, leb, ◌==◌, ◌∙◌, arith,
}
use native.Mathlib.Decide.{ℕ_discrete}
use optimizr_actions.Prelude.Integers.{ℤ}
use optimizr_actions.Retry.Patterns.{CharTables, Failure, permanent, transient, unclassified}
use optimizr_actions.Retry.Run.{
  Outcome, Classification, success, recovered, permanent_failure, unclassified_failure,
  transient_exhausted, retry_disabled, RetryResult, Event, ran, slept, stderr_shown,
  notice_recovered, warning_initial, warning_transient, error_disabled, error_failed, observed,
  failure_of, succeeded, failure_code, show_stderr, give_up, succeed, pause, prepend, resume,
  after_failure, after_attempt, attempt_loop, run_from,
}

-- The attempts of a trace, in order.
abbrev pub runs : List Event → List ℕ
runs [] = []
runs (ran n ∷ events) = n ∷ runs events
runs (_ ∷ events) = runs events

-- The numbers from `n` on, `count` of them.
abbrev pub count_up : ℕ → ℕ → List ℕ
count_up n zero = []
count_up n (suc count) = n ∷ count_up (n + 1) count

runs-append : (xs ys : List Event) → runs (xs ++ ys) ≡ runs xs ++ runs ys
runs-append [] ys = refl
runs-append (ran n ∷ xs) ys = ap (◌∷◌ n) (runs-append xs ys)
runs-append (slept n ∷ xs) ys = runs-append xs ys
runs-append (stderr_shown n ∷ xs) ys = runs-append xs ys
runs-append (notice_recovered n ∷ xs) ys = runs-append xs ys
runs-append (warning_initial n m ∷ xs) ys = runs-append xs ys
runs-append (warning_transient n m d ∷ xs) ys = runs-append xs ys
runs-append (error_disabled n ∷ xs) ys = runs-append xs ys
runs-append (error_failed c n m ∷ xs) ys = runs-append xs ys

runs-show_stderr : (s : Text) → runs (show_stderr s) ≡ []
unfolding show_stderr
runs-show_stderr [] = refl
runs-show_stderr (c ∷ s) = refl

runs-round :
    (n : ℕ) (s : Text) (events : List Event)
    → runs (ran n ∷ show_stderr s ++ events) ≡ n ∷ runs events
runs-round n s events = rw (runs-append (show_stderr s) events, runs-show_stderr s)

failure_code-pos : (c : ℤ) → 0 < failure_code c
failure_code-pos c = ground arith

module _ (tables : CharTables) (label : Text) (runner : ℕ → Outcome) (attempts backoff : ℕ) where
  abbrev pub HasSucceeded : RetryResult → Type 0
  HasSucceeded r =
      (succeeded (observed label runner r.attempts).returncode ≡ true)
      × (r.returncode ≡ 0)
      × (r.stdout ≡ (observed label runner r.attempts).stdout)

  abbrev pub IsFailure : ℕ → Failure → Type 0
  IsFailure n f =
      (succeeded (observed label runner n).returncode ≡ false)
      × (failure_of label runner tables n ≡ f)

  abbrev pub HasFailed : Failure → RetryResult → Type 0
  HasFailed f r = IsFailure r.attempts f × (0 < r.returncode) × (r.stdout ≡ [])

  -- What each classification says of the last attempt.
  abbrev pub EndsAs : Classification → RetryResult → Type 0
  EndsAs success r = HasSucceeded r × (r.attempts ≡ 1)
  EndsAs recovered r = HasSucceeded r × (r.attempts ≢ 1)
  EndsAs permanent_failure r = HasFailed permanent r
  EndsAs unclassified_failure r = HasFailed unclassified r
  EndsAs transient_exhausted r = HasFailed transient r × (r.attempts ≡ attempts)
  EndsAs retry_disabled r = ⊥

  -- A run that began after attempt `prior`: its attempts are the next ones without a gap, each but
  -- the last failed with a transient signature, and the last one gives the result.
  pub record Decided (prior : ℕ) (out : RetryResult × List Event) : Type 0 where
    pub later : prior ≤ out.0.attempts
    pub bounded : out.0.attempts ≤ attempts
    pub made : runs out.1 ≡ count_up (prior + 1) (out.0.attempts - prior)
    pub retried : (n : ℕ) → prior < n → n < out.0.attempts → IsFailure n transient
    pub ended : EndsAs out.0.classification out.0

  runs-pause :
      (c n : ℕ) (events : List Event)
      → runs (pause tables label runner attempts backoff c n ++ events) ≡ runs events
  unfolding pause
  runs-pause c n events = ground arith

  -- A round that ends the run.
  last_round :
      (prior : ℕ) (s : Text) (r : RetryResult) (events : List Event)
      → r.attempts ≡ prior + 1
      → prior < attempts
      → runs events ≡ []
      → EndsAs r.classification r
      → Decided prior (r, ran (prior + 1) ∷ show_stderr s ++ events)
  last_round prior s r events e b none h = record {
    later = omega arith;
    bounded = omega arith;
    made =
        let one : r.attempts - prior ≡ 1 = omega arith in
        rw (runs-round (prior + 1) s events, none, one) refl;
    retried = λ n lo hi. absurd (omega arith);
    ended = h;
  }

  -- A round after which the loop goes on.
  next_round :
      (prior : ℕ) (s : Text) (c : ℕ) (next : RetryResult × List Event)
      → IsFailure (prior + 1) transient
      → Decided (prior + 1) next
      → Decided prior (
          prepend
            (ran (prior + 1) ∷ show_stderr s)
            (prepend (pause tables label runner attempts backoff c (prior + 1)) next))
  next_round prior s c next failed d = record {
    later = omega (arith, d.later);
    bounded = d.bounded;
    made =
        let e : next.0.attempts - prior ≡ suc (next.0.attempts - (prior + 1)) =
          omega (arith, d.later) in
        rw (runs-round (prior + 1) s _, runs-pause c (prior + 1) next.1, d.made, e) refl;
    retried = λ n lo hi. elim (ℕ_discrete n (prior + 1)) [
      | yes same ↦ rw same failed
      | no other ↦ d.retried n (omega arith) hi
    ];
    ended = d.ended;
  }

  after_failure-Decided :
      (f : Failure) (prior : ℕ) (s : Text) (c : ℕ) (next : RetryResult × List Event)
      → prior < attempts
      → 0 < c
      → IsFailure (prior + 1) f
      → (IsFailure (prior + 1) transient → Decided (prior + 1) next)
      → Decided prior (
          prepend
            (ran (prior + 1) ∷ show_stderr s)
            (after_failure tables label runner attempts backoff f c (prior + 1) next))
  unfolding after_failure give_up
  after_failure-Decided permanent prior s c next b p h go =
      last_round prior s _ _ refl b refl (h, p, refl)
  after_failure-Decided unclassified prior s c next b p h go =
      last_round prior s _ _ refl b refl (h, p, refl)
  after_failure-Decided transient prior s c next b p h go = next_round prior s c next h (go h)

  succeed-EndsAs :
      (n : ℕ)
      → succeeded (observed label runner n).returncode ≡ true
      → EndsAs (succeed label runner n).0.classification (succeed label runner n).0
  unfolding succeed
  succeed-EndsAs n h = elim (Bool-cases (n == 1)) [
    | inl once ↦ rw once ((h, refl, refl), ground arith)
    | inr more ↦ rw more ((h, refl, refl), ground arith)
  ]

  runs-succeed : (n : ℕ) → runs (succeed label runner n).1 ≡ []
  unfolding succeed
  runs-succeed n = ground arith

  after_attempt-Decided :
      (prior : ℕ) (s : Text) (next : RetryResult × List Event)
      → prior < attempts
      → (IsFailure (prior + 1) transient → Decided (prior + 1) next)
      → Decided prior (
          prepend
            (ran (prior + 1) ∷ show_stderr s)
            (after_attempt tables label runner attempts backoff (prior + 1) next))
  unfolding after_attempt
  after_attempt-Decided prior s next b go =
      elim (Bool-cases (succeeded (observed label runner (prior + 1)).returncode)) [
        | inl good ↦ rw good (
            last_round prior s _ _ refl b (runs-succeed (prior + 1))
              (succeed-EndsAs (prior + 1) good))
        | inr bad ↦
            rw bad (after_failure-Decided _ prior s _ next b (failure_code-pos _) (bad, refl) go)
      ]

  -- The loop after a transient failure.
  attempt_loop-Decided :
      (left attempt : ℕ)
      → attempt + left ≡ attempts
      → IsFailure attempt transient
      → Decided attempt (
          attempt_loop tables label runner attempts backoff left attempt transient
            (failure_code (observed label runner attempt).returncode))
  unfolding attempt_loop give_up
  attempt_loop-Decided zero attempt e h = record {
    later = omega arith;
    bounded = omega arith;
    made = let none : attempt - attempt ≡ 0 = omega arith in rw none refl;
    retried = λ n lo hi. absurd (omega arith);
    ended = ((h, failure_code-pos _, refl), omega arith);
  }
  attempt_loop-Decided (suc left) attempt e h =
      after_attempt-Decided attempt _ _ (omega arith)
        (λ failed. rw failed.1 (attempt_loop-Decided left (attempt + 1) (omega arith) failed))

  first_loop-Decided :
      (left prior : ℕ)
      → prior + left ≡ attempts
      → 0 < left
      → Decided prior (attempt_loop tables label runner attempts backoff left prior unclassified 1)
  unfolding attempt_loop
  first_loop-Decided zero prior e p = absurd (omega arith)
  first_loop-Decided (suc left) prior e p =
      after_attempt-Decided prior _ _ (omega arith)
        (λ failed. rw failed.1 (attempt_loop-Decided left (prior + 1) (omega arith) failed))

  runs-resume :
      (prior : ℕ) (events : List Event)
      → runs (resume tables label runner attempts backoff prior ++ events) ≡ runs events
  unfolding resume
  runs-resume prior events = ground arith

  -- With attempts left, the run is decided; with none left, nothing is run.
  pub run_from-Decided :
      (prior : ℕ)
      → prior < attempts
      → Decided prior (run_from tables label runner attempts backoff prior)
  unfolding run_from
  run_from-Decided prior b =
      let e : leb attempts prior ≡ false = ground arith in
      let d = first_loop-Decided (attempts - prior) prior (omega arith) (omega arith) in
      rw e (record {
        later = d.later;
        bounded = d.bounded;
        made = runs-resume prior _ ∙ d.made;
        retried = d.retried;
        ended = d.ended;
      })

  first_run :
      (left prior : ℕ) (f : Failure) (c : ℕ)
      → 0 < left
      → (rest : List ℕ) × (runs (attempt_loop tables label runner attempts backoff left prior f c).1
          ≡ (prior + 1) ∷ rest)
  unfolding attempt_loop
  first_run zero prior f c p = absurd (omega arith)
  first_run (suc left) prior f c p = (
    _,
    runs-round (prior + 1) (observed label runner (prior + 1)).stderr
        (after_attempt tables label runner attempts backoff (prior + 1) (
          attempt_loop tables label runner attempts backoff left (prior + 1)
            (failure_of label runner tables (prior + 1))
            (failure_code (observed label runner (prior + 1)).returncode))).1,
  )

  -- With attempts left, the next one is made.
  pub run_from-begins :
      (prior : ℕ)
      → prior < attempts
      → (rest : List ℕ) × (runs (run_from tables label runner attempts backoff prior).1
          ≡ (prior + 1) ∷ rest)
  unfolding run_from
  run_from-begins prior b =
      let e : leb attempts prior ≡ false = ground arith in
      let (rest, first) = first_run (attempts - prior) prior unclassified 1 (omega arith) in
      rw e (rest, runs-resume prior _ ∙ first)

  count_up-nonempty : (n count : ℕ) (rest : List ℕ) → count_up n count ≡ n ∷ rest → 0 < count
  count_up-nonempty n zero rest h = absurd cc
  count_up-nonempty n (suc count) rest h = omega arith

  pub run_from-progress :
      (prior : ℕ)
      → prior < attempts
      → prior < (run_from tables label runner attempts backoff prior).0.attempts
  run_from-progress prior b =
      let (rest, first) = run_from-begins prior b in
      let d = run_from-Decided prior b in
      let more = count_up-nonempty (prior + 1) _ rest (sym d.made ∙ first) in
      omega (arith, d.later, more)
