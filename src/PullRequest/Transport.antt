-- ===== src/PullRequest/Transport.antt =====
-- validate.py, `MetadataApiClient`: requests of GitHub's interface, with retries within one budget. Times
-- are counted in nanoseconds.
pub mod Budget
use optimizr_actions.Prelude.{
  ℕ, zero, suc, ◌+◌, ◌-◌, ◌*◌, min, Bool, true, false, not, ◌||◌, Option, none, some, List, [], ◌∷◌,
  Text, leb, ltb, if◌then◌else◌, Result, ok, err, or_raise,
}
use optimizr_actions.Prelude.Json.{Json}
use optimizr_actions.Prelude.Sessions.{Session, lift, ◌>>=◌, ◌>>◌}

-- An exception of the transport, by its class; `system` is an OSError by its number.
pub data Errno : Type 0 where
  econnreset econnaborted econnrefused ehostunreach enetunreach ehostdown another : Errno

pub data Reason : Type 0 where
  tls timed_out : Reason
  unresolved : (try_again : Bool) → Reason
  connection_reset_error connection_aborted_error connection_refused_error : Reason
  system : Errno → Reason
  other_reason : Reason

pub data Category : Type 0 where
  tls_error timeout temporary_dns dns_resolution connection_reset connection_aborted
        connection_refused network_unreachable transport_error http_status :
      Category

-- The category and whether a retry may help.
unfoldable pub classify_transport_error : Reason → Category × Bool
classify_transport_error tls = (tls_error, false)
classify_transport_error timed_out = (timeout, true)
classify_transport_error (unresolved true) = (temporary_dns, true)
classify_transport_error (unresolved false) = (dns_resolution, false)
classify_transport_error connection_reset_error = (connection_reset, true)
classify_transport_error connection_aborted_error = (connection_aborted, true)
classify_transport_error connection_refused_error = (connection_refused, true)
classify_transport_error (system econnreset) = (connection_reset, true)
classify_transport_error (system econnaborted) = (connection_aborted, true)
classify_transport_error (system econnrefused) = (connection_refused, true)
classify_transport_error (system ehostunreach) = (network_unreachable, true)
classify_transport_error (system enetunreach) = (network_unreachable, true)
classify_transport_error (system ehostdown) = (network_unreachable, true)
classify_transport_error (system another) = (transport_error, false)
classify_transport_error other_reason = (transport_error, false)

pub data RequestError : Type 0 where
  metadata_request :
      (category : Category) (attempts : ℕ) (status_code : Option ℕ) (budget_exhausted : Bool)
      → RequestError
  undecodable : RequestError
  not_an_object not_a_list too_many_pages : RequestError
  -- These two do not occur.
  out_of_attempts no_delay : RequestError

-- What comes of a request.
pub data Answer : Type 0 where
  answered : Json → Answer
  not_json : Answer
  http_error : (code : ℕ) → Answer
  failed : Reason → Answer

-- What the client did. `began` is the look at the clock that starts the retries.
pub data Event : Type 0 where
  requested : (url token : Text) (timeout : ℕ) → Event
  looked began : (now : ℕ) → Event
  slept : (delay : ℕ) → Event

abbrev pub second : ℕ
second = 1000000000

abbrev pub request_timeout : ℕ
request_timeout = 30 * second

abbrev pub max_attempts : ℕ
max_attempts = 3

abbrev pub retry_budget : ℕ
retry_budget = 30 * second

-- `RETRY_DELAYS_SECONDS[attempts - 1]`
abbrev pub delay_after : ℕ → Option ℕ
delay_after zero = none
delay_after (suc zero) = some (2 * second)
delay_after (suc (suc zero)) = some (4 * second)
delay_after (suc (suc (suc n))) = none

-- The network and the clock, which see what was done before, newest first.
pub record Network : Type 0 where
  pub respond : (url token : Text) (timeout : ℕ) → List Event → Answer
  pub clock : List Event → ℕ

pub record Client : Type 0 where
  pub retry_started_at : Option ℕ
  pub events : List Event

abbrev pub new_client : Client
new_client = record { retry_started_at = none; events = [] }

abbrev pub Request : Type 0 → Type 0
Request A = Session Client RequestError A

module _ (network : Network) where
  abbrev pub urlopen : Text → Text → ℕ → Request Answer
  urlopen url token limit client = (
    ok (network.respond url token limit client.events),
    record {
      retry_started_at = client.retry_started_at;
      events = requested url token limit ∷ client.events;
    },
  )

  abbrev pub sleep : ℕ → Request (Unit {0})
  sleep delay client = (
    ok tt,
    record { retry_started_at = client.retry_started_at; events = slept delay ∷ client.events },
  )

  -- `if self._retry_started_at is None: self._retry_started_at = self._clock()`
  unfoldable pub start_retries : Request (Unit {0})
  start_retries client = elim client.retry_started_at [
    | some started ↦ (ok tt, client)
    | none ↦
        let now = network.clock client.events in
        (ok tt, record { retry_started_at = some now; events = began now ∷ client.events })
  ]

  unfoldable pub retry_budget_remaining : Request ℕ
  retry_budget_remaining client = elim client.retry_started_at [
    | none ↦ (ok retry_budget, client)
    | some started ↦
        let now = network.clock client.events in
        (
          ok (retry_budget - (now - started)),
          record { retry_started_at = some started; events = looked now ∷ client.events },
        )
  ]

  -- Enough of the budget for the next attempt, or the error that says it is spent.
  unfoldable pub budget_beyond : ℕ → Category → ℕ → Request ℕ
  unfolding retry_budget_remaining
  budget_beyond needed category attempts = do
    remaining ← retry_budget_remaining
    if leb remaining needed
        then lift (err (metadata_request category attempts none true))
        else lift (ok remaining)

  unfoldable pub timeout_of : ℕ → Category → Request ℕ
  unfolding budget_beyond
  timeout_of zero last_category = lift (ok request_timeout)
  timeout_of (suc n) last_category = do
    remaining ← budget_beyond 0 last_category (suc n)
    lift (ok (min request_timeout remaining))

  -- The wait before another attempt.
  unfoldable pub wait : Category → ℕ → Request (Unit {0})
  unfolding start_retries budget_beyond
  wait category attempts = do
    start_retries
    delay ← lift (or_raise (delay_after attempts) no_delay)
    _ ← budget_beyond delay category attempts
    sleep delay
    _ ← budget_beyond 0 category attempts
    lift (ok tt)

  -- What is done with an answer; `again` is the next attempt.
  unfoldable pub handle : Answer → ℕ → (Category → Request Json) → Request Json
  unfolding wait classify_transport_error
  handle (answered value) attempts again = lift (ok value)
  handle not_json attempts again = lift (err undecodable)
  handle (http_error code) attempts again =
      lift (err (metadata_request http_status attempts (some code) false))
  handle (failed reason) attempts again =
      let (category, retryable) = classify_transport_error reason in
      if not retryable || leb max_attempts attempts
      then lift (err (metadata_request category attempts none false))
      else wait category attempts >> again category

  -- `while True: …`, with the attempts that are left as fuel.
  unfoldable pub attempt_loop : ℕ → Text → Text → ℕ → Category → Request Json
  unfolding timeout_of handle
  attempt_loop zero url token attempts last_category = lift (err out_of_attempts)
  attempt_loop (suc fuel) url token attempts last_category = do
    limit ← timeout_of attempts last_category
    answer ← urlopen url token limit
    handle answer (suc attempts) (λ category. attempt_loop fuel url token (suc attempts) category)

  unfoldable pub request_json : Text → Text → Request Json
  unfolding attempt_loop
  request_json url token = attempt_loop max_attempts url token 0 transport_error
