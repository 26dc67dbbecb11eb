-- ===== src/PullRequest/Transport/Budget.antt =====
-- How long and how often a client asks.
use optimizr_actions.Prelude.{
  ℕ, zero, suc, ◌+◌, ◌-◌, ◌*◌, ◌≤◌, ◌<◌, ◌≡◌, refl, sym, ap, min, Bool, true, false, not, ◌||◌, ◌⊎◌,
  inl, inr, Option, none, some, List, [], ◌∷◌, Text, leb, ok, arith,
}
use optimizr_actions.Prelude.Json.{Json}
use optimizr_actions.Prelude.Sessions.{
  lift, ◌>>=◌, ◌>>◌, Holds, Runs, Runs-ok, Runs-err, Runs-bind, Runs-if, Runs-mono,
}
use optimizr_actions.PullRequest.Transport.{
  Category, transport_error, http_status, RequestError, metadata_request, undecodable,
  not_an_object, not_a_list, too_many_pages, out_of_attempts, no_delay, Answer, answered, not_json,
  http_error, failed, Event, requested, looked, began, slept, second, request_timeout, max_attempts,
  retry_budget, Network, Client, Request, urlopen, sleep, start_retries, retry_budget_remaining,
  budget_beyond, timeout_of, wait, handle, classify_transport_error, attempt_loop, request_json,
}

-- The events are newest first; the retries began at the oldest `began`.
abbrev pub or_earlier : Option ℕ → ℕ → Option ℕ
or_earlier none now = some now
or_earlier (some started) now = some started

abbrev pub start_of : List Event → Option ℕ
start_of [] = none
start_of (began now ∷ events) = or_earlier (start_of events) now
start_of (requested url token limit ∷ events) = start_of events
start_of (looked now ∷ events) = start_of events
start_of (slept delay ∷ events) = start_of events

abbrev pub requests : List Event → ℕ
requests [] = 0
requests (requested url token limit ∷ events) = suc (requests events)
requests (looked now ∷ events) = requests events
requests (began now ∷ events) = requests events
requests (slept delay ∷ events) = requests events

-- The clock was just read, and what is left of the budget was enough.
abbrev pub Fits : ℕ → List Event → Type 0
Fits needed (looked now ∷ events) =
    (started : ℕ) × (start_of events ≡ some started) × ((now - started) + needed ≤ retry_budget)
Fits needed _ = ⊥

-- An error that the client means to raise.
abbrev pub IsExpected : RequestError → Type 0
IsExpected (metadata_request category attempts status exhausted) = attempts ≤ max_attempts
IsExpected undecodable = Unit
IsExpected not_an_object = Unit
IsExpected not_a_list = Unit
IsExpected too_many_pages = Unit
IsExpected out_of_attempts = ⊥
IsExpected no_delay = ⊥

-- The client has just read what is left.
abbrev pub Reads : ℕ → List Event → Type 0
Reads left (looked now ∷ events) =
    (started : ℕ) × (start_of events ≡ some started) × (left ≡ retry_budget - (now - started))
Reads left _ = ⊥

Reads-Fits :
    (left needed : ℕ) (events : List Event)
    → Reads left events
    → 0 < left
    → needed ≤ left
    → Fits needed events
Reads-Fits left needed (looked now ∷ events) (started, e, h) p q = (started, e, ground arith)
Reads-Fits left needed [] r p q = r
Reads-Fits left needed (requested url token limit ∷ events) r p q = r
Reads-Fits left needed (began now ∷ events) r p q = r
Reads-Fits left needed (slept delay ∷ events) r p q = r

Fits-less :
    (more needed : ℕ) (events : List Event) → Fits more events → needed ≤ more → Fits needed events
Fits-less more needed (looked now ∷ events) (started, e, h) q = (started, e, ground arith)
Fits-less more needed [] r q = r
Fits-less more needed (requested url token limit ∷ events) r q = r
Fits-less more needed (began now ∷ events) r q = r
Fits-less more needed (slept delay ∷ events) r q = r

module _ (network : Network) where
  -- No request was made yet, or the last thing that happened is that one was answered with a value.
  abbrev pub IsIdle : List Event → Type 0
  IsIdle [] = Unit
  IsIdle (requested url token limit ∷ events) =
      (value : Json) × (network.respond url token limit events ≡ answered value)
  IsIdle (looked now ∷ events) = ⊥
  IsIdle (began now ∷ events) = ⊥
  IsIdle (slept delay ∷ events) = ⊥

  abbrev pub IsTimely : ℕ → List Event → Type 0
  IsTimely limit events =
      (IsIdle events × (limit ≡ request_timeout)) ⊎ ((limit ≤ request_timeout) × Fits limit events)

  abbrev pub IsBounded : List Event → Type 0
  IsBounded [] = Unit
  IsBounded (requested url token limit ∷ events) = IsTimely limit events × IsBounded events
  IsBounded (slept delay ∷ events) = Fits delay events × IsBounded events
  IsBounded (looked now ∷ events) = IsBounded events
  IsBounded (began now ∷ events) = IsBounded events

  -- A client that has made at most this many requests.
  pub record IsSound (most : ℕ) (client : Client) : Type 0 where
    pub started : client.retry_started_at ≡ start_of client.events
    pub bounded : IsBounded client.events
    pub few : requests client.events ≤ most

  -- Such a client that is not in the midst of a request.
  abbrev pub IsSettled : ℕ → Client → Type 0
  IsSettled most client = IsSound most client × IsIdle client.events

  abbrev pub Raises : ℕ → RequestError → Client → Type 0
  Raises most e client = IsSound most client × IsExpected e

  abbrev pub IsRetrying : ℕ → Client → Type 0
  IsRetrying most client =
      IsSound most client × (started : ℕ) × (client.retry_started_at ≡ some started)

  abbrev pub HasLeft : ℕ → ℕ → Client → Type 0
  HasLeft most left client = IsRetrying most client × Fits left client.events

  pub more_requests :
      (most final : ℕ) (client : Client) → most ≤ final → IsSound most client → IsSound final client
  more_requests most final client m s = record {
    started = s.started;
    bounded = s.bounded;
    few = ground (arith, s.few);
  }

  start_retries-IsRetrying :
      (most : ℕ) → Runs (IsSound most) (λ _. IsRetrying most) (Raises most) (start_retries network)
  unfolding start_retries
  start_retries-IsRetrying most = record {
    runs = λ client sound. go client.retry_started_at client.events sound;
  }
    where
      go :
          (begun : Option ℕ) (events : List Event)
          → IsSound most (record { retry_started_at = begun; events = events })
          → Holds
              (λ _. IsRetrying most)
              (Raises most)
              (start_retries network (record { retry_started_at = begun; events = events }))
      go none events s = (
        record {
          started = ap (λ o. or_earlier o (network.clock events)) s.started;
          bounded = s.bounded;
          few = s.few;
        },
        network.clock events,
        refl,
      )
      go (some t) events s = (s, t, refl)

  retry_budget_remaining-Reads :
      (most : ℕ)
      → Runs
          (IsRetrying most)
          (λ left client. IsRetrying most client × Reads left client.events)
          (Raises most)
          (retry_budget_remaining network)
  unfolding retry_budget_remaining
  retry_budget_remaining-Reads most = record {
    runs = λ client h. go client.retry_started_at client.events h.0 h.1 h.2;
  }
    where
      go :
          (begun : Option ℕ) (events : List Event)
          → IsSound most (record { retry_started_at = begun; events = events })
          → (started : ℕ) → begun ≡ some started
          → Holds
              (λ left client. IsRetrying most client × Reads left client.events)
              (Raises most)
              (retry_budget_remaining network
                (record { retry_started_at = begun; events = events }))
      go none events s started e = absurd cc
      go (some t) events s started e = (
        (record { started = s.started; bounded = s.bounded; few = s.few }, t, refl),
        (t, sym s.started, refl),
      )

  budget_beyond-HasLeft :
      (most needed : ℕ) (category : Category) (attempts : ℕ)
      → attempts ≤ max_attempts
      → Runs
          (IsRetrying most)
          (λ left client. HasLeft most left client × (needed < left))
          (Raises most)
          (budget_beyond network needed category attempts)
  unfolding budget_beyond
  budget_beyond-HasLeft most needed category attempts few =
      Runs-bind (IsRetrying most) (λ left client. IsRetrying most client × Reads left client.events)
        _ (Raises most) (retry_budget_remaining network) _ (retry_budget_remaining-Reads most)
        (λ left.
          Runs-if _ _ _ (leb left needed) _ _
            (λ _.
              Runs-err _ _ _ (metadata_request category attempts none true)
                (λ client h. (h.0.0, few)))
            (λ more.
              let enough : needed < left = ground arith in
              Runs-ok _ _ _ left (λ client h. (
                (h.0, Reads-Fits left left client.events h.1 (ground arith) (ground arith)),
                enough,
              ))))

  -- What follows the choice of a delay.
  pause-IsRetrying :
      (most delay : ℕ) (category : Category) (attempts : ℕ)
      → attempts ≤ max_attempts
      → Runs
          (IsRetrying most)
          (λ _. IsRetrying most)
          (Raises most)
          (budget_beyond network delay category attempts >>= λ _.
            sleep network delay
            >> (budget_beyond network 0 category attempts >>= λ _. lift (ok tt)))
  pause-IsRetrying most delay category attempts few =
      Runs-bind (IsRetrying most) (λ left client. HasLeft most left client × (delay < left)) _
        (Raises most) (budget_beyond network delay category attempts) _
        (budget_beyond-HasLeft most delay category attempts few)
        (λ left.
          Runs-bind _ (λ _. IsRetrying most) _ (Raises most) (sleep network delay) _
            (record { runs = λ client h. slept_lem left client h.0 h.1 })
            (λ _.
              Runs-bind _ (λ left client. HasLeft most left client × (0 < left)) _ (Raises most)
                (budget_beyond network 0 category attempts) _
                (budget_beyond-HasLeft most 0 category attempts few)
                (λ more. Runs-ok _ _ _ tt (λ client h. h.0.0))))
    where
      slept_lem :
          (left : ℕ) (client : Client)
          → HasLeft most left client
          → delay < left
          → IsRetrying most (record {
            retry_started_at = client.retry_started_at;
            events = slept delay ∷ client.events;
          })
      slept_lem left client h less =
          let (s, t, e) = h.0 in
          (
            record {
              started = s.started;
              bounded = (Fits-less left delay client.events h.1 (ground arith), s.bounded);
              few = s.few;
            },
            t,
            e,
          )

  wait-IsRetrying :
      (most : ℕ) (category : Category) (attempts : ℕ)
      → 0 < attempts
      → attempts < max_attempts
      → Runs (IsSound most) (λ _. IsRetrying most) (Raises most) (wait network category attempts)
  unfolding wait
  wait-IsRetrying most category zero p q = absurd (ground arith)
  wait-IsRetrying most category (suc zero) p q =
      Runs-bind (IsSound most) (λ _. IsRetrying most) _ (Raises most) (start_retries network) _
        (start_retries-IsRetrying most)
        (λ _. pause-IsRetrying most (2 * second) category 1 (ground arith))
  wait-IsRetrying most category (suc (suc zero)) p q =
      Runs-bind (IsSound most) (λ _. IsRetrying most) _ (Raises most) (start_retries network) _
        (start_retries-IsRetrying most)
        (λ _. pause-IsRetrying most (4 * second) category 2 (ground arith))
  wait-IsRetrying most category (suc (suc (suc n))) p q = absurd (ground arith)

  -- Before an attempt: the first, or one that follows a wait.
  abbrev IsReady : ℕ → ℕ → Client → Type 0
  IsReady most zero = IsSettled most
  IsReady most (suc n) = IsRetrying most

  abbrev IsLimit : ℕ → ℕ → Client → Type 0
  IsLimit most limit client = IsSound most client × IsTimely limit client.events

  timeout_of-IsLimit :
      (most attempts : ℕ) (category : Category)
      → attempts < max_attempts
      → Runs
          (IsReady most attempts)
          (IsLimit most)
          (Raises most)
          (timeout_of network attempts category)
  unfolding timeout_of
  timeout_of-IsLimit most zero category few =
      Runs-ok _ _ _ request_timeout (λ client s. (s.0, inl (s.1, refl)))
  timeout_of-IsLimit most (suc n) category few =
      Runs-bind (IsRetrying most) (λ left client. HasLeft most left client × (0 < left)) _
        (Raises most) (budget_beyond network 0 category (suc n)) _
        (budget_beyond-HasLeft most 0 category (suc n) (ground arith))
        (λ left. Runs-ok _ _ _ (min request_timeout left) (λ client h. (
          h.0.0.0,
          inr (
            ground arith,
            Fits-less left (min request_timeout left) client.events h.0.1 (ground arith),
          ),
        )))

  -- The answer is the one that the network gave to the last request.
  abbrev Received : ℕ → Answer → Client → Type 0
  Received most answer client =
      IsSound most client × ((value : Json) → answer ≡ answered value → IsIdle client.events)

  urlopen-Received :
      (most limit : ℕ) (url token : Text)
      → Runs
          (IsLimit most limit)
          (Received (suc most))
          (Raises (suc most))
          (urlopen network url token limit)
  urlopen-Received most limit url token = record {
    runs = λ client h. (
      record { started = h.0.started; bounded = (h.1, h.0.bounded); few = ground (arith, h.0.few) },
      λ value e. (value, e),
    );
  }

  handle-IsSettled :
      (most final : ℕ) (answer : Answer) (attempts : ℕ) (again : Category → Request Json)
      → most ≤ final
      → 0 < attempts
      → attempts ≤ max_attempts
      → ((category : Category)
          → attempts < max_attempts
          → Runs (IsRetrying most) (λ _. IsSettled final) (Raises final) (again category))
      → Runs
          (Received most answer)
          (λ _. IsSettled final)
          (Raises final)
          (handle network answer attempts again)
  unfolding handle
  handle-IsSettled most final (answered value) attempts again m p few next =
      Runs-ok _ _ _ value (λ client s. (more_requests most final client m s.0, s.1 value refl))
  handle-IsSettled most final not_json attempts again m p few next =
      Runs-err _ _ _ undecodable (λ client s. (more_requests most final client m s.0, tt))
  handle-IsSettled most final (http_error code) attempts again m p few next =
      Runs-err _ _ _ (metadata_request http_status attempts (some code) false)
        (λ client s. (more_requests most final client m s.0, few))
  handle-IsSettled most final (failed reason) attempts again m p few next =
      let (category, retryable) = classify_transport_error reason in
      Runs-if _ _ _ (not retryable || leb max_attempts attempts) _ _
        (λ _.
          Runs-err _ _ _ (metadata_request category attempts none false)
            (λ client s. (more_requests most final client m s.0, few)))
        (λ going.
          let left : attempts < max_attempts = below retryable attempts going in
          Runs-bind _ (λ _. IsRetrying most) _ (Raises final) (wait network category attempts) _
            (Runs-mono _ (λ client s. s.0) (λ a client r. r)
              (λ e client x. (more_requests most final client m x.0, x.1))
              (wait-IsRetrying most category attempts p left))
            (λ _. next category left))
    where
      below :
          (retryable : Bool) (n : ℕ)
          → (not retryable || leb max_attempts n) ≡ false
          → n < max_attempts
      below retryable n h = ground arith

  attempt_loop-IsSound :
      (fuel : ℕ) (url token : Text) (attempts : ℕ) (category : Category) (before : ℕ)
      → attempts + fuel ≡ max_attempts
      → 0 < fuel
      → Runs
          (IsReady (before + attempts) attempts)
          (λ _. IsSettled (before + max_attempts))
          (Raises (before + max_attempts))
          (attempt_loop network fuel url token attempts category)
  unfolding attempt_loop
  attempt_loop-IsSound zero url token attempts category before e p = absurd (ground arith)
  attempt_loop-IsSound (suc fuel) url token attempts category before e p =
      let final = before + max_attempts in
      let now = before + attempts in
      Runs-bind _ (IsLimit now) _ (Raises final) (timeout_of network attempts category) _
        (Runs-mono _ (λ client s. s) (λ limit client l. l)
          (λ x client r. (more_requests now final client (ground arith) r.0, r.1))
          (timeout_of-IsLimit now attempts category (ground arith)))
        (λ limit.
          Runs-bind _ (Received (suc now)) _ (Raises final) (urlopen network url token limit) _
            (Runs-mono _ (λ client s. s) (λ answer client s. s)
              (λ x client r. (more_requests (suc now) final client (ground arith) r.0, r.1))
              (urlopen-Received now limit url token))
            (λ answer.
              handle-IsSettled (suc now) final answer (suc attempts) _ (ground arith) (ground arith)
                (ground arith)
                (λ next_category left.
                  Runs-mono _
                    (λ client r. (
                      more_requests (suc now) (before + suc attempts) client (ground arith) r.0,
                      r.1,
                      r.2,
                    ))
                    (λ value client s. s) (λ x client r. r)
                    (attempt_loop-IsSound fuel url token (suc attempts) next_category before
                      (ground arith) (ground arith)))))

  -- Where a client has kept to its budget so far and is not in the midst of a request, a request ends
  -- after at most 3 attempts, never because its loop ran out of fuel, with a value or an error that the
  -- client means to raise. Its first attempt has a timeout of 30 seconds; each retry follows directly
  -- on a look at the clock and has a timeout of at most what is then left of the shared 30 seconds; and
  -- each wait fits in what is left.
  pub request_json-IsSound :
      (before : ℕ) (url token : Text)
      → Runs
          (IsSettled before)
          (λ _. IsSettled (before + max_attempts))
          (Raises (before + max_attempts))
          (request_json network url token)
  unfolding request_json
  request_json-IsSound before url token =
      Runs-mono _ (λ client s. (more_requests before (before + 0) client (ground arith) s.0, s.1))
        (λ value client s. s) (λ x client r. r)
        (attempt_loop-IsSound max_attempts url token 0 transport_error before (ground arith)
          (ground arith))
