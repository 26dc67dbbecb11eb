-- ===== src/PullRequest/Pages/Bounds.antt =====
-- How many requests a list of pages takes.
use optimizr_actions.Prelude.{
  ℕ, zero, suc, ◌+◌, ◌*◌, ◌≤◌, refl, Option, none, some, ◌++◌, Text, ltb, length, or_raise, arith,
}
use optimizr_actions.Prelude.Dicts.{Dict}
use optimizr_actions.Prelude.Json.{array_of, object_of}
use optimizr_actions.Prelude.Sessions.{
  lift, Holds, Runs, Runs-ok, Runs-err, Runs-bind, Runs-if, Runs-mono,
}
use optimizr_actions.PullRequest.Transport.{
  Request, RequestError, Network, new_client, max_attempts, not_a_list, too_many_pages,
  not_an_object, request_json,
}
use optimizr_actions.PullRequest.Transport.Budget.{
  IsSettled, Raises, IsExpected, more_requests, request_json-IsSound,
}
use optimizr_actions.PullRequest.Pages.{
  objects, page_size, max_pages, turn_page, all_pages, pull_root, commits_url, fetch_pr_metadata,
}

module _ (network : Network) where
  -- A check of a value, with an error that the client means to raise.
  Runs-or_raise :
      {A : Type 0} (most : ℕ) (value : Option A) (e : RequestError)
      → IsExpected e
      → Runs
          (IsSettled network most)
          (λ _. IsSettled network most)
          (Raises network most)
          (lift (or_raise value e))
  Runs-or_raise most none e x = Runs-err _ _ _ e (λ client s. (s.0, x))
  Runs-or_raise most (some a) e x = Runs-ok _ _ _ a (λ client s. s)

  -- A program that ends within more requests than it is allowed.
  within :
      {A : Type 0} (most final : ℕ) (program : Request A)
      → most ≤ final
      → Runs (IsSettled network most) (λ _. IsSettled network most) (Raises network most) program
      → Runs (IsSettled network most) (λ _. IsSettled network most) (Raises network final) program
  within most final program m r =
      Runs-mono _ (λ client s. s) (λ a client s. s)
        (λ e client x. (more_requests network most final client m x.0, x.1)) r

module _ (quote : Text → Text) (urlencode : Dict Text → Text) (network : Network) where
  all_pages-IsSound :
      (url : ℕ → Text) (token : Text) (left page before : ℕ)
      → Runs
          (IsSettled network before)
          (λ _. IsSettled network (before + max_attempts * left))
          (Raises network (before + max_attempts * left))
          (all_pages quote urlencode (request_json network) url token left page)
  unfolding all_pages turn_page
  all_pages-IsSound url token zero page before = Runs-err _ _ _ too_many_pages (λ client s.
      (more_requests network before (before + max_attempts * 0) client (ground arith) s.0, tt))
  all_pages-IsSound url token (suc left) page before =
      let now = before + max_attempts in
      let final = before + max_attempts * suc left in
      let rest = all_pages quote urlencode (request_json network) url token left (suc page) in
      Runs-bind _ (λ _. IsSettled network now) _ (Raises network final)
        (request_json network (url page) token) _
        (Runs-mono _ (λ client s. s) (λ a client s. s)
          (λ e client x. (more_requests network now final client (step before left) x.0, x.1))
          (request_json-IsSound network before (url page) token))
        (λ payload.
          Runs-bind _ (λ _. IsSettled network now) _ (Raises network final)
            (lift (or_raise (array_of payload) not_a_list)) _
            (within network now final _ (step before left)
              (Runs-or_raise network now (array_of payload) not_a_list tt))
            (λ values.
              Runs-if _ _ _ (ltb (length values) page_size) _ _
                (λ _. Runs-ok _ _ _ (objects values) (λ client s.
                  (more_requests network now final client (step before left) s.0, s.1)))
                (λ _.
                  Runs-bind _ (λ _. IsSettled network final) _ (Raises network final) rest _
                    (Runs-mono _ (λ client s. s)
                      (λ a client s. (
                        more_requests network (now + max_attempts * left) final client
                            (last_step before left) s.0,
                        s.1,
                      ))
                      (λ e client x. (
                        more_requests network (now + max_attempts * left) final client
                            (last_step before left) x.0,
                        x.1,
                      ))
                      (all_pages-IsSound url token left (suc page) now))
                    (λ more. Runs-ok _ _ _ (objects values ++ more) (λ client s. s)))))
    where
      step : (b l : ℕ) → b + max_attempts ≤ b + max_attempts * suc l
      step b l = omega arith

      last_step : (b l : ℕ) → (b + max_attempts) + max_attempts * l ≤ b + max_attempts * suc l
      last_step b l = omega arith

  -- However the network and the clock behave, fetching the metadata of a pull request with a new
  -- client makes at most 33 requests. One that is the first, or that follows directly on an answer, has
  -- a timeout of 30 seconds; any other is a retry, which follows directly on a look at the clock and has
  -- a timeout of at most what is then left of the shared 30 seconds. Each wait fits in what is left. An
  -- error is one that the client means to raise, never that its loop ran out of attempts.
  pub fetch_pr_metadata-IsSound :
      (api_url repository : Text) (pr_number : ℕ) (token : Text)
      → Holds
          (λ _. IsSettled network 33)
          (Raises network 33)
          (fetch_pr_metadata quote urlencode
            (request_json network)
            api_url
            repository
            pr_number
            token
            new_client)
  unfolding fetch_pr_metadata
  fetch_pr_metadata-IsSound api_url repository pr_number token =
      (Runs-bind (IsSettled network 0) (λ _. IsSettled network 3) _ (Raises network 33)
          (request_json network root token) _
          (Runs-mono _ (λ client s. s) (λ a client s. s)
            (λ e client x. (more_requests network 3 33 client (ground arith) x.0, x.1))
            (request_json-IsSound network 0 root token))
          (λ value.
            Runs-bind _ (λ _. IsSettled network 3) _ (Raises network 33)
              (lift (or_raise (object_of (some value)) not_an_object)) _
              (within network 3 33 _ (ground arith)
                (Runs-or_raise network 3 (object_of (some value)) not_an_object tt))
              (λ pr.
                Runs-bind _ (λ _. IsSettled network 33) _ (Raises network 33) _ _
                  (all_pages-IsSound (commits_url quote urlencode (request_json network) root) token
                    max_pages 1 3)
                  (λ commits. Runs-ok _ _ _ (pr, commits) (λ client s. s))))).runs
        new_client (record { started = refl; bounded = tt; few = ground arith }, tt)
    where
      root : Text
      root = pull_root quote urlencode (request_json network) api_url repository pr_number
