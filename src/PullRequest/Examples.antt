-- ===== src/PullRequest/Examples.antt =====
-- A pull request with two commits, over a network that fails at first.
use optimizr_actions.Prelude.{
  ℕ, ◌+◌, ◌≡◌, refl, ◌↔◌, Option, none, some, List, [], ◌∷◌, Text, codes, same, ends_with,
  if◌then◌else◌, ok,
}
use optimizr_actions.Prelude.Integers.{ℤ, pos}
use optimizr_actions.Prelude.Dicts.{Dict}
use optimizr_actions.Prelude.Json.{
  Json, Fields, object, array, text, int, null, to_fields, to_items,
}
use optimizr_actions.Prelude.Sessions.{Holds, Runs}
use optimizr_actions.PullRequest.Transport.{
  Network, Client, Request, Event, answered, failed, timed_out, requested, began, looked, slept,
  new_client, request_json,
}
use optimizr_actions.PullRequest.Transport.Budget.{IsSettled, Raises, request_json-IsSound}
use optimizr_actions.PullRequest.Pages.{
  max_pages, objects, pull_root, commits_url, fetch_pr_metadata,
}
use optimizr_actions.PullRequest.Pages.Complete.{Serves, fetch_pr_metadata_complete}
use optimizr_actions.PullRequest.Pages.Bounds.{fetch_pr_metadata-IsSound}
use optimizr_actions.PullRequest.Lifecycle.{
  validate_pr_lifecycle, resolve_head_identity, already_used,
}
use optimizr_actions.PullRequest.Lifecycle.Fresh.{IsFresh, validate_pr_lifecycle_iff}

program : Unit {0}
unfolding request_json fetch_pr_metadata validate_pr_lifecycle resolve_head_identity ends_with same
program = tt

abbrev pull_request : Fields
pull_request = to_fields (
    (codes "state", text (codes "open"))
    ∷ (codes "merged_at", null)
    ∷ (
      codes "head",
      object (
          to_fields
            ((codes "ref", text (codes "fix")) ∷ (codes "label", text (codes "me:fix")) ∷ [])),
    )
    ∷ [])

abbrev commits : List Json
commits = object (to_fields ((codes "sha", text (codes "a")) ∷ [])) ∷ object (to_fields []) ∷ []

abbrev unescaped : Text → Text
unescaped part = part

abbrev no_query : Dict Text → Text
no_query fields = []

-- The pull request, its first page of commits, or an empty page.
abbrev listed : Text → Json
listed url =
    if ends_with url (codes "/pulls/7")
    then object pull_request
    else if ends_with url (codes "&page=1")
    then array (to_items commits)
    else array (to_items [])

-- The clock counts the events in seconds; the network times out when it is asked first.
abbrev slow_network : Network
slow_network = record {
  respond = λ url token limit events. elim events [
    | [] ↦ failed timed_out
    | (e ∷ es) ↦ answered (listed url)
  ];
  clock = λ events. seconds events;
}
  where
    seconds : List Event → ℕ
    seconds [] = 0
    seconds (e ∷ events) = 1000000000 + seconds events

retries_once :
    (request_json slow_network (codes "u") (codes "t") new_client).1.events
    ≡ requested (codes "u") (codes "t") 26000000000
      ∷ looked 5000000000
      ∷ looked 4000000000
      ∷ slept 2000000000
      ∷ looked 2000000000
      ∷ began 1000000000
      ∷ requested (codes "u") (codes "t") 30000000000
      ∷ []
unfolding program
retries_once = refl

abbrev serving : Text → Text → Request Json
serving url token client = (ok (listed url), client)

abbrev api : Text
api = codes "https://api.github.com/"

fetches_commits :
    (fetch_pr_metadata unescaped no_query
      (request_json slow_network)
      api
      (codes "o/r")
      7
      (codes "t")
      new_client).0
    ≡ ok (pull_request, objects commits)
unfolding program
fetches_commits = refl

abbrev merged_before : ℕ → Fields
merged_before n =
    to_fields ((codes "number", int (pos n)) ∷ (codes "merged_at", text (codes "2026-01-01")) ∷ [])

abbrev no_integer : Text → Option ℤ
no_integer s = none

abbrev no_text : Json → Text
no_text value = []

refuses_used_branch :
    validate_pr_lifecycle no_integer no_text pull_request 7 (merged_before 7 ∷ merged_before 3 ∷ [])
    ≡ already_used (pos 3) ∷ []
unfolding program
refuses_used_branch = refl

resolves_identity :
    resolve_head_identity no_integer no_text pull_request ≡ some (codes "me", codes "fix")
unfolding program
resolves_identity = refl

request_json-IsSound_example :
    Runs
      (IsSettled slow_network 0)
      (λ _. IsSettled slow_network 3)
      (Raises slow_network 3)
      (request_json slow_network (codes "u") (codes "t"))
request_json-IsSound_example = request_json-IsSound slow_network 0 (codes "u") (codes "t")

fetch_pr_metadata-IsSound_example :
    Holds
      (λ _. IsSettled slow_network 33)
      (Raises slow_network 33)
      (fetch_pr_metadata unescaped no_query
        (request_json slow_network)
        api
        (codes "o/r")
        7
        (codes "t")
        new_client)
fetch_pr_metadata-IsSound_example =
    fetch_pr_metadata-IsSound unescaped no_query slow_network api (codes "o/r") 7 (codes "t")

Serves-commits :
    Serves unescaped no_query serving
      (commits_url unescaped no_query serving
        (pull_root unescaped no_query serving api (codes "o/r") 7))
      (codes "t")
      max_pages
      1
      commits
unfolding program
Serves-commits = (
  λ _. refl,
  (
    λ _. refl,
    (
      λ _. refl,
      (λ _. refl, (λ _. refl, (λ _. refl, (λ _. refl, (λ _. refl, (λ _. refl, (λ _. refl, tt))))))),
    ),
  ),
)

serves_pull_request :
    (before : Client)
    → (serving (pull_root unescaped no_query serving api (codes "o/r") 7) (codes "t") before).0
      ≡ ok (object pull_request)
unfolding program
serves_pull_request before = refl

fetch_pr_metadata_complete_example :
    (fetch_pr_metadata unescaped no_query serving api (codes "o/r") 7 (codes "t") new_client).0
    ≡ ok (pull_request, objects commits)
fetch_pr_metadata_complete_example =
    fetch_pr_metadata_complete unescaped no_query serving api (codes "o/r") 7 (codes "t")
      pull_request commits new_client serves_pull_request Serves-commits

validate_pr_lifecycle_iff_example :
    (validate_pr_lifecycle no_integer no_text pull_request 7 (merged_before 7 ∷ []) ≡ [])
    ↔ IsFresh no_integer no_text pull_request 7 (merged_before 7 ∷ [])
validate_pr_lifecycle_iff_example =
    validate_pr_lifecycle_iff no_integer no_text pull_request 7 (merged_before 7 ∷ [])
