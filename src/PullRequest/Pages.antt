-- ===== src/PullRequest/Pages.antt =====
-- validate.py: the pages that GitHub lists.
pub mod Complete
pub mod Bounds
use optimizr_actions.Prelude.{
  ℕ, zero, suc, ◌+◌, ◌/◌, ◌%◌, Bool, true, false, Option, none, some, List, [], ◌∷◌, ◌++◌, map,
  Text, codes, ltb, ◌==◌, length, if◌then◌else◌, Result, ok, err, or_raise,
}
use optimizr_actions.Prelude.Dicts.{Dict}
use optimizr_actions.Prelude.Json.{Json, Fields, object, array_of, object_of}
use optimizr_actions.Prelude.Sessions.{lift, ◌>>=◌, ◌>>◌}
use optimizr_actions.Prelude.Splits.{split}
use optimizr_actions.PullRequest.Transport.{
  Request, RequestError, not_an_object, not_a_list, too_many_pages,
}

-- `str(n)`; as many steps as the number suffice.
abbrev pub decimal_digits : ℕ → ℕ → Text
decimal_digits zero n = []
decimal_digits (suc fuel) n =
    let rest = decimal_digits fuel (n / 10) in (if ltb n 10 then [] else rest) ++ (48 + n % 10) ∷ []

abbrev pub decimal_text : ℕ → Text
decimal_text n = decimal_digits (suc n) n

abbrev pub drop_slashes : Text → Text
drop_slashes [] = []
drop_slashes (c ∷ s) =
    let rest = drop_slashes s in
    elim rest [ [] ↦ if c == b'/' then [] else c ∷ [] | (d ∷ t) ↦ c ∷ d ∷ t ]

abbrev pub join_slash : List Text → Text
join_slash [] = []
join_slash (part ∷ []) = part
join_slash (part ∷ more ∷ parts) = part ++ codes "/" ++ join_slash (more ∷ parts)

-- `item for item in payload if isinstance(item, dict)`
abbrev pub objects : List Json → List Fields
objects [] = []
objects (object fields ∷ values) = fields ∷ objects values
objects (_ ∷ values) = objects values

abbrev pub page_size : ℕ
page_size = 100

abbrev pub max_pages : ℕ
max_pages = 10

-- A short page is the last.
unfoldable pub turn_page : List Json → Request (List Fields) → Request (List Fields)
turn_page values again =
    if ltb (length values) page_size
    then lift (ok (objects values))
    else again >>= λ rest. lift (ok (objects values ++ rest))

-- `urllib.parse.quote` with nothing safe, `urllib.parse.urlencode`, and the requests.
module _ (quote : Text → Text) (urlencode : Dict Text → Text)
    (get_json : Text → Text → Request Json) where
  unfoldable pub repository_api_root : Text → Text → Text
  unfolding split
  repository_api_root api_url repository =
      drop_slashes api_url ++ codes "/repos/" ++ join_slash (map quote (split b'/' repository))

  -- `for page in range(…, 11)`, with the pages that are left
  unfoldable pub all_pages : (ℕ → Text) → Text → ℕ → ℕ → Request (List Fields)
  unfolding array_of turn_page
  all_pages url token zero page = lift (err too_many_pages)
  all_pages url token (suc left) page = do
    payload ← get_json (url page) token
    values ← lift (or_raise (array_of payload) not_a_list)
    turn_page values (all_pages url token left (suc page))

  abbrev pub pull_root : Text → Text → ℕ → Text
  pull_root api_url repository pr_number =
      repository_api_root api_url repository ++ codes "/pulls/" ++ decimal_text pr_number

  abbrev pub commits_url : Text → ℕ → Text
  commits_url root page = root ++ codes "/commits?per_page=100&page=" ++ decimal_text page

  unfoldable pub fetch_pr_metadata : Text → Text → ℕ → Text → Request (Fields × List Fields)
  unfolding repository_api_root all_pages
  fetch_pr_metadata api_url repository pr_number token = do
    value ← get_json (pull_root api_url repository pr_number) token
    pr ← lift (or_raise (object_of (some value)) not_an_object)
    commits ← all_pages (commits_url (pull_root api_url repository pr_number)) token max_pages 1
    lift (ok (pr, commits))

  unfoldable pub fetch_pr_files : Text → Text → ℕ → Text → Request (List Fields)
  unfolding repository_api_root all_pages
  fetch_pr_files api_url repository pr_number token =
      let root = pull_root api_url repository pr_number ++ codes "/files" in
      all_pages (λ page. root ++ codes "?per_page=100&page=" ++ decimal_text page) token max_pages 1

  abbrev pub history_query : Text → Text → ℕ → Dict Text
  history_query head_owner head_ref page =
      (codes "state", codes "closed")
      ∷ (codes "head", head_owner ++ codes ":" ++ head_ref)
      ∷ (codes "per_page", codes "100")
      ∷ (codes "page", decimal_text page)
      ∷ []

  unfoldable pub fetch_branch_history : Text → Text → Text → Text → Text → Request (List Fields)
  unfolding repository_api_root all_pages
  fetch_branch_history api_url repository head_owner head_ref token =
      let root = repository_api_root api_url repository ++ codes "/pulls" in
      all_pages (λ page. root ++ codes "?" ++ urlencode (history_query head_owner head_ref page))
        token max_pages 1
