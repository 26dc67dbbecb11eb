-- ===== src/PullRequest/Pages/Complete.antt =====
-- That the pages give the whole list.
use optimizr_actions.Prelude.{
  ℕ, zero, suc, ◌+◌, ◌*◌, ◌≤◌, ◌<◌, ◌≡◌, refl, sym, ap, ◌∙◌, inl, inr, Bool, Bool-cases, true,
  false, some, List, [], ◌∷◌, ◌++◌, take, drop, Text, ltb, length, if◌then◌else◌, ltb→lt, lt→ltb,
  Result, ok, err, or_raise, arith,
}
use optimizr_actions.Prelude.Dicts.{Dict}
use optimizr_actions.Prelude.Json.{
  Json, Fields, null, bool, int, decimal, text, array, object, to_items, elements, array_of,
}
use optimizr_actions.Prelude.Sessions.{lift, ◌>>=◌, continue_with}
use optimizr_actions.PullRequest.Transport.{
  Request, RequestError, Client, not_a_list, too_many_pages,
}
use optimizr_actions.PullRequest.Pages.{
  objects, page_size, max_pages, turn_page, all_pages, pull_root, commits_url, fetch_pr_metadata,
}

elements-to_items : (values : List Json) → elements (to_items values) ≡ values
unfolding elements
elements-to_items [] = refl
elements-to_items (v ∷ vs) = ap (λ r. v ∷ r) (elements-to_items vs)

array_of-to_items : (values : List Json) → array_of (array (to_items values)) ≡ some values
unfolding array_of
array_of-to_items values = ap some (elements-to_items values)

objects-append : (xs ys : List Json) → objects (xs ++ ys) ≡ objects xs ++ objects ys
objects-append [] ys = refl
objects-append (object fields ∷ xs) ys = ap (λ r. fields ∷ r) (objects-append xs ys)
objects-append (null ∷ xs) ys = objects-append xs ys
objects-append (bool b ∷ xs) ys = objects-append xs ys
objects-append (int n ∷ xs) ys = objects-append xs ys
objects-append (decimal m k ∷ xs) ys = objects-append xs ys
objects-append (text s ∷ xs) ys = objects-append xs ys
objects-append (array items ∷ xs) ys = objects-append xs ys

take-all : (n : ℕ) (xs : List Json) → length xs < n → take n xs ≡ xs
take-all zero xs h = absurd (ground arith)
take-all (suc n) [] h = refl
take-all (suc n) (x ∷ xs) h = ap (λ r. x ∷ r) (take-all n xs (ground arith))

take-length : (n : ℕ) (xs : List Json) → n ≤ length xs → length (take n xs) ≡ n
take-length zero xs h = refl
take-length (suc n) [] h = absurd (ground arith)
take-length (suc n) (x ∷ xs) h = ap suc (take-length n xs (ground arith))

take-drop : (n : ℕ) (xs : List Json) → take n xs ++ drop n xs ≡ xs
take-drop zero xs = refl
take-drop (suc n) [] = refl
take-drop (suc n) (x ∷ xs) = ap (λ r. x ∷ r) (take-drop n xs)

length-drop : (n : ℕ) (xs : List Json) → n ≤ length xs → n + length (drop n xs) ≡ length xs
length-drop zero xs h = ground arith
length-drop (suc n) [] h = absurd (ground arith)
length-drop (suc n) (x ∷ xs) h = let step = length-drop n xs (ground arith) in ground arith

-- The result of a program after one that returned.
bind_result :
    {A B : Type 0} (first : Request A) (next : A → Request B) (client : Client) (a : A)
    → (first client).0 ≡ ok a
    → ((first >>= next) client).0 ≡ (next a (first client).1).0
bind_result {A = A} first next client a h = go (first client) h
  where
    go :
        (r : Result RequestError A × Client)
        → r.0 ≡ ok a
        → (continue_with next r).0 ≡ (next a r.1).0
    go (ok b, later) e = let same_value : b ≡ a = cc in ap (λ c. (next c later).0) same_value
    go (err e, later) k = absurd cc

first_page : (n left : ℕ) → n < page_size → ltb n (page_size * suc left) ≡ true
first_page n left h = lt→ltb n (page_size * suc left) (omega arith)

later_pages :
    (m n left : ℕ) → page_size + m ≡ n → ltb m (page_size * left) ≡ ltb n (page_size * suc left)
later_pages m n left h = elim (Bool-cases (ltb m (page_size * left))) [
  | inl p ↦
      let q = ltb→lt m (page_size * left) p in
      p ∙ sym (lt→ltb n (page_size * suc left) (omega arith))
  | inr p ↦ elim (Bool-cases (ltb n (page_size * suc left))) [
    | inl k ↦
        let r = ltb→lt n (page_size * suc left) k in
        let q = lt→ltb m (page_size * left) (omega arith) in absurd cc
    | inr k ↦ p ∙ sym k
  ]
]

abbrev chosen : Bool → List Fields → RequestError → Result RequestError (List Fields)
chosen test fields e = if test then ok fields else err e

turn_page-last :
    (values : List Json) (again : Request (List Fields)) (client : Client)
    → length values < page_size
    → (turn_page values again client).0 ≡ ok (objects values)
unfolding turn_page
turn_page-last values again client h =
    let short : ltb (length values) page_size ≡ true = ground arith in rw (turn_page, short) refl

turn_page-full :
    (values : List Json) (again : Request (List Fields)) (client : Client) (test : Bool)
    (rest : List Fields) (e : RequestError)
    → length values ≡ page_size
    → (again client).0 ≡ chosen test rest e
    → (turn_page values again client).0 ≡ chosen test (objects values ++ rest) e
unfolding turn_page
turn_page-full values again client test rest e h k =
    let long : ltb (length values) page_size ≡ false = ground arith in
    rw (turn_page, long) (go (again client) test k)
  where
    go :
        (r : Result RequestError (List Fields) × Client) (test : Bool)
        → r.0 ≡ chosen test rest e
        → (continue_with (λ more. lift (ok (objects values ++ more))) r).0
          ≡ chosen test (objects values ++ rest) e
    go (ok more, later) true q = let same_rest : more ≡ rest = cc in rw same_rest refl
    go (ok more, later) false q = absurd cc
    go (err raised, later) true q = absurd cc
    go (err raised, later) false q = cc

module _ (quote : Text → Text) (urlencode : Dict Text → Text)
    (get_json : Text → Text → Request Json) where
  -- Whatever was asked before, the pages from this one on are the parts of a list.
  abbrev pub Serves : (ℕ → Text) → Text → ℕ → ℕ → List Json → Type 0
  Serves url token zero page values = Unit
  Serves url token (suc left) page values =
      ((client : Client)
        → (get_json (url page) token client).0 ≡ ok (array (to_items (take page_size values))))
      × Serves url token left (suc page) (drop page_size values)

  all_pages_complete :
      (url : ℕ → Text) (token : Text) (left page : ℕ) (values : List Json) (client : Client)
      → Serves url token left page values
      → (all_pages quote urlencode get_json url token left page client).0 ≡ (
          if ltb (length values) (page_size * left)
          then ok (objects values)
          else err too_many_pages)
  unfolding all_pages
  all_pages_complete url token zero page values client serves = rw none_fit refl
    where
      none_fit : ltb (length values) (page_size * 0) ≡ false
      none_fit = ground arith
  all_pages_complete url token (suc left) page values client serves =
      bind_result (get_json (url page) token) _ client _ (serves.0 client)
      ∙ bind_result (lift (or_raise (array_of (array (to_items chunk))) not_a_list))
          (λ values.
            turn_page values (all_pages quote urlencode get_json url token left (suc page)))
          later chunk (ap (λ o. or_raise o not_a_list) (array_of-to_items chunk))
      ∙ elim (Bool-cases (ltb (length values) page_size)) [
        | inl h ↦
            let short : length values < page_size = ltb→lt (length values) page_size h in
            let whole = take-all page_size values short in
            let fits : ltb (length values) (page_size * suc left) ≡ true =
              first_page (length values) left short in
            turn_page-last chunk (all_pages quote urlencode get_json url token left (suc page))
              later (rw whole short)
            ∙ rw (whole, fits) refl
        | inr h ↦
            let long = not_short (length values) h in
            let rest_length = length-drop page_size values long in
            let same_test : ltb (length rest) (page_size * left)
                ≡ ltb (length values) (page_size * suc left) =
              later_pages (length rest) (length values) left rest_length in
            turn_page-full chunk (all_pages quote urlencode get_json url token left (suc page))
              later (ltb (length rest) (page_size * left)) (objects rest) too_many_pages
              (take-length page_size values long)
              (all_pages_complete url token left (suc page) rest later serves.1)
            ∙ rw (same_test, ← objects-append chunk rest, take-drop page_size values) refl
      ]
    where
      not_short : (n : ℕ) → ltb n page_size ≡ false → page_size ≤ n
      not_short n h = ground arith

      chunk : List Json
      chunk = take page_size values

      rest : List Json
      rest = drop page_size values

      later : Client
      later = (get_json (url page) token client).1

  -- Where GitHub answers with a pull request and with the parts of one list of commits in pages of
  -- 100, however the client has been used before, `fetch_pr_metadata` returns the pull request and all
  -- the objects of the list in order, if there are less than 1000 commits, and refuses any more.
  pub fetch_pr_metadata_complete :
      (api_url repository : Text) (pr_number : ℕ) (token : Text) (pr : Fields) (commits : List Json)
      (client : Client)
      → ((before : Client)
          → (get_json
              (pull_root quote urlencode get_json api_url repository pr_number)
              token
              before).0
            ≡ ok (object pr))
      → Serves
          (commits_url quote urlencode get_json
            (pull_root quote urlencode get_json api_url repository pr_number))
          token
          max_pages
          1
          commits
      → (fetch_pr_metadata quote urlencode get_json api_url repository pr_number token client).0
        ≡ (if ltb (length commits) 1000 then ok (pr, objects commits) else err too_many_pages)
  unfolding fetch_pr_metadata
  fetch_pr_metadata_complete api_url repository pr_number token pr commits client found serves =
      bind_result (get_json root token) _ client (object pr) (found client)
      ∙ pair (listing later) (ltb (length commits) 1000) listed
    where
      root : Text
      root = pull_root quote urlencode get_json api_url repository pr_number

      listing : Request (List Fields)
      listing =
          all_pages quote urlencode get_json (commits_url quote urlencode get_json root) token
            max_pages 1

      later : Client
      later = (get_json root token client).1

      listed :
          (listing later).0 ≡ chosen (ltb (length commits) 1000) (objects commits) too_many_pages
      listed =
          all_pages_complete (commits_url quote urlencode get_json root) token max_pages 1 commits
            later serves

      pair :
          (r : Result RequestError (List Fields) × Client) (test : Bool)
          → r.0 ≡ chosen test (objects commits) too_many_pages
          → (continue_with {B = Fields × List Fields}
              (λ all_commits. lift (ok (pr, all_commits)))
              r).0
            ≡ (if test then ok (pr, objects commits) else err too_many_pages)
      pair (ok more, after) true q =
          let same_rest : more ≡ objects commits = cc in rw same_rest refl
      pair (ok more, after) false q = absurd cc
      pair (err raised, after) true q = absurd cc
      pair (err raised, after) false q = cc
