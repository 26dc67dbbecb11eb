-- ===== src/PullRequest/Lifecycle.antt =====
-- validate.py: whether the pull request is open and its branch was not merged before.
pub mod Fresh
use optimizr_actions.Prelude.{
  ℕ, zero, suc, ◌/◌, ◌^◌, ◌≡◌, ◌≢◌, refl, ◌↔◌, ◌⊎◌, inl, inr, Bool-cases, Bool, true, false, not,
  ◌&&◌, ◌||◌, Option, none, some, List, [], ◌∷◌, ◌++◌, Text, codes, same, contains, ◌==◌,
  if◌then◌else◌, if_lem, All, arith,
}
use optimizr_actions.Prelude.Integers.{ℤ, pos, negsuc}
use optimizr_actions.Prelude.Json.{
  Json, Items, Fields, null, bool, int, decimal, text, array, object, end, item, no_more, field,
  get, is_truthy, is_set, text_or_empty,
}

abbrev pub is_open : Option Json → Bool
is_open (some (text state)) = same state (codes "open")
is_open _ = false

-- The integer part.
abbrev pub truncated : ℤ → ℕ → ℤ
truncated (pos m) k = pos (m / 10 ^ k)
truncated (negsuc m) k = negative (suc m / 10 ^ k)
  where
    negative : ℕ → ℤ
    negative zero = pos 0
    negative (suc n) = negsuc n

abbrev pub is_number : ℤ → ℕ → Bool
is_number (pos m) n = m == n
is_number (negsuc m) n = false

pub data LifecycleFailure : Type 0 where
  not_open already_merged : LifecycleFailure
  already_used : (prior : ℤ) → LifecycleFailure

-- `int` of a text and `str` of a value that is no text
module _ (int_of : Text → Option ℤ) (str_of : Json → Text) where
  -- `int(value)`, where it is a number
  abbrev pub integer_of : Json → Option ℤ
  integer_of (int n) = some n
  integer_of (bool true) = some (pos 1)
  integer_of (bool false) = some (pos 0)
  integer_of (decimal m k) = some (truncated m k)
  integer_of (text s) = int_of s
  integer_of null = none
  integer_of (array _) = none
  integer_of (object _) = none

  -- `int(prior.get("number") or 0)`
  abbrev pub number_of : Option Json → Option ℤ
  number_of none = some (pos 0)
  number_of (some value) = if is_truthy value then integer_of value else some (pos 0)

  abbrev pub is_other : Option ℤ → ℕ → Bool
  is_other none pr_number = false
  is_other (some n) pr_number = not (is_number n pr_number)

  -- A pull request with another number that was merged.
  unfoldable pub is_merged_before : Fields → ℕ → Bool
  unfolding get
  is_merged_before prior pr_number =
      is_other (number_of (get prior (codes "number"))) pr_number
      && is_set (get prior (codes "merged_at"))

  abbrev pub used_by : Option ℤ → List LifecycleFailure
  used_by none = []
  used_by (some n) = already_used n ∷ []

  -- `for prior in branch_history: …`
  unfoldable pub validate_history : ℕ → List Fields → List LifecycleFailure
  unfolding get is_merged_before
  validate_history pr_number [] = []
  validate_history pr_number (prior ∷ history) =
      let rest = validate_history pr_number history in
      if is_merged_before prior pr_number
      then used_by (number_of (get prior (codes "number")))
      else rest

  unfoldable pub validate_pr_lifecycle : Fields → ℕ → List Fields → List LifecycleFailure
  unfolding get validate_history
  validate_pr_lifecycle pr pr_number branch_history =
      (if is_open (get pr (codes "state")) then [] else not_open ∷ [])
      ++ (if is_set (get pr (codes "merged")) || is_set (get pr (codes "merged_at"))
          then already_merged ∷ []
          else [])
      ++ validate_history pr_number branch_history

  abbrev pub fields_or_none : Option Json → Option Fields
  fields_or_none (some (object fields)) = some fields
  fields_or_none (some value) = if is_truthy value then none else some no_more
  fields_or_none none = some no_more

  -- `value.split(…, 1)[0]`
  abbrev pub before_first : ℕ → Text → Text
  before_first c [] = []
  before_first c (d ∷ s) = let rest = before_first c s in if d == c then [] else d ∷ rest

  abbrev pub full_name_of : Option Fields → Text
  full_name_of none = []
  full_name_of (some repo) = text_or_empty str_of (get repo (codes "full_name"))

  abbrev pub owner_of : Text → Text → Text
  owner_of full_name label =
      if contains full_name (codes "/")
      then before_first b'/' full_name
      else if contains label (codes ":")
      then before_first b':' label
      else []

  abbrev pub identity : Text → Text → Option (Text × Text)
  identity [] ref = none
  identity (c ∷ owner) [] = none
  identity (c ∷ owner) (d ∷ ref) = some (c ∷ owner, d ∷ ref)

  unfoldable pub resolve_head_identity : Fields → Option (Text × Text)
  unfolding get contains
  resolve_head_identity pr = elim (fields_or_none (get pr (codes "head"))) [
    | none ↦ none
    | some head ↦
        identity
          (owner_of (full_name_of (fields_or_none (get head (codes "repo"))))
            (text_or_empty str_of (get head (codes "label"))))
          (text_or_empty str_of (get head (codes "ref")))
  ]
