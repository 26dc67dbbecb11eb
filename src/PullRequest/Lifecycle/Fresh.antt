-- ===== src/PullRequest/Lifecycle/Fresh.antt =====
-- Which pull requests are accepted.
use optimizr_actions.Prelude.{
  ℕ, ◌≡◌, refl, ap, ◌↔◌, ◌⊎◌, inl, inr, and_left, Bool-cases, Bool, true, false, ◌&&◌, ◌||◌, Option,
  none, some, List, [], ◌∷◌, ◌++◌, Text, codes, same_sound, same_refl, if◌then◌else◌, All, arith,
}
use optimizr_actions.Prelude.Integers.{ℤ, pos, negsuc}
use optimizr_actions.Prelude.Json.{
  Json, Fields, null, bool, int, decimal, text, array, object, get, is_set,
}
use optimizr_actions.PullRequest.Lifecycle.{
  LifecycleFailure, not_open, already_merged, is_open, is_number, number_of, is_other,
  is_merged_before, used_by, validate_history, validate_pr_lifecycle,
}

is_open_sound : (value : Option Json) → is_open value ≡ true → value ≡ some (text (codes "open"))
is_open_sound (some (text s)) h = ap (λ t. some (text t)) (same_sound s (codes "open") h)
is_open_sound none h = absurd cc
is_open_sound (some null) h = absurd cc
is_open_sound (some (bool b)) h = absurd cc
is_open_sound (some (int n)) h = absurd cc
is_open_sound (some (decimal m k)) h = absurd cc
is_open_sound (some (array items)) h = absurd cc
is_open_sound (some (object fields)) h = absurd cc

is_number_sound : (z : ℤ) (n : ℕ) → is_number z n ≡ true → z ≡ pos n
is_number_sound (pos m) n h = ap pos (ground arith)
is_number_sound (negsuc m) n h = absurd cc

choice :
    (test : Bool) (xs ys : List LifecycleFailure)
    → (if test then xs else ys) ≡ []
    → ((test ≡ true) × (xs ≡ [])) ⊎ ((test ≡ false) × (ys ≡ []))
choice true xs ys h = inl (refl, h)
choice false xs ys h = inr (refl, h)

not_chosen :
    (test : Bool) (xs ys : List LifecycleFailure)
    → test ≡ false
    → ys ≡ []
    → (if test then xs else ys) ≡ []
not_chosen true xs ys h k = absurd cc
not_chosen false xs ys h k = k

not_both : (a b : Bool) → (a && b) ≡ false → b ≡ true → a ≡ false
not_both a b h k = ground arith

no_other : (a b : Bool) → a ≡ false → (a && b) ≡ false
no_other a b h = ground arith

no_merge : (a b : Bool) → b ≡ false → (a && b) ≡ false
no_merge a b h = ground arith

either_false : (a b : Bool) → (a || b) ≡ false → (a ≡ false) × (b ≡ false)
either_false a b h = ground arith

-- No failure of either kind, and none of the history.
all_empty :
    (is_live was_merged : Bool) (rest : List LifecycleFailure)
    → ((if is_live then [] else not_open ∷ [])
        ++ (if was_merged then already_merged ∷ [] else [])
        ++ rest)
      ≡ []
    → (is_live ≡ true) × (was_merged ≡ false) × (rest ≡ [])
all_empty true false rest h = (refl, refl, h)
all_empty true true rest h = absurd cc
all_empty false was_merged rest h = absurd cc

module _ (int_of : Text → Option ℤ) (str_of : Json → Text) where
  -- A merged pull request with this number, or with none.
  abbrev pub IsSame : Option ℤ → ℕ → Type 0
  IsSame number pr_number = (number ≡ none) ⊎ (number ≡ some (pos pr_number))

  abbrev pub IsHarmless : ℕ → Fields → Type 0
  IsHarmless pr_number prior =
      is_set (get prior (codes "merged_at")) ≡ true
      → IsSame (number_of int_of str_of (get prior (codes "number"))) pr_number

  pub record IsFresh (pr : Fields) (pr_number : ℕ) (history : List Fields) : Type 0 where
    pub open_state : get pr (codes "state") ≡ some (text (codes "open"))
    pub unmerged : is_set (get pr (codes "merged")) ≡ false
    pub never_merged : is_set (get pr (codes "merged_at")) ≡ false
    pub harmless : All (IsHarmless pr_number) history

  other-IsSame :
      (number : Option ℤ) (n : ℕ) → is_other int_of str_of number n ≡ false → IsSame number n
  other-IsSame none n h = inl refl
  other-IsSame (some z) n h = inr (ap some (is_number_sound z n (ground arith)))

  IsSame-other :
      (number : Option ℤ) (n : ℕ) → IsSame number n → is_other int_of str_of number n ≡ false
  IsSame-other none n h = refl
  IsSame-other (some z) n (inl h) = absurd cc
  IsSame-other (some z) n (inr h) =
      let same_number : z ≡ pos n = cc in
      let here : is_number (pos n) n ≡ true = ground arith in rw (same_number, here) refl

  used_by-none :
      (number : Option ℤ) (n : ℕ)
      → is_other int_of str_of number n ≡ true
      → used_by int_of str_of number ≡ []
      → ⊥
  used_by-none none n h k = cc
  used_by-none (some z) n h k = cc

  history-IsHarmless :
      (n : ℕ) (history : List Fields)
      → validate_history int_of str_of n history ≡ []
      → All (IsHarmless n) history
  unfolding validate_history is_merged_before
  history-IsHarmless n [] h = tt
  history-IsHarmless n (prior ∷ history) h =
      let number = number_of int_of str_of (get prior (codes "number")) in
      let other = is_other int_of str_of number n in
      let merged = is_set (get prior (codes "merged_at")) in
      elim (choice (is_merged_before int_of str_of prior n) (used_by int_of str_of number)
        (validate_history int_of str_of n history) h) [
          | inl (test, unused) ↦ absurd (used_by-none number n (and_left other merged test) unused)
          | inr (test, rest) ↦ (
            λ was_merged. other-IsSame number n (not_both other merged test was_merged),
            history-IsHarmless n history rest,
          )
        ]

  IsHarmless-history :
      (n : ℕ) (history : List Fields)
      → All (IsHarmless n) history
      → validate_history int_of str_of n history ≡ []
  unfolding validate_history is_merged_before
  IsHarmless-history n [] h = refl
  IsHarmless-history n (prior ∷ history) h =
      let number = number_of int_of str_of (get prior (codes "number")) in
      let other = is_other int_of str_of number n in
      let merged = is_set (get prior (codes "merged_at")) in
      not_chosen (is_merged_before int_of str_of prior n) (used_by int_of str_of number)
        (validate_history int_of str_of n history)
        (elim (Bool-cases merged) [
          | inl m ↦ no_other other merged (IsSame-other number n (h.0 m))
          | inr m ↦ no_merge other merged m
        ])
        (IsHarmless-history n history h.1)

  -- A pull request passes the lifecycle exactly when its state is open, it was not merged, and every
  -- pull request in the history of its branch that was merged has its own number, or none that can be
  -- read.
  pub validate_pr_lifecycle_iff :
      (pr : Fields) (pr_number : ℕ) (history : List Fields)
      → (validate_pr_lifecycle int_of str_of pr pr_number history ≡ [])
        ↔ IsFresh pr pr_number history
  unfolding validate_pr_lifecycle
  validate_pr_lifecycle_iff pr pr_number history = (accepted, fresh)
    where
      merged : Bool
      merged = is_set (get pr (codes "merged"))

      unmerged_at : Bool
      unmerged_at = is_set (get pr (codes "merged_at"))

      accepted :
          validate_pr_lifecycle int_of str_of pr pr_number history ≡ []
          → IsFresh pr pr_number history
      accepted h =
          let (live, once, rest) =
            all_empty (is_open (get pr (codes "state"))) (merged || unmerged_at)
              (validate_history int_of str_of pr_number history) h in
          let (m, a) = either_false merged unmerged_at once in
          record {
            open_state = is_open_sound (get pr (codes "state")) live;
            unmerged = m;
            never_merged = a;
            harmless = history-IsHarmless pr_number history rest;
          }

      fresh :
          IsFresh pr pr_number history
          → validate_pr_lifecycle int_of str_of pr pr_number history ≡ []
      fresh f =
          rw (f.open_state, same_refl (codes "open"), f.unmerged, f.never_merged)
            (IsHarmless-history pr_number history f.harmless)
