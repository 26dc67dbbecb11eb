-- ===== src/Delivery/Gates/Decision.antt =====
-- When the evidence passes.
use optimizr_actions.Prelude.{
  ◌≡◌, refl, inl, inr, Bool, true, false, not, ◌&&◌, Option, Option-cases, none, some, List, [],
  ◌∷◌, Text, codes, same, same_sound, member, find, all, find_refutes, arith,
}
use optimizr_actions.Prelude.Dicts.{Dict, lookup, has_key, all-lookup}
use optimizr_actions.Delivery.Gates.{Evidence, allowed_statuses, has_status, status_at, decide}

abbrev pub is_allowed : Evidence → Bool
is_allowed e = member e.status allowed_statuses

abbrev pub is_failed : Evidence → Bool
is_failed = has_status (codes "failed")

abbrev pub is_absent : Option Text → Bool
is_absent none = true
is_absent (some _) = false

allowed_passes :
    (s : Text)
    → member s allowed_statuses ≡ true
    → same s (codes "failed") ≡ false
    → same s (codes "skipped") ≡ false
    → same s (codes "passed") ≡ true
unfolding member
allowed_passes s a f k = ground arith

passed_alone : (s : Text) → same s (codes "skipped") ≡ true → same s (codes "passed") ≡ false
passed_alone s h = rw (same_sound s (codes "skipped") h) (unfold same in refl)

-- A gate that is absent or skipped has not passed.
absent-status_at :
    (n : Text) (d : Dict Evidence)
    → not (has_key n d) ≡ true
    → status_at (codes "passed") n d ≡ false
unfolding has_key status_at
absent-status_at n d h = ground arith

skipped-status_at :
    (n : Text) (d : Dict Evidence)
    → status_at (codes "skipped") n d ≡ true
    → status_at (codes "passed") n d ≡ false
unfolding status_at
skipped-status_at n d h = elim (Option-cases (lookup n d)) [
  | inl e ↦ ground arith
  | inr (v, e) ↦ ground (arith, passed_alone v.status)
]

-- A gate that is there, not skipped, and not failed has passed.
present-status_at :
    (n : Text) (d : Dict Evidence)
    → all (λ e. is_allowed e.1) d ≡ true
    → all (λ e. not (is_failed e.1)) d ≡ true
    → not (has_key n d) ≡ false
    → status_at (codes "skipped") n d ≡ false
    → status_at (codes "passed") n d ≡ true
unfolding has_key status_at
present-status_at n d a f k s = elim (Option-cases (lookup n d)) [
  | inl e ↦ absurd (ground arith)
  | inr (v, e) ↦ ground (
    arith,
    allowed_passes v.status,
    all-lookup is_allowed n d a e,
    all-lookup (λ x. not (is_failed x)) n d f e,
  )
]

negated : {b : Bool} → b ≡ true → not b ≡ false
negated h = ground arith

none_found {ℓ} :
    {A : Type ℓ} (p : A → Bool) (xs : List A) → find p xs ≡ none → all (λ x. not (p x)) xs ≡ true
none_found p [] h = refl
none_found p (x ∷ xs) h = ground (arith, none_found p xs)

every_passed :
    (required : List Text) (d : Dict Evidence)
    → all (λ e. is_allowed e.1) d ≡ true
    → all (λ e. not (is_failed e.1)) d ≡ true
    → find (λ n. not (has_key n d)) required ≡ none
    → find (λ n. status_at (codes "skipped") n d) required ≡ none
    → all (λ n. status_at (codes "passed") n d) required ≡ true
every_passed [] d a f em es = refl
every_passed (n ∷ required) d a f em es =
    ground (arith, present-status_at n d a f, every_passed required d a f)

-- The decision over collected evidence.
pub decide-passed :
    (required : List Text) (d : Dict Evidence)
    → all (λ e. is_allowed e.1) d ≡ true
    → (decide required d).passed
      ≡ (all (λ n. status_at (codes "passed") n d) required && all (λ e. not (is_failed e.1)) d)
unfolding decide
decide-passed required d a =
    go (find (λ n. not (has_key n d)) required)
      (find (λ n. status_at (codes "skipped") n d) required) (find (λ e. is_failed e.1) d) refl refl
      refl
  where
    go :
        (m s : Option Text) (f : Option (Text × Evidence))
        → find (λ n. not (has_key n d)) required ≡ m
        → find (λ n. status_at (codes "skipped") n d) required ≡ s
        → find (λ e. is_failed e.1) d ≡ f
        → (decide required d).passed
          ≡ (all (λ n. status_at (codes "passed") n d) required && all (λ e. not (is_failed e.1)) d)
    go (some n) s f em es ef =
        let none_passed =
          find_refutes _ (λ k. status_at (codes "passed") k d) required (λ k. absent-status_at k d)
            em in
        ground (arith, none_passed)
    go none (some n) f em es ef =
        let none_passed =
          find_refutes _ (λ k. status_at (codes "passed") k d) required (λ k. skipped-status_at k d)
            es in
        ground (arith, none_passed)
    go none none (some e) em es ef =
        let one_failed =
          find_refutes (λ x. is_failed x.1) (λ x. not (is_failed x.1)) d (λ x h. negated h) ef in
        ground (arith, one_failed)
    go none none none em es ef =
        let fine = none_found (λ x. is_failed x.1) d ef in
        let every = every_passed required d a fine em es in ground (arith, fine, every)

-- A decision that passes has no reason for failure, and any other has one.
pub decide-failure_reason :
    (required : List Text) (d : Dict Evidence)
    → (decide required d).passed ≡ is_absent (decide required d).failure_reason
unfolding decide
decide-failure_reason required d =
    go (find (λ n. not (has_key n d)) required)
      (find (λ n. status_at (codes "skipped") n d) required) (find (λ e. is_failed e.1) d) refl refl
      refl
  where
    go :
        (m s : Option Text) (f : Option (Text × Evidence))
        → find (λ n. not (has_key n d)) required ≡ m
        → find (λ n. status_at (codes "skipped") n d) required ≡ s
        → find (λ e. is_failed e.1) d ≡ f
        → (decide required d).passed ≡ is_absent (decide required d).failure_reason
    go (some n) s f em es ef = ground arith
    go none (some n) f em es ef = ground arith
    go none none (some e) em es ef = ground arith
    go none none none em es ef = ground arith
