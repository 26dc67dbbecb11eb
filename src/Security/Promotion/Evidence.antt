-- ===== src/Security/Promotion/Evidence.antt =====
-- What a result of the retry rests on.
use optimizr_actions.Prelude.{
  ◌≡◌, refl, ◌⊎◌, inl, inr, ◌↔◌, Bool, Bool-cases, if_lem, Option-cases, and_left, and_right, true,
  false, not, ◌&&◌, ◌||◌, some, List, [], ◌∷◌, Text, codes, same, if◌then◌else◌, arith,
}
use optimizr_actions.Security.Classifications.{
  Classification, clean, actionable_vulnerability, unfixed_warning, misconfiguration_detected,
  secret_detected, scanner_error, not_run,
}
use optimizr_actions.Security.Promotion.{
  skipped, RetryResult, RetryInputs, classification, compatibility_allowed, refs, same_refs,
  has_refs, is_actionable, is_passing, invalid_refs, without_rebuild, failed_rebuild, unchanged,
  rescanned, retried, with_refs, evaluate_retry,
}

abbrev pub initial_of : RetryInputs → Classification
initial_of inputs = classification inputs.initial_classification

-- The first scan passed, on an image that is known.
pub record FirstScan (inputs : RetryInputs) (before : List Text) : Type 0 where
  pub outcome : same inputs.initial_outcome (codes "success") ≡ true
  pub passes : is_passing (initial_of inputs) ≡ true
  pub known : has_refs before ≡ true

-- The scan of an image that was rebuilt because of findings that can be fixed, and that changed.
pub record SecondScan (inputs : RetryInputs) (before after : List Text) : Type 0 where
  pub actionable : is_actionable (initial_of inputs) ≡ true
  pub enabled : inputs.retry_enabled ≡ true
  pub succeeded : same inputs.rebuild_outcome (codes "success") ≡ true
  pub known_before : has_refs before ≡ true
  pub known_after : has_refs after ≡ true
  pub changed : same_refs before after ≡ false
  pub outcome : same inputs.final_outcome (codes "success") ≡ true
  pub passes : is_passing (classification inputs.final_classification) ≡ true

pub record IsPromotable (inputs : RetryInputs) : Type 0 where
  pub before : List Text
  pub after : List Text
  pub immutable_before : refs inputs.initial_refs ≡ some before
  pub immutable_after : refs inputs.remediated_refs ≡ some after
  pub scanned : FirstScan inputs before ⊎ SecondScan inputs before after

skipped_or_success : (s : Text) → same s (codes "success") ≡ true → same s (codes "skipped") ≡ false
unfolding same
skipped_or_success [] h = refl
skipped_or_success (c ∷ []) h = ground arith
skipped_or_success (c ∷ d ∷ s) h = ground arith

actionable_or_passing : (c : Classification) → is_actionable c ≡ true → is_passing c ≡ false
actionable_or_passing actionable_vulnerability h = refl
actionable_or_passing clean h = absurd cc
actionable_or_passing unfixed_warning h = absurd cc
actionable_or_passing misconfiguration_detected h = absurd cc
actionable_or_passing secret_detected h = absurd cc
actionable_or_passing scanner_error h = absurd cc
actionable_or_passing not_run h = absurd cc

not_ready : (a e : Bool) → (not a || not e) ≡ false → (a ≡ true) × (e ≡ true)
not_ready a e h = ground arith

and_true : (a b : Bool) → a ≡ true → b ≡ true → (a && b) ≡ true
and_true a b p q = ground arith

-- The ways to a result, each with the tests that lead to it.
module _ (inputs : RetryInputs) (P : RetryResult → Type 0) where
  pub retried-cases :
      (before after : List Text)
      → ((allowed : Bool)
          → (allowed ≡ true
              → compatibility_allowed (initial_of inputs) skipped inputs.initial_counts ≡ true)
          → P (without_rebuild inputs (initial_of inputs) (initial_of inputs) false allowed))
      → P (failed_rebuild inputs (initial_of inputs))
      → (is_actionable (initial_of inputs) ≡ true → P (unchanged inputs (initial_of inputs)))
      → (is_actionable (initial_of inputs) ≡ true
          → inputs.retry_enabled ≡ true
          → same inputs.rebuild_outcome (codes "success") ≡ true
          → has_refs before ≡ true
          → has_refs after ≡ true
          → same_refs before after ≡ false
          → P (rescanned inputs (initial_of inputs)))
      → P (retried inputs (initial_of inputs) before after)
  unfolding retried
  retried-cases before after kept broken same_image other =
      if_lem P (not (is_actionable (initial_of inputs)) || not inputs.retry_enabled) _ _
        (λ _.
          kept (compatibility_allowed (initial_of inputs) skipped inputs.initial_counts) (λ h. h))
        (λ ready.
          let (actionable, enabled) =
            not_ready (is_actionable (initial_of inputs)) inputs.retry_enabled ready in
          if_lem P (same inputs.rebuild_outcome (codes "skipped")) _ _
            (λ _. kept false (λ h. absurd cc))
            (λ _.
              if_lem P (not (same inputs.rebuild_outcome (codes "success"))) _ _ (λ _. broken)
                (λ done.
                  if_lem P (not (has_refs before) || not (has_refs after)) _ _ (λ _. broken)
                    (λ known.
                      let (b, a) = not_ready (has_refs before) (has_refs after) known in
                      if_lem P (same_refs before after) _ _ (λ _. same_image actionable)
                        (λ changed.
                          other actionable enabled
                            (of_not (same inputs.rebuild_outcome (codes "success")) done) b a
                            changed)))))
    where
      of_not : (b : Bool) → not b ≡ false → b ≡ true
      of_not b h = ground arith

  pub with_refs-cases :
      (before after : List Text)
      → (FirstScan inputs before
          → P (
              without_rebuild inputs
                (initial_of inputs)
                (initial_of inputs)
                true
                (compatibility_allowed (initial_of inputs) skipped inputs.initial_counts)))
      → P (
          without_rebuild inputs
            (initial_of inputs)
            (if is_actionable (initial_of inputs) then initial_of inputs else scanner_error)
            false
            false)
      → P (retried inputs (initial_of inputs) before after)
      → P (with_refs inputs (initial_of inputs) before after)
  unfolding with_refs
  with_refs-cases before after first stopped later =
      if_lem P (same inputs.initial_outcome (codes "success")) _ _
        (λ outcome.
          if_lem P (is_passing (initial_of inputs) && has_refs before) _ _
            (λ h. first (record {
              outcome = outcome;
              passes = and_left (is_passing (initial_of inputs)) (has_refs before) h;
              known = and_right (is_passing (initial_of inputs)) (has_refs before) h;
            }))
            (λ _.
              if_lem P (not (is_actionable (initial_of inputs)) || not inputs.retry_enabled) _ _
                (λ _. stopped) (λ _. later)))
        (λ _. later)

  pub evaluate_retry-cases :
      P (invalid_refs inputs (initial_of inputs))
      → ((before after : List Text)
          → refs inputs.initial_refs ≡ some before
          → refs inputs.remediated_refs ≡ some after
          → P (with_refs inputs (initial_of inputs) before after))
      → P (evaluate_retry inputs)
  unfolding evaluate_retry
  evaluate_retry-cases invalid valid = elim (Option-cases (refs inputs.initial_refs)) [
    | inl missing ↦ rw (evaluate_retry, missing) invalid
    | inr (before, b) ↦ elim (Option-cases (refs inputs.remediated_refs)) [
      | inl missing ↦ rw (evaluate_retry, b, missing) invalid
      | inr (after, a) ↦ rw (evaluate_retry, b, a) (valid before after b a)
    ]
  ]

-- Both scans lead to a promotion.
module _ (inputs : RetryInputs) (before after : List Text) where
  is_ready :
      SecondScan inputs before after
      → (not (is_actionable (initial_of inputs)) || not inputs.retry_enabled) ≡ false
  is_ready s = ground (arith, s.actionable, s.enabled)

  not_passing : (p h : Bool) → p ≡ false → (p && h) ≡ false
  not_passing p h e = ground arith

  first_scan :
      FirstScan inputs before → (with_refs inputs (initial_of inputs) before after).passed ≡ true
  unfolding with_refs
  first_scan s =
      let passes : (is_passing (initial_of inputs) && has_refs before) ≡ true =
        and_true (is_passing (initial_of inputs)) (has_refs before) s.passes s.known in
      rw (with_refs, s.outcome, passes) refl

  retried-promotes :
      SecondScan inputs before after
      → (retried inputs (initial_of inputs) before after).passed ≡ true
  unfolding retried rescanned
  retried-promotes s =
      let ready = is_ready s in
      let not_skipped = skipped_or_success inputs.rebuild_outcome s.succeeded in
      let done : not (same inputs.rebuild_outcome (codes "success")) ≡ false =
        ground (arith, s.succeeded) in
      let known : (not (has_refs before) || not (has_refs after)) ≡ false =
        ground (arith, s.known_before, s.known_after) in
      let promoted =
        and_true (same inputs.final_outcome (codes "success"))
          (is_passing (classification inputs.final_classification)) s.outcome s.passes in
      rw (retried, ready, not_skipped, done, known, s.changed, rescanned) promoted

  second_scan :
      SecondScan inputs before after
      → (with_refs inputs (initial_of inputs) before after).passed ≡ true
  unfolding with_refs
  second_scan s =
      let retry = retried-promotes s in
      let ready = is_ready s in
      let blocked : (is_passing (initial_of inputs) && has_refs before) ≡ false =
        not_passing (is_passing (initial_of inputs)) (has_refs before)
          (actionable_or_passing (initial_of inputs) s.actionable) in
      elim (Bool-cases (same inputs.initial_outcome (codes "success"))) [
        | inl h ↦
            rw (with_refs, h, blocked)
              (if_lem {A = RetryResult} (λ r. r.passed ≡ true)
                (not (is_actionable (initial_of inputs)) || not inputs.retry_enabled) _ _
                (λ stopped. absurd (ground (arith, stopped, ready))) (λ _. retry))
        | inr h ↦ rw (with_refs, h) retry
      ]

-- A scan of either kind promotes, and nothing else does.
module _ (inputs : RetryInputs) where
  abbrev Promotes : RetryResult → Type 0
  Promotes r = r.passed ≡ true → IsPromotable inputs

  promotes :
      (before after : List Text)
      → refs inputs.initial_refs ≡ some before
      → refs inputs.remediated_refs ≡ some after
      → Promotes (with_refs inputs (initial_of inputs) before after)
  unfolding without_rebuild failed_rebuild unchanged rescanned
  promotes before after b a =
      with_refs-cases inputs Promotes before after (λ first _. of_scan (inl first)) (λ h. absurd cc)
        (retried-cases inputs Promotes before after (λ allowed _ h. absurd cc) (λ h. absurd cc)
          (λ _ h. absurd cc)
          (λ actionable enabled succeeded known_before known_after changed h. of_scan (
            inr (record {
              actionable = actionable;
              enabled = enabled;
              succeeded = succeeded;
              known_before = known_before;
              known_after = known_after;
              changed = changed;
              outcome =
                  and_left (same inputs.final_outcome (codes "success"))
                    (is_passing (classification inputs.final_classification)) h;
              passes =
                  and_right (same inputs.final_outcome (codes "success"))
                    (is_passing (classification inputs.final_classification)) h;
            }))))
    where
      of_scan : FirstScan inputs before ⊎ SecondScan inputs before after → IsPromotable inputs
      of_scan scanned = record {
        before = before;
        after = after;
        immutable_before = b;
        immutable_after = a;
        scanned = scanned;
      }

  -- An image is promoted exactly when all its references, before and after, are immutable, and either
  -- the first scan succeeded without findings that can be fixed on a set of references that is not
  -- empty, or a rebuild that was enabled for such findings succeeded, led from a set of references that
  -- is not empty to another such set, and was scanned with success and without such findings.
  pub evaluate_retry-passed : ((evaluate_retry inputs).passed ≡ true) ↔ IsPromotable inputs
  unfolding evaluate_retry invalid_refs
  evaluate_retry-passed = (
    evaluate_retry-cases inputs Promotes (λ h. absurd cc) promotes,
    λ p. rw (evaluate_retry, p.immutable_before, p.immutable_after) (scan p),
  )
    where
      scan :
          (p : IsPromotable inputs)
          → (with_refs inputs (initial_of inputs) p.before p.after).passed ≡ true
      scan p = elim p.scanned [
        | inl s ↦ first_scan inputs p.before p.after s
        | inr s ↦ second_scan inputs p.before p.after s
      ]
