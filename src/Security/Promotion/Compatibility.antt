-- ===== src/Security/Promotion/Compatibility.antt =====
-- When findings without a fix are tolerated, and that the fields of a result agree.
use optimizr_actions.Prelude.{
  ◌≡◌, refl, Bool, true, false, ◌&&◌, codes, same, if◌then◌else◌, arith, suc, zero,
}
use optimizr_actions.Prelude.Integers.{ℤ, pos, negsuc}
use optimizr_actions.Security.Classifications.{
  Classification, clean, actionable_vulnerability, unfixed_warning, misconfiguration_detected,
  secret_detected, scanner_error, not_run,
}
use optimizr_actions.Security.Promotion.{
  Rebuild, skipped, failed, no_change, rebuilt, Counts, RetryResult, RetryInputs, classification,
  is_zero, is_positive, compatibility_allowed, is_actionable, is_passing, invalid_refs,
  without_rebuild, failed_rebuild, unchanged, rescanned, evaluate_retry,
}
use optimizr_actions.Security.Promotion.Evidence.{
  initial_of, retried-cases, with_refs-cases, evaluate_retry-cases,
}

-- Findings without a fix, and no others.
pub record HasOnlyUnfixed (counts : Counts) : Type 0 where
  pub fixable : counts.fixable_vulnerability_count ≡ pos 0
  pub unfixed : is_positive counts.unfixed_vulnerability_count ≡ true
  pub misconfigurations : counts.misconfiguration_count ≡ pos 0
  pub secrets : counts.secret_count ≡ pos 0

is_zero_sound : (z : ℤ) → is_zero z ≡ true → z ≡ pos 0
is_zero_sound (pos zero) h = refl
is_zero_sound (pos (suc n)) h = absurd cc
is_zero_sound (negsuc n) h = absurd cc

compatibility_allowed-counts :
    (c : Classification) (state : Rebuild) (counts : Counts)
    → compatibility_allowed c state counts ≡ true
    → (c ≡ unfixed_warning) × HasOnlyUnfixed counts
unfolding compatibility_allowed
compatibility_allowed-counts unfixed_warning state counts h =
    let (secrets, misconfigurations, unfixed, fixable) = parts _ _ _ _ _ h in
    (
      refl,
      record {
        fixable = is_zero_sound counts.fixable_vulnerability_count fixable;
        unfixed = unfixed;
        misconfigurations = is_zero_sound counts.misconfiguration_count misconfigurations;
        secrets = is_zero_sound counts.secret_count secrets;
      },
    )
  where
    parts :
        (u f w m s : Bool)
        → (u && f && w && m && s) ≡ true
        → (s ≡ true) × (m ≡ true) × (w ≡ true) × (f ≡ true)
    parts u f w m s k = ground arith
compatibility_allowed-counts clean state counts h = absurd cc
compatibility_allowed-counts actionable_vulnerability state counts h = absurd cc
compatibility_allowed-counts misconfiguration_detected state counts h = absurd cc
compatibility_allowed-counts secret_detected state counts h = absurd cc
compatibility_allowed-counts scanner_error state counts h = absurd cc
compatibility_allowed-counts not_run state counts h = absurd cc

actionable-incompatible :
    (c : Classification) (state : Rebuild) (counts : Counts)
    → is_actionable c ≡ true
    → compatibility_allowed c state counts ≡ false
unfolding compatibility_allowed
actionable-incompatible actionable_vulnerability state counts h = refl
actionable-incompatible clean state counts h = absurd cc
actionable-incompatible unfixed_warning state counts h = absurd cc
actionable-incompatible misconfiguration_detected state counts h = absurd cc
actionable-incompatible secret_detected state counts h = absurd cc
actionable-incompatible scanner_error state counts h = absurd cc
actionable-incompatible not_run state counts h = absurd cc

-- After a rebuild that changed the image.
rescan-incompatible :
    (c : Classification) (done : Bool) (counts : Counts)
    → compatibility_allowed c (if done then rebuilt else failed) counts ≡ false
unfolding compatibility_allowed
rescan-incompatible unfixed_warning true counts = refl
rescan-incompatible unfixed_warning false counts = refl
rescan-incompatible clean done counts = refl
rescan-incompatible actionable_vulnerability done counts = refl
rescan-incompatible misconfiguration_detected done counts = refl
rescan-incompatible secret_detected done counts = refl
rescan-incompatible scanner_error done counts = refl
rescan-incompatible not_run done counts = refl

pub record IsCompatible (inputs : RetryInputs) (result : RetryResult) : Type 0 where
  pub initial : initial_of inputs ≡ unfixed_warning
  pub final : result.final_result ≡ unfixed_warning
  pub attempted : result.rebuild_attempted ≡ false
  pub counts : HasOnlyUnfixed result.counts

module _ (inputs : RetryInputs) where
  abbrev Tolerates : RetryResult → Type 0
  Tolerates r = r.compatibility_allowed ≡ true → IsCompatible inputs r

  kept :
      (passed allowed : Bool)
      → (allowed ≡ true
          → compatibility_allowed (initial_of inputs) skipped inputs.initial_counts ≡ true)
      → Tolerates (without_rebuild inputs (initial_of inputs) (initial_of inputs) passed allowed)
  unfolding without_rebuild
  kept passed allowed f h =
      let (initial, counts) =
        compatibility_allowed-counts (initial_of inputs) skipped inputs.initial_counts (f h) in
      record { initial = initial; final = initial; attempted = refl; counts = counts }

  -- Compatibility is allowed only where the first scan found vulnerabilities without a fix, nothing
  -- that can be fixed, no misconfiguration and no secret, and no rebuild was attempted.
  pub evaluate_retry-IsCompatible :
      (evaluate_retry inputs).compatibility_allowed ≡ true
      → IsCompatible inputs (evaluate_retry inputs)
  unfolding invalid_refs without_rebuild failed_rebuild unchanged rescanned compatibility_allowed
  evaluate_retry-IsCompatible =
      evaluate_retry-cases inputs Tolerates (λ h. absurd cc)
        (λ before after _ _.
          with_refs-cases inputs Tolerates before after
            (λ _.
              kept true (compatibility_allowed (initial_of inputs) skipped inputs.initial_counts)
                (λ h. h))
            (λ h. absurd cc)
            (retried-cases inputs Tolerates before after (kept false) (λ h. absurd cc)
              (λ actionable h.
                let refused =
                  actionable-incompatible (initial_of inputs) no_change inputs.initial_counts
                    actionable in
                absurd cc)
              (λ _ _ _ _ _ _ h.
                let refused =
                  rescan-incompatible (classification inputs.final_classification)
                    (same inputs.final_outcome (codes "success")
                      && is_passing (classification inputs.final_classification))
                    inputs.final_counts in
                absurd cc)))
