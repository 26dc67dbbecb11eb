-- ===== src/Security/Promotion/Consistency.antt =====
-- That the fields of a result of the retry agree.
use optimizr_actions.Prelude.{
  ◌≡◌, refl, Bool, true, false, not, ◌&&◌, if_lem, Option, none, some, Text, codes, same,
  if◌then◌else◌, and_right,
}
use optimizr_actions.Security.Classifications.{
  Classification, clean, actionable_vulnerability, unfixed_warning, misconfiguration_detected,
  secret_detected, scanner_error, not_run, normalize_security_classification,
}
use optimizr_actions.Security.Promotion.{
  Rebuild, skipped, failed, rebuilt, RetryResult, RetryInputs, classification, or_scanner_error,
  is_actionable, is_passing, invalid_refs, without_rebuild, failed_rebuild, unchanged, rescanned,
  evaluate_retry,
}
use optimizr_actions.Security.Promotion.Evidence.{
  initial_of, retried-cases, with_refs-cases, evaluate_retry-cases,
}

abbrev pub is_skipped : Rebuild → Bool
is_skipped skipped = true
is_skipped _ = false

-- Whether a result came of a scan that the caller can rely on.
abbrev pub is_settled : Rebuild → Bool
is_settled skipped = true
is_settled rebuilt = true
is_settled _ = false

abbrev pub has_run : Classification → Bool
has_run not_run = false
has_run _ = true

pub record IsConsistent (result : RetryResult) : Type 0 where
  pub attempted : result.rebuild_attempted ≡ not (is_skipped result.rebuild_result)
  pub passing : result.passed ≡ true → is_passing result.final_result ≡ true
  pub settled : result.passed ≡ true → is_settled result.rebuild_result ≡ true
  pub initial : has_run result.initial_result ≡ true
  pub final : has_run result.final_result ≡ true

or_scanner_error-has_run : (c : Option Classification) → has_run (or_scanner_error c) ≡ true
or_scanner_error-has_run none = refl
or_scanner_error-has_run (some clean) = refl
or_scanner_error-has_run (some actionable_vulnerability) = refl
or_scanner_error-has_run (some unfixed_warning) = refl
or_scanner_error-has_run (some misconfiguration_detected) = refl
or_scanner_error-has_run (some secret_detected) = refl
or_scanner_error-has_run (some scanner_error) = refl
or_scanner_error-has_run (some not_run) = refl

classification-has_run : (raw : Text) → has_run (classification raw) ≡ true
unfolding classification
classification-has_run raw = or_scanner_error-has_run (normalize_security_classification raw)

if_attempted : (b : Bool) → b ≡ not (is_skipped (if b then failed else skipped))
if_attempted true = refl
if_attempted false = refl

if_rebuilt : (b : Bool) → true ≡ not (is_skipped (if b then rebuilt else failed))
if_rebuilt true = refl
if_rebuilt false = refl

if_settled : (b : Bool) → b ≡ true → is_settled (if b then rebuilt else failed) ≡ true
if_settled true h = refl
if_settled false h = absurd cc

module _ (inputs : RetryInputs) where
  ran : has_run (initial_of inputs) ≡ true
  ran = classification-has_run inputs.initial_classification

  refused :
      (final : Classification) (allowed : Bool)
      → has_run final ≡ true
      → IsConsistent (without_rebuild inputs (initial_of inputs) final false allowed)
  unfolding without_rebuild
  refused final allowed r = record {
    attempted = refl;
    passing = λ h. absurd cc;
    settled = λ h. refl;
    initial = ran;
    final = r;
  }

  after_rescan : IsConsistent (rescanned inputs (initial_of inputs))
  unfolding rescanned
  after_rescan =
      let succeeded = same inputs.final_outcome (codes "success") in
      let passes = is_passing (classification inputs.final_classification) in
      record {
        attempted = if_rebuilt (succeeded && passes);
        passing = λ h. and_right succeeded passes h;
        settled = if_settled (succeeded && passes);
        initial = ran;
        final = classification-has_run inputs.final_classification;
      }

  final_of_stopped :
      has_run (if is_actionable (initial_of inputs) then initial_of inputs else scanner_error)
      ≡ true
  final_of_stopped =
      if_lem (λ c. has_run c ≡ true) (is_actionable (initial_of inputs)) (initial_of inputs)
        scanner_error (λ _. ran) (λ _. refl)

  -- In every result, a rebuild was attempted exactly when its result is not skipped; a result that
  -- promotes is of a scan without findings that can be fixed, and of the first image or of one whose
  -- rebuild passed; and no result says that a scan was not run.
  pub evaluate_retry-IsConsistent : IsConsistent (evaluate_retry inputs)
  unfolding invalid_refs without_rebuild failed_rebuild unchanged
  evaluate_retry-IsConsistent =
      evaluate_retry-cases inputs IsConsistent
        (record {
          attempted = if_attempted (is_actionable (initial_of inputs) && inputs.retry_enabled);
          passing = λ h. absurd cc;
          settled = λ h. absurd cc;
          initial = ran;
          final = refl;
        })
        (λ before after _ _.
          with_refs-cases inputs IsConsistent before after
            (λ first. record {
              attempted = refl;
              passing = λ _. first.passes;
              settled = λ _. refl;
              initial = ran;
              final = ran;
            })
            (refused _ false final_of_stopped)
            (retried-cases inputs IsConsistent before after
              (λ allowed _. refused (initial_of inputs) allowed ran)
              (record {
                attempted = refl;
                passing = λ h. absurd cc;
                settled = λ h. absurd cc;
                initial = ran;
                final = refl;
              })
              (λ _. record {
                attempted = refl;
                passing = λ h. absurd cc;
                settled = λ h. absurd cc;
                initial = ran;
                final = ran;
              })
              (λ _ _ _ _ _ _. after_rescan)))
