-- ===== src/Security/Examples.antt =====
-- An image whose rebuild removes the findings.
use optimizr_actions.Prelude.{
  ◌≡◌, refl, ◌↔◌, true, false, none, some, List, [], ◌∷◌, ◌++◌, Text, codes, replicate, ok,
}
use optimizr_actions.Prelude.Integers.{ℤ, pos}
use optimizr_actions.Prelude.Json.{object, int, to_fields}
use optimizr_actions.Security.Classifications.{actionable_vulnerability, scanner_error}
use optimizr_actions.Security.Aggregate.{SummaryFile, Aggregate, aggregate_summaries}
use optimizr_actions.Security.Aggregate.Meaning.{IsAccurate, aggregate_summaries-IsAccurate}
use optimizr_actions.Security.Promotion.{RetryInputs, no_change, evaluate_retry, retry_result}
use optimizr_actions.Security.Promotion.Evidence.{IsPromotable, evaluate_retry-passed}
use optimizr_actions.Security.Promotion.Compatibility.{IsCompatible, evaluate_retry-IsCompatible}
use optimizr_actions.Security.Promotion.Consistency.{IsConsistent, evaluate_retry-IsConsistent}

program : Unit {0}
unfolding aggregate_summaries evaluate_retry retry_result
program = tt

abbrev summary : ℤ → SummaryFile
summary fixable = record {
  is_regular = true;
  value = some (
      object (
        to_fields (
          (codes "schema_version", int (pos 1))
          ∷ (
            codes "vulnerabilities",
            object
                (to_fields ((codes "fixable", int fixable) ∷ (codes "unfixed", int (pos 2)) ∷ [])),
          )
          ∷ (codes "misconfigurations", int (pos 0))
          ∷ (codes "secrets", int (pos 0))
          ∷ [])));
}

abbrev two_summaries : List SummaryFile
two_summaries = summary (pos 0) ∷ summary (pos 3) ∷ []

abbrev vulnerable : Aggregate
vulnerable = record {
  classification = actionable_vulnerability;
  totals = record {
    fixable_vulnerability_count = 3;
    unfixed_vulnerability_count = 4;
    misconfiguration_count = 0;
    secret_count = 0;
  };
}

adds_summaries : aggregate_summaries two_summaries false ≡ ok vulnerable
unfolding program
adds_summaries = refl

abbrev image : Text → Text
image digit = codes "sha256:" ++ digit

abbrev inputs : ℤ → Text → RetryInputs
inputs unfixed remediated = record {
  initial_outcome = codes "failure";
  initial_classification = codes "actionable_vulnerability";
  rebuild_outcome = codes "success";
  final_outcome = codes "success";
  final_classification = codes "clean";
  retry_enabled = true;
  initial_refs = image (replicate 64 b'a');
  remediated_refs = remediated;
  initial_counts = record {
    fixable_vulnerability_count = pos 3;
    unfixed_vulnerability_count = unfixed;
    misconfiguration_count = pos 0;
    secret_count = pos 0;
  };
  final_counts = record {
    fixable_vulnerability_count = pos 0;
    unfixed_vulnerability_count = pos 0;
    misconfiguration_count = pos 0;
    secret_count = pos 0;
  };
}

abbrev remediated : RetryInputs
remediated = inputs (pos 4) (image (replicate 64 b'b') ++ codes "\n")

promotes_rebuild : (evaluate_retry remediated).passed ≡ true
unfolding program
promotes_rebuild = refl

-- The same image again.
keeps_stale_image :
    (evaluate_retry (inputs (pos 4) (image (replicate 64 b'a')))).rebuild_result ≡ no_change
unfolding program
keeps_stale_image = refl

abbrev unfixed_only : RetryInputs
unfixed_only = record {
  initial_outcome = codes "failure";
  initial_classification = codes "unfixed_warning";
  rebuild_outcome = codes "skipped";
  final_outcome = [];
  final_classification = codes "not-run";
  retry_enabled = true;
  initial_refs = image (replicate 64 b'a');
  remediated_refs = [];
  initial_counts = record {
    fixable_vulnerability_count = pos 0;
    unfixed_vulnerability_count = pos 4;
    misconfiguration_count = pos 0;
    secret_count = pos 0;
  };
  final_counts = record {
    fixable_vulnerability_count = pos 0;
    unfixed_vulnerability_count = pos 0;
    misconfiguration_count = pos 0;
    secret_count = pos 0;
  };
}

tolerates_unfixed : (evaluate_retry unfixed_only).compatibility_allowed ≡ true
unfolding program
tolerates_unfixed = refl

reads_environment : (retry_result (λ _. none) []).final_result ≡ scanner_error
unfolding program
reads_environment = refl

aggregate_summaries-IsAccurate_example : IsAccurate two_summaries false vulnerable
aggregate_summaries-IsAccurate_example =
    aggregate_summaries-IsAccurate two_summaries false vulnerable adds_summaries

evaluate_retry-passed_example :
    ((evaluate_retry remediated).passed ≡ true) ↔ IsPromotable remediated
evaluate_retry-passed_example = evaluate_retry-passed remediated

evaluate_retry-IsCompatible_example : IsCompatible unfixed_only (evaluate_retry unfixed_only)
evaluate_retry-IsCompatible_example = evaluate_retry-IsCompatible unfixed_only tolerates_unfixed

evaluate_retry-IsConsistent_example : IsConsistent (evaluate_retry remediated)
evaluate_retry-IsConsistent_example = evaluate_retry-IsConsistent remediated
