-- ===== src/Triage/Examples.antt =====
-- A run whose only job succeeded, and one that GitHub did not start.
use optimizr_actions.Prelude.{◌≡◌, refl, List, [], ◌∷◌, Text, codes}
use optimizr_actions.Prelude.Integers.{pos}
use optimizr_actions.Prelude.Json.{Json, object, array, text, int, to_fields, to_items}
use optimizr_actions.Triage.Evidence.{
  classify_evidence, passed, hosted_billing_blocked, inconclusive,
}
use optimizr_actions.Triage.Causes.{Rests, classify_evidence-Rests}

program : Unit {0}
unfolding classify_evidence
program = tt

abbrev unfolded : Text → Text
unfolded s = s

abbrev no_text : Json → Text
no_text value = []

abbrev job : Json → Json
job runner = object (
    to_fields (
      (codes "runner_id", runner)
      ∷ (codes "steps", array (to_items (object (to_fields []) ∷ [])))
      ∷ (codes "conclusion", text (codes "success"))
      ∷ []))

abbrev payload : Text → List Json → Json
payload message jobs = object (
    to_fields (
      (codes "run", object (to_fields ((codes "conclusion", text (codes "success")) ∷ [])))
      ∷ (codes "jobs", object (to_fields ((codes "jobs", array (to_items jobs)) ∷ [])))
      ∷ (
        codes "annotations",
        array (to_items (object (to_fields ((codes "message", text message) ∷ [])) ∷ [])),
      )
      ∷ []))

passes_success :
    (classify_evidence unfolded no_text
      (payload (codes "ok") (job (int (pos 7)) ∷ []))).classification
    ≡ passed
unfolding program
passes_success = refl

blames_billing :
    (classify_evidence unfolded no_text
      (payload (codes "see billing & plans") (job (int (pos 0)) ∷ []))).classification
    ≡ hosted_billing_blocked
unfolding program
blames_billing = refl

refuses_mixed_jobs :
    (classify_evidence unfolded no_text
      (payload (codes "ok") (job (int (pos 0)) ∷ job (int (pos 7)) ∷ []))).classification
    ≡ inconclusive
unfolding program
refuses_mixed_jobs = refl

classify_evidence-Rests_example :
    Rests unfolded no_text
      (payload (codes "ok") (job (int (pos 7)) ∷ []))
      (classify_evidence unfolded no_text (payload (codes "ok") (job (int (pos 7)) ∷ [])))
classify_evidence-Rests_example =
    classify_evidence-Rests unfolded no_text (payload (codes "ok") (job (int (pos 7)) ∷ []))
