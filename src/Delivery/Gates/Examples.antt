-- ===== src/Delivery/Gates/Examples.antt =====
-- Evidence of a Compose deployment.
use optimizr_actions.Prelude.{
  ℕ, ◌≡◌, refl, Bool, true, false, ◌||◌, ◌==◌, none, List, [], ◌∷◌, Text, codes, ok, err,
}
use optimizr_actions.Prelude.Regex.{is_ascii_alnum}
use optimizr_actions.Delivery.Gates.{
  GateEvidence, Evidence, GateEvaluation, evidence_not_unique, evaluate_gate_evidence, safe_scalar,
  scalar_secret,
}
use optimizr_actions.Delivery.Gates.Evaluation.{all_required_passed, evaluate_gate_evidence-passed}

program : Unit {0}
unfolding evaluate_gate_evidence safe_scalar
program = tt

abbrev is_word : ℕ → Bool
is_word c = is_ascii_alnum c || c == b'_'

abbrev gate : Text → Text → GateEvidence
gate name status = record { name = name; status = status; target = codes "api"; reason = [] }

abbrev required : List Text
required = codes "filesystem" ∷ codes "compose" ∷ []

abbrev gates : List GateEvidence
gates =
    gate (codes "compose") (codes "passed")
    ∷ gate (codes "filesystem") (codes "passed")
    ∷ gate (codes "smoke") (codes "skipped")
    ∷ []

abbrev evidence : Text → Text → Evidence
evidence name status = record { name = name; status = status; target = codes "api"; reason = none }

abbrev evaluation : GateEvaluation
evaluation = record {
  passed = true;
  failure_reason = none;
  evidence =
      evidence (codes "filesystem") (codes "passed")
      ∷ evidence (codes "compose") (codes "passed")
      ∷ evidence (codes "smoke") (codes "skipped")
      ∷ [];
}

evaluated : evaluate_gate_evidence is_word gates required ≡ ok evaluation
unfolding program
evaluated = refl

repeated :
    evaluate_gate_evidence is_word (gate (codes "smoke") (codes "passed") ∷ gates) required
    ≡ err evidence_not_unique
unfolding program
repeated = refl

secret_target :
    safe_scalar is_word (codes "t") (codes "see /.env") false ≡ err (scalar_secret (codes "t"))
unfolding program
secret_target = refl

evaluate_gate_evidence-passed_example :
    evaluation.passed ≡ all_required_passed is_word gates required
evaluate_gate_evidence-passed_example =
    evaluate_gate_evidence-passed is_word gates required evaluation evaluated
