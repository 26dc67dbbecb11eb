-- ===== src/Delivery/Gates.antt =====
-- scripts/delivery/gate_evidence.py: required gates and sanitized evidence.
pub mod Secrets
pub mod Decision
pub mod Evaluation
mod Examples
use optimizr_actions.Prelude.{
  ℕ, Bool, true, false, not, ◌&&◌, ◌||◌, Option, none, some, List, [], ◌∷◌, ◌++◌, map, Text, codes,
  same, member, ltb, ◌==◌, if◌then◌else◌, Result, ok, err, ◌>>=◌, ◌>>◌, guard, raise_if, map_result,
  find, any, all, length,
}
use optimizr_actions.Prelude.Dicts.{Dict, lookup, has_key, insert, keys, values}
use optimizr_actions.Prelude.Regex.{fullmatch, search, fold}
use optimizr_actions.Delivery.Gates.Secrets.{secret_like, safe_name}

abbrev pub default_required_gates : List Text
default_required_gates =
    codes "filesystem" ∷ codes "compose" ∷ codes "security" ∷ codes "rollout" ∷ codes "health" ∷ []

abbrev pub known_gates : List Text
known_gates = default_required_gates ++ codes "migration" ∷ codes "rollback" ∷ codes "smoke" ∷ []

abbrev pub allowed_statuses : List Text
allowed_statuses = codes "passed" ∷ codes "failed" ∷ codes "skipped" ∷ []

pub record GateEvidence : Type 0 where
  pub name : Text
  pub status : Text
  pub target : Text
  pub reason : Text

-- Sanitized evidence; the reason is left out where it is empty.
pub record Evidence : Type 0 where
  pub name : Text
  pub status : Text
  pub target : Text
  pub reason : Option Text

pub record GateEvaluation : Type 0 where
  pub passed : Bool
  pub failure_reason : Option Text
  pub evidence : List Evidence

pub data GateError : Type 0 where
  name_not_identifier name_not_supported : GateError
  no_required_gates required_not_unique : GateError
  status_not_allowed evidence_not_unique : GateError
  scalar_empty scalar_multiline scalar_too_long scalar_secret : (scalar : Text) → GateError

abbrev pub Checked : Type 0 → Type 0
Checked A = Result GateError A

abbrev pub nonempty : Text → Bool
nonempty [] = false
nonempty (_ ∷ _) = true

-- A text that holds a line break.
unfoldable pub has_break : Text → Bool
has_break s = any (λ c. (c == 10) || (c == 13)) s

-- The test for `\w` is a table of Unicode.
module _ (is_word : ℕ → Bool) where
  unfoldable pub safe_scalar : Text → Text → Bool → Checked Text
  unfolding has_break search fold
  safe_scalar name value allow_empty = do
    raise_if (not allow_empty && not (nonempty value)) (scalar_empty name)
    raise_if (has_break value) (scalar_multiline name)
    raise_if (ltb 512 (length value)) (scalar_too_long name)
    raise_if (search (secret_like is_word) value) (scalar_secret name)
    ok value

unfoldable pub validate_gate_name : Text → Checked Text
unfolding fullmatch member same
validate_gate_name name = do
  guard (fullmatch safe_name name) name_not_identifier
  guard (member name known_gates) name_not_supported
  ok name

-- `len(set(required)) != len(required)`
unfoldable pub has_duplicate : List Text → Bool
unfolding member same
has_duplicate [] = false
has_duplicate (name ∷ rest) = member name rest || has_duplicate rest

abbrev pub is_nil : List Text → Bool
is_nil [] = true
is_nil (_ ∷ _) = false

unfoldable pub validate_required_gates : List Text → Checked (List Text)
unfolding has_duplicate validate_gate_name
validate_required_gates required = do
  raise_if (is_nil required) no_required_gates
  raise_if (has_duplicate required) required_not_unique
  map_result validate_gate_name required

abbrev pub optional_text : Text → Option Text
optional_text [] = none
optional_text (c ∷ s) = some (c ∷ s)

abbrev pub has_status : Text → Evidence → Bool
has_status status evidence = same evidence.status status

unfoldable pub status_at : Text → Text → Dict Evidence → Bool
unfolding lookup
status_at status name found = elim (lookup name found) [
  | none ↦ false
  | some evidence ↦ has_status status evidence
]

-- `evidence_by_name[name] for name in …`; each name is in the dict where this is called.
unfoldable pub pick : Dict Evidence → List Text → List Evidence
unfolding lookup
pick found [] = []
pick found (name ∷ names) = elim (lookup name found) [
  | none ↦ pick found names
  | some evidence ↦ evidence ∷ pick found names
]

-- The names of the evidence that is not required, in the order of the evidence.
unfoldable pub extra_names : List Text → List Text → List Text
unfolding member same
extra_names required [] = []
extra_names required (name ∷ names) =
    let rest = extra_names required names in if member name required then rest else name ∷ rest

abbrev pub refused : Text → Dict Evidence → GateEvaluation
refused reason found = record {
  passed = false;
  failure_reason = some reason;
  evidence = values found;
}

abbrev pub failure_text : Evidence → Text
failure_text evidence =
    evidence.name
    ++ codes ": "
    ++ elim evidence.reason [ none ↦ codes "gate failed" | some reason ↦ reason ]

-- The decision over the collected evidence.
unfoldable pub decide : List Text → Dict Evidence → GateEvaluation
unfolding lookup has_key status_at pick extra_names
decide required found = elim (find (λ name. not (has_key name found)) required) [
  | some name ↦ refused (codes "missing required gate: " ++ name) found
  | none ↦ elim (find (λ name. status_at (codes "skipped") name found) required) [
    | some name ↦ refused (codes "required gate skipped: " ++ name) found
    | none ↦ elim (find (λ e. has_status (codes "failed") e.1) found) [
      | some e ↦ refused (failure_text e.1) found
      | none ↦ record {
        passed = true;
        failure_reason = none;
        evidence = pick found (required ++ extra_names required (keys found));
      }
    ]
  ]
]

module _ (is_word : ℕ → Bool) where
  unfoldable pub sanitized_evidence : GateEvidence → Checked Evidence
  unfolding validate_gate_name member same safe_scalar
  sanitized_evidence gate = do
    name ← validate_gate_name gate.name
    guard (member gate.status allowed_statuses) status_not_allowed
    target ← safe_scalar is_word (codes "gate target") gate.target false
    reason ← safe_scalar is_word (codes "gate reason") gate.reason true
    ok (record {
      name = name;
      status = gate.status;
      target = target;
      reason = optional_text reason;
    })

  -- `for gate in entries: …`
  unfoldable pub collect : List GateEvidence → Dict Evidence → Checked (Dict Evidence)
  unfolding sanitized_evidence has_key insert
  collect [] found = ok found
  collect (gate ∷ gates) found = do
    evidence ← sanitized_evidence gate
    raise_if (has_key evidence.name found) evidence_not_unique
    collect gates (insert evidence.name evidence found)

  unfoldable pub evaluate_gate_evidence : List GateEvidence → List Text → Checked GateEvaluation
  unfolding validate_required_gates collect decide
  evaluate_gate_evidence gates required_gates = do
    required ← validate_required_gates required_gates
    found ← collect gates []
    ok (decide required found)
