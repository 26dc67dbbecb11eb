-- ===== src/Security/Aggregate.antt =====
-- scripts/security_gate/aggregate.py
pub mod Meaning
use optimizr_actions.Prelude.{
  ℕ, ◌+◌, Bool, true, false, not, ◌&&◌, Option, none, some, List, [], ◌∷◌, Text, codes, ltb,
  if◌then◌else◌, Result, ok, err, ◌>>=◌, ◌>>◌, guard, or_raise,
}
use optimizr_actions.Prelude.Integers.{pos}
use optimizr_actions.Prelude.Json.{Json, Fields, int, get, is_one, object_of}
use optimizr_actions.Security.Classifications.{
  Classification, clean, actionable_vulnerability, unfixed_warning, misconfiguration_detected,
  secret_detected, scanner_error,
}

pub data AggregateError : Type 0 where
  not_regular not_json not_object unsupported_schema no_summary vulnerabilities_not_object :
      AggregateError
  not_a_count : Text → AggregateError

unfoldable pub non_negative_int : Option Json → Text → Result AggregateError ℕ
non_negative_int (some (int (pos n))) field = ok n
non_negative_int _ field = err (not_a_count field)

-- A path: whether it is a regular file and no link, and the JSON value of its text, if it reads as one.
pub record SummaryFile : Type 0 where
  pub is_regular : Bool
  pub value : Option Json

unfoldable pub load_summary : SummaryFile → Result AggregateError Fields
unfolding get
load_summary file = do
  guard file.is_regular not_regular
  value ← or_raise file.value not_json
  payload ← or_raise (object_of (some value)) not_object
  guard (is_one (get payload (codes "schema_version"))) unsupported_schema
  ok payload

pub record Totals : Type 0 where
  pub fixable_vulnerability_count : ℕ
  pub unfixed_vulnerability_count : ℕ
  pub misconfiguration_count : ℕ
  pub secret_count : ℕ

-- The counts of one summary.
unfoldable pub read_counts : SummaryFile → Result AggregateError Totals
unfolding load_summary get non_negative_int
read_counts file = do
  payload ← load_summary file
  vulnerabilities ←
      or_raise (object_of (get payload (codes "vulnerabilities"))) vulnerabilities_not_object
  fixable ←
      non_negative_int (get vulnerabilities (codes "fixable")) (codes "vulnerabilities.fixable")
  unfixed ←
      non_negative_int (get vulnerabilities (codes "unfixed")) (codes "vulnerabilities.unfixed")
  misconfigurations ←
      non_negative_int (get payload (codes "misconfigurations")) (codes "misconfigurations")
  secrets ← non_negative_int (get payload (codes "secrets")) (codes "secrets")
  ok (record {
    fixable_vulnerability_count = fixable;
    unfixed_vulnerability_count = unfixed;
    misconfiguration_count = misconfigurations;
    secret_count = secrets;
  })

-- `totals[…] += …`
unfoldable pub add_counts : Totals → Totals → Totals
add_counts totals counts = record {
  fixable_vulnerability_count =
      totals.fixable_vulnerability_count + counts.fixable_vulnerability_count;
  unfixed_vulnerability_count =
      totals.unfixed_vulnerability_count + counts.unfixed_vulnerability_count;
  misconfiguration_count = totals.misconfiguration_count + counts.misconfiguration_count;
  secret_count = totals.secret_count + counts.secret_count;
}

-- `for path in paths: …`
unfoldable pub add_summaries : Totals → List SummaryFile → Result AggregateError Totals
unfolding read_counts add_counts
add_summaries totals [] = ok totals
add_summaries totals (file ∷ files) = do
  counts ← read_counts file
  add_summaries (add_counts totals counts) files

unfoldable pub classification_of : Totals → Bool → Classification
classification_of totals gate_error =
    if gate_error
    then scanner_error
    else if ltb 0 totals.secret_count
    then secret_detected
    else if ltb 0 totals.misconfiguration_count
    then misconfiguration_detected
    else if ltb 0 totals.fixable_vulnerability_count
    then actionable_vulnerability
    else if ltb 0 totals.unfixed_vulnerability_count
    then unfixed_warning
    else clean

pub record Aggregate : Type 0 where
  pub classification : Classification
  pub totals : Totals

abbrev pub no_findings : Totals
no_findings = record {
  fixable_vulnerability_count = 0;
  unfixed_vulnerability_count = 0;
  misconfiguration_count = 0;
  secret_count = 0;
}

unfoldable pub aggregate_summaries : List SummaryFile → Bool → Result AggregateError Aggregate
unfolding add_summaries classification_of
aggregate_summaries [] gate_error = err no_summary
aggregate_summaries (file ∷ files) gate_error = do
  totals ← add_summaries no_findings (file ∷ files)
  ok (record { classification = classification_of totals gate_error; totals = totals })
