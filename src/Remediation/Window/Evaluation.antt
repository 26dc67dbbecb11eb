-- ===== src/Remediation/Window/Evaluation.antt =====
-- remediation_window.py: the evaluation of the observations against a policy.
use optimizr_actions.Prelude.{
  ℕ, zero, ◌+◌, ◌*◌, Bool, true, false, not, ◌&&◌, Option, none, some, List, [], ◌∷◌, Text, codes,
  same, member, ltb, leb, if◌then◌else◌, ok, ◌>>=◌, sum_by, strip, text_le,
}
use optimizr_actions.Prelude.Integers.{pos}
use optimizr_actions.Prelude.Json.{
  Json, Fields, text, null, bool, int, decimal, array, object, end, no_more,
}
use optimizr_actions.Remediation.Calendar.{Moment, instant}
use optimizr_actions.Remediation.Lifecycle.{is_active}
use optimizr_actions.Remediation.Window.Observations.{
  Checked, WindowError, policy, Observation, Severity, high, critical, Fingerprint,
  same_fingerprint, parse_time, allowed_classification, blocked_critical_exposures,
}
use optimizr_actions.Remediation.Window.Policy.{PolicyEntry}

abbrev pub max_window_days : Severity → ℕ
max_window_days critical = 7
max_window_days high = 30

-- 72 hours in seconds
abbrev pub due_soon_window : ℕ
due_soon_window = 72 * 3600

-- A time with its microseconds: the clock has them, a text has none.
pub record Clock : Type 0 where
  pub moment : Moment
  pub microsecond : ℕ

pub data State : Type 0 where
  rejected unmatched reintroduced_state overdue due_soon active_state : State

-- The reasons of a finding. A finding that is covered has none.
pub data Reason : Type 0 where
  no_reason classification_block known_exploited_block fixed_image_available
        critical_exposure_block :
      Reason
  entry_not_found finding_reintroduced window_limit_exceeded window_overdue future_first_seen :
      Reason
  not_normalized : WindowError → Reason

pub record Finding : Type 0 where
  pub observation_digest : Text
  pub advisory_id : Text
  pub package_purl : Text
  pub image_identity : Text
  pub state : State
  pub failure_reason : Reason
  pub matched : Option PolicyEntry

-- The hashes of canonical JSON, and `str` of a value that is no text.
pub record Rendering : Type 0 where
  pub observation_digest : Observation → Text
  pub raw_digest : Fields → Text
  pub str_of : Json → Text

-- The comparisons of the datetimes, as microseconds.
unfoldable pub compare_times : ℕ → ℕ → ℕ → ℕ → State × Reason
compare_times max_duration first last now =
    if ltb (first + max_duration) last
    then (rejected, window_limit_exceeded)
    else if ltb last now
    then (overdue, window_overdue)
    else if ltb now first
    then (rejected, future_first_seen)
    else if leb last (now + due_soon_window * 1000000)
    then (due_soon, no_reason)
    else (active_state, no_reason)

unfoldable pub window_state : Severity → Moment → Moment → Clock → State × Reason
unfolding instant compare_times
window_state severity first_seen deadline clock =
    compare_times (max_window_days severity * 86400 * 1000000) (instant first_seen * 1000000)
      (instant deadline * 1000000) (instant clock.moment * 1000000 + clock.microsecond)

-- A dict comprehension keeps the last entry of a fingerprint.
unfoldable pub entry_of : Fingerprint → List PolicyEntry → Option PolicyEntry
unfolding same_fingerprint
entry_of fingerprint [] = none
entry_of fingerprint (entry ∷ entries) = elim (entry_of fingerprint entries) [
  | some later ↦ some later
  | none ↦ if same_fingerprint entry.fingerprint fingerprint then some entry else none
]

abbrev pub is_critical : Severity → Bool
is_critical critical = true
is_critical high = false

-- The reason to reject an observation, whatever the policy says.
unfoldable pub refusal : Observation → Option Reason
unfolding same member
refusal o =
    if not (same o.classification allowed_classification)
    then some classification_block
    else if o.known_exploited
    then some known_exploited_block
    else if o.fixed_image_verified
    then some fixed_image_available
    else if is_critical o.severity && member o.exposure_criticality blocked_critical_exposures
    then some critical_exposure_block
    else none

unfoldable pub judge_entry : Observation → PolicyEntry → Clock → Checked (State × Reason)
unfolding parse_time window_state
judge_entry o entry clock =
    if not (is_active entry.status)
    then ok (reintroduced_state, finding_reintroduced)
    else parse_time entry.first_seen_at policy (codes "first_seen_at") >>= λ first_seen.
        parse_time entry.deadline_at policy (codes "deadline_at") >>= λ deadline.
        ok (window_state o.severity first_seen deadline clock)

unfoldable pub judge :
    Observation → List PolicyEntry → Clock → Checked ((State × Reason) × Option PolicyEntry)
unfolding refusal entry_of judge_entry
judge o entries clock = elim (refusal o) [
  | some reason ↦ ok ((rejected, reason), none)
  | none ↦ elim (entry_of o.fingerprint entries) [
    | none ↦ ok ((unmatched, entry_not_found), none)
    | some entry ↦ judge_entry o entry clock >>= λ verdict. ok (verdict, some entry)
  ]
]

abbrev pub is_covered : State → Bool
is_covered active_state = true
is_covered due_soon = true
is_covered _ = false

abbrev pub is_rejected : State → Bool
is_rejected rejected = true
is_rejected _ = false

abbrev pub is_overdue : State → Bool
is_overdue overdue = true
is_overdue _ = false

abbrev pub is_unmatched : State → Bool
is_unmatched unmatched = true
is_unmatched _ = false

abbrev pub is_reintroduced : State → Bool
is_reintroduced reintroduced_state = true
is_reintroduced _ = false

abbrev pub is_due_soon : State → Bool
is_due_soon due_soon = true
is_due_soon _ = false

abbrev pub is_blank : Text → Bool
is_blank [] = true
is_blank (_ ∷ _) = false

abbrev pub has_entry : Finding → Bool
has_entry f = elim f.matched [ none ↦ false | some entry ↦ not (is_blank entry.id) ]

-- `sum(test(item) for item in findings)`
abbrev pub count_by : (Finding → Bool) → List Finding → ℕ
count_by test = sum_by (λ f. if test f then 1 else 0)

-- `_normal_text`
unfoldable pub normal_text : (Json → Text) → Option Json → Text
unfolding strip
normal_text str_of none = []
normal_text str_of (some null) = []
normal_text str_of (some (bool false)) = []
normal_text str_of (some (int (pos zero))) = []
normal_text str_of (some (decimal (pos zero) k)) = []
normal_text str_of (some (array end)) = []
normal_text str_of (some (object no_more)) = []
normal_text str_of (some (text s)) = strip s
normal_text str_of (some value) = strip (str_of value)

-- The order of the findings: tuples of texts.
unfoldable pub texts_le : List Text → List Text → Bool
unfolding same text_le
texts_le [] ts = true
texts_le (s ∷ ss) [] = false
texts_le (s ∷ ss) (t ∷ ts) = if same s t then texts_le ss ts else text_le s t

abbrev pub sort_key : Finding → List Text
sort_key f = f.image_identity ∷ f.advisory_id ∷ f.package_purl ∷ f.observation_digest ∷ []

unfoldable pub finding_le : Finding → Finding → Bool
unfolding texts_le
finding_le f g = texts_le (sort_key f) (sort_key g)

unfoldable pub same_observation : Observation → Observation → Bool
unfolding same_fingerprint same
same_observation o p =
    same_fingerprint o.fingerprint p.fingerprint && same o.image_identity p.image_identity

pub data RemediationState : Type 0 where
  not_applicable window_active window_due_soon blocked_reintroduced blocked_overdue blocked_other :
      RemediationState

pub data Decision : Type 0 where
  decision_not_applicable allowed_window blocked : Decision

pub data FailureReason : Type 0 where
  no_failure any_reintroduced any_overdue any_rejected any_uncovered : FailureReason

pub record WindowResult : Type 0 where
  pub source_sha : Text
  pub image_digest : Text
  pub classification : Text
  pub remediation_window_allowed : Bool
  pub remediation_state : RemediationState
  pub decision : Decision
  pub blocking_total : ℕ
  pub window_covered : ℕ
  pub uncovered_blocking_findings : ℕ
  pub rejected_count : ℕ
  pub overdue_count : ℕ
  pub unmatched_count : ℕ
  pub reintroduced_count : ℕ
  pub due_soon_count : ℕ
  pub matching_entry_count : ℕ
  pub nearest_deadline : Text
  pub policy_digest : Text
  pub failure_reason : FailureReason
  pub findings : List Finding
