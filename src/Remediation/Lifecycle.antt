-- ===== src/Remediation/Lifecycle.antt =====
-- scripts/security_gate/remediation_lifecycle.py: the reviewed history of one policy entry.
pub mod Trail
pub mod Outcome
pub mod Reading
mod Examples
use optimizr_actions.Prelude.{
  ℕ, zero, suc, ◌+◌, Bool, true, false, ◌&&◌, ◌||◌, not, Option, none, some, List, [], ◌∷◌, ◌++◌,
  Text, codes, same, strip, ltb, leb, ◌==◌, if◌then◌else◌, Result, ok, err, ◌>>=◌, ◌>>◌, guard,
  raise_if, or_raise, length,
}
use optimizr_actions.Prelude.Json.{Json, Items, Fields, array, object, text, null, elements, get}
use optimizr_actions.Remediation.Calendar.{Moment, instant, parse_utc, format_utc}

pub data Status : Type 0 where
  active resolved reintroduced : Status

pub data Action : Type 0 where
  extended resolving reintroducing : Action

-- `policy entry`, or `history[index]`.
pub data Label : Type 0 where
  policy_entry : Label
  history : ℕ → Label

pub data LifecycleError : Type 0 where
  field_required : Label → Text → LifecycleError
  status_not_allowed : LifecycleError
  not_rfc3339 : Label → Text → LifecycleError
  reviewed_in_future : LifecycleError
  history_needed : LifecycleError
  history_not_array : LifecycleError
  revision_not_object : ℕ → LifecycleError
  action_not_allowed : ℕ → LifecycleError
  first_seen_changed previous_deadline_mismatch revision_in_future not_chronological :
      LifecycleError
  extended_not_active deadline_not_later resolved_not_active deadline_not_preserved : LifecycleError
  reintroduced_not_resolved status_mismatch : LifecycleError

abbrev pub Checked : Type 0 → Type 0
Checked A = Result LifecycleError A

abbrev pub stripped_text : Option Json → Option Text
stripped_text (some (text s)) = elim (strip s) [ [] ↦ none | c ∷ t ↦ some (c ∷ t) ]
stripped_text _ = none

unfoldable pub required_text : Fields → Text → Label → Checked Text
unfolding get strip
required_text payload name label =
    or_raise (stripped_text (get payload name)) (field_required label name)

-- `_parse_utc(_required_text(payload, name))`
unfoldable pub required_moment : Fields → Text → Label → Checked Moment
unfolding required_text parse_utc
required_moment payload name label = do
  s ← required_text payload name label
  or_raise (parse_utc s) (not_rfc3339 label name)

unfoldable pub status_of : Text → Option Status
unfolding same
status_of s =
    if same s (codes "active")
    then some active
    else if same s (codes "resolved")
    then some resolved
    else if same s (codes "reintroduced")
    then some reintroduced
    else none

unfoldable pub action_of : Text → Option Action
unfolding same
action_of s =
    if same s (codes "extended")
    then some extended
    else if same s (codes "resolved")
    then some resolving
    else if same s (codes "reintroduced")
    then some reintroducing
    else none

-- The comparisons of aware datetimes.
abbrev pub before : Moment → Moment → Bool
before a b = ltb (instant a) (instant b)

abbrev pub same_time : Moment → Moment → Bool
same_time a b = instant a == instant b

-- A revision as it is reported.
pub record Revision : Type 0 where
  pub action : Action
  pub first_seen_at : Text
  pub previous_deadline_at : Text
  pub deadline_at : Text
  pub reviewed_at : Text
  pub reviewed_by : Text
  pub reason : Text

-- `tracked_deadline`, `tracked_status` and `previous_reviewed_at`.
pub record Tracked : Type 0 where
  pub deadline : Moment
  pub status : Status
  pub reviewed : Moment

-- A revision as it is read.
pub record Parsed : Type 0 where
  pub action : Action
  pub first_seen : Moment
  pub previous_deadline : Moment
  pub deadline : Moment
  pub reviewed : Moment
  pub reviewed_by : Text
  pub reason : Text

unfoldable pub parse_revision : ℕ → Json → Checked Parsed
unfolding required_text required_moment action_of
parse_revision index (object revision) = do
  name ← required_text revision (codes "action") (history index)
  action ← or_raise (action_of name) (action_not_allowed index)
  first_seen ← required_moment revision (codes "first_seen_at") (history index)
  previous ← required_moment revision (codes "previous_deadline_at") (history index)
  deadline ← required_moment revision (codes "deadline_at") (history index)
  reviewed ← required_moment revision (codes "reviewed_at") (history index)
  by ← required_text revision (codes "reviewed_by") (history index)
  reason ← required_text revision (codes "reason") (history index)
  ok (record {
    action = action;
    first_seen = first_seen;
    previous_deadline = previous;
    deadline = deadline;
    reviewed = reviewed;
    reviewed_by = by;
    reason = reason;
  })
parse_revision index _ = err (revision_not_object index)

abbrev pub is_active : Status → Bool
is_active active = true
is_active _ = false

abbrev pub is_resolved : Status → Bool
is_resolved resolved = true
is_resolved _ = false

-- The `if action == …` ladder.
unfoldable pub transition : Action → Parsed → Tracked → Checked Tracked
unfolding instant
transition extended r t = do
  guard (is_active t.status) extended_not_active
  guard (before r.previous_deadline r.deadline) deadline_not_later
  ok (record t { deadline = r.deadline })
transition resolving r t = do
  guard (is_active t.status) resolved_not_active
  guard (same_time r.deadline r.previous_deadline) deadline_not_preserved
  ok (record t { status = resolved })
transition reintroducing r t = do
  guard (is_resolved t.status) reintroduced_not_resolved
  guard (same_time r.deadline r.previous_deadline) deadline_not_preserved
  ok (record t { status = reintroduced })

-- The checks of one revision against the tracked state.
unfoldable pub apply_revision : Moment → Moment → Parsed → Tracked → Checked Tracked
unfolding transition instant
apply_revision first_seen reference r t = do
  guard (same_time r.first_seen first_seen) first_seen_changed
  guard (same_time r.previous_deadline t.deadline) previous_deadline_mismatch
  raise_if (before reference r.reviewed) revision_in_future
  guard (before t.reviewed r.reviewed) not_chronological
  next ← transition r.action r t
  ok (record next { reviewed = r.reviewed })

unfoldable pub report_revision : Parsed → Revision
unfolding format_utc
report_revision r = record {
  action = r.action;
  first_seen_at = format_utc r.first_seen;
  previous_deadline_at = format_utc r.previous_deadline;
  deadline_at = format_utc r.deadline;
  reviewed_at = format_utc r.reviewed;
  reviewed_by = r.reviewed_by;
  reason = r.reason;
}

-- `for index, revision in enumerate(raw_history): …`
unfoldable pub replay : Moment → Moment → ℕ → List Json → Tracked → Checked (Tracked × List Parsed)
unfolding parse_revision apply_revision
replay first_seen reference index [] t = ok (t, [])
replay first_seen reference index (raw ∷ rest) t = do
  r ← parse_revision index raw
  next ← apply_revision first_seen reference r t
  (final, later) ← replay first_seen reference (index + 1) rest next
  ok (final, r ∷ later)

pub record Lifecycle : Type 0 where
  pub status : Status
  pub original_deadline_at : Text
  pub effective_deadline_at : Text
  pub history : List Revision
  pub revision_count : ℕ

abbrev pub same_status : Status → Status → Bool
same_status active active = true
same_status resolved resolved = true
same_status reintroduced reintroduced = true
same_status _ _ = false

abbrev pub reports : List Parsed → List Revision
reports [] = []
reports (r ∷ rs) = report_revision r ∷ reports rs

-- `raw_history`, where it is absent or `null`, and where it is no array or an empty one.
pub data RawHistory : Type 0 where
  absent malformed : RawHistory
  revisions : Json → List Json → RawHistory

unfoldable pub raw_history : Option Json → RawHistory
unfolding elements
raw_history none = absent
raw_history (some null) = absent
raw_history (some (array items)) = elim (elements items) [
  | [] ↦ malformed
  | v ∷ vs ↦ revisions v vs
]
raw_history (some _) = malformed

-- The part of `normalize_lifecycle` from `raw_history` on.
unfoldable pub normalize_history :
    Moment → Moment → Moment → Status → Moment → RawHistory → Checked Lifecycle
unfolding replay report_revision format_utc
normalize_history first_seen original reference status reviewed absent = do
  guard (is_active status) history_needed
  ok (record {
    status = active;
    original_deadline_at = format_utc original;
    effective_deadline_at = format_utc original;
    history = [];
    revision_count = 0;
  })
normalize_history first_seen original reference status reviewed malformed = err history_not_array
normalize_history first_seen original reference status reviewed (revisions v vs) = do
  (final, parsed) ←
      replay first_seen reference 0 (v ∷ vs)
        (record { deadline = original; status = active; reviewed = reviewed })
  guard (same_status final.status status) status_mismatch
  ok (record {
    status = status;
    original_deadline_at = format_utc original;
    effective_deadline_at = format_utc final.deadline;
    history = reports parsed;
    revision_count = length parsed;
  })

unfoldable pub normalize_lifecycle : Fields → Moment → Moment → Moment → Checked Lifecycle
unfolding required_text status_of required_moment raw_history normalize_history
normalize_lifecycle entry first_seen original_deadline reference = do
  name ← required_text entry (codes "status") policy_entry
  status ← or_raise (status_of name) status_not_allowed
  reviewed ← required_moment entry (codes "reviewed_at") policy_entry
  raise_if (before reference reviewed) reviewed_in_future
  normalize_history first_seen original_deadline reference status reviewed
      (raw_history (get entry (codes "history")))
