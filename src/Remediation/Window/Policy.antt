-- ===== src/Remediation/Window/Policy.antt =====
-- remediation_window.py: `load_policy`. The text of the file and its digest are inputs.
use optimizr_actions.Prelude.{
  ℕ, suc, some, List, [], ◌∷◌, Text, codes, member, ok, ◌>>=◌, ◌>>◌, guard, raise_if, or_raise,
  reraise, any,
}
use optimizr_actions.Prelude.Json.{is_one, object_of, Json, Fields, get}
use optimizr_actions.Remediation.Calendar.{Moment, instant, format_utc}
use optimizr_actions.Remediation.Lifecycle.{Status, Revision, before, normalize_lifecycle}
use optimizr_actions.Remediation.Window.Observations.{
  Checked, policy, policy_entry, entry_fingerprint, version_unknown, entries_missing,
  entry_not_object, entry_repeated, fingerprint_not_object, fingerprint_repeated,
  first_seen_in_future, reviewed_in_future, deadline_not_after, lifecycle_refused, Fingerprint,
  same_fingerprint, canonical_fingerprint, required_text, required_time, parse_time, listed,
  is_nothing,
}

pub record PolicyEntry : Type 0 where
  pub id : Text
  pub fingerprint : Fingerprint
  pub reason : Text
  pub first_seen_at : Text
  pub original_deadline_at : Text
  pub deadline_at : Text
  pub owner : Text
  pub reviewer : Text
  pub statement : Text
  pub compensating_control : Text
  pub reviewed_at : Text
  pub reviewed_by : Text
  pub status : Status
  pub history : List Revision
  pub revision_count : ℕ

pub record Policy : Type 0 where
  pub policy_owner : Text
  pub entries : List PolicyEntry

unfoldable pub load_entry : Moment → ℕ → List Text → List Fingerprint → Fields → Checked PolicyEntry
unfolding get required_text required_time member canonical_fingerprint same_fingerprint instant
    normalize_lifecycle format_utc
load_entry reference index seen_ids seen_fingerprints raw = do
  let label = policy_entry index
  id ← required_text raw (codes "id") label
  raise_if (member id seen_ids) (entry_repeated id)
  fingerprint_raw ←
      or_raise (object_of (get raw (codes "fingerprint"))) (fingerprint_not_object index)
  fingerprint ← canonical_fingerprint fingerprint_raw (entry_fingerprint index)
  raise_if (any (same_fingerprint fingerprint) seen_fingerprints) (fingerprint_repeated index)
  first_seen ← required_time raw (codes "first_seen_at") label
  deadline ← required_time raw (codes "deadline_at") label
  reviewed ← required_time raw (codes "reviewed_at") label
  raise_if (before reference first_seen) first_seen_in_future
  raise_if (before reference reviewed) reviewed_in_future
  guard (before first_seen deadline) deadline_not_after
  lifecycle ← reraise (normalize_lifecycle raw first_seen deadline reference) lifecycle_refused
  reason ← required_text raw (codes "reason") label
  owner ← required_text raw (codes "owner") label
  reviewer ← required_text raw (codes "reviewer") label
  statement ← required_text raw (codes "statement") label
  control ← required_text raw (codes "compensating_control") label
  reviewed_by ← required_text raw (codes "reviewed_by") label
  ok (record {
    id = id;
    fingerprint = fingerprint;
    reason = reason;
    first_seen_at = format_utc first_seen;
    original_deadline_at = lifecycle.original_deadline_at;
    deadline_at = lifecycle.effective_deadline_at;
    owner = owner;
    reviewer = reviewer;
    statement = statement;
    compensating_control = control;
    reviewed_at = format_utc reviewed;
    reviewed_by = reviewed_by;
    status = lifecycle.status;
    history = lifecycle.history;
    revision_count = lifecycle.revision_count;
  })

-- `for index, raw in enumerate(entries_raw): …`
unfoldable pub load_entries :
    Moment → ℕ → List Text → List Fingerprint → List Json → Checked (List PolicyEntry)
unfolding load_entry
load_entries reference index seen_ids seen_fingerprints [] = ok []
load_entries reference index seen_ids seen_fingerprints (raw ∷ raws) = do
  fields ← or_raise (object_of (some raw)) (entry_not_object index)
  entry ← load_entry reference index seen_ids seen_fingerprints fields
  rest ←
      load_entries reference (suc index) (entry.id ∷ seen_ids)
        (entry.fingerprint ∷ seen_fingerprints) raws
  ok (entry ∷ rest)

-- The caller always gives a reference time.
unfoldable pub load_policy : Fields → Text → Checked Policy
unfolding get listed required_text parse_time load_entries
load_policy payload reference_time = do
  guard (is_one (get payload (codes "version"))) version_unknown
  owner ← required_text payload (codes "policy_owner") policy
  raise_if (is_nothing (listed (get payload (codes "entries")))) entries_missing
  reference ← parse_time reference_time policy (codes "reference_time")
  entries ← load_entries reference 0 [] [] (listed (get payload (codes "entries")))
  ok (record { policy_owner = owner; entries = entries })
