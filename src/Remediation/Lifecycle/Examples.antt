-- ===== src/Remediation/Lifecycle/Examples.antt =====
-- An entry that was extended once and then resolved.
use optimizr_actions.Prelude.{
  ℕ, ◌≡◌, ◌↔◌, ◌≤◌, refl, List, [], ◌∷◌, ◌++◌, map, replicate, codes, Text, same, strip, some, ok,
  err, Result,
}
use optimizr_actions.Prelude.Json.{Json, Fields, text, array, object, to_items, to_fields}
use optimizr_actions.Remediation.Calendar.{Moment, instant, is_valid, parse_utc, format_utc}
use optimizr_actions.Remediation.Calendar.RoundTrip.{parse_utc-format_utc}
use optimizr_actions.Remediation.Lifecycle.{
  active, extended, Tracked, Parsed, Lifecycle, LifecycleError, replay, normalize_lifecycle,
}
use optimizr_actions.Remediation.Lifecycle.Trail.{ReadAs, Trail, replay_iff}
use optimizr_actions.Remediation.Lifecycle.Outcome.{
  IsReported, closing, normalize_lifecycle-IsReported, normalize_lifecycle-deadline,
  normalize_lifecycle-actions,
}

abbrev at : ℕ → ℕ → Moment
at month day = record { year = 2026; month = month; day = day; hour = 12; minute = 0; second = 0 }

abbrev says : ℕ → ℕ → Json
says month day = unfold format_utc in text (format_utc (at month day))

abbrev revision : Text → Json → Json → Json → Json
revision action previous deadline reviewed = object (
    to_fields (
      (codes "action", text action)
      ∷ (codes "first_seen_at", says 1 1)
      ∷ (codes "previous_deadline_at", previous)
      ∷ (codes "deadline_at", deadline)
      ∷ (codes "reviewed_at", reviewed)
      ∷ (codes "reviewed_by", text (codes "ops"))
      ∷ (codes "reason", text (codes "upstream fix is late"))
      ∷ []))

abbrev past : List Json
past =
    revision (codes "extended") (says 1 10) (says 1 20) (says 1 5)
    ∷ revision (codes "resolved") (says 1 20) (says 1 20) (says 1 12)
    ∷ []

abbrev entry : Fields
entry = to_fields (
    (codes "status", text (codes "resolved"))
    ∷ (codes "reviewed_at", says 1 2)
    ∷ (codes "history", array (to_items past))
    ∷ [])

program : Unit {0}
unfolding normalize_lifecycle strip same is_valid instant parse_utc format_utc
program = tt

abbrev start : Tracked
start = record { deadline = at 1 10; status = active; reviewed = at 1 2 }

-- The value of a call that returns.
abbrev value {ℓ} : {A : Type ℓ} → A → Result LifecycleError A → A
value d (ok a) = a
value d (err e) = d

abbrev nothing : Lifecycle
nothing = record {
  status = active;
  original_deadline_at = [];
  effective_deadline_at = [];
  history = [];
  revision_count = 0;
}

abbrev lifecycle : Lifecycle
lifecycle = value nothing (normalize_lifecycle entry (at 1 1) (at 1 10) (at 2 1))

abbrev replayed : Tracked × List Parsed
replayed = value (start, []) (replay (at 1 1) (at 2 1) 0 past start)

run : normalize_lifecycle entry (at 1 1) (at 1 10) (at 2 1) ≡ ok lifecycle
unfolding program
run = refl

counted : lifecycle.revision_count ≡ 2
unfolding program
counted = refl

parse_utc-format_utc_example : parse_utc (format_utc (at 2 28)) ≡ some (at 2 28)
unfolding program
parse_utc-format_utc_example = parse_utc-format_utc (at 2 28) refl

replay_iff_example : (replay (at 1 1) (at 2 1) 0 past start ≡ ok (replayed.0, replayed.1)) ↔ (
    ReadAs (at 1 1) (at 2 1) 0 past replayed.1
    × Trail (at 1 1) (at 2 1) start replayed.1 replayed.0)
replay_iff_example = replay_iff (at 1 1) (at 2 1) 0 past start replayed.0 replayed.1

normalize_lifecycle-IsReported_example : IsReported (at 1 1) (at 2 1) entry (at 1 10) lifecycle
normalize_lifecycle-IsReported_example =
    normalize_lifecycle-IsReported (at 1 1) (at 2 1) entry (at 1 10) lifecycle run

normalize_lifecycle-deadline_example :
    (d : Moment) × (parse_utc lifecycle.effective_deadline_at ≡ some d)
    × (instant (at 1 10) ≤ instant d)
unfolding program
normalize_lifecycle-deadline_example =
    normalize_lifecycle-deadline (at 1 1) (at 2 1) entry (at 1 10) lifecycle refl run

normalize_lifecycle-actions_example :
    (k : ℕ) × (map (λ r. r.action) lifecycle.history
      ≡ replicate k extended ++ closing lifecycle.status)
normalize_lifecycle-actions_example =
    normalize_lifecycle-actions (at 1 1) (at 2 1) entry (at 1 10) lifecycle run
