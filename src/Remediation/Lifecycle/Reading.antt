-- ===== src/Remediation/Lifecycle/Reading.antt =====
-- What a history is read from, and that its deadlines are datetimes.
use optimizr_actions.Prelude.{
  ℕ, ◌+◌, ◌≡◌, refl, ap, ◌∙◌, ◌⊎◌, inl, inr, true, Option, none, some, List, [], ◌∷◌, Text, codes,
  Result, ok, err, bind_then, or_raise,
}
use optimizr_actions.Prelude.Json.{
  Json, Fields, Items, object, array, null, text, int, bool, decimal, elements,
}
use optimizr_actions.Remediation.Calendar.{Moment, is_valid, parse_utc}
use optimizr_actions.Remediation.Calendar.RoundTrip.{parse_utc-is_valid}
use optimizr_actions.Remediation.Lifecycle.{
  Tracked, Parsed, LifecycleError, Label, history, required_text, required_moment, action_of,
  parse_revision, RawHistory, absent, malformed, revisions, raw_history, action_not_allowed,
}
use optimizr_actions.Remediation.Lifecycle.Trail.{
  extend, resolve, reintroduce, Trail, done, then_step, ReadAs,
}

required_moment-is_valid :
    (payload : Fields) (name : Text) (label : Label) {m : Moment}
    → required_moment payload name label ≡ ok m
    → is_valid m ≡ true
unfolding required_moment
required_moment-is_valid payload name label {m} h =
    let (s, _, h₁) = bind_then (required_text payload name label) _ h in
    go s (parse_utc s) _ refl h₁
  where
    go :
        (s : Text) (o : Option Moment) (e : LifecycleError)
        → parse_utc s ≡ o
        → or_raise o e ≡ ok m
        → is_valid m ≡ true
    go s none e p k = cc
    go s (some n) e p k = parse_utc-is_valid s {m = m} (p ∙ cc)

abbrev deadline_or : Moment → Result LifecycleError Parsed → Moment
deadline_or d (ok r) = r.deadline
deadline_or d (err e) = d

parse_revision-is_valid :
    (index : ℕ) (v : Json) {r : Parsed} → parse_revision index v ≡ ok r → is_valid r.deadline ≡ true
unfolding parse_revision
parse_revision-is_valid index (object o) {r} h =
    let (name, _, h₁) = bind_then (required_text o (codes "action") (history index)) _ h in
    let (_, _, h₂) = bind_then (or_raise (action_of name) (action_not_allowed index)) _ h₁ in
    let (_, _, h₃) = bind_then (required_moment o (codes "first_seen_at") (history index)) _ h₂ in
    let (_, _, h₄) =
      bind_then (required_moment o (codes "previous_deadline_at") (history index)) _ h₃ in
    let (d, e, h₅) = bind_then (required_moment o (codes "deadline_at") (history index)) _ h₄ in
    let (_, _, h₆) = bind_then (required_moment o (codes "reviewed_at") (history index)) _ h₅ in
    let (_, _, h₇) = bind_then (required_text o (codes "reviewed_by") (history index)) _ h₆ in
    let (_, _, h₈) = bind_then (required_text o (codes "reason") (history index)) _ h₇ in
    let same : d ≡ r.deadline = ap (deadline_or d) h₈ in
    rw (← same) (required_moment-is_valid o (codes "deadline_at") (history index) e)
parse_revision-is_valid index v h = cc

-- What a history is read from.
abbrev pub IsSource : Option Json → RawHistory → Type 0
IsSource value absent = (value ≡ none) ⊎ (value ≡ some null)
IsSource value malformed = Unit
IsSource value (revisions v vs) =
    (items : Items) × (value ≡ some (array items)) × (elements items ≡ v ∷ vs)

pub raw_history-IsSource : (value : Option Json) → IsSource value (raw_history value)
unfolding raw_history
raw_history-IsSource none = inl refl
raw_history-IsSource (some null) = inr refl
raw_history-IsSource (some (array items)) = go (elements items) refl
  where
    go :
        (vs : List Json)
        → elements items ≡ vs
        → IsSource (some (array items)) (elim vs [ [] ↦ malformed | v ∷ rest ↦ revisions v rest ])
    go [] e = tt
    go (v ∷ vs) e = (items, refl, e)
raw_history-IsSource (some (object o)) = tt
raw_history-IsSource (some (text s)) = tt
raw_history-IsSource (some (int i)) = tt
raw_history-IsSource (some (bool b)) = tt
raw_history-IsSource (some (decimal m e)) = tt

module _ (first_seen reference : Moment) where
  pub Trail-is_valid :
      (index : ℕ) (vs : List Json) {t u : Tracked} {rs : List Parsed}
      → ReadAs first_seen reference index vs rs
      → Trail first_seen reference t rs u
      → is_valid t.deadline ≡ true
      → is_valid u.deadline ≡ true
  Trail-is_valid index vs read done h = h
  Trail-is_valid index [] read (then_step s trail) h = absurd read
  Trail-is_valid index (v ∷ vs) read (then_step (extend g a s d) trail) h =
      Trail-is_valid (index + 1) vs read.1 trail (parse_revision-is_valid index v read.0)
  Trail-is_valid index (v ∷ vs) read (then_step (resolve g a s d) trail) h =
      Trail-is_valid (index + 1) vs read.1 trail h
  Trail-is_valid index (v ∷ vs) read (then_step (reintroduce g a s d) trail) h =
      Trail-is_valid (index + 1) vs read.1 trail h
