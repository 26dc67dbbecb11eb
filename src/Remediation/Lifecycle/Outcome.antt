-- ===== src/Remediation/Lifecycle/Outcome.antt =====
-- What a normalized lifecycle says about the history that it came from.
use optimizr_actions.Prelude.{
  ℕ, suc, ◌≤◌, ◌<◌, ◌≡◌, refl, ap, ◌∙◌, true, false, Option, none, some, List, [], ◌∷◌, ◌++◌, Text,
  codes, ok, bind_then, guard_then, raise_if_then, or_raise, arith, replicate, length, map,
}
use optimizr_actions.Prelude.Json.{Fields, get}
use optimizr_actions.Remediation.Calendar.{Moment, instant, is_valid, parse_utc, format_utc}
use optimizr_actions.Remediation.Calendar.RoundTrip.{parse_utc-format_utc}
use optimizr_actions.Remediation.Lifecycle.{
  Status, active, resolved, reintroduced, Action, extended, resolving, reintroducing, Tracked,
  Parsed, Lifecycle, LifecycleError, policy_entry, before, is_active, same_status, required_text,
  required_moment, status_of, report_revision, reports, replay, RawHistory, absent, malformed,
  revisions, raw_history, status_not_allowed, normalize_history, normalize_lifecycle,
}
use optimizr_actions.Remediation.Lifecycle.Reading.{IsSource, raw_history-IsSource, Trail-is_valid}
use optimizr_actions.Remediation.Lifecycle.Trail.{
  Step, extend, resolve, reintroduce, Trail, done, then_step, ReadAs, replay_iff,
}

abbrev pub actions : List Parsed → List Action
actions = map (λ r. r.action)

-- How a history ends that leaves this status.
abbrev pub closing : Status → List Action
closing active = []
closing resolved = resolving ∷ []
closing reintroduced = resolving ∷ reintroducing ∷ []

module _ (first_seen reference : Moment) where
  abbrev T : Tracked → List Parsed → Tracked → Type 0
  T = Trail first_seen reference

  Step-deadline :
      (r : Parsed) (t u : Tracked)
      → Step first_seen reference r t u
      → instant t.deadline ≤ instant u.deadline
  Step-deadline r t _ (extend g a s d) = omega (arith, g.previous)
  Step-deadline r t _ (resolve g a s d) = omega arith
  Step-deadline r t _ (reintroduce g a s d) = omega arith

  -- No history moves the deadline back.
  pub Trail-deadline :
      {t u : Tracked} {rs : List Parsed} → T t rs u → instant t.deadline ≤ instant u.deadline
  Trail-deadline done = omega arith
  Trail-deadline (then_step {r} {rs} {t} {u} {v} s trail) =
      omega (arith, Step-deadline r t u s, Trail-deadline trail)

  -- The reviews follow one another, and none is in the future.
  abbrev pub AreChronological : ℕ → List Parsed → Type 0
  AreChronological lo [] = Unit
  AreChronological lo (r ∷ rs) =
      (lo < instant r.reviewed)
      × (instant r.reviewed ≤ instant reference)
      × AreChronological (instant r.reviewed) rs

  pub Trail-AreChronological :
      {t u : Tracked} {rs : List Parsed} → T t rs u → AreChronological (instant t.reviewed) rs
  Trail-AreChronological done = tt
  Trail-AreChronological (then_step (extend g a s d) trail) =
      (g.after, g.past, Trail-AreChronological trail)
  Trail-AreChronological (then_step (resolve g a s d) trail) =
      (g.after, g.past, Trail-AreChronological trail)
  Trail-AreChronological (then_step (reintroduce g a s d) trail) =
      (g.after, g.past, Trail-AreChronological trail)

  Trail-reintroduced :
      {t u : Tracked} {rs : List Parsed}
      → T t rs u
      → t.status ≡ reintroduced
      → (actions rs ≡ []) × (u.status ≡ reintroduced)
  Trail-reintroduced done h = (refl, h)
  Trail-reintroduced (then_step (extend g a s d) trail) h = cc
  Trail-reintroduced (then_step (resolve g a s d) trail) h = cc
  Trail-reintroduced (then_step (reintroduce g a s d) trail) h = cc

  Trail-resolved :
      {t u : Tracked} {rs : List Parsed}
      → T t rs u
      → t.status ≡ resolved
      → resolving ∷ actions rs ≡ closing u.status
  Trail-resolved done h = rw h refl
  Trail-resolved (then_step (extend g a s d) trail) h = absurd (cc)
  Trail-resolved (then_step (resolve g a s d) trail) h = absurd (cc)
  Trail-resolved (then_step (reintroduce g a s d) trail) h =
      let (none_left, last) = Trail-reintroduced trail refl in rw (last, a, none_left) refl

  -- A history that begins active extends the deadline any number of times and then is over: it may
  -- end in a resolution, and only a resolution may be followed by one reintroduction.
  pub Trail-actions :
      {t u : Tracked} {rs : List Parsed}
      → T t rs u
      → t.status ≡ active
      → (k : ℕ) × (actions rs ≡ replicate k extended ++ closing u.status)
  Trail-actions done h = (0, rw h refl)
  Trail-actions (then_step (extend g a s d) trail) h =
      let (k, e) = Trail-actions trail s in (suc k, rw (a, e) refl)
  Trail-actions (then_step (resolve g a s d) trail) h = (0, rw a (Trail-resolved trail refl))
  Trail-actions (then_step (reintroduce g a s d) trail) h = absurd (cc)

not_before : (a b : Moment) → before a b ≡ false → instant b ≤ instant a
not_before a b h = ground arith

module _ (first_seen reference : Moment) where
  -- What was read as the revisions.
  abbrev IsRead : RawHistory → List Parsed → Type 0
  IsRead absent parsed = parsed ≡ []
  IsRead malformed parsed = ⊥
  IsRead (revisions v vs) parsed = ReadAs first_seen reference 0 (v ∷ vs) parsed

  -- A normalized lifecycle reports a trail from the active entry with its original deadline and its
  -- initial review, which is not in the future, to the status and the deadline that it gives.
  pub record Reports (original initial : Moment) (given : Status) (raw : RawHistory)
      (out : Lifecycle) : Type 0 where
    pub parsed : List Parsed
    pub final : Tracked
    pub read : IsRead raw parsed
    pub as_given : out.status ≡ given
    pub reviewed : instant initial ≤ instant reference
    pub trail :
        Trail first_seen reference
          (record { deadline = original; status = active; reviewed = initial })
          parsed
          final
    pub status : out.status ≡ final.status
    pub deadline : out.effective_deadline_at ≡ format_utc final.deadline
    pub valid : is_valid original ≡ true → is_valid final.deadline ≡ true
    pub unchanged : out.original_deadline_at ≡ format_utc original
    pub listed : out.history ≡ reports parsed
    pub counted : out.revision_count ≡ length parsed

  is_active-eq : (s : Status) → is_active s ≡ true → s ≡ active
  is_active-eq s h = ground arith

  same_status-eq : (a b : Status) → same_status a b ≡ true → b ≡ a
  same_status-eq a b h = ground arith

  normalize_history-Reports :
      (original : Moment) (status : Status) (initial : Moment) (raw : RawHistory) (out : Lifecycle)
      → instant initial ≤ instant reference
      → normalize_history first_seen original reference status initial raw ≡ ok out
      → Reports original initial status raw out
  unfolding normalize_history
  normalize_history-Reports original status initial absent out past h =
      let (stays, h₁) = guard_then (is_active status) _ _ h in
      record {
        read = refl;
        as_given = cc (is_active-eq status stays);
        parsed = [];
        final = record { deadline = original; status = active; reviewed = initial };
        reviewed = past;
        trail = done;
        status = cc;
        deadline = cc;
        valid = λ v. v;
        unchanged = cc;
        listed = cc;
        counted = cc;
      }
  normalize_history-Reports original status initial malformed out past h = absurd (cc)
  normalize_history-Reports original status initial (revisions v vs) out past h =
      let start : Tracked = record { deadline = original; status = active; reviewed = initial } in
      let ((final, parsed), replayed, h₁) =
        bind_then (replay first_seen reference 0 (v ∷ vs) start) _ h in
      let (same, h₂) = guard_then (same_status final.status status) _ _ h₁ in
      let (read, trail) =
        (replay_iff first_seen reference 0 (v ∷ vs) start final parsed).0 replayed in
      record {
        read = read;
        as_given = cc;
        parsed = parsed;
        final = final;
        reviewed = past;
        trail = trail;
        status = cc (same_status-eq final.status status same);
        deadline = cc;
        valid = λ k. Trail-is_valid first_seen reference 0 (v ∷ vs) read trail k;
        unchanged = cc;
        listed = cc;
        counted = cc;
      }

  -- The report of this entry, with what was read from it.
  pub record IsReported (entry : Fields) (original : Moment) (out : Lifecycle) : Type 0 where
    pub name : Text
    pub given : Status
    pub initial : Moment
    pub raw : RawHistory
    pub stated : required_text entry (codes "status") policy_entry ≡ ok name
    pub allowed : status_of name ≡ some given
    pub dated : required_moment entry (codes "reviewed_at") policy_entry ≡ ok initial
    pub source : IsSource (get entry (codes "history")) raw
    pub report : Reports original initial given raw out

  some_of :
      {A : Type 0} (o : Option A) (e : LifecycleError) {a : A} → or_raise o e ≡ ok a → o ≡ some a
  some_of none e h = absurd cc
  some_of (some b) e h = cc

  -- The report of an entry that is accepted has the status that the entry gives. It follows a trail
  -- from the active status, the original deadline and the review of the entry, which is not in the
  -- future, through the revisions that the entry's history reads as, none where the entry has no
  -- history, to the status and the deadline that it reports.
  pub normalize_lifecycle-IsReported :
      (entry : Fields) (original : Moment) (out : Lifecycle)
      → normalize_lifecycle entry first_seen original reference ≡ ok out
      → IsReported entry original out
  unfolding normalize_lifecycle
  normalize_lifecycle-IsReported entry original out h =
      let (name, n, h₁) = bind_then (required_text entry (codes "status") policy_entry) _ h in
      let (status, s, h₂) = bind_then (or_raise (status_of name) status_not_allowed) _ h₁ in
      let (initial, i, h₃) =
        bind_then (required_moment entry (codes "reviewed_at") policy_entry) _ h₂ in
      let (past, h₄) = raise_if_then (before reference initial) _ _ h₃ in
      let raw = raw_history (get entry (codes "history")) in
      record {
        name = name;
        given = status;
        initial = initial;
        raw = raw;
        stated = n;
        allowed = some_of (status_of name) status_not_allowed s;
        dated = i;
        source = raw_history-IsSource (get entry (codes "history"));
        report =
            normalize_history-Reports original status initial raw out
              (not_before reference initial past) h₄;
      }

  -- The reported deadline is a datetime that is not before the original one.
  pub normalize_lifecycle-deadline :
      (entry : Fields) (original : Moment) (out : Lifecycle)
      → is_valid original ≡ true
      → normalize_lifecycle entry first_seen original reference ≡ ok out
      → (d : Moment) × (parse_utc out.effective_deadline_at ≡ some d)
        × (instant original ≤ instant d)
  normalize_lifecycle-deadline entry original out v h =
      let p = (normalize_lifecycle-IsReported entry original out h).report in
      (
        p.final.deadline,
        rw p.deadline (parse_utc-format_utc p.final.deadline (p.valid v)),
        Trail-deadline first_seen reference p.trail,
      )

  actions-reports : (rs : List Parsed) → map (λ r. r.action) (reports rs) ≡ actions rs
  unfolding report_revision
  actions-reports [] = refl
  actions-reports (r ∷ rs) = ap (◌∷◌ r.action) (actions-reports rs)

  -- The reported actions are any number of extensions, and then what the reported status says:
  -- nothing, a resolution, or a resolution and a reintroduction.
  pub normalize_lifecycle-actions :
      (entry : Fields) (original : Moment) (out : Lifecycle)
      → normalize_lifecycle entry first_seen original reference ≡ ok out
      → (k : ℕ) × (map (λ r. r.action) out.history ≡ replicate k extended ++ closing out.status)
  normalize_lifecycle-actions entry original out h =
      let p = (normalize_lifecycle-IsReported entry original out h).report in
      let (k, e) = Trail-actions first_seen reference p.trail refl in
      (k, rw (p.listed, p.status) (actions-reports p.parsed ∙ e))
