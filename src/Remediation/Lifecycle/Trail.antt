-- ===== src/Remediation/Lifecycle/Trail.antt =====
-- The reviewed history of an entry as a step relation, and `replay` as its decision.
use optimizr_actions.Prelude.{
  ℕ, ◌+◌, ◌≤◌, ◌<◌, ◌≡◌, ◌↔◌, refl, true, false, List, [], ◌∷◌, Result, ok, bind_then, guard_then,
  raise_if_then, arith,
}
use optimizr_actions.Prelude.Json.{Json}
use optimizr_actions.Remediation.Calendar.{Moment, instant}
use optimizr_actions.Remediation.Lifecycle.{
  Status, active, resolved, reintroduced, Action, extended, resolving, reintroducing, Tracked,
  Parsed, LifecycleError, before, same_time, is_active, is_resolved, parse_revision, transition,
  apply_revision, replay,
}

module _ (first_seen reference : Moment) where
  -- What every accepted revision has: the entry's first sighting, the deadline before it, and a
  -- review after the last one and not in the future.
  pub record Agrees (t : Tracked) (r : Parsed) : Type 0 where
    pub first : instant r.first_seen ≡ instant first_seen
    pub previous : instant r.previous_deadline ≡ instant t.deadline
    pub past : instant r.reviewed ≤ instant reference
    pub after : instant t.reviewed < instant r.reviewed

  pub data Step (r : Parsed) (t : Tracked) : Tracked → Type 0 where
    extend :
        Agrees t r
        → r.action ≡ extended
        → t.status ≡ active
        → instant r.previous_deadline < instant r.deadline
        → Step r t (record t { deadline = r.deadline; reviewed = r.reviewed })
    resolve :
        Agrees t r
        → r.action ≡ resolving
        → t.status ≡ active
        → instant r.deadline ≡ instant r.previous_deadline
        → Step r t (record t { status = resolved; reviewed = r.reviewed })
    reintroduce :
        Agrees t r
        → r.action ≡ reintroducing
        → t.status ≡ resolved
        → instant r.deadline ≡ instant r.previous_deadline
        → Step r t (record t { status = reintroduced; reviewed = r.reviewed })

  -- A sequence of accepted revisions.
  pub data Trail : Tracked → List Parsed → Tracked → Type 0 where
    done : {t : Tracked} → Trail t [] t
    then_step :
        {r : Parsed} {rs : List Parsed} {t u v : Tracked}
        → Step r t u
        → Trail u rs v
        → Trail t (r ∷ rs) v

  is_active-eq : (s : Status) → is_active s ≡ true → s ≡ active
  is_active-eq s h = ground arith

  is_resolved-eq : (s : Status) → is_resolved s ≡ true → s ≡ resolved
  is_resolved-eq s h = ground arith

  -- The checks that come before the action.
  abbrev Checks : Parsed → Tracked → Type 0
  Checks r t =
      (same_time r.first_seen first_seen ≡ true)
      × (same_time r.previous_deadline t.deadline ≡ true)
      × (before reference r.reviewed ≡ false)
      × (before t.reviewed r.reviewed ≡ true)

  Checks-Agrees : (r : Parsed) (t : Tracked) → Checks r t → Agrees t r
  Checks-Agrees r t h = record {
    first = ground arith;
    previous = ground arith;
    past = ground arith;
    after = ground arith;
  }

  apply_revision-Checks :
      (r : Parsed) (t u : Tracked)
      → apply_revision first_seen reference r t ≡ ok u
      → Checks r t
        × ((n : Tracked) × (transition r.action r t ≡ ok n)
            × (u ≡ record n { reviewed = r.reviewed }))
  unfolding apply_revision
  apply_revision-Checks r t u h =
      let (c₁, h₁) = guard_then (same_time r.first_seen first_seen) _ _ h in
      let (c₂, h₂) = guard_then (same_time r.previous_deadline t.deadline) _ _ h₁ in
      let (c₃, h₃) = raise_if_then (before reference r.reviewed) _ _ h₂ in
      let (c₄, h₄) = guard_then (before t.reviewed r.reviewed) _ _ h₃ in
      let (n, moved, e) = bind_then (transition r.action r t) _ h₄ in
      ((c₁, c₂, c₃, c₄), (n, moved, cc))

  transition-Step :
      (a : Action) (r : Parsed) (t n : Tracked)
      → r.action ≡ a
      → Agrees t r
      → transition a r t ≡ ok n
      → Step r t (record n { reviewed = r.reviewed })
  unfolding transition
  transition-Step extended r t n a g h =
      let (now, h₁) = guard_then (is_active t.status) _ _ h in
      let (later, h₂) = guard_then (before r.previous_deadline r.deadline) _ _ h₁ in
      let e : n ≡ record t { deadline = r.deadline } = cc in
      rw e (extend g a (is_active-eq t.status now) (ground arith))
  transition-Step resolving r t n a g h =
      let (now, h₁) = guard_then (is_active t.status) _ _ h in
      let (kept, h₂) = guard_then (same_time r.deadline r.previous_deadline) _ _ h₁ in
      let e : n ≡ record t { status = resolved } = cc in
      rw e (resolve g a (is_active-eq t.status now) (ground arith))
  transition-Step reintroducing r t n a g h =
      let (now, h₁) = guard_then (is_resolved t.status) _ _ h in
      let (kept, h₂) = guard_then (same_time r.deadline r.previous_deadline) _ _ h₁ in
      let e : n ≡ record t { status = reintroduced } = cc in
      rw e (reintroduce g a (is_resolved-eq t.status now) (ground arith))

  apply_revision-Step :
      (r : Parsed) (t u : Tracked) → apply_revision first_seen reference r t ≡ ok u → Step r t u
  apply_revision-Step r t u h =
      let (c, (n, moved, e)) = apply_revision-Checks r t u h in
      rw e (transition-Step r.action r t n refl (Checks-Agrees r t c) moved)

  -- Every step of the relation is accepted.
  Step-apply_revision :
      (r : Parsed) (t u : Tracked) → Step r t u → apply_revision first_seen reference r t ≡ ok u
  unfolding apply_revision transition
  Step-apply_revision r t _ (extend g a s d) =
      rw (a, s) (ground (arith, g.first, g.previous, g.past, g.after))
  Step-apply_revision r t _ (resolve g a s d) =
      rw (a, s) (ground (arith, g.first, g.previous, g.past, g.after))
  Step-apply_revision r t _ (reintroduce g a s d) =
      rw (a, s) (ground (arith, g.first, g.previous, g.past, g.after))

  -- The revisions that a list of values reads as.
  abbrev pub ReadAs : ℕ → List Json → List Parsed → Type 0
  ReadAs index [] [] = Unit
  ReadAs index [] (r ∷ rs) = ⊥
  ReadAs index (v ∷ vs) [] = ⊥
  ReadAs index (v ∷ vs) (r ∷ rs) = (parse_revision index v ≡ ok r) × ReadAs (index + 1) vs rs

  extend-Trail :
      (index : ℕ) (v : Json) (vs : List Json) (r : Parsed) (t n u w : Tracked)
      (rs out : List Parsed)
      → parse_revision index v ≡ ok r
      → ReadAs (index + 1) vs rs
      → Step r t n
      → Trail n rs w
      → ◌≡◌ {A = Result LifecycleError (Tracked × List Parsed)} (ok (w, r ∷ rs)) (ok (u, out))
      → ReadAs index (v ∷ vs) out × Trail t out u
  extend-Trail index v vs r t n u w rs out parsed read s trail h =
      let e₁ : u ≡ w = cc in
      let e₂ : out ≡ r ∷ rs = cc in rw (e₁, e₂) ((parsed, read), then_step s trail)

  replay-Trail :
      (index : ℕ) (vs : List Json) (t u : Tracked) (rs : List Parsed)
      → replay first_seen reference index vs t ≡ ok (u, rs)
      → ReadAs index vs rs × Trail t rs u
  unfolding replay
  replay-Trail index [] t u rs h =
      let e₁ : u ≡ t = ground arith in let e₂ : rs ≡ [] = ground arith in rw (e₁, e₂) (tt, done)
  replay-Trail index (v ∷ vs) t u rs h =
      let (r, parsed, h₁) = bind_then (parse_revision index v) _ h in
      let (n, applied, h₂) = bind_then (apply_revision first_seen reference r t) _ h₁ in
      let (final, rest, h₃) = bind_then (replay first_seen reference (index + 1) vs n) _ h₂ in
      let (read, trail) = replay-Trail (index + 1) vs n final.0 final.1 rest in
      extend-Trail index v vs r t n u final.0 final.1 rs parsed read
        (apply_revision-Step r t n applied) trail h₃

  Trail-replay :
      (index : ℕ) (vs : List Json) (t u : Tracked) (rs : List Parsed)
      → ReadAs index vs rs
      → Trail t rs u
      → replay first_seen reference index vs t ≡ ok (u, rs)
  unfolding replay
  Trail-replay index [] t _ _ read done = refl
  Trail-replay index [] t _ _ read (then_step s trail) = absurd read
  Trail-replay index (v ∷ vs) t _ _ read done = absurd read
  Trail-replay index (v ∷ vs) t _ _ read (then_step {r} {rs} {u = n} {v = u} s trail) =
      rw (read.0, Step-apply_revision r t n s, Trail-replay (index + 1) vs n u rs read.1 trail) refl

  -- `replay` accepts a history exactly when its values read as revisions that make a trail.
  pub replay_iff :
      (index : ℕ) (vs : List Json) (t u : Tracked) (rs : List Parsed)
      → (replay first_seen reference index vs t ≡ ok (u, rs)) ↔ (ReadAs index vs rs × Trail t rs u)
  replay_iff index vs t u rs =
      (replay-Trail index vs t u rs, λ h. Trail-replay index vs t u rs h.0 h.1)
