-- ===== src/Remediation/Window/Coverage.antt =====
-- What an allowed window rests on.
use mathlib.Core.List.{Mem}
use optimizr_actions.Prelude.{
  ℕ, ◌+◌, ◌*◌, ◌≤◌, ◌≡◌, refl, sym, ap, ◌∙◌, inl, inr, Bool, true, false, ◌&&◌, Bool-cases, Option,
  Option-cases, none, some, List, [], ◌∷◌, codes, same, same_sound, member, Result, ok, ◌>>=◌,
  bind_then, map_result, all, All, and_left, and_right, arith,
}
use optimizr_actions.Remediation.Calendar.{Moment, instant}
use optimizr_actions.Remediation.Lifecycle.{is_active}
use optimizr_actions.Remediation.Window.Observations.{
  Checked, WindowError, policy, Observation, Severity, parse_time, allowed_classification,
  blocked_critical_exposures,
}
use optimizr_actions.Remediation.Window.Policy.{PolicyEntry}
use optimizr_actions.Remediation.Window.Matching.{entry_of-found}
use optimizr_actions.Remediation.Window.Evaluation.{
  Clock, Finding, Rendering, State, rejected, unmatched, entry_not_found, Reason, compare_times,
  window_state, max_window_days, judge, judge_entry, refusal, entry_of, is_critical, is_covered,
}
use optimizr_actions.Remediation.Window.Decision.{evaluate_one}

pub returned {ℓ} : {A : Type ℓ} (x y : A) → Path (Result WindowError A) (ok x) (ok y) → x ≡ y
returned x y e = cc

compare_times-covered :
    (most first last now : ℕ)
    → is_covered (compare_times most first last now).0 ≡ true
    → (last ≤ first + most) × (first ≤ now) × (now ≤ last)
unfolding compare_times
compare_times-covered most first last now h = (ground arith, ground arith, ground arith)

-- The conditions under which a finding may wait.
pub record IsCovered (entries : List PolicyEntry) (clock : Clock) (o : Observation) : Type 0 where
  pub actionable : o.classification ≡ allowed_classification
  pub not_exploited : o.known_exploited ≡ false
  pub not_fixed : o.fixed_image_verified ≡ false
  pub not_exposed :
      (is_critical o.severity && member o.exposure_criticality blocked_critical_exposures) ≡ false
  pub entry : PolicyEntry
  pub listed : Mem entry entries
  pub same_finding : entry.fingerprint ≡ o.fingerprint
  pub matched : entry_of o.fingerprint entries ≡ some entry
  pub active : is_active entry.status ≡ true
  pub first_seen : Moment
  pub deadline : Moment
  pub first_seen_at : parse_time entry.first_seen_at policy (codes "first_seen_at") ≡ ok first_seen
  pub deadline_at : parse_time entry.deadline_at policy (codes "deadline_at") ≡ ok deadline
  pub short :
      instant deadline * 1000000
      ≤ instant first_seen * 1000000 + max_window_days o.severity * 86400 * 1000000
  pub started : instant first_seen * 1000000 ≤ instant clock.moment * 1000000 + clock.microsecond
  pub not_over : instant clock.moment * 1000000 + clock.microsecond ≤ instant deadline * 1000000

refusal-none :
    (o : Observation)
    → refusal o ≡ none
    → (same o.classification allowed_classification ≡ true)
      × (o.known_exploited ≡ false)
      × (o.fixed_image_verified ≡ false)
      × ((is_critical o.severity && member o.exposure_criticality blocked_critical_exposures)
          ≡ false)
unfolding refusal
refusal-none o h = (ground arith, ground arith, ground arith, ground arith)

uncovered : {b : Bool} → false ≡ b → b ≡ true → ⊥
uncovered p q = cc

window_state-covered :
    (severity : Severity) (first_seen deadline : Moment) (clock : Clock)
    → is_covered (window_state severity first_seen deadline clock).0 ≡ true
    → (instant deadline * 1000000
        ≤ instant first_seen * 1000000 + max_window_days severity * 86400 * 1000000)
      × (instant first_seen * 1000000 ≤ instant clock.moment * 1000000 + clock.microsecond)
      × (instant clock.moment * 1000000 + clock.microsecond ≤ instant deadline * 1000000)
unfolding window_state
window_state-covered severity first_seen deadline clock h =
    compare_times-covered (max_window_days severity * 86400 * 1000000)
      (instant first_seen * 1000000) (instant deadline * 1000000)
      (instant clock.moment * 1000000 + clock.microsecond) h

judge_entry-covered :
    (o : Observation) (entry : PolicyEntry) (clock : Clock) (verdict : State × Reason)
    → judge_entry o entry clock ≡ ok verdict
    → is_covered verdict.0 ≡ true
    → (is_active entry.status ≡ true)
      × ((first_seen : Moment) × (deadline : Moment) × (parse_time entry.first_seen_at policy
              (codes "first_seen_at")
            ≡ ok first_seen)
          × (parse_time entry.deadline_at policy (codes "deadline_at") ≡ ok deadline)
          × (window_state o.severity first_seen deadline clock ≡ verdict))
unfolding judge_entry
judge_entry-covered o entry clock verdict = elim (Bool-cases (is_active entry.status)) [
  | inr other ↦
      rw other (λ h c. absurd (uncovered (ap (λ v. is_covered v.0) (returned _ verdict h)) c))
  | inl active ↦ rw active (λ h c.
      let (first_seen, e₁, h₁) =
        bind_then (parse_time entry.first_seen_at policy (codes "first_seen_at")) _ h in
      let (deadline, e₂, h₂) =
        bind_then (parse_time entry.deadline_at policy (codes "deadline_at")) _ h₁ in
      (refl, (first_seen, deadline, e₁, e₂, returned _ verdict h₂)))
]

-- `judge` on the refusal and the entry that were computed.
abbrev judged :
    Observation
    → Clock
    → Option Reason
    → Option PolicyEntry
    → Checked ((State × Reason) × Option PolicyEntry)
judged o clock (some why) found = ok ((rejected, why), none)
judged o clock none none = ok ((unmatched, entry_not_found), none)
judged o clock none (some entry) = judge_entry o entry clock >>= λ verdict. ok (verdict, some entry)

judged-eq :
    (o : Observation) (entries : List PolicyEntry) (clock : Clock)
    → judge o entries clock ≡ judged o clock (refusal o) (entry_of o.fingerprint entries)
unfolding judge
judged-eq o entries clock = elim (Option-cases (refusal o)) [
  | inr (why, refused) ↦ rw (judge, refused) refl
  | inl allowed ↦ elim (Option-cases (entry_of o.fingerprint entries)) [
    | inl absent ↦ rw (judge, allowed, absent) refl
    | inr (entry, found) ↦ rw (judge, allowed, found) refl
  ]
]

-- The parts of a covered verdict.
judged-covered :
    (o : Observation) (clock : Clock) (why : Option Reason) (found : Option PolicyEntry)
    (verdict : State × Reason) (matched : Option PolicyEntry)
    → judged o clock why found ≡ ok (verdict, matched)
    → is_covered verdict.0 ≡ true
    → (why ≡ none)
      × ((entry : PolicyEntry) × (found ≡ some entry) × (judge_entry o entry clock ≡ ok verdict))
judged-covered o clock (some why) found verdict matched h c =
    absurd (uncovered (ap (λ v. is_covered v.0.0) (returned _ (verdict, matched) h)) c)
judged-covered o clock none none verdict matched h c =
    absurd (uncovered (ap (λ v. is_covered v.0.0) (returned _ (verdict, matched) h)) c)
judged-covered o clock none (some entry) verdict matched h c =
    let (first, e, h₁) = bind_then (judge_entry o entry clock) _ h in
    (refl, (entry, refl, e ∙ ap ok (ap (λ v. v.0) (returned _ (verdict, matched) h₁))))

-- A covered verdict comes from an entry that matches, is active and lies in its window.
judge-IsCovered :
    (o : Observation) (entries : List PolicyEntry) (clock : Clock) (verdict : State × Reason)
    (matched : Option PolicyEntry)
    → judge o entries clock ≡ ok (verdict, matched)
    → is_covered verdict.0 ≡ true
    → IsCovered entries clock o
judge-IsCovered o entries clock verdict matched h c =
    let (allowed, (entry, found, e)) =
      judged-covered o clock (refusal o) (entry_of o.fingerprint entries) verdict matched
        (sym (judged-eq o entries clock) ∙ h) c in
    let (actionable, exploited, fixed, exposed) = refusal-none o allowed in
    let (active, (first_seen, deadline, e₁, e₂, w)) =
      judge_entry-covered o entry clock verdict e c in
    let (short, started, not_over) =
      window_state-covered o.severity first_seen deadline clock (ap (λ v. is_covered v.0) w ∙ c) in
    let (listed, same_finding) = entry_of-found o.fingerprint entries entry found in
    record {
      listed = listed;
      same_finding = same_finding;
      actionable = same_sound o.classification allowed_classification actionable;
      not_exploited = exploited;
      not_fixed = fixed;
      not_exposed = exposed;
      entry = entry;
      matched = found;
      active = active;
      first_seen = first_seen;
      deadline = deadline;
      first_seen_at = e₁;
      deadline_at = e₂;
      short = short;
      started = started;
      not_over = not_over;
    }

module _ (rendering : Rendering) (entries : List PolicyEntry) (clock : Clock) where
  evaluate_one-IsCovered :
      (o : Observation) (f : Finding)
      → evaluate_one rendering entries clock o ≡ ok f
      → is_covered f.state ≡ true
      → IsCovered entries clock o
  unfolding evaluate_one
  evaluate_one-IsCovered o f h c =
      let (v, e, h₁) = bind_then (judge o entries clock) _ h in
      judge-IsCovered o entries clock v.0 v.1 e (ap (λ x. is_covered x.state) (returned _ f h₁) ∙ c)

  pub evaluate_all-IsCovered :
      (kept : List Observation) (findings : List Finding)
      → map_result (evaluate_one rendering entries clock) kept ≡ ok findings
      → all (λ f. is_covered f.state) findings ≡ true
      → All (IsCovered entries clock) kept
  evaluate_all-IsCovered [] findings h c = tt
  evaluate_all-IsCovered (o ∷ kept) findings h c =
      let (f, e, h₁) = bind_then (evaluate_one rendering entries clock o) _ h in
      let (fs, es, h₂) = bind_then (map_result (evaluate_one rendering entries clock) kept) _ h₁ in
      let every = ap (all (λ x. is_covered x.state)) (returned _ findings h₂) ∙ c in
      (
        evaluate_one-IsCovered o f e (and_left _ _ every),
        evaluate_all-IsCovered kept fs es (and_right _ _ every),
      )
