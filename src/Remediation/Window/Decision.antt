-- ===== src/Remediation/Window/Decision.antt =====
-- remediation_window.py: `evaluate_remediation_windows`.
use optimizr_actions.Prelude.{
  ℕ, suc, ◌+◌, ◌-◌, Bool, true, false, Option, none, some, List, [], ◌∷◌, ◌++◌, map, Text, codes,
  ltb, ◌==◌, if◌then◌else◌, ok, err, ◌>>=◌, ◌>>◌, guard, map_result, any, length, lower, text_le,
}
use optimizr_actions.Prelude.Sort.{sorted}
use optimizr_actions.Prelude.Json.{Fields, get}
use optimizr_actions.Prelude.Regex.{Regex, fullmatch}
use optimizr_actions.Remediation.Calendar.{format_utc}
use optimizr_actions.Remediation.Window.Observations.{
  Checked, WindowError, policy, policy_missing, result_sha_malformed, result_digest_malformed,
  Observation, canonical_observation, parse_time, allowed_classification, git_sha, sha256_digest,
}
use optimizr_actions.Remediation.Window.Policy.{PolicyEntry, load_policy}
use optimizr_actions.Remediation.Window.Evaluation.{
  Clock, Finding, Rendering, rejected, not_normalized, judge, is_blank, is_covered, is_rejected,
  is_overdue, is_unmatched, is_reintroduced, is_due_soon, has_entry, count_by, normal_text,
  finding_le, same_observation, RemediationState, not_applicable, window_active, window_due_soon,
  blocked_reintroduced, blocked_overdue, blocked_other, decision_not_applicable, allowed_window,
  blocked, FailureReason, no_failure, any_reintroduced, any_overdue, any_rejected, any_uncovered,
  WindowResult,
}

-- The text of a policy file, and the digest of its bytes.
pub record PolicyFile : Type 0 where
  pub payload : Fields
  pub digest : Text

abbrev pub empty_result : WindowResult
empty_result = record {
  source_sha = [];
  image_digest = [];
  classification = [];
  remediation_window_allowed = false;
  remediation_state = not_applicable;
  decision = decision_not_applicable;
  blocking_total = 0;
  window_covered = 0;
  uncovered_blocking_findings = 0;
  rejected_count = 0;
  overdue_count = 0;
  unmatched_count = 0;
  reintroduced_count = 0;
  due_soon_count = 0;
  matching_entry_count = 0;
  nearest_deadline = [];
  policy_digest = [];
  failure_reason = no_failure;
  findings = [];
}

-- `deadlines`, the texts that are not empty
abbrev pub deadlines_of : List Finding → List Text
deadlines_of [] = []
deadlines_of (f ∷ fs) = elim f.matched [
  | none ↦ deadlines_of fs
  | some entry ↦
      if is_blank entry.deadline_at then deadlines_of fs else entry.deadline_at ∷ deadlines_of fs
]

-- `min(deadlines) if deadlines else ""`
unfoldable pub least : List Text → Text
unfolding text_le
least [] = []
least (s ∷ []) = s
least (s ∷ t ∷ ts) = let rest = least (t ∷ ts) in if text_le s rest then s else rest

-- What the failed counts say, in their order.
unfoldable pub blocked_state : ℕ → ℕ → ℕ → RemediationState × FailureReason
blocked_state reintroduced overdue rejections =
    if ltb 0 reintroduced
    then (blocked_reintroduced, any_reintroduced)
    else if ltb 0 overdue
    then (blocked_overdue, any_overdue)
    else if ltb 0 rejections
    then (blocked_other, any_rejected)
    else (blocked_other, any_uncovered)

-- The result from the findings; `start` has the identity and the digest of the policy.
unfoldable pub summarize : WindowResult → ℕ → List Finding → WindowResult
unfolding least blocked_state
summarize start total findings =
    let covered = count_by (λ f. is_covered f.state) findings in
    let reintroduced = count_by (λ f. is_reintroduced f.state) findings in
    let overdue = count_by (λ f. is_overdue f.state) findings in
    let rejections = count_by (λ f. is_rejected f.state) findings in
    let soon = count_by (λ f. is_due_soon f.state) findings in
    let uncovered = total - covered in
    let is_allowed = uncovered == 0 in
    let failed = blocked_state reintroduced overdue rejections in
    record {
      source_sha = start.source_sha;
      image_digest = start.image_digest;
      classification = allowed_classification;
      remediation_window_allowed = is_allowed;
      remediation_state =
          if is_allowed then (if ltb 0 soon then window_due_soon else window_active) else failed.0;
      decision = if is_allowed then allowed_window else blocked;
      blocking_total = total;
      window_covered = covered;
      uncovered_blocking_findings = uncovered;
      rejected_count = rejections;
      overdue_count = overdue;
      unmatched_count = count_by (λ f. is_unmatched f.state) findings;
      reintroduced_count = reintroduced;
      due_soon_count = soon;
      matching_entry_count = count_by has_entry findings;
      nearest_deadline = least (deadlines_of findings);
      policy_digest = start.policy_digest;
      failure_reason = if is_allowed then no_failure else failed.1;
      findings = findings;
    }

module _ (rendering : Rendering) where
  unfoldable pub evaluate_one : List PolicyEntry → Clock → Observation → Checked Finding
  unfolding judge
  evaluate_one entries clock o = do
    verdict ← judge o entries clock
    ok (record {
      observation_digest = rendering.observation_digest o;
      advisory_id = o.fingerprint.advisory_id;
      package_purl = o.fingerprint.package_purl;
      image_identity = o.image_identity;
      state = verdict.0.0;
      failure_reason = verdict.0.1;
      matched = verdict.1;
    })

  unfoldable pub refused_finding : Fields → WindowError → Finding
  unfolding get normal_text
  refused_finding raw error = record {
    observation_digest = rendering.raw_digest raw;
    advisory_id = normal_text rendering.str_of (get raw (codes "advisory_id"));
    package_purl = normal_text rendering.str_of (get raw (codes "package_purl"));
    image_identity = normal_text rendering.str_of (get raw (codes "image_identity"));
    state = rejected;
    failure_reason = not_normalized error;
    matched = none;
  }

  -- `for index, raw in enumerate(observations): …`, from the observations seen so far: those kept,
  -- and the findings of those that cannot be normalized.
  unfoldable pub normalize_all :
      ℕ → List Observation → List Fields → List Observation × List Finding
  unfolding canonical_observation same_observation refused_finding
  normalize_all index seen [] = ([], [])
  normalize_all index seen (raw ∷ raws) = elim (canonical_observation raw index) [
    | err error ↦
        let rest = normalize_all (suc index) seen raws in
        (rest.0, refused_finding raw error ∷ rest.1)
    | ok o ↦ if any (same_observation o) seen then normalize_all (suc index) seen raws else (
      o ∷ (normalize_all (suc index) (o ∷ seen) raws).0,
      (normalize_all (suc index) (o ∷ seen) raws).1,
    )
  ]

  -- From the observations that were kept to the result.
  unfoldable pub decide :
      WindowResult
      → List PolicyEntry
      → Clock
      → List Observation × List Finding
      → Checked WindowResult
  unfolding evaluate_one sorted finding_le summarize
  decide start entries clock ([], []) = ok start
  decide start entries clock (kept, refused) = do
    findings ← map_result (evaluate_one entries clock) kept
    ok (summarize start (length kept + length refused) (sorted finding_le (findings ++ refused)))

-- `source_sha` and `image_digest`, in lower case; an empty text stands for none.
unfoldable pub identity_of : Regex → WindowError → Text → Checked Text
unfolding fullmatch lower
identity_of pattern error [] = ok []
identity_of pattern error (c ∷ s) = do
  guard (fullmatch pattern (map lower (c ∷ s))) error
  ok (map lower (c ∷ s))

-- The evaluation time, or the clock where the text is empty.
unfoldable pub clock_of : Clock → Text → Checked Clock
unfolding parse_time
clock_of now [] = ok now
clock_of now (c ∷ s) = do
  moment ← parse_time (c ∷ s) policy (codes "evaluation_time")
  ok (record { moment = moment; microsecond = 0 })

-- An empty text stands for an argument that is absent, and nothing for a policy that is absent.
unfoldable pub evaluate_remediation_windows :
    Rendering
    → Clock
    → Option (Checked PolicyFile)
    → List Fields
    → Bool
    → Text
    → Text
    → Text
    → Checked WindowResult
unfolding identity_of clock_of parse_time format_utc load_policy normalize_all decide
evaluate_remediation_windows rendering now file observations false evaluation_time source_sha
      image_digest =
    ok empty_result
evaluate_remediation_windows rendering now none observations true evaluation_time source_sha
      image_digest =
    err policy_missing
evaluate_remediation_windows rendering now (some file) observations true evaluation_time source_sha
      image_digest =
    do
      sha ← identity_of git_sha result_sha_malformed source_sha
      digest ← identity_of sha256_digest result_digest_malformed image_digest
      clock ← clock_of now evaluation_time
      read ← file
      loaded ← load_policy read.payload (format_utc clock.moment)
      decide rendering
          (record empty_result {
            source_sha = sha;
            image_digest = digest;
            policy_digest = read.digest;
          })
          loaded.entries clock (normalize_all rendering 0 [] observations)
