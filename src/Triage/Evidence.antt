-- ===== src/Triage/Evidence.antt =====
-- classify_actions_failure.py
use optimizr_actions.Prelude.{
  ℕ, zero, suc, ◌+◌, Bool, true, false, ◌&&◌, ◌||◌, Option, none, some, List, [], ◌∷◌, Text, codes,
  same, member, contains, any, all, ltb, ◌==◌, length, if◌then◌else◌,
}
use optimizr_actions.Prelude.Integers.{pos, negsuc}
use optimizr_actions.Prelude.Json.{
  Json, Fields, object, array, text, int, end, item, get, array_of, text_or_empty,
}

abbrev pub billing_markers : List Text
billing_markers =
    codes "recent account payments have failed"
    ∷ codes "spending limit needs to be increased"
    ∷ codes "billing & plans"
    ∷ []

unfoldable pub collection : Option Json → Text → Option (List Json)
unfolding get array_of
collection none key = none
collection (some (object fields)) key = elim (get fields key) [
  | none ↦ none
  | some value ↦ array_of value
]
collection (some value) key = array_of value

-- Whether a job got a runner.
pub data Stage : Type 0 where
  unknown prestart started : Stage

abbrev pub stage_of : Option Json → Option Json → Stage
stage_of (some (int (pos zero))) (some (array _)) = prestart
stage_of (some (int (pos (suc n)))) (some (array end)) = prestart
stage_of (some (int (pos (suc n)))) (some (array (item _ _))) = started
stage_of (some (int (negsuc n))) (some (array end)) = prestart
stage_of (some (int (negsuc n))) (some (array (item _ _))) = unknown
stage_of _ _ = unknown

unfoldable pub job_lifecycle : Json → Stage
unfolding get
job_lifecycle (object job) = stage_of (get job (codes "runner_id")) (get job (codes "steps"))
job_lifecycle _ = unknown

abbrev pub failed_conclusions : List Text
failed_conclusions =
    codes "failure" ∷ codes "cancelled" ∷ codes "timed_out" ∷ codes "action_required" ∷ []

pub record Summary : Type 0 where
  pub run_id : Option Json
  pub run_conclusion : Option Json
  pub job_count : ℕ
  pub prestart_jobs : ℕ
  pub started_jobs : ℕ
  pub unknown_jobs : ℕ
  pub billing_annotations : ℕ

abbrev pub count_stage : Stage → Summary → Summary
count_stage stage s = record {
  run_id = s.run_id;
  run_conclusion = s.run_conclusion;
  job_count = s.job_count;
  prestart_jobs = s.prestart_jobs + elim stage [ prestart ↦ 1 | _ ↦ 0 ];
  started_jobs = s.started_jobs + elim stage [ started ↦ 1 | _ ↦ 0 ];
  unknown_jobs = s.unknown_jobs + elim stage [ unknown ↦ 1 | _ ↦ 0 ];
  billing_annotations = s.billing_annotations;
}

-- `for job in jobs: …`
unfoldable pub count_jobs : Summary → List Json → Summary
unfolding job_lifecycle
count_jobs summary [] = summary
count_jobs summary (job ∷ jobs) = count_jobs (count_stage (job_lifecycle job) summary) jobs

pub data Classification : Type 0 where
  inconclusive hosted_billing_blocked runner_unavailable code_or_gate_failure passed :
      Classification

pub data Cause : Type 0 where
  not_an_object run_missing jobs_missing annotations_not_list jobs_incomplete billing_conflict
        mixed_jobs no_cause :
      Cause
  billing_annotation no_runner job_failure all_succeeded : Cause

pub record Verdict : Type 0 where
  pub classification : Classification
  pub is_code_failure : Bool
  pub promotion_allowed : Bool
  pub reason : Cause
  pub evidence : Option Summary

abbrev pub inconclusive_for : Cause → Option Summary → Verdict
inconclusive_for reason evidence = record {
  classification = inconclusive;
  is_code_failure = false;
  promotion_allowed = false;
  reason = reason;
  evidence = evidence;
}

abbrev pub blocked : Classification → Cause → Summary → Verdict
blocked classification reason summary = record {
  classification = classification;
  is_code_failure = false;
  promotion_allowed = false;
  reason = reason;
  evidence = some summary;
}

abbrev pub has_values : List Json → Bool
has_values [] = false
has_values (_ ∷ _) = true

-- `str.casefold`, and `str` of a value that is no text
module _ (casefold : Text → Text) (str_of : Json → Text) where
  unfoldable pub messages_of : Fields → List Text → List Text
  unfolding get
  messages_of annotation [] = []
  messages_of annotation (key ∷ keys) =
      let rest = messages_of annotation keys in
      elim (get annotation key) [ some (text s) ↦ casefold s ∷ rest | _ ↦ rest ]

  unfoldable pub is_billing_message : Text → Bool
  unfolding contains
  is_billing_message message = any (λ marker. contains message marker) billing_markers

  abbrev pub count_billing : List Text → ℕ
  count_billing [] = 0
  count_billing (message ∷ messages) =
      let rest = count_billing messages in if is_billing_message message then suc rest else rest

  unfoldable pub billing_count : List Json → ℕ
  unfolding messages_of is_billing_message
  billing_count [] = 0
  billing_count (object annotation ∷ annotations) =
      let rest = billing_count annotations in
      count_billing
        (messages_of annotation (codes "message" ∷ codes "title" ∷ codes "raw_details" ∷ []))
      + rest
  billing_count (_ ∷ annotations) = billing_count annotations

  unfoldable pub summary : Fields → List Json → List Json → Summary
  unfolding get billing_count
  summary run jobs annotations = record {
    run_id = get run (codes "id");
    run_conclusion = get run (codes "conclusion");
    job_count = length jobs;
    prestart_jobs = 0;
    started_jobs = 0;
    unknown_jobs = 0;
    billing_annotations = billing_count annotations;
  }

  abbrev pub conclusion_of : Fields → Text
  conclusion_of fields = casefold (text_or_empty str_of (get fields (codes "conclusion")))

  -- `str(job.get("status") or "completed").casefold()`
  abbrev pub or_completed : Text → Text
  or_completed [] = codes "completed"
  or_completed (c ∷ s) = c ∷ s

  abbrev pub status_of : Fields → Text
  status_of job = casefold (or_completed (text_or_empty str_of (get job (codes "status"))))

  abbrev pub is_failed_step : Json → Bool
  is_failed_step (object step) = member (conclusion_of step) failed_conclusions
  is_failed_step _ = false

  abbrev pub steps_of : Option Json → List Json
  steps_of none = []
  steps_of (some value) = elim (array_of value) [ none ↦ [] | some steps ↦ steps ]

  unfoldable pub job_failed : Json → Bool
  unfolding get member array_of
  job_failed (object job) =
      member (conclusion_of job) failed_conclusions
      || any is_failed_step (steps_of (get job (codes "steps")))
  job_failed _ = false

  unfoldable pub has_succeeded : Json → Bool
  unfolding get same
  has_succeeded (object job) =
      same (conclusion_of job) (codes "success") && same (status_of job) (codes "completed")
  has_succeeded _ = false

  -- The verdict on jobs that were counted.
  unfoldable pub decide : Fields → List Json → Summary → Verdict
  unfolding get same job_failed has_succeeded
  decide run jobs s =
      let billing = ltb 0 s.billing_annotations in
      let all_prestart = s.prestart_jobs == s.job_count in
      let any_started = ltb 0 s.started_jobs in
      if ltb 0 s.unknown_jobs
      then inconclusive_for jobs_incomplete (some s)
      else if billing && all_prestart
      then blocked hosted_billing_blocked billing_annotation s
      else if billing && any_started
      then inconclusive_for billing_conflict (some s)
      else if all_prestart
      then blocked runner_unavailable no_runner s
      else if ltb 0 s.prestart_jobs && any_started
      then inconclusive_for mixed_jobs (some s)
      else if any_started && any job_failed jobs
      then record {
        classification = code_or_gate_failure;
        is_code_failure = true;
        promotion_allowed = false;
        reason = job_failure;
        evidence = some s;
      }
      else if any_started && same (conclusion_of run) (codes "success") && all has_succeeded jobs
      then record {
        classification = passed;
        is_code_failure = false;
        promotion_allowed = true;
        reason = all_succeeded;
        evidence = some s;
      }
      else inconclusive_for no_cause (some s)

  unfoldable pub classify_run : Option Json → Option (List Json) → Option (List Json) → Verdict
  unfolding summary count_jobs decide
  classify_run (some (object run)) (some (job ∷ jobs)) (some annotations) =
      decide run (job ∷ jobs) (count_jobs (summary run (job ∷ jobs) annotations) (job ∷ jobs))
  classify_run (some (object run)) (some (job ∷ jobs)) none =
      inconclusive_for annotations_not_list none
  classify_run (some (object run)) _ annotations = inconclusive_for jobs_missing none
  classify_run _ jobs annotations = inconclusive_for run_missing none

  -- `payload.get("annotations", [])`
  abbrev pub or_empty_list : Option Json → Json
  or_empty_list none = array end
  or_empty_list (some value) = value

  unfoldable pub classify_evidence : Json → Verdict
  unfolding get collection classify_run
  classify_evidence (object payload) =
      classify_run (get payload (codes "run"))
        (collection (get payload (codes "jobs")) (codes "jobs"))
        (collection (some (or_empty_list (get payload (codes "annotations"))))
          (codes "annotations"))
  classify_evidence _ = inconclusive_for not_an_object none
