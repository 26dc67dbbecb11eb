-- ===== src/Triage/Causes.antt =====
-- What a verdict on a run rests on.
use optimizr_actions.Prelude.{
  ℕ, ◌+◌, ◌≡◌, refl, Bool, true, false, ◌&&◌, if_lem, and_left, and_right, Option, none, some, List,
  [], ◌∷◌, Text, codes, same, any, all, ltb, ◌==◌, All, arith,
}
use optimizr_actions.Prelude.Json.{Json, Fields, null, bool, int, decimal, text, array, object, get}
use optimizr_actions.Triage.Evidence.{
  Stage, unknown, prestart, started, collection, job_lifecycle, Summary, count_stage, count_jobs,
  Verdict, inconclusive_for, Cause, not_an_object, run_missing, jobs_missing, annotations_not_list,
  jobs_incomplete, billing_conflict, mixed_jobs, no_cause, summary, billing_count, conclusion_of,
  job_failed, has_succeeded, decide, classify_run, or_empty_list, classify_evidence,
}

abbrev pub same_stage : Stage → Stage → ℕ
same_stage unknown unknown = 1
same_stage prestart prestart = 1
same_stage started started = 1
same_stage _ _ = 0

-- The jobs of a stage.
abbrev pub of_stage : Stage → List Json → ℕ
of_stage stage [] = 0
of_stage stage (job ∷ jobs) = same_stage stage (job_lifecycle job) + of_stage stage jobs

pub record Counts (before : Summary) (jobs : List Json) (after : Summary) : Type 0 where
  pub jobs_kept : after.job_count ≡ before.job_count
  pub billing_kept : after.billing_annotations ≡ before.billing_annotations
  pub before_start : after.prestart_jobs ≡ before.prestart_jobs + of_stage prestart jobs
  pub after_start : after.started_jobs ≡ before.started_jobs + of_stage started jobs
  pub not_known : after.unknown_jobs ≡ before.unknown_jobs + of_stage unknown jobs

one_job :
    (stage : Stage) (before after : Summary) (job : Json) (jobs : List Json)
    → job_lifecycle job ≡ stage
    → Counts (count_stage stage before) jobs after
    → Counts before (job ∷ jobs) after
one_job unknown before after job jobs e c = record {
  jobs_kept = c.jobs_kept;
  billing_kept = c.billing_kept;
  before_start = rw e (ground (arith, c.before_start));
  after_start = rw e (ground (arith, c.after_start));
  not_known = rw e (ground (arith, c.not_known));
}
one_job prestart before after job jobs e c = record {
  jobs_kept = c.jobs_kept;
  billing_kept = c.billing_kept;
  before_start = rw e (ground (arith, c.before_start));
  after_start = rw e (ground (arith, c.after_start));
  not_known = rw e (ground (arith, c.not_known));
}
one_job started before after job jobs e c = record {
  jobs_kept = c.jobs_kept;
  billing_kept = c.billing_kept;
  before_start = rw e (ground (arith, c.before_start));
  after_start = rw e (ground (arith, c.after_start));
  not_known = rw e (ground (arith, c.not_known));
}

count_jobs-Counts :
    (before : Summary) (jobs : List Json) → Counts before jobs (count_jobs before jobs)
unfolding count_jobs
count_jobs-Counts before [] = record {
  jobs_kept = refl;
  billing_kept = refl;
  before_start = ground arith;
  after_start = ground arith;
  not_known = ground arith;
}
count_jobs-Counts before (job ∷ jobs) =
    one_job (job_lifecycle job) before _ job jobs refl
      (count_jobs-Counts (count_stage (job_lifecycle job) before) jobs)

-- Every job got a runner, where none is before its start or unknown.
all_started :
    (jobs : List Json)
    → of_stage prestart jobs ≡ 0
    → of_stage unknown jobs ≡ 0
    → All (λ job. job_lifecycle job ≡ started) jobs
all_started [] p u = tt
all_started (job ∷ jobs) p u = (
  only_started (job_lifecycle job) (ground arith) (ground arith),
  all_started jobs (ground arith) (ground arith),
)
  where
    only_started :
        (stage : Stage)
        → same_stage prestart stage ≡ 0
        → same_stage unknown stage ≡ 0
        → stage ≡ started
    only_started started h k = refl
    only_started prestart h k = absurd (ground arith)
    only_started unknown h k = absurd (ground arith)

module _ (casefold : Text → Text) (str_of : Json → Text) where
  -- A run whose jobs all got a runner, with nothing about billing.
  pub record HasRun (payload : Json) (run : Fields) (jobs : List Json) : Type 0 where
    pub fields : Fields
    pub annotations : List Json
    pub is_payload : payload ≡ object fields
    pub its_run : get fields (codes "run") ≡ some (object run)
    pub its_jobs : collection (get fields (codes "jobs")) (codes "jobs") ≡ some jobs
    pub its_annotations :
        collection
          (some (or_empty_list casefold str_of (get fields (codes "annotations"))))
          (codes "annotations")
        ≡ some annotations
    pub unbilled : billing_count casefold str_of annotations ≡ 0
    pub ran : All (λ job. job_lifecycle job ≡ started) jobs

  pub record HasPassed (payload : Json) : Type 0 where
    pub run : Fields
    pub jobs : List Json
    pub has_run : HasRun payload run jobs
    pub concluded : same (conclusion_of casefold str_of run) (codes "success") ≡ true
    pub none_failed : any (job_failed casefold str_of) jobs ≡ false
    pub all_succeeded : all (has_succeeded casefold str_of) jobs ≡ true

  pub record HasFailed (payload : Json) : Type 0 where
    pub run : Fields
    pub jobs : List Json
    pub has_run : HasRun payload run jobs
    pub one_failed : any (job_failed casefold str_of) jobs ≡ true

  -- What the verdict claims.
  pub record Rests (payload : Json) (verdict : Verdict) : Type 0 where
    pub promotes : verdict.promotion_allowed ≡ true → HasPassed payload
    pub blames : verdict.is_code_failure ≡ true → HasFailed payload

  silent :
      (payload : Json) (reason : Cause) (s : Option Summary)
      → Rests payload (inconclusive_for reason s)
  silent payload reason s = record { promotes = λ h. absurd cc; blames = λ h. absurd cc }

  decide-Rests :
      (payload : Json) (run : Fields) (jobs annotations : List Json) (s : Summary)
      → Counts (summary casefold str_of run jobs annotations) jobs s
      → ((of_stage prestart jobs ≡ 0)
          → (of_stage unknown jobs ≡ 0)
          → billing_count casefold str_of annotations ≡ 0
          → HasRun payload run jobs)
      → Rests payload (decide casefold str_of run jobs s)
  unfolding decide summary
  decide-Rests payload run jobs annotations s c known =
      let P : Verdict → Type 0 = Rests payload in
      if_lem P (ltb 0 s.unknown_jobs) _ _ (λ _. silent payload jobs_incomplete (some s))
        (λ none_unknown.
          if_lem P (ltb 0 s.billing_annotations && (s.prestart_jobs == s.job_count)) _ _
            (λ _. record { promotes = λ h. absurd cc; blames = λ h. absurd cc })
            (λ _.
              if_lem P (ltb 0 s.billing_annotations && ltb 0 s.started_jobs) _ _
                (λ _. silent payload billing_conflict (some s))
                (λ no_conflict.
                  if_lem P (s.prestart_jobs == s.job_count) _ _
                    (λ _. record { promotes = λ h. absurd cc; blames = λ h. absurd cc })
                    (λ _.
                      if_lem P (ltb 0 s.prestart_jobs && ltb 0 s.started_jobs) _ _
                        (λ _. silent payload mixed_jobs (some s))
                        (λ not_mixed.
                          let run_of : ltb 0 s.started_jobs ≡ true → HasRun payload run jobs =
                            λ any_started.
                              known (none_before (not_and _ _ not_mixed any_started) c.before_start)
                                (none_before none_unknown c.not_known)
                                (no_billing (not_and _ _ no_conflict any_started) c.billing_kept) in
                          if_lem P (ltb 0 s.started_jobs && any (job_failed casefold str_of) jobs) _
                            _
                            (λ failing. record {
                              promotes = λ h. absurd cc;
                              blames = λ h. record {
                                run = run;
                                jobs = jobs;
                                has_run = run_of (
                                    and_left (ltb 0 s.started_jobs)
                                      (any (job_failed casefold str_of) jobs) failing);
                                one_failed =
                                    and_right (ltb 0 s.started_jobs)
                                      (any (job_failed casefold str_of) jobs) failing;
                              };
                            })
                            (λ none_failing.
                              if_lem P
                                (ltb 0 s.started_jobs
                                  && same (conclusion_of casefold str_of run) (codes "success")
                                  && all (has_succeeded casefold str_of) jobs)
                                _ _
                                (λ succeeded.
                                  let (any_started, concluded, each) =
                                    all_three (ltb 0 s.started_jobs)
                                      (same (conclusion_of casefold str_of run) (codes "success"))
                                      (all (has_succeeded casefold str_of) jobs) succeeded in
                                  record {
                                    promotes = λ h. record {
                                      run = run;
                                      jobs = jobs;
                                      has_run = run_of any_started;
                                      concluded = concluded;
                                      none_failed =
                                          not_after (ltb 0 s.started_jobs)
                                            (any (job_failed casefold str_of) jobs) none_failing
                                            any_started;
                                      all_succeeded = each;
                                    };
                                    blames = λ h. absurd cc;
                                  })
                                (λ _. silent payload no_cause (some s))))))))
    where
      none_before : {n m : ℕ} → ltb 0 n ≡ false → n ≡ 0 + m → m ≡ 0
      none_before h e = ground arith

      no_billing : {n m : ℕ} → ltb 0 n ≡ false → n ≡ m → m ≡ 0
      no_billing h e = ground arith

      not_and : (a b : Bool) → (a && b) ≡ false → b ≡ true → a ≡ false
      not_and a b h k = ground arith

      not_after : (a b : Bool) → (a && b) ≡ false → a ≡ true → b ≡ false
      not_after a b h k = ground arith

      all_three : (a b d : Bool) → (a && b && d) ≡ true → (a ≡ true) × (b ≡ true) × (d ≡ true)
      all_three a b d h = ground arith

  -- A verdict that allows the promotion rests on evidence in which every job got a runner and succeeded,
  -- none failed, nothing is about billing and the run concluded with success; one that blames the code
  -- rests on evidence in which every job got a runner, one failed and nothing is about billing.
  pub classify_evidence-Rests :
      (payload : Json) → Rests payload (classify_evidence casefold str_of payload)
  unfolding classify_evidence classify_run
  classify_evidence-Rests (object fields) =
      go (get fields (codes "run")) (collection (get fields (codes "jobs")) (codes "jobs"))
        (collection (some (or_empty_list casefold str_of (get fields (codes "annotations"))))
          (codes "annotations"))
        refl refl refl
    where
      go :
          (run : Option Json) (jobs annotations : Option (List Json))
          → get fields (codes "run") ≡ run
          → collection (get fields (codes "jobs")) (codes "jobs") ≡ jobs
          → collection
              (some (or_empty_list casefold str_of (get fields (codes "annotations"))))
              (codes "annotations")
            ≡ annotations
          → Rests (object fields) (classify_run casefold str_of run jobs annotations)
      go (some (object run)) (some (job ∷ jobs)) (some annotations) r j a =
          decide-Rests (object fields) run (job ∷ jobs) annotations _
            (count_jobs-Counts _ (job ∷ jobs))
            (λ p u b. record {
              fields = fields;
              annotations = annotations;
              is_payload = refl;
              its_run = r;
              its_jobs = j;
              its_annotations = a;
              unbilled = b;
              ran = all_started (job ∷ jobs) p u;
            })
      go (some (object run)) (some (job ∷ jobs)) none r j a =
          silent (object fields) annotations_not_list none
      go (some (object run)) (some []) annotations r j a = silent (object fields) jobs_missing none
      go (some (object run)) none annotations r j a = silent (object fields) jobs_missing none
      go none jobs annotations r j a = silent (object fields) run_missing none
      go (some null) jobs annotations r j a = silent (object fields) run_missing none
      go (some (bool b)) jobs annotations r j a = silent (object fields) run_missing none
      go (some (int n)) jobs annotations r j a = silent (object fields) run_missing none
      go (some (decimal m k)) jobs annotations r j a = silent (object fields) run_missing none
      go (some (text s)) jobs annotations r j a = silent (object fields) run_missing none
      go (some (array items)) jobs annotations r j a = silent (object fields) run_missing none
  classify_evidence-Rests null = silent null not_an_object none
  classify_evidence-Rests (bool b) = silent (bool b) not_an_object none
  classify_evidence-Rests (int n) = silent (int n) not_an_object none
  classify_evidence-Rests (decimal m k) = silent (decimal m k) not_an_object none
  classify_evidence-Rests (text s) = silent (text s) not_an_object none
  classify_evidence-Rests (array items) = silent (array items) not_an_object none
