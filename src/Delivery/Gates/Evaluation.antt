-- ===== src/Delivery/Gates/Evaluation.antt =====
-- What a decision says of the evidence that the gate runner supplied.
use optimizr_actions.Prelude.{
  ℕ, ◌≡◌, refl, sym, ap, ◌∙◌, inl, inr, Bool, true, false, not, ◌&&◌, ◌||◌, Bool-cases, List, [],
  ◌∷◌, Text, codes, same, same_sound, member, if◌then◌else◌, ok, err, bind_then, guard_then,
  raise_if_then, map_result, any, all, arith,
}
use optimizr_actions.Prelude.Dicts.{Dict, lookup, has_key, insert, lookup-insert, all-insert}
use optimizr_actions.Delivery.Gates.{
  GateEvidence, Evidence, GateEvaluation, Checked, allowed_statuses, validate_gate_name,
  validate_required_gates, status_at, decide, sanitized_evidence, collect, evaluate_gate_evidence,
  safe_scalar, is_nil, has_duplicate, evidence_not_unique, no_required_gates, required_not_unique,
  status_not_allowed,
}
use optimizr_actions.Delivery.Gates.Decision.{
  is_allowed, is_failed, is_absent, decide-passed, decide-failure_reason,
}

validate_gate_name-eq : (n m : Text) → validate_gate_name n ≡ ok m → m ≡ n
unfolding validate_gate_name
validate_gate_name-eq n m h = ground arith

validate_names-eq : (ns ms : List Text) → map_result validate_gate_name ns ≡ ok ms → ms ≡ ns
validate_names-eq [] ms h = cc
validate_names-eq (n ∷ ns) ms h =
    let (m, e, h₁) = bind_then (validate_gate_name n) _ h in
    let (rest, f, h₂) = bind_then (map_result validate_gate_name ns) _ h₁ in
    cc (validate_gate_name-eq n m e, validate_names-eq ns rest f)

pub validate_required_gates-eq :
    (required out : List Text) → validate_required_gates required ≡ ok out → out ≡ required
unfolding validate_required_gates
validate_required_gates-eq required out h =
    let (_, h₁) = raise_if_then (is_nil required) no_required_gates _ h in
    let (_, h₂) = raise_if_then (has_duplicate required) required_not_unique _ h₁ in
    validate_names-eq required out h₂

-- The gate has this name and this status.
abbrev pub reports_status : Text → Text → GateEvidence → Bool
reports_status status name gate = same gate.name name && same gate.status status

settle_new :
    (named reported had taken later : Bool)
    → named ≡ true
    → taken ≡ false
    → had ≡ false
    → later ≡ false
    → ((if named then reported else had) || (not (named || taken) && later))
      ≡ (had || (not taken && ((named && reported) || later)))
settle_new named reported had taken later p q h l = ground arith

settle_other :
    (named reported had taken later : Bool)
    → named ≡ false
    → ((if named then reported else had) || (not (named || taken) && later))
      ≡ (had || (not taken && ((named && reported) || later)))
settle_other named reported had taken later p = ground arith

module _ (is_word : ℕ → Bool) where
  record Sanitized (g : GateEvidence) (e : Evidence) : Type 0 where
    name : e.name ≡ g.name
    status : e.status ≡ g.status
    allowed : is_allowed e ≡ true

  sanitized_evidence-Sanitized :
      (g : GateEvidence) (e : Evidence) → sanitized_evidence is_word g ≡ ok e → Sanitized g e
  unfolding sanitized_evidence
  sanitized_evidence-Sanitized g e h =
      let (name, valid, h₁) = bind_then (validate_gate_name g.name) _ h in
      let (allowed, h₂) = guard_then (member g.status allowed_statuses) status_not_allowed _ h₁ in
      let (target, _, h₃) =
        bind_then (safe_scalar is_word (codes "gate target") g.target false) _ h₂ in
      let (reason, _, h₄) =
        bind_then (safe_scalar is_word (codes "gate reason") g.reason true) _ h₃ in
      let same_status : g.status ≡ e.status = ap (status_or g.status) h₄ in
      let same_name : name ≡ e.name = ap (name_or name) h₄ in
      record {
        name = sym same_name ∙ validate_gate_name-eq g.name name valid;
        status = sym same_status;
        allowed = rw (← same_status) allowed;
      }
    where
      status_or : Text → Checked Evidence → Text
      status_or d (ok x) = x.status
      status_or d (err x) = d

      name_or : Text → Checked Evidence → Text
      name_or d (ok x) = x.name
      name_or d (err x) = d

  -- One round of `collect`.
  record Round (g : GateEvidence) (gs : List GateEvidence) (d out : Dict Evidence) : Type 0 where
    evidence : Evidence
    sanitized : Sanitized g evidence
    absent : has_key evidence.name d ≡ false
    rest : collect is_word gs (insert evidence.name evidence d) ≡ ok out

  collect-Round :
      (g : GateEvidence) (gs : List GateEvidence) (d out : Dict Evidence)
      → collect is_word (g ∷ gs) d ≡ ok out
      → Round g gs d out
  unfolding collect
  collect-Round g gs d out h =
      let (e, s, h₁) = bind_then (sanitized_evidence is_word g) _ h in
      let (absent, h₂) = raise_if_then (has_key e.name d) evidence_not_unique _ h₁ in
      record {
        evidence = e;
        sanitized = sanitized_evidence-Sanitized g e s;
        absent = absent;
        rest = h₂;
      }

  collect-allowed :
      (gs : List GateEvidence) (d out : Dict Evidence)
      → collect is_word gs d ≡ ok out
      → all (λ e. is_allowed e.1) d ≡ true
      → all (λ e. is_allowed e.1) out ≡ true
  unfolding collect
  collect-allowed [] d out h a = let e : out ≡ d = cc in rw e a
  collect-allowed (g ∷ gs) d out h a =
      let r = collect-Round g gs d out h in
      collect-allowed gs (insert r.evidence.name r.evidence d) out r.rest
        (all-insert is_allowed r.evidence.name r.evidence d r.absent ∙ both a r.sanitized.allowed)
    where
      both : {a b : Bool} → a ≡ true → b ≡ true → (a && b) ≡ true
      both p q = ground arith

  -- Failures are those of the evidence.
  collect-failed :
      (gs : List GateEvidence) (d out : Dict Evidence)
      → collect is_word gs d ≡ ok out
      → all (λ e. not (is_failed e.1)) out
        ≡ (all (λ e. not (is_failed e.1)) d && all (λ g. not (same g.status (codes "failed"))) gs)
  unfolding collect
  collect-failed [] d out h = let e : out ≡ d = cc in rw e (ground arith)
  collect-failed (g ∷ gs) d out h =
      let r = collect-Round g gs d out h in
      collect-failed gs (insert r.evidence.name r.evidence d) out r.rest
      ∙ rw
          (
            all-insert (λ x. not (is_failed x)) r.evidence.name r.evidence d r.absent,
            r.sanitized.status,
          )
          (ground arith)

  has_key-insert :
      (k n : Text) (v : Evidence) (d : Dict Evidence)
      → has_key n (insert k v d) ≡ (same k n || has_key n d)
  unfolding has_key
  has_key-insert k n v d = ground (arith, lookup-insert k n v d)

  status_at-insert :
      (s k n : Text) (v : Evidence) (d : Dict Evidence)
      → status_at s n (insert k v d) ≡ (if same k n then same v.status s else status_at s n d)
  unfolding status_at
  status_at-insert s k n v d = ground (arith, lookup-insert k n v d)

  -- A name that is taken does not come again.
  collect-taken :
      (s n : Text) (gs : List GateEvidence) (d out : Dict Evidence)
      → collect is_word gs d ≡ ok out
      → has_key n d ≡ true
      → any (reports_status s n) gs ≡ false
  collect-taken s n [] d out h k = refl
  collect-taken s n (g ∷ gs) d out h k =
      let r = collect-Round g gs d out h in
      let e = r.evidence in
      let rest =
        collect-taken s n gs (insert e.name e d) out r.rest
          (rw (has_key-insert e.name n e d) (ground (arith, k))) in
      ground (arith, rest, fresh g.name e.name r.sanitized.name r.absent)
    where
      fresh : (a b : Text) → b ≡ a → has_key b d ≡ false → same a n ≡ false
      fresh a b e absent = elim (Bool-cases (same a n)) [
        | inl equal ↦ absurd (cc (same_sound a n equal))
        | inr other ↦ other
      ]

  -- A name has a status at the end exactly when it had it, or it was new and some gate reports it.
  collect-status_at :
      (s n : Text) (gs : List GateEvidence) (d out : Dict Evidence)
      → collect is_word gs d ≡ ok out
      → status_at s n out ≡ (status_at s n d || (not (has_key n d) && any (reports_status s n) gs))
  unfolding collect
  collect-status_at s n [] d out h = let e : out ≡ d = cc in rw e (ground arith)
  collect-status_at s n (g ∷ gs) d out h =
      let r = collect-Round g gs d out h in
      let e = r.evidence in
      collect-status_at s n gs (insert e.name e d) out r.rest
      ∙ rw
          (
            status_at-insert s e.name n e d,
            has_key-insert e.name n e d,
            r.sanitized.status,
            r.sanitized.name,
          )
          (elim (Bool-cases (same g.name n)) [
            | inl equal ↦
                let k = taken g.name e.name r.sanitized.name (same_sound g.name n equal) r.absent in
                let later =
                  collect-taken s n gs (insert e.name e d) out r.rest
                    (rw (has_key-insert e.name n e d, r.sanitized.name, equal) refl) in
                settle_new _ _ _ _ _ equal k (no_status n d k) later
            | inr other ↦ settle_other _ _ _ _ _ other
          ])
    where
      taken : (a b : Text) → b ≡ a → a ≡ n → has_key b d ≡ false → has_key n d ≡ false
      taken a b p q h = cc

      no_status : (n : Text) (d : Dict Evidence) → has_key n d ≡ false → status_at s n d ≡ false
      no_status n d k = unfold has_key status_at in ground arith

  -- Every gate that is required passed, and no gate failed.
  abbrev pub all_required_passed : List GateEvidence → List Text → Bool
  all_required_passed gates required =
      all (λ n. any (reports_status (codes "passed") n) gates) required
      && all (λ g. not (same g.status (codes "failed"))) gates

  -- Evidence that is accepted passes exactly when for each required gate there is evidence with the
  -- status passed, and no evidence, required or not, has the status failed.
  pub evaluate_gate_evidence-passed :
      (gates : List GateEvidence) (required : List Text) (out : GateEvaluation)
      → evaluate_gate_evidence is_word gates required ≡ ok out
      → out.passed ≡ all_required_passed gates required
  unfolding evaluate_gate_evidence
  evaluate_gate_evidence-passed gates required out h =
      let (names, valid, h₁) = bind_then (validate_required_gates required) _ h in
      let (found, collected, h₂) = bind_then (collect is_word gates []) _ h₁ in
      let same_out : (decide names found).passed ≡ out.passed = ap passed_or h₂ in
      let same_names = validate_required_gates-eq required names valid in
      sym same_out
      ∙ rw same_names (
          decide-passed required found (collect-allowed gates [] found collected refl)
          ∙ rw (all-cong found collected required, collect-failed gates [] found collected) refl)
    where
      passed_or : Checked GateEvaluation → Bool
      passed_or (ok x) = x.passed
      passed_or (err e) = false

      all-cong :
          (found : Dict Evidence)
          → collect is_word gates [] ≡ ok found
          → (names : List Text)
          → all (λ n. status_at (codes "passed") n found) names
            ≡ all (λ n. any (reports_status (codes "passed") n) gates) names
      all-cong found c [] = refl
      all-cong found c (n ∷ names) =
          rw (collect-status_at (codes "passed") n gates [] found c, all-cong found c names)
            (unfold has_key status_at lookup in refl)

  pub evaluate_gate_evidence-failure_reason :
      (gates : List GateEvidence) (required : List Text) (out : GateEvaluation)
      → evaluate_gate_evidence is_word gates required ≡ ok out
      → out.passed ≡ is_absent out.failure_reason
  unfolding evaluate_gate_evidence
  evaluate_gate_evidence-failure_reason gates required out h =
      let (names, _, h₁) = bind_then (validate_required_gates required) _ h in
      let (found, _, h₂) = bind_then (collect is_word gates []) _ h₁ in
      agrees (decide names found) out h₂ (decide-failure_reason names found)
    where
      agrees :
          (x y : GateEvaluation)
          → Path (Checked GateEvaluation) (ok x) (ok y)
          → x.passed ≡ is_absent x.failure_reason
          → y.passed ≡ is_absent y.failure_reason
      agrees x y e p = let same_value : x ≡ y = cc in rw (← same_value) p
