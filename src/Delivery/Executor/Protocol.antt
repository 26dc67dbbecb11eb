-- ===== src/Delivery/Executor/Protocol.antt =====
-- The order of the calls of a delivery.
use optimizr_actions.Prelude.{
  ℕ, suc, ◌≤◌, ◌≡◌, refl, sym, ap, ◌∙◌, ◌⊎◌, inl, inr, true, Bool-cases, none, some, List, [], ◌∷◌,
  ◌++◌, take, length, Any, Any-append, Text, Result-cases, ok, err, bind_then, reraise,
  reraise_then, arith,
}
use optimizr_actions.Delivery.Gates.{GateEvidence, GateEvaluation, evaluate_gate_evidence}
use optimizr_actions.Delivery.Gates.Evaluation.{all_required_passed, evaluate_gate_evidence-passed}
use optimizr_actions.Delivery.Executor.{
  Host, Phase, preflight, postflight, Event, acquired, checked_out, gates_ran, sync_ran, released,
  CheckoutResult, SyncSpec, DeliveryExecutorSpec, DeliveryExecutorResult, DeliveryContext,
  ExecutorError, Checked, Traced, and_then, convert_runner, run_gates, context_of, run_checkout,
  run_sync, effective_sync, after_preflight, deliver, finish, synchronize, validate_spec,
  execute_delivery, lock_not_acquired,
}

-- The calls of a delivery that goes to its end.
abbrev pub full_delivery : SyncSpec → List Event
full_delivery sync = checked_out ∷ gates_ran preflight ∷ sync_ran sync ∷ gates_ran postflight ∷ []

-- The first of some calls, at least `least` of them.
abbrev pub IsStart : ℕ → List Event → List Event → Type 0
IsStart least calls events = (n : ℕ) × (least ≤ n) × (n ≤ length calls) × (events ≡ take n calls)

and_then-IsStart :
    {A B : Type 0} (event : Event) (r : Checked A) (next : A → Traced B) (calls : List Event)
    → ((a : A) → IsStart 0 calls (next a).0)
    → IsStart 1 (event ∷ calls) (and_then event r next).0
and_then-IsStart event (err e) next calls h = (1, omega arith, omega arith, refl)
and_then-IsStart event (ok a) next calls h =
    let (n, _, at_most, e) = h a in
    (suc n, omega arith, omega (arith, at_most), ap (λ es. event ∷ es) e)

weaker : (calls events : List Event) → IsStart 1 calls events → IsStart 0 calls events
weaker calls events (n, _, at_most, e) = (n, omega arith, at_most, e)

abbrev pub Is : Event → Event → Type 0
Is x y = y ≡ x

-- An event is the first, or it comes after a call that returned.
event_after :
    {A B : Type 0} (x event : Event) (r : Checked A) (next : A → Traced B)
    → Any (Is x) (and_then event r next).0
    → (event ≡ x) ⊎ ((a : A) × (r ≡ ok a) × Any (Is x) (next a).0)
event_after x event (err e) next (inl h) = inl h
event_after x event (err e) next (inr h) = elim h [ ]
event_after x event (ok a) next (inl h) = inl h
event_after x event (ok a) next (inr h) = inr (a, refl, h)

module _ (host : Host) (spec : DeliveryExecutorSpec) where
  after_preflight-IsStart :
      (checkout : CheckoutResult) (before : GateEvaluation)
      → IsStart 0
          (sync_ran (effective_sync host spec checkout) ∷ gates_ran postflight ∷ [])
          (after_preflight host spec checkout before).0
  unfolding after_preflight synchronize finish
  after_preflight-IsStart checkout before = elim (Bool-cases before.passed) [
    | inr failed ↦ rw failed (0, omega arith, omega arith, refl)
    | inl passed ↦ rw passed (
        weaker _ _ (
          and_then-IsStart _ (run_sync host spec checkout) _ (gates_ran postflight ∷ []) (λ sync.
            weaker _ _ (
              and_then-IsStart _
                (run_gates host (context_of host spec checkout (some sync)) postflight
                  spec.postflight_gates)
                _ [] (λ after. (0, omega arith, omega arith, refl))))))
  ]

  gated : CheckoutResult → Traced DeliveryExecutorResult
  gated checkout =
      and_then (gates_ran preflight)
        (run_gates host (context_of host spec checkout none) preflight spec.preflight_gates)
        (after_preflight host spec checkout)

  gated-IsStart :
      (checkout : CheckoutResult)
      → IsStart 0
          (gates_ran preflight
            ∷ sync_ran (effective_sync host spec checkout)
            ∷ gates_ran postflight
            ∷ [])
          (gated checkout).0
  unfolding gated
  gated-IsStart checkout = weaker _ _ (
      and_then-IsStart _ _ (after_preflight host spec checkout) _
        (after_preflight-IsStart checkout))

  deliver-IsStart : (s : SyncSpec) × IsStart 1 (full_delivery s) (deliver host spec).0
  unfolding deliver gated
  deliver-IsStart = go (run_checkout host spec)
    where
      go :
          (r : Checked CheckoutResult)
          → (s : SyncSpec) × IsStart 1 (full_delivery s) (and_then checked_out r gated).0
      go (err e) = (spec.sync, (1, omega arith, omega arith, refl))
      go (ok checkout) =
          let (n, _, at_most, e) = gated-IsStart checkout in
          (
            effective_sync host spec checkout,
            (suc n, omega arith, omega (arith, at_most), ap (λ es. checked_out ∷ es) e),
          )

  -- The lock around the body.
  pub execute_delivery-events :
      ((e : ExecutorError) × (execute_delivery host spec ≡ ([], err e)))
      ⊎ (execute_delivery host spec
          ≡ (acquired ∷ (deliver host spec).0 ++ released ∷ [], (deliver host spec).1))
  unfolding execute_delivery
  execute_delivery-events = elim (Result-cases (validate_spec host spec)) [
    | inl (e, invalid) ↦ inl (e, rw (execute_delivery, invalid) refl)
    | inr (_, valid) ↦
        elim (Bool-cases
          (host.lock spec.lock_root spec.checkout.request.service spec.lock_timeout_seconds)) [
            | inr free ↦ inl (lock_not_acquired, rw (execute_delivery, valid, free) refl)
            | inl held ↦ inr (rw (execute_delivery, valid, held) refl)
          ]
  ]

  -- Either nothing is called and the run raises, or the lock is taken, some of the calls are made in
  -- the order checkout, preflight gates, synchronization, postflight gates, at least the first and
  -- none twice, and the lock is released at the end, whether the run raises or not.
  pub execute_delivery-locked :
      ((e : ExecutorError) × (execute_delivery host spec ≡ ([], err e)))
      ⊎ ((s : SyncSpec) × (events : List Event) × IsStart 1 (full_delivery s) events
          × ((execute_delivery host spec).0 ≡ acquired ∷ events ++ released ∷ []))
  execute_delivery-locked = elim execute_delivery-events [
    | inl stopped ↦ inl stopped
    | inr ran ↦
        let (s, start) = deliver-IsStart in inr (s, (deliver host spec).0, start, ap (λ r. r.0) ran)
  ]

  -- A gate evaluation that passed had evidence for it.
  run_gates-passed :
      (context : DeliveryContext) (phase : Phase) (required : List Text) (out : GateEvaluation)
      → run_gates host context phase required ≡ ok out
      → (evidence : List GateEvidence) × (host.run_gates context phase ≡ ok evidence)
        × (out.passed ≡ all_required_passed host.is_word evidence required)
  unfolding run_gates
  run_gates-passed context phase required out h =
      let (evidence, e, h₁) =
        bind_then (reraise (host.run_gates context phase) convert_runner) _ h in
      (
        evidence,
        reraise_then (host.run_gates context phase) convert_runner e,
        evaluate_gate_evidence-passed host.is_word evidence required out
            (reraise_then (evaluate_gate_evidence host.is_word evidence required) _ h₁),
      )

  -- What stands before a synchronization.
  pub record IsCleared (s : SyncSpec) : Type 0 where
    pub checkout : CheckoutResult
    pub evidence : List GateEvidence
    pub checked : run_checkout host spec ≡ ok checkout
    pub source : s ≡ effective_sync host spec checkout
    pub reported : host.run_gates (context_of host spec checkout none) preflight ≡ ok evidence
    pub passed : all_required_passed host.is_word evidence spec.preflight_gates ≡ true

  after_preflight-sync :
      (s : SyncSpec) (checkout : CheckoutResult) (before : GateEvaluation)
      → Any (Is (sync_ran s)) (after_preflight host spec checkout before).0
      → (before.passed ≡ true) × (s ≡ effective_sync host spec checkout)
  unfolding after_preflight synchronize finish
  after_preflight-sync s checkout before = elim (Bool-cases before.passed) [
    | inr failed ↦ rw failed (λ h. elim h [ ])
    | inl passed ↦ rw passed (λ h. elim (event_after _ _ (run_sync host spec checkout) _ h) [
      | inl e ↦ (refl, cc)
      | inr (sync, _, k) ↦
          elim (event_after _ _
            (run_gates host (context_of host spec checkout (some sync)) postflight
              spec.postflight_gates)
            _ k) [ inl e ↦ absurd cc | inr (_, _, none_left) ↦ elim none_left [ ] ]
    ])
  ]

  deliver-sync : (s : SyncSpec) → Any (Is (sync_ran s)) (deliver host spec).0 → IsCleared s
  unfolding deliver
  deliver-sync s h = elim (event_after _ _ (run_checkout host spec) _ h) [
    | inl e ↦ absurd cc
    | inr (checkout, checked, k) ↦
        elim (event_after _ _
          (run_gates host (context_of host spec checkout none) preflight spec.preflight_gates) _
          k) [
            | inl e ↦ absurd cc
            | inr (before, ran, l) ↦
                let (passed, source) = after_preflight-sync s checkout before l in
                let (evidence, reported, decided) =
                  run_gates-passed (context_of host spec checkout none) preflight
                    spec.preflight_gates before ran in
                record {
                  checkout = checkout;
                  evidence = evidence;
                  checked = checked;
                  source = source;
                  reported = reported;
                  passed = sym decided ∙ passed;
                }
          ]
  ]

  -- Whatever the outcome of the run, a synchronization is started only from a checkout that was
  -- validated, and after the runner reported evidence that passes every gate required before it.
  pub execute_delivery-sync :
      (s : SyncSpec) → Any (Is (sync_ran s)) (execute_delivery host spec).0 → IsCleared s
  execute_delivery-sync s = elim execute_delivery-events [
    | inl (e, stopped) ↦ rw stopped (λ h. elim h [ ])
    | inr ran ↦ rw ran inside
  ]
    where
      inside :
          Any (Is (sync_ran s)) (acquired ∷ (deliver host spec).0 ++ released ∷ []) → IsCleared s
      inside (inl e) = absurd cc
      inside (inr h) = elim (Any-append (Is (sync_ran s)) (deliver host spec).0 (released ∷ []) h) [
        | inl k ↦ deliver-sync s k
        | inr (inl e) ↦ absurd cc
        | inr (inr k) ↦ elim k [ ]
      ]
