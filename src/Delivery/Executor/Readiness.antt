-- ===== src/Delivery/Executor/Readiness.antt =====
-- When a delivery is reported as ready.
use optimizr_actions.Prelude.{◌≡◌, ◌⊎◌, true, false, none, some, List, [], ◌∷◌, ◌++◌, Text, ok}
use optimizr_actions.Delivery.Gates.{GateEvidence, GateEvaluation, evaluate_gate_evidence}
use optimizr_actions.Delivery.Gates.Decision.{is_absent}
use optimizr_actions.Delivery.Executor.{
  Host, Phase, preflight, postflight, Event, acquired, gates_ran, sync_ran, released,
  CheckoutResult, SyncResult, DeliveryExecutorSpec, DeliveryExecutorResult, DeliveryContext, Traced,
  run_gates, context_of, run_checkout, run_sync, effective_sync,
}
use optimizr_actions.Delivery.Executor.Protocol.{full_delivery}

module _ (host : Host) (spec : DeliveryExecutorSpec) where
  -- This evaluation is that of the evidence that the host's gates gave.
  pub record IsGated (context : DeliveryContext) (phase : Phase) (required : List Text)
      (out : GateEvaluation) : Type 0 where
    pub evidence : List GateEvidence
    pub ran : host.run_gates context phase ≡ ok evidence
    pub evaluated : evaluate_gate_evidence host.is_word evidence required ≡ ok out

  -- A run that ended with gates that failed before the synchronization.
  pub record IsStopped (before : GateEvaluation) (out : DeliveryExecutorResult) : Type 0 where
    pub refused : before.passed ≡ false
    pub not_ready : out.ready ≡ false
    pub no_sync : out.sync ≡ none
    pub no_postflight : out.postflight_evaluation ≡ none

  -- A run that synchronized and then ran its gates, whose verdict is that of the run.
  pub record IsCompleted (checkout : CheckoutResult) (before : GateEvaluation)
      (out : DeliveryExecutorResult) : Type 0 where
    pub passed : before.passed ≡ true
    pub sync : SyncResult
    pub after : GateEvaluation
    pub synchronized : run_sync host spec checkout ≡ ok sync
    pub gated :
        IsGated (context_of host spec checkout (some sync)) postflight spec.postflight_gates after
    pub ready : out.ready ≡ after.passed
    pub reported_sync : out.sync ≡ some sync
    pub reported_after : out.postflight_evaluation ≡ some after

  pub record IsVerdict (checkout : CheckoutResult) (before : GateEvaluation) (events : List Event)
      (out : DeliveryExecutorResult) : Type 0 where
    pub sha : out.head_sha ≡ checkout.head_sha
    pub reported_before : out.preflight_evaluation ≡ before
    pub ended : IsStopped before out ⊎ IsCompleted checkout before out
    pub reason : out.ready ≡ is_absent out.failure_reason
    pub complete :
        out.ready ≡ true
        → events ≡ sync_ran (effective_sync host spec checkout) ∷ gates_ran postflight ∷ []

  -- What a returned result says of the run.
  pub record Delivered (run : Traced DeliveryExecutorResult) (out : DeliveryExecutorResult)
      : Type 0 where
    pub checkout : CheckoutResult
    pub before : GateEvaluation
    pub checked : run_checkout host spec ≡ ok checkout
    pub gated : IsGated (context_of host spec checkout none) preflight spec.preflight_gates before
    pub reported_before : out.preflight_evaluation ≡ before
    pub ended : IsStopped before out ⊎ IsCompleted checkout before out
    pub sha : out.head_sha ≡ spec.checkout.request.candidate_sha
    pub verdict : out.ready ≡ is_absent out.failure_reason
    pub complete :
        out.ready ≡ true
        → run.0 ≡ acquired ∷ full_delivery (effective_sync host spec checkout) ++ released ∷ []
