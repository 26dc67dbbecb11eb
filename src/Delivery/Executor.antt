-- ===== src/Delivery/Executor.antt =====
-- scripts/delivery/executor.py: lock, checkout, gates, synchronization, gates.
pub mod Protocol
pub mod Readiness
mod Examples
use optimizr_actions.Prelude.{
  ℕ, Bool, true, false, not, ◌&&◌, ◌||◌, Option, none, some, List, [], ◌∷◌, ◌++◌, Text, codes, same,
  member, ◌==◌, if◌then◌else◌, Result, ok, err, ◌>>=◌, ◌>>◌, guard, raise_if, or_raise, reraise,
  any,
}
use optimizr_actions.Prelude.Dicts.{Dict}
use optimizr_actions.Prelude.Integers.{ℤ, ltb_ℤ, pos}
use optimizr_actions.Prelude.Regex.{Regex, one, seq, star, exactly, fullmatch, is_ascii_alnum}
use optimizr_actions.Delivery.Gates.{GateEvidence, GateEvaluation, Evidence, evaluate_gate_evidence}
use optimizr_actions.Delivery.Request.{DeployRequest, canonicalize_request, commit_sha}

abbrev pub default_preflight_gates : List Text
default_preflight_gates = codes "filesystem" ∷ codes "compose" ∷ codes "security" ∷ []

abbrev pub default_postflight_gates : List Text
default_postflight_gates = codes "rollout" ∷ codes "health" ∷ []

-- `^[A-Za-z0-9][A-Za-z0-9_.-]*\.tar\.gz$`
abbrev pub snapshot_name : Regex
snapshot_name = seq (one is_ascii_alnum) (
    seq (star (one (λ c. is_ascii_alnum c || c == b'_' || c == b'.' || c == b'-')))
      (exactly (codes ".tar.gz")))

pub record CheckoutSpec : Type 0 where
  pub request : DeployRequest
  pub remote : Text
  pub destination : Text
  pub allowed_root : Text

pub record CheckoutResult : Type 0 where
  pub path : Text
  pub head_sha : Text
  pub trusted_ref : Text

pub record SyncSpec : Type 0 where
  pub source : Text
  pub destination : Text
  pub snapshot_root : Text
  pub source_root : Text
  pub destination_root : Text
  pub snapshot_enabled : Bool
  pub deployignore : Option Text
  pub exclude_compose_file : Option Text
  pub snapshot : Option Text

pub record SyncResult : Type 0 where
  pub changed : Bool
  pub changed_entries : ℤ
  pub snapshot_created : Bool
  pub snapshot : Option Text
  pub synced : Bool

-- The timeout is a decimal, as the JSON numbers are.
pub record DeliveryExecutorSpec : Type 0 where
  pub checkout : CheckoutSpec
  pub sync : SyncSpec
  pub lock_root : Text
  pub preflight_gates : List Text
  pub postflight_gates : List Text
  pub lock_timeout_seconds : ℤ × ℕ

pub record DeliveryContext : Type 0 where
  pub request : DeployRequest
  pub checkout : CheckoutResult
  pub sync : Option SyncResult
  pub destination : Text

pub data Phase : Type 0 where
  preflight postflight : Phase

pub record DeliveryExecutorResult : Type 0 where
  pub ready : Bool
  pub request : Dict Text
  pub head_sha : Text
  pub trusted_ref : Text
  pub sync : Option SyncResult
  pub preflight_evaluation : GateEvaluation
  pub postflight_evaluation : Option GateEvaluation
  pub evidence : List Evidence
  pub failure_reason : Option Text

pub data ExecutorError : Type 0 where
  gate_profile_invalid phases_not_distinct lock_not_acquired : ExecutorError
  checkout_sha_mismatch checkout_ref_mismatch checkout_failed : ExecutorError
  path_relative path_symlink path_unverified path_elsewhere : ExecutorError
  evidence_not_evaluated runner_failed : ExecutorError
  sync_failed sync_count_negative sync_snapshot_unsafe sync_inconsistent : ExecutorError

abbrev pub Checked : Type 0 → Type 0
Checked A = Result ExecutorError A

-- What a gate runner raises.
pub data RunnerError : Type 0 where
  evidence_error other_error : RunnerError

-- The file system as `pathlib` shows it. Nothing stands for an `OSError`.
pub record FileSystem : Type 0 where
  pub is_absolute : Text → Bool
  pub below_cwd : Text → Text
  pub resolve : Text → Option Text
  pub resolve_strict : Text → Option Text
  pub prefixes : Text → List Text
  pub is_symlink : Text → Option Bool
  pub is_dir : Text → Bool

-- The callbacks. A checkout may raise an executor's error, which goes on as it is, or another.
pub record Host : Type 0 where
  pub files : FileSystem
  pub is_word : ℕ → Bool
  pub lock : Text → Text → (ℤ × ℕ) → Bool
  pub checkout : CheckoutSpec → Result (Option ExecutorError) CheckoutResult
  pub run_gates : DeliveryContext → Phase → Result RunnerError (List GateEvidence)
  pub sync : SyncSpec → Option SyncResult

pub data Event : Type 0 where
  acquired checked_out : Event
  gates_ran : Phase → Event
  sync_ran : SyncSpec → Event
  released : Event

-- The events of a run, and how it ended.
abbrev pub Traced : Type 0 → Type 0
Traced A = List Event × Checked A

abbrev pub and_then : {A B : Type 0} → Event → Checked A → (A → Traced B) → Traced B
and_then event (err e) next = (event ∷ [], err e)
and_then event (ok a) next = (event ∷ (next a).0, (next a).1)

abbrev pub changed : DeliveryExecutorResult → Bool
changed result = elim result.sync [ none ↦ false | some sync ↦ sync.changed ]

abbrev pub synced : DeliveryExecutorResult → Bool
synced result = elim result.sync [ none ↦ false | some sync ↦ sync.synced ]

abbrev pub snapshot_created : DeliveryExecutorResult → Bool
snapshot_created result = elim result.sync [ none ↦ false | some sync ↦ sync.snapshot_created ]

abbrev pub snapshot_of : DeliveryExecutorResult → Option Text
snapshot_of result = elim result.sync [ none ↦ none | some sync ↦ sync.snapshot ]

unfoldable pub symlink_free : (Text → Option Bool) → List Text → Checked (Unit {0})
symlink_free is_symlink [] = ok tt
symlink_free is_symlink (current ∷ rest) = do
  linked ← or_raise (is_symlink current) path_unverified
  raise_if linked path_symlink
  symlink_free is_symlink rest

unfoldable pub snapshot_unsafe : Option Text → Bool
unfolding fullmatch
snapshot_unsafe none = false
snapshot_unsafe (some name) = not (fullmatch snapshot_name name)

unfoldable pub validate_sync_result : SyncResult → Checked SyncResult
unfolding snapshot_unsafe
validate_sync_result result = do
  raise_if (ltb_ℤ result.changed_entries (pos 0)) sync_count_negative
  raise_if (snapshot_unsafe result.snapshot) sync_snapshot_unsafe
  raise_if (result.synced && not result.changed) sync_inconsistent
  ok result

-- The evidence of the later phase follows that of the earlier.
abbrev pub evidence_of : Option GateEvaluation → List Evidence
evidence_of none = []
evidence_of (some evaluation) = evaluation.evidence

abbrev pub failure_of : GateEvaluation → Option GateEvaluation → Option Text
failure_of before none = before.failure_reason
failure_of before (some after) =
    if after.passed then before.failure_reason else after.failure_reason

abbrev pub did_pass : Option GateEvaluation → Bool
did_pass none = false
did_pass (some evaluation) = evaluation.passed

unfoldable pub result :
    DeployRequest
    → CheckoutResult
    → Option SyncResult
    → GateEvaluation
    → Option GateEvaluation
    → DeliveryExecutorResult
unfolding canonicalize_request
result request checkout sync before after = record {
  ready = before.passed && did_pass after;
  request = canonicalize_request request;
  head_sha = checkout.head_sha;
  trusted_ref = checkout.trusted_ref;
  sync = sync;
  preflight_evaluation = before;
  postflight_evaluation = after;
  evidence = before.evidence ++ evidence_of after;
  failure_reason = failure_of before after;
}

abbrev pub convert_runner : RunnerError → ExecutorError
convert_runner evidence_error = evidence_not_evaluated
convert_runner other_error = runner_failed

abbrev pub convert_checkout : Option ExecutorError → ExecutorError
convert_checkout none = checkout_failed
convert_checkout (some e) = e

module _ (host : Host) where
  unfoldable pub validate_spec : DeliveryExecutorSpec → Checked (Unit {0})
  unfolding evaluate_gate_evidence member
  validate_spec spec = do
    _ ←
        reraise (evaluate_gate_evidence host.is_word [] spec.preflight_gates)
          (λ _. gate_profile_invalid)
    _ ←
        reraise (evaluate_gate_evidence host.is_word [] spec.postflight_gates)
          (λ _. gate_profile_invalid)
    raise_if (any (λ name. member name spec.postflight_gates) spec.preflight_gates)
        phases_not_distinct

  unfoldable pub validate_checkout_result :
      CheckoutResult → DeliveryExecutorSpec → Checked CheckoutResult
  unfolding same fullmatch symlink_free
  validate_checkout_result checkout spec = do
    let request = spec.checkout.request
    let files = host.files
    let destination = spec.checkout.destination
    raise_if
        (not (same checkout.head_sha request.candidate_sha)
          || not (fullmatch commit_sha checkout.head_sha))
        checkout_sha_mismatch
    guard (same checkout.trusted_ref request.trusted_ref) checkout_ref_mismatch
    expected ←
        or_raise
          (files.resolve
            (if files.is_absolute destination then destination else files.below_cwd destination))
          path_unverified
    guard (files.is_absolute checkout.path) path_relative
    symlink_free files.is_symlink (files.prefixes checkout.path)
    actual ← or_raise (files.resolve_strict checkout.path) path_unverified
    raise_if (not (same actual expected) || not (files.is_dir actual)) path_elsewhere
    ok (record { path = actual; head_sha = checkout.head_sha; trusted_ref = checkout.trusted_ref })

  unfoldable pub run_gates : DeliveryContext → Phase → List Text → Checked GateEvaluation
  unfolding evaluate_gate_evidence
  run_gates context phase required = do
    evidence ← reraise (host.run_gates context phase) convert_runner
    reraise (evaluate_gate_evidence host.is_word evidence required) (λ _. evidence_not_evaluated)

  module _ (spec : DeliveryExecutorSpec) where
    abbrev pub context_of : CheckoutResult → Option SyncResult → DeliveryContext
    context_of checkout sync = record {
      request = spec.checkout.request;
      checkout = checkout;
      sync = sync;
      destination = spec.sync.destination;
    }

    unfoldable pub run_checkout : Checked CheckoutResult
    unfolding validate_checkout_result
    run_checkout = do
      checkout ← reraise (host.checkout spec.checkout) convert_checkout
      validate_checkout_result checkout spec

    abbrev pub effective_sync : CheckoutResult → SyncSpec
    effective_sync checkout = record {
      source = checkout.path;
      destination = spec.sync.destination;
      snapshot_root = spec.sync.snapshot_root;
      source_root = spec.sync.source_root;
      destination_root = spec.sync.destination_root;
      snapshot_enabled = spec.sync.snapshot_enabled;
      deployignore = spec.sync.deployignore;
      exclude_compose_file = spec.sync.exclude_compose_file;
      snapshot = spec.sync.snapshot;
    }

    unfoldable pub run_sync : CheckoutResult → Checked SyncResult
    unfolding validate_sync_result
    run_sync checkout = do
      sync ← or_raise (host.sync (effective_sync checkout)) sync_failed
      validate_sync_result sync

    unfoldable pub finish :
        CheckoutResult
        → Option SyncResult
        → GateEvaluation
        → Option GateEvaluation
        → Traced DeliveryExecutorResult
    unfolding result
    finish checkout sync before after =
        ([], ok (result spec.checkout.request checkout sync before after))

    -- What follows a preflight that passed.
    unfoldable pub synchronize : CheckoutResult → GateEvaluation → Traced DeliveryExecutorResult
    unfolding finish run_sync run_gates
    synchronize checkout before =
        and_then (sync_ran (effective_sync checkout)) (run_sync checkout) (λ sync.
          and_then (gates_ran postflight)
            (run_gates (context_of checkout (some sync)) postflight spec.postflight_gates)
            (λ after. finish checkout (some sync) before (some after)))

    unfoldable pub after_preflight : CheckoutResult → GateEvaluation → Traced DeliveryExecutorResult
    unfolding finish synchronize
    after_preflight checkout before =
        if not before.passed then finish checkout none before none else synchronize checkout before

    -- The body of the `with` block.
    unfoldable pub deliver : Traced DeliveryExecutorResult
    unfolding run_checkout run_gates after_preflight
    deliver = and_then checked_out run_checkout (λ checkout.
        and_then (gates_ran preflight)
          (run_gates (context_of checkout none) preflight spec.preflight_gates)
          (after_preflight checkout))

    unfoldable pub execute_delivery : Traced DeliveryExecutorResult
    unfolding validate_spec deliver
    execute_delivery = elim (validate_spec spec) [
      | err e ↦ ([], err e)
      | ok _ ↦
          if host.lock spec.lock_root spec.checkout.request.service spec.lock_timeout_seconds
          then (acquired ∷ deliver.0 ++ released ∷ [], deliver.1)
          else ([], err lock_not_acquired)
    ]
