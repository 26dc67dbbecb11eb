-- ===== src/Delivery/Executor/Examples.antt =====
-- A delivery whose gates pass.
use optimizr_actions.Prelude.{
  ◌≡◌, refl, inl, inr, ◌⊎◌, Bool, true, false, ◌||◌, ◌==◌, Option, none, some, List, [], ◌∷◌, ◌++◌,
  Text, codes, Result, ok, err, map, replicate, Any,
}
use optimizr_actions.Prelude.Integers.{pos}
use optimizr_actions.Prelude.Regex.{is_ascii_alnum}
use optimizr_actions.Delivery.Gates.{GateEvidence, GateEvaluation}
use optimizr_actions.Delivery.Request.{DeployRequest, canonicalize_request}
use optimizr_actions.Delivery.Executor.{
  FileSystem, Host, Phase, preflight, postflight, Event, acquired, sync_ran, released, SyncSpec,
  SyncResult, DeliveryExecutorSpec, DeliveryExecutorResult, DeliveryContext, ExecutorError, Traced,
  RunnerError, default_preflight_gates, default_postflight_gates, execute_delivery,
}
use optimizr_actions.Delivery.Executor.Protocol.{
  full_delivery, IsStart, Is, IsCleared, execute_delivery-locked, execute_delivery-sync,
}

program : Unit {0}
unfolding execute_delivery
program = tt

abbrev request : DeployRequest
request = record {
  repository = codes "o/app";
  service = codes "api";
  candidate_sha = replicate 40 b'a';
  trusted_ref = codes "refs/tags/v1";
  compose_file = codes "compose.yml";
  container_name = codes "api";
  adapter = codes "manual";
  reason = none;
}

-- Every path is absolute, real and without links.
abbrev plain_files : FileSystem
plain_files = record {
  is_absolute = λ _. true;
  below_cwd = λ p. p;
  resolve = λ p. some p;
  resolve_strict = λ p. some p;
  prefixes = λ p. p ∷ [];
  is_symlink = λ _. some false;
  is_dir = λ _. true;
}

abbrev passing : List Text → List GateEvidence
passing =
    map (λ name. record { name = name; status = codes "passed"; target = codes "api"; reason = [] })

abbrev passing_gates : DeliveryContext → Phase → Result RunnerError (List GateEvidence)
passing_gates _ preflight = ok (passing default_preflight_gates)
passing_gates _ postflight = ok (passing default_postflight_gates)

abbrev synced_once : SyncResult
synced_once = record {
  changed = true;
  changed_entries = pos 2;
  snapshot_created = true;
  snapshot = some (codes "api-1.tar.gz");
  synced = true;
}

abbrev host : Host
host = record {
  files = plain_files;
  is_word = λ c. is_ascii_alnum c || c == b'_';
  lock = λ _ _ _. true;
  checkout = λ spec. ok (record {
    path = spec.destination;
    head_sha = spec.request.candidate_sha;
    trusted_ref = spec.request.trusted_ref;
  });
  run_gates = passing_gates;
  sync = λ _. some synced_once;
}

abbrev spec : DeliveryExecutorSpec
spec = record {
  checkout = record {
    request = request;
    remote = codes "origin";
    destination = codes "/srv/checkout";
    allowed_root = codes "/srv";
  };
  sync = record {
    source = codes "/srv/checkout";
    destination = codes "/srv/api";
    snapshot_root = codes "/srv/snapshots";
    source_root = codes "/srv";
    destination_root = codes "/srv";
    snapshot_enabled = true;
    deployignore = none;
    exclude_compose_file = none;
    snapshot = none;
  };
  lock_root = codes "/srv/locks";
  preflight_gates = default_preflight_gates;
  postflight_gates = default_postflight_gates;
  lock_timeout_seconds = (pos 0, 0);
}

abbrev target : SyncSpec
target = spec.sync

abbrev ready_of : Traced DeliveryExecutorResult → Option Bool
ready_of (_, ok out) = some out.ready
ready_of (_, err _) = none

ready : ready_of (execute_delivery host spec) ≡ some true
unfolding program
ready = refl

events : (execute_delivery host spec).0 ≡ acquired ∷ full_delivery target ++ released ∷ []
unfolding program
events = refl

execute_delivery-locked_example :
    ((e : ExecutorError) × (execute_delivery host spec ≡ ([], err e)))
    ⊎ ((s : SyncSpec) × (called : List Event) × IsStart 1 (full_delivery s) called
        × ((execute_delivery host spec).0 ≡ acquired ∷ called ++ released ∷ []))
execute_delivery-locked_example = execute_delivery-locked host spec

did_sync : Any (Is (sync_ran target)) (execute_delivery host spec).0
unfolding program
did_sync = inr (inr (inr (inl refl)))

execute_delivery-sync_example : IsCleared host spec target
execute_delivery-sync_example = execute_delivery-sync host spec target did_sync

abbrev evaluation : List Text → GateEvaluation
evaluation names = record {
  passed = true;
  failure_reason = none;
  evidence =
      map
        (λ name. record {
          name = name;
          status = codes "passed";
          target = codes "api";
          reason = none;
        })
        names;
}

abbrev delivered : DeliveryExecutorResult
delivered = record {
  ready = true;
  request = canonicalize_request request;
  head_sha = request.candidate_sha;
  trusted_ref = request.trusted_ref;
  sync = some synced_once;
  preflight_evaluation = evaluation default_preflight_gates;
  postflight_evaluation = some (evaluation default_postflight_gates);
  evidence = (evaluation (default_preflight_gates ++ default_postflight_gates)).evidence;
  failure_reason = none;
}
