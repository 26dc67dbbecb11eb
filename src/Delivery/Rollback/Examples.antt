-- ===== src/Delivery/Rollback/Examples.antt =====
-- A rollback to a snapshot of a successful delivery.
use optimizr_actions.Prelude.{
  ◌≡◌, refl, true, false, some, [], ◌∷◌, ◌++◌, Text, codes, replicate, err,
}
use optimizr_actions.Prelude.Integers.{pos}
use optimizr_actions.Prelude.Json.{Json, text, bool, int, object, to_fields}
use optimizr_actions.Delivery.Rollback.{
  Files, RollbackSpec, RollbackPlan, confirmation_mismatch, build_rollback_plan,
}

program : Unit {0}
unfolding build_rollback_plan
program = tt

abbrev sha : Text
sha = replicate 40 b'a'

abbrev manifest : Json
manifest = object (
    to_fields (
      (codes "schema_version", int (pos 1))
      ∷ (codes "status", text (codes "success"))
      ∷ (codes "ready", bool true)
      ∷ (codes "repository", text (codes "o/app"))
      ∷ (codes "service", text (codes "api"))
      ∷ (codes "candidate_sha", text sha)
      ∷ (codes "trusted_ref", text (codes "refs/tags/v1"))
      ∷ (codes "compose_file", text (codes "compose.yml"))
      ∷ (codes "container_name", text (codes "api"))
      ∷ (codes "adapter", text (codes "manual"))
      ∷ (
        codes "sync",
        object (
            to_fields (
              (codes "changed", bool true)
              ∷ (codes "snapshot_created", bool true)
              ∷ (codes "synced", bool true)
              ∷ (codes "snapshot_name", text (codes "api-1.tar.gz"))
              ∷ [])),
      )
      ∷ []))

abbrev files : Files
files = record {
  is_absolute = λ _. true;
  prefixes = λ p. p ∷ [];
  is_link = λ _. false;
  resolve = λ p. some p;
  is_dir = λ _. true;
  is_file = λ _. true;
  parents = λ _. codes "/m" ∷ codes "/s" ∷ [];
  join = λ p q. p ++ codes "/" ++ q;
  load = λ _. some manifest;
}

abbrev rollback : Text → RollbackSpec
rollback confirmation = record {
  manifest_path = codes "/m/1.json";
  manifest_root = codes "/m";
  snapshot_root = codes "/s";
  service = codes "api";
  confirmation = confirmation;
  operator = codes "ops";
  reason = codes "bad release";
}

abbrev spec : RollbackSpec
spec = rollback (codes "ROLLBACK api " ++ sha)

abbrev plan : RollbackPlan
plan = record {
  repository = codes "o/app";
  service = codes "api";
  candidate_sha = sha;
  trusted_ref = codes "refs/tags/v1";
  compose_file = codes "compose.yml";
  container_name = codes "api";
  adapter = codes "manual";
  manifest_path = codes "/m/1.json";
  snapshot_path = codes "/s/api-1.tar.gz";
  operator = codes "ops";
  reason = codes "bad release";
}

unconfirmed :
    build_rollback_plan files (rollback (codes "ROLLBACK api")) ≡ err confirmation_mismatch
unfolding program
unconfirmed = refl
