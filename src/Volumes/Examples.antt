-- ===== src/Volumes/Examples.antt =====
-- A manifest with a missing volume and a probe.
use optimizr_actions.Prelude.{
  ◌≡◌, refl, Bool, true, false, Option, none, some, List, [], ◌∷◌, ◌++◌, Text, codes, same, member,
  if◌then◌else◌, ok, err, All, replicate,
}
use optimizr_actions.Prelude.Integers.{pos}
use optimizr_actions.Prelude.Json.{Json, object, text, int, bool, array, to_items, to_fields}
use optimizr_actions.Volumes.Contract.{
  Manifest, validate_inputs, volumes_missing, path_traverses, legacy_and_allowlist,
}
use optimizr_actions.Volumes.Contract.Accepted.{IsSafe, validate_inputs-IsSafe}
use optimizr_actions.Volumes.Docker.{
  Engine, Command, Outcome, completed, volume_create, volume_inspect, volume_list, network_inspect,
  network_create, compose_ps, compose_config, container_inspect, image_inspect, probe_write,
}
use optimizr_actions.Volumes.Resources.{ensure_resources}
use optimizr_actions.Volumes.Resources.Authorization.{IsAuthorized, ensure_resources-IsAuthorized}
use optimizr_actions.Volumes.Resources.Preflight.{IsAllOrNone, ensure_resources-IsAllOrNone}
use optimizr_actions.Volumes.Probes.{run_write_probes}
use optimizr_actions.Volumes.Probes.Targets.{AreProbing, run_write_probes-IsProbing}

program : Unit {0}
unfolding validate_inputs ensure_resources run_write_probes
program = tt

abbrev probe_json : Text → Json
probe_json path = array (
    to_items (
      object (
        to_fields (
          (codes "container", text (codes "web"))
          ∷ (codes "volume", text (codes "data"))
          ∷ (codes "mount_path", text path)
          ∷ (codes "uid", int (pos 1000))
          ∷ []))
      ∷ []))

-- Only the text of the probes is read.
abbrev load : Text → Option Json
load path = some (probe_json path)

abbrev inputs : Text → List (Text × Text)
inputs path =
    (codes "ENSURE_NETWORKS", codes "edge")
    ∷ (codes "ENSURE_VOLUMES", codes "data logs")
    ∷ (codes "CREATE_MISSING_VOLUMES_ALLOWLIST", codes "data")
    ∷ (codes "VOLUME_WRITE_PROBES_JSON", path)
    ∷ []

abbrev accepted : Manifest
accepted = record {
  ensure_networks = codes "edge" ∷ [];
  ensure_volumes = codes "data" ∷ codes "logs" ∷ [];
  create_missing_volumes = false;
  create_missing_volumes_allowlist = codes "data" ∷ [];
  volume_write_probes =
      record {
        container = codes "web";
        volume = codes "data";
        mount_path = codes "/var/data";
        uid = 1000;
      }
      ∷ [];
  rollout_services = none;
}

accepts_inputs : validate_inputs load (inputs (codes "/var/data")) ≡ ok accepted
unfolding program
accepts_inputs = refl

refuses_traversal : validate_inputs load (inputs (codes "/var/../data")) ≡ err path_traverses
unfolding program
refuses_traversal = refl

refuses_both_permissions :
    validate_inputs load
      ((codes "CREATE_MISSING_VOLUMES", codes "True") ∷ inputs (codes "/var/data"))
    ≡ err legacy_and_allowlist
unfolding program
refuses_both_permissions = refl

abbrev answer : Text → Outcome
answer s = completed (record { returncode = pos 0; stdout = s })

abbrev missing : Outcome
missing = completed (record { returncode = pos 1; stdout = [] })

-- The volumes `data` and `logs`: the first time, those in the list are missing.
abbrev volumes_engine : List Text → Engine
volumes_engine absent = record {
  environment = (codes "DOCKER_MODE", codes "direct") ∷ [];
  run = λ args calls.
      if member (codes "network") args
      then missing_network args
      else if member (codes "create") args
      then answer (codes "data\n")
      else if member (codes "ls") args
      then answer (codes "data2\n")
      else if any_of absent args
      then again calls
      else answer (codes "logs");
  write_probe_script = [];
  str_of = λ n. replicate n b'1';
  load_json = λ s. some (array (to_items (object (to_fields ((codes "Name", text s) ∷ [])) ∷ [])));
}
  where
    any_of : List Text → List Text → Bool
    any_of [] args = false
    any_of (v ∷ vs) args = let rest = any_of vs args in if member v args then true else rest

    missing_network : List Text → Outcome
    missing_network args = if member (codes "create") args then answer [] else missing

    again : List Command → Outcome
    again (volume_create v ∷ calls) = answer v
    again _ = missing

creates_missing : ensure_resources (volumes_engine (codes "data" ∷ [])) accepted [] ≡ (
  ok tt,
  volume_inspect (codes "data")
      ∷ volume_create (codes "data")
      ∷ volume_inspect (codes "logs")
      ∷ volume_list (codes "data")
      ∷ volume_inspect (codes "data")
      ∷ network_create (codes "edge")
      ∷ network_inspect (codes "edge")
      ∷ [],
)
unfolding program
creates_missing = refl

refuses_missing :
    (ensure_resources (volumes_engine (codes "data" ∷ codes "logs" ∷ [])) accepted []).0
    ≡ err (volumes_missing (codes "logs" ∷ []))
unfolding program
refuses_missing = refl

abbrev id : Text
id = replicate 64 b'a'

abbrev image_digest : Text
image_digest = codes "sha256:" ++ id

abbrev inspection : Json
inspection = array (
    to_items (
      object (
        to_fields (
          (codes "Id", text id)
          ∷ (codes "Name", text (codes "/web"))
          ∷ (codes "State", object (to_fields ((codes "Running", bool true) ∷ [])))
          ∷ (
            codes "Config",
            object (
                to_fields (
                  (codes "Image", text (codes "app:1"))
                  ∷ (
                    codes "Labels",
                    object
                        (to_fields ((codes "com.docker.compose.service", text (codes "web")) ∷ [])),
                  )
                  ∷ [])),
          )
          ∷ (codes "Image", text image_digest)
          ∷ (
            codes "Mounts",
            array (
                to_items (
                  object (
                    to_fields (
                      (codes "Type", text (codes "volume"))
                      ∷ (codes "Name", text (codes "data"))
                      ∷ (codes "Destination", text (codes "/var/data"))
                      ∷ (codes "RW", bool true)
                      ∷ []))
                  ∷ [])),
          )
          ∷ []))
      ∷ []))

abbrev services : Json
services = object (
    to_fields
      ((codes "services", object (to_fields ((codes "web", object (to_fields [])) ∷ []))) ∷ []))

abbrev probe_engine : Engine
probe_engine = record {
  environment = (codes "COMPOSE_FILE", codes "compose.yml") ∷ [];
  run = λ args calls.
      if member (codes "ps") args
      then answer id
      else if member (codes "config") args
      then answer (codes "config")
      else if member (codes "image") args
      then answer image_digest
      else answer (codes "container");
  write_probe_script = [];
  str_of = λ n. codes "1000";
  load_json = λ s. if same s (codes "config") then some services else some inspection;
}

writes_probe : run_write_probes probe_engine accepted [] ≡ (
  ok tt,
  probe_write 1000 id (codes "/var/data")
      ∷ image_inspect (codes "app:1")
      ∷ compose_config
      ∷ container_inspect (codes "web")
      ∷ compose_ps
      ∷ [],
)
unfolding program
writes_probe = refl

validate_inputs-IsSafe_example : IsSafe accepted
validate_inputs-IsSafe_example =
    validate_inputs-IsSafe load (inputs (codes "/var/data")) accepted accepts_inputs

ensure_resources-IsAuthorized_example :
    All
      (IsAuthorized accepted)
      (ensure_resources (volumes_engine (codes "data" ∷ [])) accepted []).1
ensure_resources-IsAuthorized_example =
    ensure_resources-IsAuthorized (volumes_engine (codes "data" ∷ [])) accepted

ensure_resources-IsAllOrNone_example :
    IsAllOrNone
      (volumes_engine (codes "data" ∷ codes "logs" ∷ []))
      accepted
      (ensure_resources (volumes_engine (codes "data" ∷ codes "logs" ∷ [])) accepted []).1
ensure_resources-IsAllOrNone_example =
    ensure_resources-IsAllOrNone (volumes_engine (codes "data" ∷ codes "logs" ∷ [])) accepted

run_write_probes-IsProbing_example :
    AreProbing probe_engine none accepted.volume_write_probes
      (run_write_probes probe_engine accepted []).1
run_write_probes-IsProbing_example = run_write_probes-IsProbing probe_engine accepted
