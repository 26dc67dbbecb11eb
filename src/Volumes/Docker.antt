-- ===== src/Volumes/Docker.antt =====
-- volume_probe_contract.py: the calls of Docker. What Docker answers may depend on all calls before.
pub mod Rules
use optimizr_actions.Prelude.{
  ℕ, ◌+◌, ◌/◌, ◌%◌, Bool, true, false, not, Option, none, some, List, [], ◌∷◌, ◌++◌, Text, codes,
  same, ◌==◌, ◌||◌, if◌then◌else◌, Result, ok, err,
}
use optimizr_actions.Prelude.Dicts.{Dict, lookup}
use optimizr_actions.Prelude.Integers.{ℤ, pos}
use optimizr_actions.Prelude.Json.{Json}
use optimizr_actions.Prelude.Sessions.{Session}
pub use optimizr_actions.Prelude.Sessions.{continue_with, lift, ◌>>=◌, ◌>>◌}
use optimizr_actions.Volumes.Contract.{
  Checked, ContractError, input_of, command_failed, command_timed_out, command_not_started,
  unsupported_mode, compose_file_missing, prebuilt_file_missing,
}

pub data Command : Type 0 where
  volume_inspect volume_list volume_create network_inspect network_create : Text → Command
  compose_ps compose_config : Command
  container_inspect image_inspect : Text → Command
  probe_write : (uid : ℕ) → (container mount_path : Text) → Command

pub record Completed : Type 0 where
  pub returncode : ℤ
  pub stdout : Text

-- What becomes of a process.
pub data Outcome : Type 0 where
  completed : Completed → Outcome
  timed_out not_started : Outcome

-- The environment, the processes, which see their arguments and the calls before, newest first, the
-- decimal text of a number, and `json.loads`.
pub record Engine : Type 0 where
  pub environment : Dict Text
  pub run : List Text → List Command → Outcome
  pub write_probe_script : Text
  pub str_of : ℕ → Text
  pub load_json : Text → Option Json

abbrev pub is_zero : ℤ → Bool
is_zero (pos n) = n == 0
is_zero _ = false

abbrev pub has_text : Text → Bool
has_text [] = false
has_text (_ ∷ _) = true

unfoldable pub docker_prefix : Dict Text → Checked (List Text)
unfolding input_of same
docker_prefix environment =
    let mode = input_of environment (codes "DOCKER_MODE") (codes "sudo") in
    let config = input_of environment (codes "DOCKER_CONFIG") [] in
    if same mode (codes "direct")
    then ok (codes "docker" ∷ [])
    else if same mode (codes "sudo") || same mode (codes "auto")
    then ok (
        codes "sudo"
        ∷ codes "docker"
        ∷ (if has_text config then codes "--config" ∷ config ∷ [] else []))
    else err unsupported_mode

unfoldable pub compose_args : Dict Text → List Text → Checked (List Text)
unfolding input_of same
compose_args environment args =
    let file = input_of environment (codes "COMPOSE_FILE") [] in
    let mode = input_of environment (codes "DEPLOYMENT_MODE") (codes "build") in
    let prebuilt = input_of environment (codes "PREBUILT_COMPOSE_FILE") [] in
    if not (has_text file)
    then err compose_file_missing
    else if not (same mode (codes "prebuilt-images"))
    then ok (codes "compose" ∷ codes "-f" ∷ file ∷ args)
    else if not (has_text prebuilt)
    then err prebuilt_file_missing
    else ok (codes "compose" ∷ codes "-f" ∷ file ∷ codes "-f" ∷ prebuilt ∷ args)

module _ (engine : Engine) where
  -- The arguments of each call.
  unfoldable pub arguments : Command → Checked (List Text)
  unfolding compose_args
  arguments (volume_inspect v) = ok (codes "volume" ∷ codes "inspect" ∷ v ∷ [])
  arguments (volume_list v) = ok (
      codes "volume"
      ∷ codes "ls"
      ∷ codes "--format"
      ∷ codes "{{.Name}}"
      ∷ codes "--filter"
      ∷ (codes "name=" ++ v)
      ∷ [])
  arguments (volume_create v) = ok (codes "volume" ∷ codes "create" ∷ v ∷ [])
  arguments (network_inspect n) = ok (codes "network" ∷ codes "inspect" ∷ n ∷ [])
  arguments (network_create n) = ok (codes "network" ∷ codes "create" ∷ n ∷ [])
  arguments compose_ps =
      compose_args engine.environment
        (codes "ps" ∷ codes "--all" ∷ codes "--quiet" ∷ codes "--no-trunc" ∷ [])
  arguments compose_config =
      compose_args engine.environment (codes "config" ∷ codes "--format" ∷ codes "json" ∷ [])
  arguments (container_inspect c) =
      ok (codes "inspect" ∷ codes "--type" ∷ codes "container" ∷ c ∷ [])
  arguments (image_inspect i) =
      ok (codes "image" ∷ codes "inspect" ∷ codes "--format" ∷ codes "{{.Id}}" ∷ i ∷ [])
  arguments (probe_write uid container mount_path) = ok (
      codes "exec"
      ∷ codes "--user"
      ∷ engine.str_of uid
      ∷ container
      ∷ codes "sh"
      ∷ codes "-eu"
      ∷ codes "-c"
      ∷ engine.write_probe_script
      ∷ codes "sh"
      ∷ mount_path
      ∷ [])

  -- A call: its result, and the calls made so far. One that finds no arguments is not made.
  abbrev pub answered : Outcome → Checked Completed
  answered (completed result) = ok result
  answered timed_out = err command_timed_out
  answered not_started = err command_not_started

  abbrev pub ask_with :
      Checked (List Text)
      → Checked (List Text)
      → Command
      → List Command
      → Checked Completed × List Command
  ask_with (err e) prefix command calls = (err e, calls)
  ask_with (ok args) (err e) command calls = (err e, calls)
  ask_with (ok args) (ok prefix) command calls =
      (answered (engine.run (prefix ++ args) calls), command ∷ calls)

-- A program that calls Docker: from the calls so far, newest first, to its result and all calls.
abbrev pub Docker : Type 0 → Type 0
Docker A = Session (List Command) ContractError A

unfoldable pub ask : Engine → Command → Docker Completed
unfolding arguments docker_prefix
ask engine command calls =
    ask_with engine (arguments engine command) (docker_prefix engine.environment) command calls

-- `_require_success`
abbrev pub require_success : Text → Completed → Checked Completed
require_success description result =
    if is_zero result.returncode
    then ok result
    else err (command_failed description result.returncode)
