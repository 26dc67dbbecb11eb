-- ===== src/Volumes/Resources.antt =====
-- volume_probe_contract.py: networks and volumes that are missing are created.
pub mod Steps
pub mod Authorization
pub mod Preflight
use optimizr_actions.Prelude.{
  Bool, true, false, not, Option, none, some, List, [], ◌∷◌, Text, codes, same, member, strip,
  if◌then◌else◌, Result, ok, err, guard, raise_if, or_raise,
}
use optimizr_actions.Prelude.Splits.{splitlines}
use optimizr_actions.Prelude.Json.{Json, Fields, array, object, text, get, array_of}
use optimizr_actions.Volumes.Contract.{
  Checked, ContractError, Manifest, may_create_missing_volume, volume_inspection_invalid,
  volume_mismatch, volume_not_inspectable, volumes_missing, creation_not_confirmed, name_unexpected,
}
use optimizr_actions.Volumes.Docker.{
  Engine, Docker, Command, Completed, ◌>>=◌, ◌>>◌, lift, ask, is_zero, require_success,
  volume_inspect, volume_list, volume_create, network_inspect, network_create,
}

-- `value.get(name) == expected` for a text
unfoldable pub is_text : Text → Option Json → Bool
unfolding same
is_text s (some (text t)) = same t s
is_text s _ = false

-- The only element of an array, where it is an object.
abbrev pub single_object : List Json → Option Fields
single_object (object fields ∷ []) = some fields
single_object _ = none

unfoldable pub array_values : Option Json → List Json
unfolding array_of
array_values none = []
array_values (some value) = elim (array_of value) [ none ↦ [] | some values ↦ values ]

-- The volumes that may not be created.
unfoldable pub unauthorized : Manifest → List Text → List Text
unfolding may_create_missing_volume
unauthorized manifest [] = []
unauthorized manifest (volume ∷ volumes) =
    let rest = unauthorized manifest volumes in
    if may_create_missing_volume manifest volume then rest else volume ∷ rest

abbrev pub refuse_missing : List Text → Checked (Unit {0})
refuse_missing [] = ok tt
refuse_missing (volume ∷ volumes) = err (volumes_missing (volume ∷ volumes))

module _ (engine : Engine) where
  unfoldable pub inspect_volume_name : Completed → Text → Checked Bool
  unfolding array_values get is_text
  inspect_volume_name result expected =
      elim (single_object (array_values (engine.load_json result.stdout))) [
        | none ↦ err volume_inspection_invalid
        | some fields ↦ ok (is_text expected (get fields (codes "Name")))
      ]

  unfoldable pub confirm_name : Completed → Text → Docker (Option Text)
  unfolding inspect_volume_name
  confirm_name inspected volume = do
    matches ← lift (inspect_volume_name inspected volume)
    lift (guard matches volume_mismatch)
    lift (ok none)

  unfoldable pub confirm_absence : Text → Docker (Option Text)
  unfolding ask splitlines member
  confirm_absence volume = do
    reply ← ask engine (volume_list volume)
    listed ← lift (require_success (codes "Docker volume inventory") reply)
    lift (raise_if (member volume (splitlines listed.stdout)) volume_not_inspectable)
    lift (ok (some volume))

  -- The volume where it is missing.
  unfoldable pub check_volume : Text → Docker (Option Text)
  unfolding ask confirm_name confirm_absence
  check_volume volume = do
    inspected ← ask engine (volume_inspect volume)
    if is_zero inspected.returncode then confirm_name inspected volume else confirm_absence volume

  abbrev pub with_missing : Option Text → List Text → List Text
  with_missing none volumes = volumes
  with_missing (some volume) volumes = volume ∷ volumes

  unfoldable pub find_missing : List Text → Docker (List Text)
  unfolding check_volume
  find_missing [] = lift (ok [])
  find_missing (volume ∷ volumes) = do
    found ← check_volume volume
    rest ← find_missing volumes
    lift (ok (with_missing found rest))

  unfoldable pub create_volume : Text → Docker (Unit {0})
  unfolding ask strip same inspect_volume_name
  create_volume volume = do
    reply ← ask engine (volume_create volume)
    created ← lift (require_success (codes "Docker volume creation") reply)
    lift (guard (same (strip created.stdout) volume) creation_not_confirmed)
    answer ← ask engine (volume_inspect volume)
    inspected ← lift (require_success (codes "Docker volume verification") answer)
    matches ← lift (inspect_volume_name inspected volume)
    lift (guard matches name_unexpected)

  unfoldable pub create_volumes : List Text → Docker (Unit {0})
  unfolding create_volume
  create_volumes [] = lift (ok tt)
  create_volumes (volume ∷ volumes) = do create_volume volume; create_volumes volumes

  unfoldable pub ensure_volumes : Manifest → Docker (Unit {0})
  unfolding find_missing unauthorized create_volumes
  ensure_volumes manifest = do
    missing ← find_missing manifest.ensure_volumes
    lift (refuse_missing (unauthorized manifest missing))
    create_volumes missing

  unfoldable pub make_network : Text → Docker (Unit {0})
  unfolding ask
  make_network network = do
    reply ← ask engine (network_create network)
    _ ← lift (require_success (codes "Docker network creation") reply)
    lift (ok tt)

  unfoldable pub ensure_network : Text → Docker (Unit {0})
  unfolding ask make_network
  ensure_network network = do
    inspected ← ask engine (network_inspect network)
    if is_zero inspected.returncode then lift (ok tt) else make_network network

  unfoldable pub ensure_networks : List Text → Docker (Unit {0})
  unfolding ensure_network
  ensure_networks [] = lift (ok tt)
  ensure_networks (network ∷ networks) = do ensure_network network; ensure_networks networks

  unfoldable pub ensure_resources : Manifest → Docker (Unit {0})
  unfolding ensure_networks ensure_volumes
  ensure_resources manifest = do ensure_networks manifest.ensure_networks; ensure_volumes manifest
