-- ===== src/Volumes/Contract.antt =====
-- volume_probe_contract.py: the inputs, before anything is done to Docker.
pub mod Accepted
use optimizr_actions.Prelude.{
  ℕ, ◌*◌, Bool, true, false, not, ◌&&◌, ◌||◌, Option, none, some, List, [], ◌∷◌, map, Text, codes,
  same, member, starts_with, ltb, leb, ◌==◌, if◌then◌else◌, Result, ok, err, ◌>>=◌, ◌>>◌, guard,
  raise_if, or_raise, any, all, length, lower,
}
use optimizr_actions.Prelude.Dicts.{Dict, lookup}
use optimizr_actions.Prelude.Splits.{split, words, utf8_size}
use optimizr_actions.Prelude.Integers.{ℤ, pos}
use optimizr_actions.Prelude.Json.{
  Json, Items, Fields, array, object, text, int, end, item, no_more, field, get, elements,
  object_of, array_of,
}
use optimizr_actions.Prelude.Regex.{Regex, one, seq, star, plus, fullmatch, is_ascii_alnum}

abbrev pub max_name_length : ℕ
max_name_length = 255

abbrev pub max_name_list_bytes : ℕ
max_name_list_bytes = 64 * 1024

abbrev pub max_networks : ℕ
max_networks = 128

abbrev pub max_volumes : ℕ
max_volumes = 256

abbrev pub max_probes : ℕ
max_probes = 32

abbrev pub max_probe_json_bytes : ℕ
max_probe_json_bytes = 32 * 1024

abbrev pub is_segment_char : ℕ → Bool
is_segment_char c = is_ascii_alnum c || c == b'_' || c == b'.' || c == b'-'

-- `^[A-Za-z0-9][A-Za-z0-9_.-]*$`
abbrev pub docker_name : Regex
docker_name = seq (one is_ascii_alnum) (star (one is_segment_char))

-- `^[A-Za-z0-9_.-]+$`
abbrev pub path_segment : Regex
path_segment = plus (one is_segment_char)

abbrev pub probe_fields : List Text
probe_fields = codes "container" ∷ codes "volume" ∷ codes "mount_path" ∷ codes "uid" ∷ []

pub data ContractError : Type 0 where
  invalid_text too_large too_many repeated_name invalid_name : (input : Text) → ContractError
  allowlist_not_required legacy_not_boolean legacy_and_allowlist : ContractError
  probes_not_strict_json probes_not_array probe_repeated services_missing : ContractError
  probe_fields_wrong container_invalid volume_invalid volume_not_required uid_invalid :
      ContractError
  path_not_bounded path_not_absolute path_traverses : ContractError
  command_failed : Text → ℤ → ContractError
  command_timed_out command_not_started unsupported_mode : ContractError
  volume_inspection_invalid volume_mismatch volume_not_inspectable : ContractError
  volumes_missing : List Text → ContractError
  creation_not_confirmed name_unexpected : ContractError
  compose_file_missing prebuilt_file_missing : ContractError
  container_data_invalid container_not_single container_not_deployed container_mismatch :
      ContractError
  container_not_running no_image_configuration image_unnamed no_service_label label_invalid :
      ContractError
  service_not_requested one_off compose_data_invalid service_not_declared image_mismatch :
      ContractError
  image_not_immutable image_moved no_mounts mount_mismatch : ContractError

abbrev pub Checked : Type 0 → Type 0
Checked A = Result ContractError A

-- `len(values) != len(set(values))`
unfoldable pub repeats : List Text → Bool
unfolding member same
repeats [] = false
repeats (s ∷ ss) = member s ss || repeats ss

unfoldable pub is_name : Text → Bool
unfolding fullmatch
is_name value = leb (length value) max_name_length && fullmatch docker_name value

unfoldable pub split_names : Text → Text → ℕ → Checked (List Text)
unfolding utf8_size words repeats is_name
split_names raw input maximum = do
  size ← or_raise (utf8_size raw) (invalid_text input)
  raise_if (ltb max_name_list_bytes size) (too_large input)
  raise_if (ltb maximum (length (words raw))) (too_many input)
  raise_if (repeats (words raw)) (repeated_name input)
  guard (all is_name (words raw)) (invalid_name input)
  ok (words raw)

abbrev pub is_absent : Option Json → Bool
is_absent none = true
is_absent (some _) = false

-- The hook that refuses an object with a repeated key, at every depth.
unfoldable mutual
  unfolding get

  pub is_strict : Json → Bool
  is_strict (array items) = are_strict items
  is_strict (object fields) = is_strict_object fields
  is_strict _ = true

  pub are_strict : Items → Bool
  are_strict end = true
  are_strict (item value items) = is_strict value && are_strict items

  pub is_strict_object : Fields → Bool
  is_strict_object no_more = true
  is_strict_object (field key value rest) =
      is_absent (get rest key) && is_strict value && is_strict_object rest

unfoldable pub is_traversing : Text → Bool
unfolding member same fullmatch
is_traversing segment =
    member segment ([] ∷ codes "." ∷ codes ".." ∷ []) || not (fullmatch path_segment segment)

abbrev pub tail_of : Text → Text
tail_of [] = []
tail_of (c ∷ s) = s

unfoldable pub validate_mount_path : Option Json → Checked Text
unfolding starts_with same split is_traversing
validate_mount_path (some (text value)) = do
  raise_if (ltb 4096 (length value)) path_not_bounded
  raise_if
      (not (starts_with value (codes "/"))
        || same value (codes "/")
        || any (λ c. (c == 0x5c) || (c == 0)) value)
      path_not_absolute
  raise_if (any is_traversing (split b'/' (tail_of value))) path_traverses
  ok value
validate_mount_path _ = err path_not_bounded

pub record Probe : Type 0 where
  pub container : Text
  pub volume : Text
  pub mount_path : Text
  pub uid : ℕ

unfoldable pub field_names : Fields → List Text
field_names no_more = []
field_names (field key _ rest) = key ∷ field_names rest

-- `set(raw) == _PROBE_FIELDS`
unfoldable pub has_probe_fields : Fields → Bool
unfolding field_names member same
has_probe_fields raw =
    all (λ key. member key probe_fields) (field_names raw)
    && all (λ key. member key (field_names raw)) probe_fields

unfoldable pub name_of : Option Json → Option Text
unfolding is_name
name_of (some (text value)) = if is_name value then some value else none
name_of _ = none

abbrev pub uid_of : Option Json → Option ℕ
uid_of (some (int (pos n))) = if leb n 2147483647 then some n else none
uid_of _ = none

unfoldable pub validate_probe : Json → List Text → Checked Probe
unfolding has_probe_fields get name_of member same validate_mount_path
validate_probe (object raw) ensure_volumes = do
  guard (has_probe_fields raw) probe_fields_wrong
  container ← or_raise (name_of (get raw (codes "container"))) container_invalid
  volume ← or_raise (name_of (get raw (codes "volume"))) volume_invalid
  guard (member volume ensure_volumes) volume_not_required
  uid ← or_raise (uid_of (get raw (codes "uid"))) uid_invalid
  mount_path ← validate_mount_path (get raw (codes "mount_path"))
  ok (record { container = container; volume = volume; mount_path = mount_path; uid = uid })
validate_probe _ ensure_volumes = err probe_fields_wrong

unfoldable pub same_probe : Probe → Probe → Bool
unfolding same
same_probe p q =
    same p.container q.container
    && same p.volume q.volume
    && same p.mount_path q.mount_path
    && p.uid == q.uid

-- `for raw_probe in probes_value: …`
unfoldable pub validate_probes : List Json → List Text → List Probe → Checked (List Probe)
unfolding validate_probe same_probe
validate_probes [] ensure_volumes seen = ok []
validate_probes (raw ∷ raws) ensure_volumes seen = do
  probe ← validate_probe raw ensure_volumes
  raise_if (any (same_probe probe) seen) probe_repeated
  rest ← validate_probes raws ensure_volumes (probe ∷ seen)
  ok (probe ∷ rest)

pub record Manifest : Type 0 where
  pub ensure_networks : List Text
  pub ensure_volumes : List Text
  pub create_missing_volumes : Bool
  pub create_missing_volumes_allowlist : List Text
  pub volume_write_probes : List Probe
  pub rollout_services : Option (List Text)

-- `_required_text(inputs, key, default)`
unfoldable pub input_of : Dict Text → Text → Text → Text
unfolding lookup
input_of inputs key default = elim (lookup key inputs) [ none ↦ default | some value ↦ value ]

abbrev pub is_nil {ℓ} : {A : Type ℓ} → List A → Bool
is_nil [] = true
is_nil (_ ∷ _) = false

unfoldable pub rollout_of : Dict Text → List Probe → Checked (Option (List Text))
unfolding lookup split_names
rollout_of inputs [] = ok none
rollout_of inputs (probe ∷ probes) = elim (lookup (codes "ROLLOUT_SERVICES") inputs) [
  | none ↦ ok none
  | some raw ↦ split_names raw (codes "services_up") max_volumes >>= λ services.
      raise_if (is_nil services) services_missing >> ok (some services)
]

unfoldable pub legacy_of : Text → Checked Bool
unfolding lower same
legacy_of raw =
    if same (map lower raw) (codes "true")
    then ok true
    else if same (map lower raw) (codes "false")
    then ok false
    else err legacy_not_boolean

-- `load` reads JSON, keeps each key as often as it is written and refuses the constants that are no
-- JSON numbers.
module _ (load : Text → Option Json) where
  unfoldable pub probes_of : Text → List Text → Checked (List Probe)
  unfolding utf8_size is_strict array_of validate_probes
  probes_of raw ensure_volumes = do
    size ← or_raise (utf8_size raw) (invalid_text (codes "volume_write_probes_json"))
    raise_if (ltb max_probe_json_bytes size) (too_large (codes "volume_write_probes_json"))
    value ← or_raise (load raw) probes_not_strict_json
    guard (is_strict value) probes_not_strict_json
    raws ← or_raise (array_of value) probes_not_array
    raise_if (ltb max_probes (length raws)) (too_many (codes "volume_write_probes_json"))
    validate_probes raws ensure_volumes []

  unfoldable pub validate_inputs : Dict Text → Checked Manifest
  unfolding input_of split_names member same legacy_of probes_of rollout_of
  validate_inputs inputs = do
    networks ←
        split_names (input_of inputs (codes "ENSURE_NETWORKS") []) (codes "ensure_networks")
          max_networks
    volumes ←
        split_names (input_of inputs (codes "ENSURE_VOLUMES") []) (codes "ensure_volumes")
          max_volumes
    allowlist ←
        split_names (input_of inputs (codes "CREATE_MISSING_VOLUMES_ALLOWLIST") [])
          (codes "create_missing_volumes_allowlist") max_volumes
    guard (all (λ volume. member volume volumes) allowlist) allowlist_not_required
    legacy ← legacy_of (input_of inputs (codes "CREATE_MISSING_VOLUMES") (codes "false"))
    raise_if (legacy && not (is_nil allowlist)) legacy_and_allowlist
    probes ← probes_of (input_of inputs (codes "VOLUME_WRITE_PROBES_JSON") (codes "[]")) volumes
    services ← rollout_of inputs probes
    ok (record {
      ensure_networks = networks;
      ensure_volumes = volumes;
      create_missing_volumes = legacy;
      create_missing_volumes_allowlist = allowlist;
      volume_write_probes = probes;
      rollout_services = services;
    })

unfoldable pub may_create_missing_volume : Manifest → Text → Bool
unfolding member same
may_create_missing_volume manifest volume =
    manifest.create_missing_volumes || member volume manifest.create_missing_volumes_allowlist
