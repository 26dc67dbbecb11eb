-- ===== src/Volumes/Probes/Checks.antt =====
-- volume_probe_contract.py: what is required of a container before a probe writes in it.
use optimizr_actions.Prelude.{
  ℕ, Bool, true, false, not, ◌&&◌, ◌||◌, Option, none, some, List, [], ◌∷◌, ◌++◌, map, Text, codes,
  same, member, starts_with, lower, ltb, if◌then◌else◌, ok, err, ◌>>=◌, ◌>>◌, guard, raise_if,
  or_raise, any, length,
}
use optimizr_actions.Prelude.Json.{Json, Fields, object, text, bool, null, get, object_of, array_of}
use optimizr_actions.Prelude.Regex.{Regex, one, seq, exactly, times, fullmatch, between}
use optimizr_actions.Volumes.Contract.{
  Checked, ContractError, Probe, docker_name, container_data_invalid, container_not_single,
  container_not_deployed, container_mismatch, container_not_running, image_unnamed,
  no_service_label, label_invalid, service_not_requested, one_off, compose_data_invalid,
  service_not_declared, image_mismatch, image_not_immutable, no_mounts, mount_mismatch,
}
use optimizr_actions.Volumes.Resources.{is_text, single_object, array_values}

abbrev pub is_hex : ℕ → Bool
is_hex c = between b'0' b'9' c || between b'a' b'f' c || between b'A' b'F' c

-- `^[0-9a-fA-F]{64}$`
abbrev pub container_id : Regex
container_id = times 64 (one is_hex)

-- `^sha256:[0-9a-fA-F]{64}$`
abbrev pub image_id : Regex
image_id = seq (exactly (codes "sha256:")) (times 64 (one is_hex))

abbrev pub text_of : Option Json → Option Text
text_of (some (text s)) = some s
text_of _ = none

abbrev pub is_true : Option Json → Bool
is_true (some (bool true)) = true
is_true _ = false

abbrev pub object_or : ContractError → Option Json → Checked Fields
object_or e value = or_raise (object_of value) e

-- A reference to an image that is printable and no option.
unfoldable pub is_image_name : Text → Bool
unfolding starts_with
is_image_name [] = false
is_image_name (c ∷ s) =
    not (ltb 512 (length (c ∷ s)))
    && not (starts_with (c ∷ s) (codes "-"))
    && not (any (λ d. ltb d 0x21 || ltb 0x7e d) (c ∷ s))

unfoldable pub parse_inspected_container : Option Json → Checked Fields
unfolding array_values
parse_inspected_container none = err container_data_invalid
parse_inspected_container (some value) =
    or_raise (single_object (array_values (some value))) container_not_single

unfoldable pub container_id_of : Fields → List Text → Checked Text
unfolding get fullmatch member same
container_id_of container compose_ids = do
  id ← or_raise (text_of (get container (codes "Id"))) container_not_deployed
  guard (fullmatch container_id id && member id compose_ids) container_not_deployed
  ok id

unfoldable pub running_of : Option Json → Option Json
unfolding get
running_of (some (object state)) = get state (codes "Running")
running_of _ = none

unfoldable pub check_container : Fields → Text → Checked (Unit {0})
unfolding get is_text running_of
check_container container name = do
  guard (is_text (codes "/" ++ name) (get container (codes "Name"))) container_mismatch
  guard (is_true (running_of (get container (codes "State")))) container_not_running

unfoldable pub config_image_of : Fields → Checked Text
unfolding get is_image_name
config_image_of config = do
  image ← or_raise (text_of (get config (codes "Image"))) image_unnamed
  guard (is_image_name image) image_unnamed
  ok image

unfoldable pub is_requested : Option (List Text) → Text → Bool
unfolding member
is_requested none service = true
is_requested (some services) service = member service services

unfoldable pub is_oneoff : Option Text → Bool
unfolding same lower
is_oneoff none = false
is_oneoff (some value) = same (map lower value) (codes "true")

unfoldable pub service_of : Fields → Option (List Text) → Checked Text
unfolding get fullmatch is_requested is_oneoff
service_of config expected = do
  labels ← object_or no_service_label (get config (codes "Labels"))
  service ← or_raise (text_of (get labels (codes "com.docker.compose.service"))) label_invalid
  guard (fullmatch docker_name service) label_invalid
  guard (is_requested expected service) service_not_requested
  raise_if (is_oneoff (text_of (get labels (codes "com.docker.compose.oneoff")))) one_off
  ok service

unfoldable pub get_in : Option Json → Text → Option Json
unfolding get
get_in (some (object fields)) name = get fields name
get_in _ name = none

-- The image of the service is absent, or the image of the container.
unfoldable pub is_configured : Option Json → Text → Bool
unfolding is_text
is_configured none image = true
is_configured (some null) image = true
is_configured (some value) image = is_text image (some value)

unfoldable pub check_service : Option Json → Text → Text → Checked (Unit {0})
unfolding get_in is_configured
check_service config service image = do
  value ← or_raise config compose_data_invalid
  declared ←
      object_or service_not_declared (get_in (get_in (some value) (codes "services")) service)
  guard (is_configured (get_in (some (object declared)) (codes "image")) image) image_mismatch

unfoldable pub image_id_of : Fields → Checked Text
unfolding get fullmatch
image_id_of container = do
  id ← or_raise (text_of (get container (codes "Image"))) image_not_immutable
  guard (fullmatch image_id id) image_not_immutable
  ok id

-- The mounts of this volume at this path.
unfoldable pub matching_mounts : Probe → List Json → List Fields
unfolding get is_text
matching_mounts probe [] = []
matching_mounts probe (object mount ∷ mounts) =
    let rest = matching_mounts probe mounts in
    if is_text (codes "volume") (get mount (codes "Type"))
      && is_text probe.volume (get mount (codes "Name"))
      && is_text probe.mount_path (get mount (codes "Destination"))
    then mount ∷ rest
    else rest
matching_mounts probe (_ ∷ mounts) = matching_mounts probe mounts

unfoldable pub only_writable : List Fields → Bool
unfolding get
only_writable (mount ∷ []) = is_true (get mount (codes "RW"))
only_writable _ = false

unfoldable pub check_mounts : Probe → Fields → Checked (Unit {0})
unfolding get array_of matching_mounts only_writable
check_mounts probe container = do
  value ← or_raise (get container (codes "Mounts")) no_mounts
  mounts ← or_raise (array_of value) no_mounts
  guard (only_writable (matching_mounts probe mounts)) mount_mismatch
