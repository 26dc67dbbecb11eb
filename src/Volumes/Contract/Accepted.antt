-- ===== src/Volumes/Contract/Accepted.antt =====
-- What accepted inputs are.
use optimizr_actions.Prelude.{
  ℕ, ◌≤◌, ◌≡◌, Bool, true, false, not, ◌&&◌, ◌||◌, Option, none, some, List, [], ◌∷◌, Text, codes,
  same, member, starts_with, ltb, ◌==◌, All, all, any, length, ok, or_raise, arith,
}
use optimizr_actions.Prelude.Splits.{split, words, utf8_size}
use optimizr_actions.Prelude.Integers.{pos, negsuc}
use optimizr_actions.Prelude.Dicts.{Dict}
use optimizr_actions.Prelude.Json.{Json, object, text, int, get, array_of}
use optimizr_actions.Prelude.Gives.{
  Gives, Gives-ok, Gives-err, Gives-bind, Gives-guard, Gives-raise_if,
}
use optimizr_actions.Volumes.Contract.{
  ContractError, Manifest, Probe, max_networks, max_volumes, max_probes, max_probe_json_bytes,
  is_name, repeats, split_names, is_traversing, tail_of, validate_mount_path, name_of, uid_of,
  validate_probe, same_probe, validate_probes, is_nil, input_of, legacy_of, rollout_of, probes_of,
  validate_inputs, is_strict, has_probe_fields, invalid_text, too_large, too_many, repeated_name,
  invalid_name, path_not_bounded, path_not_absolute, path_traverses, probe_fields_wrong,
  container_invalid, volume_invalid, volume_not_required, uid_invalid, probes_not_strict_json,
  probes_not_array, allowlist_not_required, legacy_and_allowlist, probe_repeated,
}

pub record AreNames (maximum : ℕ) (names : List Text) : Type 0 where
  pub few : length names ≤ maximum
  pub distinct : repeats names ≡ false
  pub valid : all is_name names ≡ true

split_names-AreNames :
    (raw input : Text) (maximum : ℕ) → Gives (AreNames maximum) (split_names raw input maximum)
unfolding split_names
split_names-AreNames raw input maximum =
    let Q = AreNames maximum in
    Gives-bind Q (or_raise (utf8_size raw) (invalid_text input)) _ (λ size _.
      Gives-raise_if Q _ (too_large input) _ (λ _.
        Gives-raise_if Q (ltb maximum (length (words raw))) (too_many input) _ (λ few.
          Gives-raise_if Q (repeats (words raw)) (repeated_name input) _ (λ distinct.
            Gives-guard Q (all is_name (words raw)) (invalid_name input) _ (λ valid.
              Gives-ok Q (words raw)
                (record { few = ground (arith, few); distinct = distinct; valid = valid }))))))

-- A probe that stays inside its container and names a required volume.
pub record IsSafeProbe (volumes : List Text) (probe : Probe) : Type 0 where
  pub required : member probe.volume volumes ≡ true
  pub container_name : is_name probe.container ≡ true
  pub volume_name : is_name probe.volume ≡ true
  pub user : probe.uid ≤ 2147483647
  pub absolute : starts_with probe.mount_path (codes "/") ≡ true
  pub inside : any is_traversing (split b'/' (tail_of probe.mount_path)) ≡ false

abbrev IsSafePath : Text → Type 0
IsSafePath path =
    (starts_with path (codes "/") ≡ true) × (any is_traversing (split b'/' (tail_of path)) ≡ false)

validate_mount_path-IsSafePath :
    (value : Option Json) → Gives IsSafePath (validate_mount_path value)
unfolding validate_mount_path
validate_mount_path-IsSafePath none = Gives-err _ path_not_bounded
validate_mount_path-IsSafePath (some Json.null) = Gives-err _ path_not_bounded
validate_mount_path-IsSafePath (some (Json.bool b)) = Gives-err _ path_not_bounded
validate_mount_path-IsSafePath (some (Json.int n)) = Gives-err _ path_not_bounded
validate_mount_path-IsSafePath (some (Json.decimal m k)) = Gives-err _ path_not_bounded
validate_mount_path-IsSafePath (some (Json.array xs)) = Gives-err _ path_not_bounded
validate_mount_path-IsSafePath (some (object xs)) = Gives-err _ path_not_bounded
validate_mount_path-IsSafePath (some (text value)) =
    Gives-raise_if IsSafePath (ltb 4096 (length value)) path_not_bounded _ (λ _.
      Gives-raise_if IsSafePath
        (not (starts_with value (codes "/"))
          || same value (codes "/")
          || any (λ c. (c == 0x5c) || (c == 0)) value)
        path_not_absolute _
        (λ absolute.
          Gives-raise_if IsSafePath (any is_traversing (split b'/' (tail_of value))) path_traverses
            _ (λ inside. Gives-ok IsSafePath value (first_holds _ _ _ absolute, inside))))
  where
    first_holds : (a b c : Bool) → (not a || b || c) ≡ false → a ≡ true
    first_holds a b c h = ground arith

name_of-is_name :
    (value : Option Json) (name : Text) → name_of value ≡ some name → is_name name ≡ true
unfolding name_of
name_of-is_name none name h = cc
name_of-is_name (some (text value)) name h = ground arith
name_of-is_name (some Json.null) name h = cc
name_of-is_name (some (Json.bool b)) name h = cc
name_of-is_name (some (Json.int n)) name h = cc
name_of-is_name (some (Json.decimal m k)) name h = cc
name_of-is_name (some (Json.array xs)) name h = cc
name_of-is_name (some (object xs)) name h = cc

uid_of-bound : (value : Option Json) (uid : ℕ) → uid_of value ≡ some uid → uid ≤ 2147483647
uid_of-bound none uid h = cc
uid_of-bound (some (int (pos n))) uid h = ground arith
uid_of-bound (some (int (negsuc n))) uid h = cc
uid_of-bound (some (text value)) uid h = cc
uid_of-bound (some Json.null) uid h = cc
uid_of-bound (some (Json.bool b)) uid h = cc
uid_of-bound (some (Json.decimal m k)) uid h = cc
uid_of-bound (some (Json.array xs)) uid h = cc
uid_of-bound (some (object xs)) uid h = cc

found :
    {A : Type 0} (e : ContractError) (value : Option A) (a : A)
    → or_raise value e ≡ ok a
    → value ≡ some a
found e none a h = absurd cc
found e (some b) a h = cc

validate_probe-IsSafeProbe :
    (raw : Json) (volumes : List Text) → Gives (IsSafeProbe volumes) (validate_probe raw volumes)
unfolding validate_probe
validate_probe-IsSafeProbe Json.null volumes = Gives-err _ probe_fields_wrong
validate_probe-IsSafeProbe (Json.bool b) volumes = Gives-err _ probe_fields_wrong
validate_probe-IsSafeProbe (Json.int n) volumes = Gives-err _ probe_fields_wrong
validate_probe-IsSafeProbe (Json.decimal m k) volumes = Gives-err _ probe_fields_wrong
validate_probe-IsSafeProbe (text s) volumes = Gives-err _ probe_fields_wrong
validate_probe-IsSafeProbe (Json.array xs) volumes = Gives-err _ probe_fields_wrong
validate_probe-IsSafeProbe (object raw) volumes =
    let Q = IsSafeProbe volumes in
    Gives-guard Q (has_probe_fields raw) probe_fields_wrong _ (λ _.
      Gives-bind Q (or_raise (name_of (get raw (codes "container"))) container_invalid) _
        (λ container c.
          Gives-bind Q (or_raise (name_of (get raw (codes "volume"))) volume_invalid) _ (λ volume v.
            Gives-guard Q (member volume volumes) volume_not_required _ (λ required.
              Gives-bind Q (or_raise (uid_of (get raw (codes "uid"))) uid_invalid) _ (λ uid u.
                Gives-bind Q (validate_mount_path (get raw (codes "mount_path"))) _ (λ path p.
                  let safe =
                    (validate_mount_path-IsSafePath (get raw (codes "mount_path"))).gives path p in
                  Gives-ok Q _ (record {
                    required = required;
                    container_name =
                        name_of-is_name (get raw (codes "container")) container
                          (found _ _ container c);
                    volume_name =
                        name_of-is_name (get raw (codes "volume")) volume (found _ _ volume v);
                    user = uid_of-bound (get raw (codes "uid")) uid (found _ _ uid u);
                    absolute = safe.0;
                    inside = safe.1;
                  })))))))

validate_probes-IsSafeProbe :
    (raws : List Json) (volumes : List Text) (seen : List Probe)
    → Gives (All (IsSafeProbe volumes)) (validate_probes raws volumes seen)
unfolding validate_probes
validate_probes-IsSafeProbe [] volumes seen = Gives-ok _ [] tt
validate_probes-IsSafeProbe (raw ∷ raws) volumes seen =
    let Q = All (IsSafeProbe volumes) in
    Gives-bind Q (validate_probe raw volumes) _ (λ probe p.
      Gives-raise_if Q (any (same_probe probe) seen) probe_repeated _ (λ _.
        Gives-bind Q (validate_probes raws volumes (probe ∷ seen)) _ (λ rest r.
          Gives-ok Q (probe ∷ rest) (
            (validate_probe-IsSafeProbe raw volumes).gives probe p,
            (validate_probes-IsSafeProbe raws volumes (probe ∷ seen)).gives rest r,
          ))))

pub record IsSafe (manifest : Manifest) : Type 0 where
  pub networks : AreNames 128 manifest.ensure_networks
  pub volumes : AreNames 256 manifest.ensure_volumes
  pub required :
      all (λ v. member v manifest.ensure_volumes) manifest.create_missing_volumes_allowlist ≡ true
  pub exclusive :
      (manifest.create_missing_volumes && not (is_nil manifest.create_missing_volumes_allowlist))
      ≡ false
  pub probes : All (IsSafeProbe manifest.ensure_volumes) manifest.volume_write_probes

module _ (load : Text → Option Json) where
  probes_of-IsSafeProbe :
      (raw : Text) (volumes : List Text)
      → Gives (All (IsSafeProbe volumes)) (probes_of load raw volumes)
  unfolding probes_of
  probes_of-IsSafeProbe raw volumes =
      let Q = All (IsSafeProbe volumes) in
      Gives-bind Q (or_raise (utf8_size raw) (invalid_text (codes "volume_write_probes_json"))) _
        (λ size _.
          Gives-raise_if Q (ltb max_probe_json_bytes size)
            (too_large (codes "volume_write_probes_json")) _
            (λ _. Gives-bind Q (or_raise (load raw) probes_not_strict_json) _ (λ value _.
              Gives-guard Q (is_strict value) probes_not_strict_json _ (λ _.
                Gives-bind Q (or_raise (array_of value) probes_not_array) _ (λ raws _.
                  Gives-raise_if Q (ltb max_probes (length raws))
                    (too_many (codes "volume_write_probes_json")) _
                    (λ _. validate_probes-IsSafeProbe raws volumes []))))))

  -- A manifest that is accepted has bounded lists of distinct Docker names, permits only volumes that
  -- are required and in one way only, and each of its probes names a required volume, a user in
  -- range and an absolute path whose segments neither traverse nor leave the allowed characters.
  pub validate_inputs-IsSafe :
      (inputs : Dict Text) (manifest : Manifest)
      → validate_inputs load inputs ≡ ok manifest
      → IsSafe manifest
  unfolding validate_inputs
  validate_inputs-IsSafe inputs manifest h =
      (Gives-bind IsSafe
          (split_names (input_of inputs (codes "ENSURE_NETWORKS") []) (codes "ensure_networks")
            max_networks)
          _
          (λ networks n.
            Gives-bind IsSafe
              (split_names (input_of inputs (codes "ENSURE_VOLUMES") []) (codes "ensure_volumes")
                max_volumes)
              _
              (λ volumes v.
                Gives-bind IsSafe
                  (split_names (input_of inputs (codes "CREATE_MISSING_VOLUMES_ALLOWLIST") [])
                    (codes "create_missing_volumes_allowlist") max_volumes)
                  _
                  (λ allowlist _.
                    Gives-guard IsSafe (all (λ volume. member volume volumes) allowlist)
                      allowlist_not_required _
                      (λ required.
                        Gives-bind IsSafe
                          (legacy_of
                            (input_of inputs (codes "CREATE_MISSING_VOLUMES") (codes "false")))
                          _
                          (λ legacy _.
                            Gives-raise_if IsSafe (legacy && not (is_nil allowlist))
                              legacy_and_allowlist _
                              (λ exclusive.
                                Gives-bind IsSafe
                                  (probes_of load
                                    (input_of inputs (codes "VOLUME_WRITE_PROBES_JSON")
                                      (codes "[]"))
                                    volumes)
                                  _
                                  (λ probes p.
                                    Gives-bind IsSafe (rollout_of inputs probes) _ (λ services _.
                                      Gives-ok IsSafe _ (record {
                                        networks =
                                            (split_names-AreNames
                                                (input_of inputs (codes "ENSURE_NETWORKS") [])
                                                (codes "ensure_networks") max_networks).gives
                                              networks n;
                                        volumes =
                                            (split_names-AreNames
                                                (input_of inputs (codes "ENSURE_VOLUMES") [])
                                                (codes "ensure_volumes") max_volumes).gives
                                              volumes v;
                                        required = required;
                                        exclusive = exclusive;
                                        probes =
                                            (probes_of-IsSafeProbe
                                                (input_of inputs (codes "VOLUME_WRITE_PROBES_JSON")
                                                  (codes "[]"))
                                                volumes).gives
                                              probes p;
                                      })))))))))).gives
        manifest h
