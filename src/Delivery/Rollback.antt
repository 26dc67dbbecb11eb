-- ===== src/Delivery/Rollback.antt =====
-- scripts/delivery/rollback.py: the plan of a rollback from an approved manifest.
pub mod Approval
mod Examples
use optimizr_actions.Prelude.{
  ℕ, Bool, true, false, not, ◌&&◌, ◌||◌, Option, none, some, List, [], ◌∷◌, ◌++◌, Text, codes, same,
  member, ltb, ◌==◌, if◌then◌else◌, Result, ok, err, ◌>>=◌, ◌>>◌, guard, raise_if, or_raise,
  reraise, any, length, strip, is_space,
}
use optimizr_actions.Prelude.Json.{
  Json, Fields, text, bool, null, object, get, to_fields, is_one, object_of, or_null,
}
use optimizr_actions.Prelude.Regex.{
  Regex, one, star, alt, seqs, folded, fold, search, fullmatch, between,
}
use optimizr_actions.Delivery.Gates.Secrets.{words, private_key, either_case}
use optimizr_actions.Delivery.Request.{DeployRequest, parse_request, identifier, text_value}
use optimizr_actions.Delivery.Executor.{snapshot_name}

-- `SECRET_LIKE_RE`
abbrev pub secret_like : Regex
secret_like =
    alt
      (seqs (
        alt
          (words (
            codes "password"
            ∷ codes "passwd"
            ∷ codes "secret"
            ∷ codes "token"
            ∷ codes "authorization"
            ∷ codes "cookie"
            ∷ []))
          private_key
        ∷ star (one is_space)
        ∷ one (λ c. c == b':' || c == b'=')
        ∷ []))
      (seqs (
        folded (codes "-----begin ")
        ∷ star (
            either_case
              (λ c. between b'A' b'Z' c || between b'a' b'z' c || between b'0' b'9' c || c == b' '))
        ∷ folded (codes "private key-----")
        ∷ []))

pub record RollbackSpec : Type 0 where
  pub manifest_path : Text
  pub manifest_root : Text
  pub snapshot_root : Text
  pub service : Text
  pub confirmation : Text
  pub operator : Text
  pub reason : Text

pub record RollbackPlan : Type 0 where
  pub repository : Text
  pub service : Text
  pub candidate_sha : Text
  pub trusted_ref : Text
  pub compose_file : Text
  pub container_name : Text
  pub adapter : Text
  pub manifest_path : Text
  pub snapshot_path : Text
  pub operator : Text
  pub reason : Text

pub data Subject : Type 0 where
  operator_field reason_field manifest_root_dir snapshot_root_dir manifest_file snapshot_file :
      Subject

pub data RollbackError : Type 0 where
  service_not_identifier : RollbackError
  not_trimmed not_line too_long is_secret : Subject → RollbackError
  not_absolute not_resolved not_directory not_below not_regular : Subject → RollbackError
  path_symlink : RollbackError
  manifest_unreadable manifest_not_object manifest_not_approved request_invalid : RollbackError
  service_mismatch confirmation_mismatch : RollbackError
  no_sync sync_invalid snapshot_not_approved snapshot_unsafe : RollbackError

abbrev pub Checked : Type 0 → Type 0
Checked A = Result RollbackError A

-- The file system as `pathlib` shows it, with the JSON value of a file where it has one.
pub record Files : Type 0 where
  pub is_absolute : Text → Bool
  pub prefixes : Text → List Text
  pub is_link : Text → Bool
  pub resolve : Text → Option Text
  pub is_dir : Text → Bool
  pub is_file : Text → Bool
  pub parents : Text → List Text
  pub join : Text → Text → Text
  pub load : Text → Option Json

abbrev pub is_blank : Text → Bool
is_blank [] = true
is_blank (_ ∷ _) = false

unfoldable pub single_line : Subject → Text → Checked Text
unfolding same strip search fold
single_line subject value = do
  raise_if (is_blank value || not (same value (strip value))) (not_trimmed subject)
  raise_if (any (λ c. c == 10 || c == 13) value) (not_line subject)
  raise_if (ltb 256 (length value)) (too_long subject)
  raise_if (search secret_like value) (is_secret subject)
  ok value

-- `payload.get(field) is True`
abbrev pub is_true : Option Json → Bool
is_true (some (bool true)) = true
is_true _ = false

abbrev pub is_bool : Option Json → Bool
is_bool (some (bool b)) = true
is_bool _ = false

abbrev pub is_null : Option Json → Bool
is_null none = true
is_null (some null) = true
is_null (some _) = false

unfoldable pub is_text : Text → Option Json → Bool
unfolding same
is_text s (some (text t)) = same t s
is_text s _ = false

-- The conditions on an approved manifest.
unfoldable pub is_approved : Fields → Bool
unfolding get is_text
is_approved payload =
    is_one (get payload (codes "schema_version"))
    && is_text (codes "success") (get payload (codes "status"))
    && is_true (get payload (codes "ready"))
    && is_null (get payload (codes "failure_reason"))

abbrev pub request_fields : List Text
request_fields =
    codes "repository"
    ∷ codes "service"
    ∷ codes "candidate_sha"
    ∷ codes "trusted_ref"
    ∷ codes "compose_file"
    ∷ codes "container_name"
    ∷ codes "adapter"
    ∷ []

unfoldable pub copied_fields : Fields → List Text → List (Text × Json)
unfolding get
copied_fields payload [] = []
copied_fields payload (name ∷ names) =
    (name, or_null (get payload name)) ∷ copied_fields payload names

unfoldable pub request_from_manifest : Fields → Checked DeployRequest
unfolding copied_fields parse_request
request_from_manifest payload =
    reraise (parse_request (to_fields (copied_fields payload request_fields)))
      (λ _. request_invalid)

-- `f"ROLLBACK {service} {candidate_sha}"`
unfoldable pub confirmation_text : Text → Text → Text
confirmation_text service candidate_sha = codes "ROLLBACK " ++ service ++ codes " " ++ candidate_sha

unfoldable pub confirmation_for : RollbackPlan → Text
unfolding confirmation_text
confirmation_for plan = confirmation_text plan.service plan.candidate_sha

module _ (files : Files) where
  unfoldable pub existing_root : Text → Subject → Checked Text
  existing_root path subject = do
    guard (files.is_absolute path) (not_absolute subject)
    raise_if (any files.is_link (files.prefixes path)) path_symlink
    resolved ← or_raise (files.resolve path) (not_resolved subject)
    guard (files.is_dir resolved) (not_directory subject)
    ok resolved

  -- The end of `_file_below` and of `_snapshot_from_manifest`.
  unfoldable pub resolved_below : Text → Text → Subject → Checked Text
  unfolding same member
  resolved_below path root subject = do
    raise_if (any files.is_link (files.prefixes path)) path_symlink
    resolved ← or_raise (files.resolve path) (not_resolved subject)
    raise_if (same root resolved || not (member root (files.parents resolved))) (not_below subject)
    raise_if (not (files.is_file resolved) || files.is_link resolved) (not_regular subject)
    ok resolved

  unfoldable pub file_below : Text → Text → Subject → Checked Text
  unfolding resolved_below
  file_below path root subject = do
    guard (files.is_absolute path) (not_absolute subject)
    resolved_below path root subject

  unfoldable pub load_manifest : Text → Checked Fields
  unfolding is_approved
  load_manifest path = do
    value ← or_raise (files.load path) manifest_unreadable
    payload ← or_raise (object_of (some value)) manifest_not_object
    guard (is_approved payload) manifest_not_approved
    ok payload

  unfoldable pub snapshot_from_manifest : Fields → Text → Checked Text
  unfolding get fullmatch resolved_below
  snapshot_from_manifest payload root = do
    sync ← or_raise (object_of (get payload (codes "sync"))) no_sync
    guard
        (is_bool (get sync (codes "changed"))
          && is_bool (get sync (codes "snapshot_created"))
          && is_bool (get sync (codes "synced")))
        sync_invalid
    guard
        (is_true (get sync (codes "changed"))
          && is_true (get sync (codes "snapshot_created"))
          && is_true (get sync (codes "synced")))
        snapshot_not_approved
    name ← or_raise (text_value (get sync (codes "snapshot_name"))) snapshot_unsafe
    guard (fullmatch snapshot_name name) snapshot_unsafe
    resolved_below (files.join root name) root snapshot_file

  unfoldable pub build_rollback_plan : RollbackSpec → Checked RollbackPlan
  unfolding fullmatch single_line existing_root file_below load_manifest request_from_manifest same
      confirmation_text snapshot_from_manifest
  build_rollback_plan spec = do
    guard (fullmatch identifier spec.service) service_not_identifier
    operator ← single_line operator_field spec.operator
    reason ← single_line reason_field spec.reason
    manifest_root ← existing_root spec.manifest_root manifest_root_dir
    snapshot_root ← existing_root spec.snapshot_root snapshot_root_dir
    manifest_path ← file_below spec.manifest_path manifest_root manifest_file
    payload ← load_manifest manifest_path
    request ← request_from_manifest payload
    guard (same request.service spec.service) service_mismatch
    guard (same spec.confirmation (confirmation_text request.service request.candidate_sha))
        confirmation_mismatch
    snapshot_path ← snapshot_from_manifest payload snapshot_root
    ok (record {
      repository = request.repository;
      service = request.service;
      candidate_sha = request.candidate_sha;
      trusted_ref = request.trusted_ref;
      compose_file = request.compose_file;
      container_name = request.container_name;
      adapter = request.adapter;
      manifest_path = manifest_path;
      snapshot_path = snapshot_path;
      operator = operator;
      reason = reason;
    })
