-- ===== src/Delivery/Rollback/Approval.antt =====
-- What a rollback plan rests on.
use optimizr_actions.Prelude.{◌≡◌, true, Text, ok}
use optimizr_actions.Prelude.Json.{Fields, to_fields}
use optimizr_actions.Delivery.Request.{DeployRequest, parse_request}
use optimizr_actions.Delivery.Rollback.{
  Files, RollbackSpec, RollbackPlan, manifest_root_dir, snapshot_root_dir, manifest_file,
  existing_root, file_below, load_manifest, is_approved, copied_fields, request_fields,
  confirmation_for, snapshot_from_manifest,
}

module _ (files : Files) (spec : RollbackSpec) where
  pub record IsBackedBy (plan : RollbackPlan) : Type 0 where
    pub manifest_root : Text
    pub manifests : existing_root files spec.manifest_root manifest_root_dir ≡ ok manifest_root
    pub located :
        file_below files spec.manifest_path manifest_root manifest_file ≡ ok plan.manifest_path
    pub payload : Fields
    pub request : DeployRequest
    pub loaded : load_manifest files plan.manifest_path ≡ ok payload
    pub approved : is_approved payload ≡ true
    pub parsed : parse_request (to_fields (copied_fields payload request_fields)) ≡ ok request
    pub candidate : plan.candidate_sha ≡ request.candidate_sha
    pub service : plan.service ≡ spec.service
    pub confirmed : spec.confirmation ≡ confirmation_for plan
    pub snapshot_root : Text
    pub snapshots : existing_root files spec.snapshot_root snapshot_root_dir ≡ ok snapshot_root
    pub snapshot : snapshot_from_manifest files payload snapshot_root ≡ ok plan.snapshot_path
