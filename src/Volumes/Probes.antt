-- ===== src/Volumes/Probes.antt =====
-- volume_probe_contract.py: the write probes of the containers that run.
pub mod Checks
pub mod Findings
pub mod Mounts
pub mod Verified
pub mod Targets
use optimizr_actions.Prelude.{
  Option, none, some, List, [], ◌∷◌, Text, codes, same, strip, ok, guard,
}
use optimizr_actions.Prelude.Splits.{splitlines}
use optimizr_actions.Prelude.Json.{get}
use optimizr_actions.Volumes.Contract.{
  Checked, Manifest, Probe, no_image_configuration, image_moved,
}
use optimizr_actions.Volumes.Docker.{
  Engine, Docker, Command, ◌>>=◌, ◌>>◌, lift, ask, require_success, compose_ps, compose_config,
  container_inspect, image_inspect, probe_write,
}
use optimizr_actions.Volumes.Probes.Checks.{
  object_or, parse_inspected_container, container_id_of, check_container, config_image_of,
  service_of, check_service, image_id_of, check_mounts,
}

module _ (engine : Engine) where
  -- A call that must succeed.
  unfoldable pub succeed : Command → Text → Docker Text
  unfolding ask
  succeed command description = do
    reply ← ask engine command
    result ← lift (require_success description reply)
    lift (ok result.stdout)

  -- `_verify_probe_target`
  unfoldable pub verify_probe_target : Probe → Option (List Text) → Docker Text
  unfolding succeed splitlines parse_inspected_container container_id_of check_container get
      config_image_of service_of check_service image_id_of same strip check_mounts
  verify_probe_target probe expected = do
    ids ← succeed compose_ps (codes "Compose container inventory")
    inspected ← succeed (container_inspect probe.container) (codes "Docker container inspection")
    container ← lift (parse_inspected_container (engine.load_json inspected))
    id ← lift (container_id_of container (splitlines ids))
    lift (check_container container probe.container)
    config ← lift (object_or no_image_configuration (get container (codes "Config")))
    image ← lift (config_image_of config)
    service ← lift (service_of config expected)
    compose ← succeed compose_config (codes "Compose configuration inspection")
    lift (check_service (engine.load_json compose) service image)
    expected_id ← lift (image_id_of container)
    actual_id ← succeed (image_inspect image) (codes "Docker deployed image inspection")
    lift (guard (same (strip actual_id) expected_id) image_moved)
    lift (check_mounts probe container)
    lift (ok id)

  unfoldable pub run_probes : List Probe → Option (List Text) → Docker (Unit {0})
  unfolding verify_probe_target succeed
  run_probes [] expected = lift (ok tt)
  run_probes (probe ∷ probes) expected = do
    id ← verify_probe_target probe expected
    _ ← succeed (probe_write probe.uid id probe.mount_path) (codes "Docker volume write probe")
    run_probes probes expected

  unfoldable pub run_write_probes : Manifest → Docker (Unit {0})
  unfolding run_probes
  run_write_probes manifest = run_probes manifest.volume_write_probes manifest.rollout_services
