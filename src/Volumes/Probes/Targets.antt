-- ===== src/Volumes/Probes/Targets.antt =====
-- Where a probe writes.
use optimizr_actions.Prelude.{
  ℕ, ◌≡◌, refl, inl, inr, Option, List, [], ◌∷◌, Text, codes, same, strip, Any, ok, guard,
}
use optimizr_actions.Prelude.Splits.{splitlines}
use optimizr_actions.Prelude.Json.{get}
use optimizr_actions.Volumes.Contract.{Manifest, Probe, no_image_configuration, image_moved}
use optimizr_actions.Volumes.Docker.{
  Engine, Command, lift, ask, require_success, compose_ps, compose_config, container_inspect,
  image_inspect, probe_write,
}
use optimizr_actions.Volumes.Docker.Rules.{
  Allows, Keeps, Keeps-lift, Keeps-bind, Keeps-ask, keeps-ask, keeps-bind,
}
use optimizr_actions.Volumes.Probes.Checks.{
  object_or, parse_inspected_container, container_id_of, check_container, config_image_of,
  service_of, check_service, image_id_of, check_mounts,
}
use optimizr_actions.Volumes.Probes.Verified.{IsVerified, verify_probe_target-IsVerified}
use optimizr_actions.Volumes.Probes.{succeed, verify_probe_target, run_probes, run_write_probes}

module _ (engine : Engine) where
  -- A write that is that of a probe, in a container that the calls just before it verified.
  pub record Targets (expected : Option (List Text)) (probes : List Probe) (uid : ℕ)
      (id path : Text) (calls : List Command) : Type 0 where
    pub probe : Probe
    pub in_probes : Any (λ p. p ≡ probe) probes
    pub same_uid : probe.uid ≡ uid
    pub same_path : probe.mount_path ≡ path
    pub verified : IsVerified engine expected probe id calls

  -- What a call is, after the calls before it.
  abbrev pub IsProbing : Option (List Text) → List Probe → Command → List Command → Type 0
  IsProbing expected probes (probe_write uid id path) calls =
      Targets expected probes uid id path calls
  IsProbing expected probes (compose_ps) calls = Unit
  IsProbing expected probes (compose_config) calls = Unit
  IsProbing expected probes (container_inspect c) calls = Unit
  IsProbing expected probes (image_inspect i) calls = Unit
  IsProbing expected probes _ calls = ⊥

  -- The same of all calls, newest first.
  abbrev pub AreProbing : Option (List Text) → List Probe → List Command → Type 0
  AreProbing expected probes [] = Unit
  AreProbing expected probes (command ∷ calls) =
      IsProbing expected probes command calls × AreProbing expected probes calls

  Keeps-succeed :
      (I : List Command → Type 0) (command : Command) (description : Text)
      → Allows I command
      → Keeps I (succeed engine command description)
  unfolding succeed
  Keeps-succeed I command description p = Keeps-bind I _ _ (Keeps-ask engine I command p) (λ reply.
      Keeps-bind I _ _ (Keeps-lift I (require_success description reply))
        (λ result. Keeps-lift I (ok result.stdout)))

  Keeps-verify_probe_target :
      (I : List Command → Type 0) (probe : Probe) (expected : Option (List Text))
      → Allows I compose_ps
      → Allows I compose_config
      → ((c : Text) → Allows I (container_inspect c))
      → ((i : Text) → Allows I (image_inspect i))
      → Keeps I (verify_probe_target engine probe expected)
  unfolding verify_probe_target
  Keeps-verify_probe_target I probe expected p q r s =
      Keeps-bind I _ _ (Keeps-succeed I compose_ps (codes "Compose container inventory") p) (λ ids.
        Keeps-bind I _ _
          (Keeps-succeed I (container_inspect probe.container) (codes "Docker container inspection")
            (r probe.container))
          (λ inspected.
            Keeps-bind I _ _ (Keeps-lift I (parse_inspected_container (engine.load_json inspected)))
              (λ container.
                Keeps-bind I _ _ (Keeps-lift I (container_id_of container (splitlines ids))) (λ id.
                  Keeps-bind I _ _ (Keeps-lift I (check_container container probe.container)) (λ _.
                    Keeps-bind I _ _
                      (Keeps-lift I
                        (object_or no_image_configuration (get container (codes "Config"))))
                      (λ config. Keeps-bind I _ _ (Keeps-lift I (config_image_of config)) (λ image.
                        Keeps-bind I _ _ (Keeps-lift I (service_of config expected)) (λ service.
                          Keeps-bind I _ _
                            (Keeps-succeed I compose_config
                              (codes "Compose configuration inspection") q)
                            (λ compose.
                              Keeps-bind I _ _
                                (Keeps-lift I
                                  (check_service (engine.load_json compose) service image))
                                (λ _.
                                  Keeps-bind I _ _ (Keeps-lift I (image_id_of container))
                                    (λ expected_id.
                                      Keeps-bind I _ _
                                        (Keeps-succeed I (image_inspect image)
                                          (codes "Docker deployed image inspection") (s image))
                                        (λ actual_id.
                                          Keeps-bind I _ _
                                            (Keeps-lift I (
                                              guard (same (strip actual_id) expected_id)
                                                image_moved))
                                            (λ _.
                                              Keeps-bind I _ _
                                                (Keeps-lift I (check_mounts probe container))
                                                (λ _. Keeps-lift I (ok id)))))))))))))))

  Keeps-run_probes :
      (expected : Option (List Text)) (probes all_probes : List Probe)
      → ((p : Probe) → Any (λ q. q ≡ p) probes → Any (λ q. q ≡ p) all_probes)
      → Keeps (AreProbing expected all_probes) (run_probes engine probes expected)
  unfolding run_probes succeed
  Keeps-run_probes expected [] all_probes sub = Keeps-lift _ (ok tt)
  Keeps-run_probes expected (probe ∷ probes) all_probes sub =
      let I = AreProbing expected all_probes in
      record {
        keeps = λ calls h.
            keeps-bind I (verify_probe_target engine probe expected) _ calls
              ((Keeps-verify_probe_target I probe expected (λ c k. (tt, k)) (λ c k. (tt, k))
                  (λ x c k. (tt, k)) (λ x c k. (tt, k))).keeps
                calls h)
              (λ id later e k.
                let target : Targets expected all_probes probe.uid id probe.mount_path later =
                  record {
                    probe = probe;
                    in_probes = sub probe (inl refl);
                    same_uid = refl;
                    same_path = refl;
                    verified =
                        (verify_probe_target-IsVerified engine probe expected calls).ends id later
                          e;
                  } in
                keeps-bind I
                  (succeed engine (probe_write probe.uid id probe.mount_path)
                    (codes "Docker volume write probe"))
                  _ later
                  (keeps-bind I (ask engine (probe_write probe.uid id probe.mount_path)) _ later
                    (keeps-ask engine I (probe_write probe.uid id probe.mount_path) later k
                      (target, k))
                    (λ reply after _ m.
                      (Keeps-bind I
                          (lift (require_success (codes "Docker volume write probe") reply)) _
                          (Keeps-lift I _) (λ result. Keeps-lift I (ok result.stdout))).keeps
                        after m))
                  (λ _ after _ m.
                    (Keeps-run_probes expected probes all_probes (λ p q. sub p (inr q))).keeps after
                      m));
      }

  -- Whatever Docker answers, `run_write_probes` only inspects and probes, and each write is that of a
  -- probe of the manifest, as its user and at its path. It goes to the container with the identifier
  -- that the inspection just before it gave, which named the container of the probe, running, with a
  -- requested service and with exactly one mount of the probe's volume at its path, a writable one; and
  -- Compose, asked just before that, listed this identifier.
  pub run_write_probes-IsProbing :
      (manifest : Manifest)
      → AreProbing manifest.rollout_services manifest.volume_write_probes
          (run_write_probes engine manifest []).1
  unfolding run_write_probes
  run_write_probes-IsProbing manifest =
      (Keeps-run_probes manifest.rollout_services manifest.volume_write_probes
          manifest.volume_write_probes (λ p m. m)).keeps
        [] tt
