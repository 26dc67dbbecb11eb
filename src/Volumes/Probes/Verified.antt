-- ===== src/Volumes/Probes/Verified.antt =====
-- What was found out about a container before a probe writes in it.
use optimizr_actions.Prelude.{
  ◌≡◌, refl, sym, ap, ◌∙◌, subst, Bool, true, false, if◌then◌else◌, Option, some, List, ◌∷◌, ◌++◌,
  Text, codes, same, strip, member, ok, err, guard,
}
use optimizr_actions.Prelude.Splits.{splitlines}
use optimizr_actions.Prelude.Json.{Fields, Items, object, array, text, bool, get, elements}
use optimizr_actions.Volumes.Contract.{
  Checked, Probe, command_failed, no_image_configuration, image_moved,
}
use optimizr_actions.Volumes.Docker.{
  Engine, Docker, Command, Completed, ◌>>=◌, lift, ask, is_zero, require_success, compose_ps,
  compose_config, container_inspect, image_inspect,
}
use optimizr_actions.Volumes.Docker.Rules.{
  bind_ok, Ends, Ends-bind, Ends-check, Ends-ok, IsAnswered, ask-IsAnswered,
}
use optimizr_actions.Volumes.Probes.Checks.{
  object_or, parse_inspected_container, container_id_of, check_container, config_image_of,
  service_of, check_service, image_id_of, check_mounts,
}
use optimizr_actions.Volumes.Probes.Findings.{
  IsSingle, IsRequested, value_of, object_of-some, parse_inspected_container-IsSingle,
  container_id_of-listed, check_container-runs, service_of-IsRequested,
}
use optimizr_actions.Volumes.Probes.Mounts.{IsMounted, check_mounts-IsMounted}
use optimizr_actions.Volumes.Probes.{succeed, verify_probe_target}

module _ (engine : Engine) where
  -- What Docker last answered before a probe writes in this container.
  pub record IsVerified (expected : Option (List Text)) (probe : Probe) (id : Text)
      (calls : List Command) : Type 0 where
    pub earlier : List Command
    pub image : Text
    pub made :
        calls
        ≡ image_inspect image
          ∷ compose_config
          ∷ container_inspect probe.container
          ∷ compose_ps
          ∷ earlier
    pub ids : Text
    pub inspected : Text
    pub listing : IsAnswered engine compose_ps earlier ids
    pub inspection :
        IsAnswered engine (container_inspect probe.container) (compose_ps ∷ earlier) inspected
    pub container : Fields
    pub single : IsSingle (engine.load_json inspected) container
    pub identified : get container (codes "Id") ≡ some (text id)
    pub listed : member id (splitlines ids) ≡ true
    pub named : get container (codes "Name") ≡ some (text (codes "/" ++ probe.container))
    pub state : Fields
    pub has_state : get container (codes "State") ≡ some (object state)
    pub running : get state (codes "Running") ≡ some (bool true)
    pub config : Fields
    pub has_config : get container (codes "Config") ≡ some (object config)
    pub labels : Fields
    pub has_labels : get config (codes "Labels") ≡ some (object labels)
    pub service : Text
    pub labelled : get labels (codes "com.docker.compose.service") ≡ some (text service)
    pub requested : IsRequested expected service
    pub mounts : Items
    pub has_mounts : get container (codes "Mounts") ≡ some (array mounts)
    pub mounted : IsMounted probe (elements mounts)

  success :
      (description : Text) (reply result : Completed)
      → require_success description reply ≡ ok result
      → (reply ≡ result) × (is_zero result.returncode ≡ true)
  success description reply result h = go (is_zero reply.returncode) refl h
    where
      same_value : {x y : Completed} → Path (Checked Completed) (ok x) (ok y) → x ≡ y
      same_value e = cc

      go :
          (z : Bool)
          → is_zero reply.returncode ≡ z
          → (if z then ok reply else err (command_failed description reply.returncode)) ≡ ok result
          → (reply ≡ result) × (is_zero result.returncode ≡ true)
      go true zero_code k =
          let same_reply : reply ≡ result = same_value k in
          (same_reply, ap (λ r. is_zero r.returncode) (sym same_reply) ∙ zero_code)
      go false other k = absurd cc

  succeed-IsAnswered :
      (command : Command) (description : Text) (calls later : List Command) (out : Text)
      → succeed engine command description calls ≡ (ok out, later)
      → IsAnswered engine command calls out × (later ≡ command ∷ calls)
  unfolding succeed
  succeed-IsAnswered command description calls later out h =
      let (reply, mid, e, h₁) = bind_ok (ask engine command) _ calls later out h in
      let (result, same_mid, e₁, h₂) =
        bind_ok (lift (require_success description reply)) _ mid later out h₁ in
      let (same_reply, z) = success description reply result (ap (λ x. x.0) e₁) in
      let answer : ask engine command calls ≡ (ok result, mid) =
        e ∙ ap (λ r. (ok r, mid)) same_reply in
      let (answered, last) = ask-IsAnswered engine command calls mid result answer z in
      (
        subst (IsAnswered engine command calls) (same_text (ap (λ x. x.0) h₂)) answered,
        sym (ap (λ x. x.1) h₂) ∙ sym (ap (λ x. x.1) e₁) ∙ last,
      )
    where
      same_text : {x y : Text} → Path (Checked Text) (ok x) (ok y) → x ≡ y
      same_text e = cc

  Ends-succeed :
      {B : Type 0} (Q : B → List Command → Type 0) (command : Command) (description : Text)
      (next : Text → Docker B) (calls : List Command)
      → ((out : Text) → IsAnswered engine command calls out → Ends Q (next out) (command ∷ calls))
      → Ends Q (succeed engine command description >>= next) calls
  Ends-succeed Q command description next calls f =
      Ends-bind Q (succeed engine command description) next calls (λ out mid e.
        let (answered, last) = succeed-IsAnswered command description calls mid out e in
        subst (Ends Q (next out)) (sym last) (f out answered))

  pub verify_probe_target-IsVerified :
      (probe : Probe) (expected : Option (List Text)) (calls : List Command)
      → Ends (IsVerified expected probe) (verify_probe_target engine probe expected) calls
  unfolding verify_probe_target
  verify_probe_target-IsVerified probe expected earlier =
      let Q = IsVerified expected probe in
      Ends-succeed Q compose_ps _ _ earlier (λ ids listing.
        Ends-succeed Q (container_inspect probe.container) _ _ _ (λ inspected inspection.
          Ends-check Q (parse_inspected_container (engine.load_json inspected)) _ _
            (λ container parsed.
              Ends-check Q (container_id_of container (splitlines ids)) _ _ (λ id deployed.
                Ends-check Q (check_container container probe.container) _ _ (λ _ runs.
                  Ends-check Q (object_or no_image_configuration (get container (codes "Config"))) _
                    _
                    (λ config configured. Ends-check Q (config_image_of config) _ _ (λ image _.
                      Ends-check Q (service_of config expected) _ _ (λ service requested.
                        Ends-succeed Q compose_config _ _ _ (λ compose _.
                          Ends-check Q (check_service (engine.load_json compose) service image) _ _
                            (λ _ _. Ends-check Q (image_id_of container) _ _ (λ expected_id _.
                              Ends-succeed Q (image_inspect image) _ _ _ (λ actual_id _.
                                Ends-check Q
                                  (guard (same (strip actual_id) expected_id) image_moved) _ _
                                  (λ _ _.
                                    Ends-check Q (check_mounts probe container) _ _ (λ _ mounted.
                                      Ends-ok Q id _ (
                                        verified earlier ids inspected container config image
                                          service id listing inspection parsed deployed runs
                                          configured requested mounted)))))))))))))))
    where
      verified :
          (before : List Command) (ids inspected : Text) (container config : Fields)
          (image service id : Text)
          → IsAnswered engine compose_ps before ids
          → IsAnswered engine (container_inspect probe.container) (compose_ps ∷ before) inspected
          → parse_inspected_container (engine.load_json inspected) ≡ ok container
          → container_id_of container (splitlines ids) ≡ ok id
          → check_container container probe.container ≡ ok tt
          → object_or no_image_configuration (get container (codes "Config")) ≡ ok config
          → service_of config expected ≡ ok service
          → check_mounts probe container ≡ ok tt
          → IsVerified expected probe id (
              image_inspect image
              ∷ compose_config
              ∷ container_inspect probe.container
              ∷ compose_ps
              ∷ before)
      verified before ids inspected container config image service id listing inspection parsed
            deployed runs configured requested mounted =
          let (identified, listed) = container_id_of-listed container (splitlines ids) deployed in
          let (named, (state, has_state, running)) =
            check_container-runs container probe.container runs in
          let (labels, has_labels, labelled, asked) =
            service_of-IsRequested config expected requested in
          let (mounts, has_mounts, only_one) = check_mounts-IsMounted probe container mounted in
          record {
            earlier = before;
            image = image;
            made = refl;
            ids = ids;
            inspected = inspected;
            listing = listing;
            inspection = inspection;
            container = container;
            single = parse_inspected_container-IsSingle (engine.load_json inspected) parsed;
            identified = identified;
            listed = listed;
            named = named;
            state = state;
            has_state = has_state;
            running = running;
            config = config;
            has_config = object_of-some _ (value_of _ _ configured);
            labels = labels;
            has_labels = has_labels;
            service = service;
            labelled = labelled;
            requested = asked;
            mounts = mounts;
            has_mounts = has_mounts;
            mounted = only_one;
          }
