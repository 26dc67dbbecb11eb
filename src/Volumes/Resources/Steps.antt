-- ===== src/Volumes/Resources/Steps.antt =====
-- The calls of each part of `ensure_resources`.
use optimizr_actions.Prelude.{
  none, some, List, [], ◌∷◌, Text, codes, same, strip, member, All, ok, guard, raise_if,
}
use optimizr_actions.Prelude.Splits.{splitlines}
use optimizr_actions.Volumes.Contract.{
  volume_mismatch, volume_not_inspectable, creation_not_confirmed, name_unexpected,
}
use optimizr_actions.Volumes.Docker.{
  Engine, Command, lift, is_zero, require_success, volume_inspect, volume_list, volume_create,
  network_inspect, network_create,
}
use optimizr_actions.Volumes.Resources.{
  inspect_volume_name, confirm_name, confirm_absence, check_volume, with_missing, find_missing,
  create_volume, create_volumes, ensure_network, ensure_networks, make_network,
}
use optimizr_actions.Volumes.Docker.Rules.{
  Allows, Keeps, Keeps-lift, Keeps-bind, Keeps-ask, Keeps-if,
}

module _ (engine : Engine) (I : List Command → Type 0) where
  -- The calls of each part, where they are permitted.
  pub Keeps-check_volume :
      (volume : Text)
      → Allows I (volume_inspect volume)
      → Allows I (volume_list volume)
      → Keeps I (check_volume engine volume)
  unfolding check_volume confirm_name confirm_absence
  Keeps-check_volume volume p q =
      Keeps-bind I _ _ (Keeps-ask engine I (volume_inspect volume) p) (λ inspected.
        Keeps-if I (is_zero inspected.returncode) (confirm_name engine inspected volume)
          (confirm_absence engine volume)
          (Keeps-bind I _ _ (Keeps-lift I (inspect_volume_name engine inspected volume)) (λ matches.
            Keeps-bind I _ _ (Keeps-lift I (guard matches volume_mismatch))
              (λ _. Keeps-lift I (ok none))))
          (Keeps-bind I _ _ (Keeps-ask engine I (volume_list volume) q) (λ reply.
            Keeps-bind I _ _
              (Keeps-lift I (require_success (codes "Docker volume inventory") reply))
              (λ listed.
                Keeps-bind I _ _
                  (Keeps-lift I
                    (raise_if (member volume (splitlines listed.stdout)) volume_not_inspectable))
                  (λ _. Keeps-lift I (ok (some volume)))))))

  pub Keeps-find_missing :
      ((v : Text) → Allows I (volume_inspect v))
      → ((v : Text) → Allows I (volume_list v))
      → (volumes : List Text) → Keeps I (find_missing engine volumes)
  unfolding find_missing
  Keeps-find_missing p q [] = Keeps-lift I (ok [])
  Keeps-find_missing p q (volume ∷ volumes) =
      Keeps-bind I _ _ (Keeps-check_volume volume (p volume) (q volume)) (λ found.
        Keeps-bind I _ _ (Keeps-find_missing p q volumes)
          (λ rest. Keeps-lift I (ok (with_missing engine found rest))))

  pub Keeps-create_volume :
      (volume : Text)
      → Allows I (volume_inspect volume)
      → Allows I (volume_create volume)
      → Keeps I (create_volume engine volume)
  unfolding create_volume
  Keeps-create_volume volume p q =
      Keeps-bind I _ _ (Keeps-ask engine I (volume_create volume) q) (λ reply.
        Keeps-bind I _ _ (Keeps-lift I (require_success (codes "Docker volume creation") reply))
          (λ created.
            Keeps-bind I _ _
              (Keeps-lift I (guard (same (strip created.stdout) volume) creation_not_confirmed))
              (λ _. Keeps-bind I _ _ (Keeps-ask engine I (volume_inspect volume) p) (λ answer.
                Keeps-bind I _ _
                  (Keeps-lift I (require_success (codes "Docker volume verification") answer))
                  (λ inspected.
                    Keeps-bind I _ _ (Keeps-lift I (inspect_volume_name engine inspected volume))
                      (λ matches. Keeps-lift I (guard matches name_unexpected)))))))

  pub Keeps-create_volumes :
      ((v : Text) → Allows I (volume_inspect v))
      → (volumes : List Text) → All (λ v. Allows I (volume_create v)) volumes
      → Keeps I (create_volumes engine volumes)
  unfolding create_volumes
  Keeps-create_volumes p [] q = Keeps-lift I (ok tt)
  Keeps-create_volumes p (volume ∷ volumes) q =
      Keeps-bind I _ _ (Keeps-create_volume volume (p volume) q.0)
        (λ _. Keeps-create_volumes p volumes q.1)

  pub Keeps-ensure_networks :
      ((n : Text) → Allows I (network_inspect n))
      → (networks : List Text) → All (λ n. Allows I (network_create n)) networks
      → Keeps I (ensure_networks engine networks)
  unfolding ensure_networks ensure_network make_network
  Keeps-ensure_networks p [] q = Keeps-lift I (ok tt)
  Keeps-ensure_networks p (network ∷ networks) q =
      Keeps-bind I _ _
        (Keeps-bind I _ _ (Keeps-ask engine I (network_inspect network) (p network)) (λ inspected.
          Keeps-if I (is_zero inspected.returncode) (lift (ok tt)) (make_network engine network)
            (Keeps-lift I (ok tt))
            (Keeps-bind I _ _ (Keeps-ask engine I (network_create network) q.0) (λ reply.
              Keeps-bind I _ _
                (Keeps-lift I (require_success (codes "Docker network creation") reply))
                (λ _. Keeps-lift I (ok tt))))))
        (λ _. Keeps-ensure_networks p networks q.1)
