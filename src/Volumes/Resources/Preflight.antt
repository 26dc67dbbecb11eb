-- ===== src/Volumes/Resources/Preflight.antt =====
-- Every required volume is looked for before any is created.
use optimizr_actions.Prelude.{
  ◌≡◌, refl, subst, sym, ap, raise_if, member, All-mono, ◌⊎◌, inl, inr, Bool, true, false, Option,
  none, some, List, [], ◌∷◌, Text, codes, All, ok, err, guard, if◌then◌else◌,
}
use optimizr_actions.Volumes.Contract.{
  Checked, Manifest, may_create_missing_volume, volume_mismatch, volume_not_inspectable,
}
use optimizr_actions.Prelude.Splits.{splitlines}
use optimizr_actions.Volumes.Docker.{
  Engine, Command, Completed, ◌>>◌, lift, ask, is_zero, require_success, volume_inspect,
  volume_list, volume_create, network_inspect, network_create, continue_with,
}
use optimizr_actions.Volumes.Docker.Rules.{
  Allows, Keeps, Keeps-lift, Keeps-bind, Keeps-ask, Keeps-run, bind_ok,
}
use optimizr_actions.Volumes.Resources.{
  inspect_volume_name, confirm_name, confirm_absence, check_volume, with_missing, find_missing,
  create_volumes, unauthorized, refuse_missing, ensure_volumes, ensure_networks, ensure_resources,
}
use optimizr_actions.Volumes.Resources.Steps.{
  Keeps-check_volume, Keeps-find_missing, Keeps-create_volumes, Keeps-ensure_networks,
}
use optimizr_actions.Volumes.Resources.Authorization.{
  check_volume-found, returned, unauthorized-none, nothing_refused,
}

abbrev pub MakesNoVolume : Command → Type 0
MakesNoVolume (volume_create v) = ⊥
MakesNoVolume _ = Unit

-- A volume is listed after it could not be inspected.
abbrev pub IsPermitted : Manifest → Command → Type 0
IsPermitted manifest (volume_list v) = may_create_missing_volume manifest v ≡ true
IsPermitted manifest _ = Unit

returned_calls :
    {A : Type 0} {a b : A} {calls later : List Command}
    → Path (Checked A × List Command) (ok a, calls) (ok b, later)
    → calls ≡ later
returned_calls h = cc

module _ (engine : Engine) where
  Keeps-confirm_name :
      (I : List Command → Type 0) (inspected : Completed) (volume : Text)
      → Keeps I (confirm_name engine inspected volume)
  unfolding confirm_name
  Keeps-confirm_name I inspected volume =
      Keeps-bind I _ _ (Keeps-lift I (inspect_volume_name engine inspected volume)) (λ matches.
        Keeps-bind I _ _ (Keeps-lift I (guard matches volume_mismatch))
          (λ _. Keeps-lift I (ok none)))

  -- A volume that is there is only inspected.
  check_volume-quiet :
      (I : List Command → Type 0) (volume : Text) (calls later : List Command)
      → check_volume engine volume calls ≡ (ok none, later)
      → Allows I (volume_inspect volume)
      → I calls
      → I later
  unfolding check_volume confirm_absence
  check_volume-quiet I volume calls later h p i =
      let (inspected, mid, e, h₁) =
        bind_ok (ask engine (volume_inspect volume)) _ calls later none h in
      branch (is_zero inspected.returncode) inspected mid h₁ (
        Keeps-run I (ask engine (volume_inspect volume)) calls mid inspected
          (Keeps-ask engine I (volume_inspect volume) p) e i)
    where
      branch :
          (zero : Bool) (inspected : Completed) (mid : List Command)
          → (if zero then confirm_name engine inspected volume else confirm_absence engine volume)
              mid
            ≡ (ok none, later)
          → I mid
          → I later
      branch true inspected mid k j =
          Keeps-run I (confirm_name engine inspected volume) mid later none
            (Keeps-confirm_name I inspected volume) k j
      branch false inspected mid k j =
          let (reply, m₁, _, k₁) = bind_ok (ask engine (volume_list volume)) _ mid later none k in
          let (listed, m₂, _, k₂) =
            bind_ok (lift (require_success (codes "Docker volume inventory") reply)) _ m₁ later none
              k₁ in
          let (_, m₃, _, k₃) =
            bind_ok
              (lift (raise_if (member volume (splitlines listed.stdout)) volume_not_inspectable)) _
              m₂ later none k₂ in
          absurd cc

  find_missing-permitted :
      (I : List Command → Type 0)
      → ((v : Text) → Allows I (volume_inspect v))
      → (volumes missing : List Text) (calls later : List Command)
      → find_missing engine volumes calls ≡ (ok missing, later)
      → All (λ v. Allows I (volume_list v)) missing
      → I calls
      → I later
  unfolding find_missing
  find_missing-permitted I p [] missing calls later h q i = subst I (returned_calls h) i
  find_missing-permitted I p (volume ∷ volumes) missing calls later h q i =
      let (found, m₁, e₁, h₁) = bind_ok (check_volume engine volume) _ calls later missing h in
      let (rest, m₂, e₂, h₂) = bind_ok (find_missing engine volumes) _ m₁ later missing h₁ in
      subst I (returned_calls h₂) (
        step found rest m₁ m₂ e₁ (check_volume-found engine volume found calls m₁ e₁)
          (subst (All (λ v. Allows I (volume_list v))) (sym (returned h₂)) q)
          (find_missing-permitted I p volumes rest m₁ m₂ e₂))
    where
      step :
          (found : Option Text) (rest : List Text) (m₁ m₂ : List Command)
          → check_volume engine volume calls ≡ (ok found, m₁)
          → (found ≡ none) ⊎ (found ≡ some volume)
          → All (λ v. Allows I (volume_list v)) (with_missing engine found rest)
          → (All (λ v. Allows I (volume_list v)) rest → I m₁ → I m₂)
          → I m₂
      step none rest m₁ m₂ e₁ f permitted again =
          again permitted (check_volume-quiet I volume calls m₁ e₁ (p volume) i)
      step (some w) rest m₁ m₂ e₁ (inl f) permitted again = absurd cc
      step (some w) rest m₁ m₂ e₁ (inr f) permitted again =
          let same_volume : w ≡ volume = cc in
          again permitted.1 (
            Keeps-run I (check_volume engine volume) calls m₁ (some w)
              (Keeps-check_volume engine I volume (p volume)
                (subst (λ v. Allows I (volume_list v)) same_volume permitted.0))
              e₁ i)

  -- Either no volume is created, or each volume that was missing may be created.
  abbrev pub IsAllOrNone : Manifest → List Command → Type 0
  IsAllOrNone manifest calls = All MakesNoVolume calls ⊎ All (IsPermitted manifest) calls

  ensure_volumes-IsAllOrNone :
      (manifest : Manifest) (calls : List Command)
      → All MakesNoVolume calls
      → All (IsPermitted manifest) calls
      → IsAllOrNone manifest (ensure_volumes engine manifest calls).1
  unfolding ensure_volumes
  ensure_volumes-IsAllOrNone manifest calls n l =
      go (find_missing engine manifest.ensure_volumes calls) refl (quiet.keeps calls n)
    where
      quiet : Keeps (All MakesNoVolume) (find_missing engine manifest.ensure_volumes)
      quiet =
          Keeps-find_missing engine (All MakesNoVolume) (λ v c h. (tt, h)) (λ v c h. (tt, h))
            manifest.ensure_volumes

      created :
          (missing : List Text) (mid : List Command) (r : Checked (Unit {0}))
          → refuse_missing (unauthorized manifest missing) ≡ r
          → find_missing engine manifest.ensure_volumes calls ≡ (ok missing, mid)
          → All MakesNoVolume mid
          → IsAllOrNone manifest (continue_with (λ _. create_volumes engine missing) (r, mid)).1
      created missing mid (err e) r f k = inl k
      created missing mid (ok t) r f k =
          let refused_none =
            nothing_refused (unauthorized manifest missing) {calls = mid} {later = mid}
              (ap (λ x. (x, mid)) r) in
          let may = unauthorized-none manifest missing refused_none in
          let I = All (IsPermitted manifest) in
          inr (
            (Keeps-create_volumes engine I (λ v c h. (tt, h)) missing
                (All-mono (λ v m c h. (tt, h)) missing may)).keeps
              mid
              (find_missing-permitted I (λ v c h. (tt, h)) manifest.ensure_volumes missing calls mid
                f (All-mono (λ v m c h. (m, h)) missing may) l))

      go :
          (r : Checked (List Text) × List Command)
          → find_missing engine manifest.ensure_volumes calls ≡ r
          → All MakesNoVolume r.1
          → IsAllOrNone manifest
              (continue_with
                (λ missing.
                  lift (refuse_missing (unauthorized manifest missing))
                  >> create_volumes engine missing)
                r).1
      go (err e, mid) f k = inl k
      go (ok missing, mid) f k =
          created missing mid (refuse_missing (unauthorized manifest missing)) refl f k

  -- Whatever Docker answers, `ensure_resources` creates no volume at all unless every required volume
  -- that it had to look for in the inventory may be created.
  pub ensure_resources-IsAllOrNone :
      (manifest : Manifest) → IsAllOrNone manifest (ensure_resources engine manifest []).1
  unfolding ensure_resources
  ensure_resources-IsAllOrNone manifest =
      go (ensure_networks engine manifest.ensure_networks [])
        ((networks (All MakesNoVolume) (λ n c h. (tt, h)) (λ n c h. (tt, h))).keeps [] tt)
        ((networks (All (IsPermitted manifest)) (λ n c h. (tt, h)) (λ n c h. (tt, h))).keeps [] tt)
    where
      networks :
          (I : List Command → Type 0)
          → ((n : Text) → Allows I (network_inspect n))
          → ((n : Text) → Allows I (network_create n))
          → Keeps I (ensure_networks engine manifest.ensure_networks)
      networks I p q =
          Keeps-ensure_networks engine I p manifest.ensure_networks
            (every q manifest.ensure_networks)
        where
          every : {R : Text → Type 0} → ((n : Text) → R n) → (ns : List Text) → All R ns
          every r [] = tt
          every r (n ∷ ns) = (r n, every r ns)

      go :
          (r : Checked (Unit {0}) × List Command)
          → All MakesNoVolume r.1
          → All (IsPermitted manifest) r.1
          → IsAllOrNone manifest (continue_with (λ _. ensure_volumes engine manifest) r).1
      go (err e, mid) n l = inl n
      go (ok t, mid) n l = ensure_volumes-IsAllOrNone manifest mid n l
