-- ===== src/Volumes/Resources/Authorization.antt =====
-- Which volumes are created, and when.
use optimizr_actions.Prelude.{
  ◌≡◌, refl, subst, ◌⊎◌, inl, inr, Bool, true, false, Bool-cases, Option, none, some, List, [], ◌∷◌,
  Text, codes, same_refl, member, All, All-mono, ok, arith, guard, raise_if, if◌then◌else◌,
}
use optimizr_actions.Prelude.Splits.{splitlines}
use optimizr_actions.Volumes.Contract.{
  Checked, Manifest, may_create_missing_volume, volume_mismatch, volume_not_inspectable,
}
use optimizr_actions.Volumes.Docker.{
  Engine, Command, Completed, lift, ask, is_zero, require_success, volume_inspect, volume_list,
  volume_create, network_inspect, network_create,
}
use optimizr_actions.Volumes.Docker.Rules.{
  Allows, Keeps, Keeps-lift, Keeps-bind, Keeps-after, bind_ok,
}
use optimizr_actions.Volumes.Resources.{
  inspect_volume_name, confirm_name, confirm_absence, check_volume, with_missing, find_missing,
  unauthorized, refuse_missing, ensure_volumes, ensure_networks, ensure_resources,
}
use optimizr_actions.Volumes.Resources.Steps.{
  Keeps-find_missing, Keeps-create_volumes, Keeps-ensure_networks,
}

pub returned :
    {A : Type 0} {a b : A} {calls later : List Command}
    → Path (Checked A × List Command) (ok a, calls) (ok b, later)
    → a ≡ b
returned h = cc

pub nothing_refused :
    (vs : List Text) {calls later : List Command}
    → Path (Checked (Unit {0}) × List Command) (refuse_missing vs, calls) (ok tt, later)
    → vs ≡ []
nothing_refused [] h = refl
nothing_refused (v ∷ vs) h = absurd cc

pub unauthorized-none :
    (manifest : Manifest) (missing : List Text)
    → unauthorized manifest missing ≡ []
    → All (λ v. may_create_missing_volume manifest v ≡ true) missing
unfolding unauthorized
unauthorized-none manifest [] h = tt
unauthorized-none manifest (v ∷ vs) h = elim (Bool-cases (may_create_missing_volume manifest v)) [
  | inl permitted ↦ (permitted, unauthorized-none manifest vs (ground (arith, permitted)))
  | inr refused ↦ absurd (ground (arith, refused))
]

All-both :
    {A : Type 0} (P Q : A → Type 0) (xs : List A) → All P xs → All Q xs → All (λ x. P x × Q x) xs
All-both P Q [] p q = tt
All-both P Q (x ∷ xs) p q = ((p.0, q.0), All-both P Q xs p.1 q.1)

All-member : (xs : List Text) → All (λ x. member x xs ≡ true) xs
unfolding member
All-member xs = go xs xs (λ x h. h)
  where
    go :
        (ys zs : List Text)
        → ((x : Text) → member x ys ≡ true → member x zs ≡ true)
        → All (λ x. member x zs ≡ true) ys
    go [] zs h = tt
    go (y ∷ ys) zs h =
        (h y (ground (arith, same_refl y)), go ys zs (λ x k. h x (ground (arith, k))))

-- What each call of `ensure_resources` needs.
abbrev pub IsAuthorized : Manifest → Command → Type 0
IsAuthorized manifest (volume_create v) =
    (member v manifest.ensure_volumes ≡ true) × (may_create_missing_volume manifest v ≡ true)
IsAuthorized manifest (network_create n) = member n manifest.ensure_networks ≡ true
IsAuthorized manifest (volume_inspect v) = Unit
IsAuthorized manifest (volume_list v) = Unit
IsAuthorized manifest (network_inspect n) = Unit
IsAuthorized manifest _ = ⊥

module _ (engine : Engine) where
  pub check_volume-found :
      (volume : Text) (found : Option Text) (calls later : List Command)
      → check_volume engine volume calls ≡ (ok found, later)
      → (found ≡ none) ⊎ (found ≡ some volume)
  unfolding check_volume confirm_name confirm_absence
  check_volume-found volume found calls later h =
      let (inspected, mid, e, h₁) =
        bind_ok (ask engine (volume_inspect volume)) _ calls later found h in
      branch (is_zero inspected.returncode) inspected mid h₁
    where
      branch :
          (zero : Bool) (inspected : Completed) (mid : List Command)
          → (if zero then confirm_name engine inspected volume else confirm_absence engine volume)
              mid
            ≡ (ok found, later)
          → (found ≡ none) ⊎ (found ≡ some volume)
      branch true inspected mid k =
          let (matches, m₁, e₁, k₁) =
            bind_ok (lift (inspect_volume_name engine inspected volume)) _ mid later found k in
          let (_, m₂, e₂, k₂) =
            bind_ok (lift (guard matches volume_mismatch)) _ m₁ later found k₁ in
          inl cc
      branch false inspected mid k =
          let (reply, m₁, e₁, k₁) = bind_ok (ask engine (volume_list volume)) _ mid later found k in
          let (listed, m₂, e₂, k₂) =
            bind_ok (lift (require_success (codes "Docker volume inventory") reply)) _ m₁ later
              found k₁ in
          let (_, m₃, e₃, k₃) =
            bind_ok
              (lift (raise_if (member volume (splitlines listed.stdout)) volume_not_inspectable)) _
              m₂ later found k₂ in
          inr cc

  -- The missing volumes are among those that were looked for.
  All-found :
      (R : Text → Type 0) (volume : Text) (found : Option Text) (rest : List Text)
      → (found ≡ none) ⊎ (found ≡ some volume)
      → R volume
      → All R rest
      → All R (with_missing engine found rest)
  All-found R volume none rest h r rs = rs
  All-found R volume (some w) rest (inl h) r rs = absurd cc
  All-found R volume (some w) rest (inr h) r rs =
      let same_volume : volume ≡ w = cc in (rw (← same_volume) r, rs)

  find_missing-found :
      (R : Text → Type 0) (volumes missing : List Text) (calls later : List Command)
      → find_missing engine volumes calls ≡ (ok missing, later)
      → All R volumes
      → All R missing
  unfolding find_missing
  find_missing-found R [] missing calls later h r = subst (All R) (returned h) tt
  find_missing-found R (volume ∷ volumes) missing calls later h r =
      let (found, m₁, e₁, h₁) = bind_ok (check_volume engine volume) _ calls later missing h in
      let (rest, m₂, e₂, h₂) = bind_ok (find_missing engine volumes) _ m₁ later missing h₁ in
      subst (All R) (returned h₂) (
        All-found R volume found rest (check_volume-found volume found calls m₁ e₁) r.0
          (find_missing-found R volumes rest m₁ m₂ e₂ r.1))

  -- The calls of `ensure_volumes`, by the rule that its creations need.
  Keeps-ensure_volumes :
      (manifest : Manifest) (I : List Command → Type 0)
      → ((v : Text) → Allows I (volume_inspect v))
      → ((v : Text) → Allows I (volume_list v))
      → ((v : Text)
          → (member v manifest.ensure_volumes ≡ true)
            × (may_create_missing_volume manifest v ≡ true)
          → Allows I (volume_create v))
      → Keeps I (ensure_volumes engine manifest)
  unfolding ensure_volumes
  Keeps-ensure_volumes manifest I p q c =
      Keeps-after I (find_missing engine manifest.ensure_volumes) _
        (Keeps-find_missing engine I p q manifest.ensure_volumes)
        (λ missing calls later found.
          Keeps-after I (lift (refuse_missing (unauthorized manifest missing))) _
            (Keeps-lift I (refuse_missing (unauthorized manifest missing)))
            (λ _ before after permitted.
              let required =
                find_missing-found (λ v. member v manifest.ensure_volumes ≡ true)
                  manifest.ensure_volumes missing calls later found
                  (All-member manifest.ensure_volumes) in
              let may =
                unauthorized-none manifest missing
                  (nothing_refused (unauthorized manifest missing) permitted) in
              Keeps-create_volumes engine I p missing
                (All-mono c missing (All-both _ _ missing required may))))

  -- Whatever Docker answers, `ensure_resources` creates only networks and volumes that the manifest
  -- names, a volume only where the manifest permits it, and makes no calls besides these and the
  -- inspections.
  pub ensure_resources-IsAuthorized :
      (manifest : Manifest) → All (IsAuthorized manifest) (ensure_resources engine manifest []).1
  unfolding ensure_resources
  ensure_resources-IsAuthorized manifest =
      let I = All (IsAuthorized manifest) in
      let networks =
        Keeps-ensure_networks engine I (λ n calls h. (tt, h)) manifest.ensure_networks
          (All-mono (λ n m calls h. (m, h)) manifest.ensure_networks
            (All-member manifest.ensure_networks)) in
      let volumes =
        Keeps-ensure_volumes manifest I (λ v calls h. (tt, h)) (λ v calls h. (tt, h))
          (λ v m calls h. (m, h)) in
      (Keeps-bind I (ensure_networks engine manifest.ensure_networks)
          (λ _. ensure_volumes engine manifest) networks (λ _. volumes)).keeps
        [] tt
