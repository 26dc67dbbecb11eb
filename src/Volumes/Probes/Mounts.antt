-- ===== src/Volumes/Probes/Mounts.antt =====
-- What the mounts of a container show where the check before a probe passes.
use optimizr_actions.Prelude.{
  ◌≡◌, refl, ap, ◌∙◌, inl, inr, Bool, true, false, ◌&&◌, Bool-cases, some, List, [], ◌∷◌, ◌++◌,
  Text, codes, All, ok, or_raise, bind_then, guard, same_refl, if◌then◌else◌, and_left, and_right,
  arith,
}
use optimizr_actions.Prelude.Json.{
  Json, Fields, Items, object, array, text, bool, int, decimal, null, get, array_of, elements,
}
use optimizr_actions.Volumes.Contract.{ContractError, Probe}
use optimizr_actions.Volumes.Resources.{is_text}
use optimizr_actions.Volumes.Probes.Checks.{matching_mounts, only_writable, check_mounts}
use optimizr_actions.Volumes.Probes.Findings.{value_of, array_of-some, is_true_sound, is_text_sound}

-- A mount of the volume of this probe at its path.
pub record IsMount (probe : Probe) (mount : Fields) : Type 0 where
  pub type : get mount (codes "Type") ≡ some (text (codes "volume"))
  pub name : get mount (codes "Name") ≡ some (text probe.volume)
  pub destination : get mount (codes "Destination") ≡ some (text probe.mount_path)

abbrev pub IsOther : Probe → Json → Type 0
IsOther probe (object mount) = ¬ IsMount probe mount
IsOther probe _ = Unit

-- Exactly one of the mounts is that of the probe, and it is writable.
pub record IsMounted (probe : Probe) (mounts : List Json) : Type 0 where
  pub before : List Json
  pub mount : Fields
  pub after : List Json
  pub divided : mounts ≡ before ++ object mount ∷ after
  pub matches : IsMount probe mount
  pub writable : get mount (codes "RW") ≡ some (bool true)
  pub others_before : All (IsOther probe) before
  pub others_after : All (IsOther probe) after

-- The test of a mount.
abbrev is_mount : Probe → Fields → Bool
is_mount probe mount =
    is_text (codes "volume") (get mount (codes "Type"))
    && is_text probe.volume (get mount (codes "Name"))
    && is_text probe.mount_path (get mount (codes "Destination"))

is_mount_sound :
    (probe : Probe) (mount : Fields) → is_mount probe mount ≡ true → IsMount probe mount
is_mount_sound probe mount h =
    let first =
      and_left
        (is_text (codes "volume") (get mount (codes "Type"))
          && is_text probe.volume (get mount (codes "Name")))
        (is_text probe.mount_path (get mount (codes "Destination"))) h in
    record {
      type = is_text_sound _ _ (and_left _ _ first);
      name = is_text_sound _ _ (and_right _ _ first);
      destination = is_text_sound probe.mount_path _ (and_right _ _ h);
    }

is_text_complete : (s : Text) → is_text s (some (text s)) ≡ true
unfolding is_text
is_text_complete s = same_refl s

is_mount_complete :
    (probe : Probe) (mount : Fields) → is_mount probe mount ≡ false → ¬ IsMount probe mount
is_mount_complete probe mount h m =
    let holds : is_mount probe mount ≡ true =
      rw
        (
          m.type,
          m.name,
          m.destination,
          is_text_complete (codes "volume"),
          is_text_complete probe.volume,
          is_text_complete probe.mount_path,
        )
        refl in
    absurd cc

matching_mounts-none :
    (probe : Probe) (mounts : List Json)
    → matching_mounts probe mounts ≡ []
    → All (IsOther probe) mounts
unfolding matching_mounts
matching_mounts-none probe [] h = tt
matching_mounts-none probe (object mount ∷ mounts) h = elim (Bool-cases (is_mount probe mount)) [
  | inl is ↦ absurd (clash _ is h)
  | inr other ↦
      (is_mount_complete probe mount other, matching_mounts-none probe mounts (skip _ other h))
]
  where
    clash :
        (t : Bool)
        → t ≡ true
        → (if t then mount ∷ matching_mounts probe mounts else matching_mounts probe mounts) ≡ []
        → ⊥
    clash t p k = ground arith

    skip :
        (t : Bool)
        → t ≡ false
        → (if t then mount ∷ matching_mounts probe mounts else matching_mounts probe mounts) ≡ []
        → matching_mounts probe mounts ≡ []
    skip t p k = ground arith
matching_mounts-none probe (array a ∷ mounts) h = (tt, matching_mounts-none probe mounts h)
matching_mounts-none probe (text s ∷ mounts) h = (tt, matching_mounts-none probe mounts h)
matching_mounts-none probe (bool b ∷ mounts) h = (tt, matching_mounts-none probe mounts h)
matching_mounts-none probe (int i ∷ mounts) h = (tt, matching_mounts-none probe mounts h)
matching_mounts-none probe (decimal m e ∷ mounts) h = (tt, matching_mounts-none probe mounts h)
matching_mounts-none probe (null ∷ mounts) h = (tt, matching_mounts-none probe mounts h)

only_writable-single :
    (ms : List Fields)
    → only_writable ms ≡ true
    → (mount : Fields) × (ms ≡ mount ∷ []) × (get mount (codes "RW") ≡ some (bool true))
unfolding only_writable
only_writable-single (mount ∷ []) h = (mount, refl, is_true_sound _ h)
only_writable-single [] h = absurd cc
only_writable-single (m ∷ n ∷ ms) h = absurd cc

another :
    (probe : Probe) (value : Json) (mounts : List Json)
    → IsOther probe value
    → IsMounted probe mounts
    → IsMounted probe (value ∷ mounts)
another probe value mounts other m = record {
  before = value ∷ m.before;
  mount = m.mount;
  after = m.after;
  divided = ap (λ vs. value ∷ vs) m.divided;
  matches = m.matches;
  writable = m.writable;
  others_before = (other, m.others_before);
  others_after = m.others_after;
}

matching_mounts-IsMounted :
    (probe : Probe) (mounts : List Json) (mount : Fields)
    → matching_mounts probe mounts ≡ mount ∷ []
    → get mount (codes "RW") ≡ some (bool true)
    → IsMounted probe mounts
unfolding matching_mounts
matching_mounts-IsMounted probe [] mount h w = absurd cc
matching_mounts-IsMounted probe (object m ∷ mounts) mount h w =
    elim (Bool-cases (is_mount probe m)) [
      | inl is ↦
          let (same_mount, rest) = taken _ is h in
          record {
            before = [];
            mount = m;
            after = mounts;
            divided = refl;
            matches = is_mount_sound probe m is;
            writable = rw same_mount w;
            others_before = tt;
            others_after = matching_mounts-none probe mounts rest;
          }
      | inr other ↦
          another probe (object m) mounts (is_mount_complete probe m other)
            (matching_mounts-IsMounted probe mounts mount (skipped _ other h) w)
    ]
  where
    taken :
        (t : Bool)
        → t ≡ true
        → (if t then m ∷ matching_mounts probe mounts else matching_mounts probe mounts)
          ≡ mount ∷ []
        → (m ≡ mount) × (matching_mounts probe mounts ≡ [])
    taken t p k = ground arith

    skipped :
        (t : Bool)
        → t ≡ false
        → (if t then m ∷ matching_mounts probe mounts else matching_mounts probe mounts)
          ≡ mount ∷ []
        → matching_mounts probe mounts ≡ mount ∷ []
    skipped t p k = ground arith
matching_mounts-IsMounted probe (array a ∷ mounts) mount h w =
    another probe (array a) mounts tt (matching_mounts-IsMounted probe mounts mount h w)
matching_mounts-IsMounted probe (text s ∷ mounts) mount h w =
    another probe (text s) mounts tt (matching_mounts-IsMounted probe mounts mount h w)
matching_mounts-IsMounted probe (bool b ∷ mounts) mount h w =
    another probe (bool b) mounts tt (matching_mounts-IsMounted probe mounts mount h w)
matching_mounts-IsMounted probe (int i ∷ mounts) mount h w =
    another probe (int i) mounts tt (matching_mounts-IsMounted probe mounts mount h w)
matching_mounts-IsMounted probe (decimal n e ∷ mounts) mount h w =
    another probe (decimal n e) mounts tt (matching_mounts-IsMounted probe mounts mount h w)
matching_mounts-IsMounted probe (null ∷ mounts) mount h w =
    another probe null mounts tt (matching_mounts-IsMounted probe mounts mount h w)

pub check_mounts-IsMounted :
    (probe : Probe) (container : Fields)
    → check_mounts probe container ≡ ok tt
    → (items : Items) × (get container (codes "Mounts") ≡ some (array items))
      × IsMounted probe (elements items)
unfolding check_mounts
check_mounts-IsMounted probe container h =
    let (value, e₁, h₁) = bind_then (or_raise (get container (codes "Mounts")) _) _ h in
    let (mounts, e₂, h₂) = bind_then (or_raise (array_of value) _) _ h₁ in
    let (items, is_array, listed) = array_of-some value (value_of _ _ e₂) in
    let (mount, single, writable) =
      only_writable-single (matching_mounts probe mounts) (passed _ _ h₂) in
    (
      items,
      value_of _ _ e₁ ∙ ap some is_array,
      rw listed (matching_mounts-IsMounted probe mounts mount single writable),
    )
  where
    passed : (test : Bool) (e : ContractError) → guard test e ≡ ok tt → test ≡ true
    passed test e k = ground arith
