-- ===== src/Remediation/Window/Matching.antt =====
-- What it means that fingerprints match, and what becomes of each observation.
use mathlib.Core.List.{Mem, mem-cons_self, mem-cons_of_mem}
use optimizr_actions.Prelude.{
  ℕ, suc, ◌≡◌, refl, inl, inr, Bool, true, false, ◌&&◌, ◌||◌, Bool-cases, Option-cases, some, List,
  [], ◌∷◌, Text, any, same, same_sound, arith, Result-cases, ok, All, and_left, and_right,
}
use optimizr_actions.Prelude.Json.{Fields}
use optimizr_actions.Remediation.Window.Observations.{
  Observation, Fingerprint, same_texts, same_fingerprint, canonical_observation,
}
use optimizr_actions.Remediation.Window.Policy.{PolicyEntry}
use optimizr_actions.Remediation.Window.Evaluation.{Rendering, entry_of, same_observation}
use optimizr_actions.Remediation.Window.Decision.{normalize_all}

same_texts_sound : (ss ts : List Text) → same_texts ss ts ≡ true → ss ≡ ts
unfolding same_texts
same_texts_sound [] [] h = refl
same_texts_sound (s ∷ ss) (t ∷ ts) h =
    λ i. same_sound s t (and_left _ _ h) i ∷ same_texts_sound ss ts (and_right _ _ h) i
same_texts_sound [] (t ∷ ts) h = absurd cc
same_texts_sound (s ∷ ss) [] h = absurd cc

all_six :
    (a b c d e f : Bool)
    → (a && b && c && d && e && f) ≡ true
    → (a ≡ true) × (b ≡ true) × (c ≡ true) × (d ≡ true) × (e ≡ true) × (f ≡ true)
all_six a b c d e f h =
    (ground arith, ground arith, ground arith, ground arith, ground arith, ground arith)

pub same_fingerprint_sound : (f g : Fingerprint) → same_fingerprint f g ≡ true → f ≡ g
unfolding same_fingerprint
same_fingerprint_sound f g h =
    let (service, advisory, purl, installed, fixed, lineage) =
      all_six (same f.service g.service) (same f.advisory_id g.advisory_id)
        (same f.package_purl g.package_purl) (same f.installed_version g.installed_version)
        (same f.fixed_version g.fixed_version)
        (same_texts f.image_lineage_digests g.image_lineage_digests) h in
    λ i. record {
      service = same_sound f.service g.service service i;
      advisory_id = same_sound f.advisory_id g.advisory_id advisory i;
      package_purl = same_sound f.package_purl g.package_purl purl i;
      installed_version = same_sound f.installed_version g.installed_version installed i;
      fixed_version = same_sound f.fixed_version g.fixed_version fixed i;
      image_lineage_digests =
          same_texts_sound f.image_lineage_digests g.image_lineage_digests lineage i;
    }

-- The entry that was found is one of the policy, and for this fingerprint.
pub entry_of-found :
    (fingerprint : Fingerprint) (entries : List PolicyEntry) (entry : PolicyEntry)
    → entry_of fingerprint entries ≡ some entry
    → Mem entry entries × (entry.fingerprint ≡ fingerprint)
unfolding entry_of
entry_of-found fingerprint [] entry = λ h. absurd cc
entry_of-found fingerprint (e ∷ entries) entry =
    elim (Option-cases (entry_of fingerprint entries)) [
      | inr (later, found) ↦
          rw (entry_of, found)
            (λ h.
              let (listed, matches) = entry_of-found fingerprint entries entry (rw found h) in
              (mem-cons_of_mem e listed, matches))
      | inl absent ↦ elim (Bool-cases (same_fingerprint e.fingerprint fingerprint)) [
        | inl matches ↦
            rw (entry_of, absent, matches)
              (λ h.
                let same_entry : e ≡ entry = cc in
                rw (← same_entry)
                  (mem-cons_self, same_fingerprint_sound e.fingerprint fingerprint matches))
        | inr other ↦ rw (entry_of, absent, other) (λ h. absurd cc)
      ]
    ]

-- An observation of the same finding on the same image is kept.
pub record IsKept (kept : List Observation) (o : Observation) : Type 0 where
  pub witness : Observation
  pub is_in : Mem witness kept
  pub same_finding : o.fingerprint ≡ witness.fingerprint
  pub same_image : o.image_identity ≡ witness.image_identity

-- Each of the observations, numbered from `index`, is valid and is kept or repeats one that is.
abbrev pub AreKept : List Observation → ℕ → List Fields → Type 0
AreKept kept index [] = Unit
AreKept kept index (raw ∷ raws) =
    ((o : Observation) × (canonical_observation raw index ≡ ok o) × IsKept kept o)
    × AreKept kept (suc index) raws

repeats :
    (kept seen : List Observation) (o : Observation)
    → All (λ k. Mem k kept) seen
    → any (same_observation o) seen ≡ true
    → IsKept kept o
unfolding same_observation
repeats kept [] o m h = absurd cc
repeats kept (k ∷ seen) o m h = elim (Bool-cases (same_observation o k)) [
  | inl again ↦ record {
    witness = k;
    is_in = m.0;
    same_finding = same_fingerprint_sound o.fingerprint k.fingerprint (and_left _ _ again);
    same_image = same_sound o.image_identity k.image_identity (and_right _ _ again);
  }
  | inr other ↦ repeats kept seen o m.1 (later _ _ other h)
]
  where
    later : (a b : Bool) → a ≡ false → (a || b) ≡ true → b ≡ true
    later a b p q = ground arith

module _ (rendering : Rendering) where
  normalize_all-AreKept_in :
      (kept seen : List Observation) (index : ℕ) (raws : List Fields)
      → All (λ k. Mem k kept) seen
      → All (λ k. Mem k kept) (normalize_all rendering index seen raws).0
      → (normalize_all rendering index seen raws).1 ≡ []
      → AreKept kept index raws
  unfolding normalize_all
  normalize_all-AreKept_in kept seen index [] s = λ k r. tt
  normalize_all-AreKept_in kept seen index (raw ∷ raws) s =
      elim (Result-cases (canonical_observation raw index)) [
        | inl (e, refused) ↦ rw (normalize_all, refused) (λ k r. absurd cc)
        | inr (o, normal) ↦ elim (Bool-cases (any (same_observation o) seen)) [
          | inl again ↦
              rw (normalize_all, normal, again)
                (λ k r. (
                  (o, refl, repeats kept seen o s again),
                  normalize_all-AreKept_in kept seen (suc index) raws s k r,
                ))
          | inr new ↦
              rw (normalize_all, normal, new)
                (λ k r. (
                  (
                    o,
                    refl,
                    record { witness = o; is_in = k.0; same_finding = refl; same_image = refl },
                  ),
                  normalize_all-AreKept_in kept (o ∷ seen) (suc index) raws (k.0, s) k.1 r,
                ))
        ]
      ]

  weaker :
      (o : Observation) (kept seen : List Observation)
      → All (λ k. Mem k kept) seen
      → All (λ k. Mem k (o ∷ kept)) seen
  weaker o kept [] m = tt
  weaker o kept (k ∷ seen) m = (mem-cons_of_mem o m.0, weaker o kept seen m.1)

  all_in : (kept : List Observation) → All (λ k. Mem k kept) kept
  all_in [] = tt
  all_in (o ∷ kept) = (mem-cons_self, weaker o kept kept (all_in kept))

  -- Where no observation is refused, each is kept or repeats one that is.
  pub normalize_all-AreKept :
      (raws : List Fields)
      → (normalize_all rendering 0 [] raws).1 ≡ []
      → AreKept (normalize_all rendering 0 [] raws).0 0 raws
  normalize_all-AreKept raws r =
      normalize_all-AreKept_in (normalize_all rendering 0 [] raws).0 [] 0 raws tt
        (all_in (normalize_all rendering 0 [] raws).0) r
