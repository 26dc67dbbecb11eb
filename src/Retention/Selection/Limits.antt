-- ===== src/Retention/Selection/Limits.antt =====
-- What `select` keeps: the newest entry, nothing else that is too old, and no more than allowed.
use optimizr_actions.Prelude.{
  ℕ, ◌-◌, ◌≤◌, ◌≡◌, refl, ◌⊎◌, inl, inr, List, [], ◌∷◌, length, ltb, Bool-cases, arith, ◌&&◌,
}
use optimizr_actions.Retention.Selection.{
  SnapshotEntry, Piles, total_size, split_by_age, trim_count, trim_bytes, select,
}

module _ (cutoff : ℕ) (newest : SnapshotEntry) where
  -- The newest entry is at the bottom of the survivors, and all above it are young enough.
  abbrev pub IsKept : List SnapshotEntry → Type 0
  IsKept [] = ⊥
  IsKept (e ∷ []) = e ≡ newest
  IsKept (e ∷ f ∷ rest) = (cutoff ≤ e.mtime) × IsKept (f ∷ rest)

  split_by_age-IsKept :
      (rest : List SnapshotEntry) (e : SnapshotEntry) (s d : List SnapshotEntry)
      → IsKept (e ∷ s)
      → IsKept (split_by_age cutoff rest (record { survivors = e ∷ s; deletions = d })).survivors
  unfolding split_by_age
  split_by_age-IsKept [] e s d h = h
  split_by_age-IsKept (f ∷ rest) e s d h = ground (
    arith,
    split_by_age-IsKept rest e s (f ∷ d) h,
    λ (young : cutoff ≤ f.mtime). split_by_age-IsKept rest f (e ∷ s) d (young, h),
  )

  trim_count-IsKept :
      (max_count : ℕ) (s d : List SnapshotEntry)
      → 1 ≤ max_count
      → IsKept s
      → IsKept (trim_count max_count s d).survivors
        × (length (trim_count max_count s d).survivors ≤ max_count)
  unfolding trim_count
  trim_count-IsKept max_count [] d m h = absurd h
  trim_count-IsKept max_count (e ∷ []) d m h = ground arith
  trim_count-IsKept max_count (e ∷ f ∷ s) d m h =
      elim (Bool-cases (ltb max_count (length (e ∷ f ∷ s)))) [
        | inl over ↦ rw over (trim_count-IsKept max_count (f ∷ s) (e ∷ d) m h.1)
        | inr fits ↦ rw fits (h, ground arith)
      ]

  -- What holds when the last loop ends, from at most `bound` survivors.
  pub record Final (max_total bound : ℕ) (r : Piles × ℕ) : Type 0 where
    pub kept : IsKept r.0.survivors
    pub counted : length r.0.survivors ≤ bound
    pub summed : r.1 ≡ total_size r.0.survivors
    pub within : (r.1 ≤ max_total) ⊎ (length r.0.survivors ≡ 1)

  trim_bytes-Final :
      (max_total bound : ℕ) (s d : List SnapshotEntry) (kept : ℕ)
      → kept ≡ total_size s
      → length s ≤ bound
      → IsKept s
      → Final max_total bound (trim_bytes max_total s d kept)
  unfolding trim_bytes
  trim_bytes-Final max_total bound [] d kept k b h = absurd h
  trim_bytes-Final max_total bound (e ∷ []) d kept k b h = record {
    kept = ground arith;
    counted = ground arith;
    summed = ground arith;
    within = inr (ground arith);
  }
  trim_bytes-Final max_total bound (e ∷ f ∷ s) d kept k b h =
      elim (Bool-cases (ltb 1 (length (e ∷ f ∷ s)) && ltb max_total kept)) [
        | inl over ↦ rw over (
            trim_bytes-Final max_total bound (f ∷ s) (e ∷ d) (kept - e.size) (omega arith)
              (omega arith) h.1)
        | inr fits ↦
            rw fits (record { kept = h; counted = b; summed = k; within = inl (ground arith) })
      ]

  -- With room for one at least, the newest entry stays, whatever its age and size. Every other that
  -- stays is young enough, there are `max_count` at most, and either the bytes fit or it is alone.
  pub select-Final :
      (max_count max_total : ℕ) (rest : List SnapshotEntry)
      → 1 ≤ max_count
      → Final max_total max_count (select cutoff max_count max_total newest rest)
  unfolding select
  select-Final max_count max_total rest m =
      let aged = split_by_age-IsKept rest newest [] [] refl in
      let counted = trim_count-IsKept max_count _ _ m aged in
      trim_bytes-Final max_total max_count _ _ _ refl counted.1 counted.0
