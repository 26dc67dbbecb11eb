-- ===== src/Retention/Selection/Split.antt =====
-- `select` cuts the sorted entries in two, and each cut has a reason.
use mathlib.Core.List.Perm
use mathlib.Core.List.{Perm, reverse_aux, perm_middle, append-nil}
use optimizr_actions.Prelude.{
  ℕ, ◌+◌, ◌-◌, ◌≤◌, ◌<◌, ◌≡◌, refl, ◌⊎◌, inl, inr, true, List, [], ◌∷◌, ◌++◌, length, All, ltb,
  ltb→lt, Bool-cases, arith, ◌&&◌, All-mono,
}
use optimizr_actions.Prelude.Sort.{IsSorted}
use optimizr_actions.Retention.Selection.{
  SnapshotEntry, Piles, key_le, newest_first, total_size, split_by_age, trim_count, trim_bytes,
  select,
}

module _ (cutoff max_count max_total : ℕ) where
  -- Why the first entry after the survivors was dropped.
  abbrev pub Reason : List SnapshotEntry → List SnapshotEntry → Type 0
  Reason survivors [] = Unit
  Reason survivors (e ∷ _) =
      (e.mtime < cutoff)
      ⊎ (max_count ≤ length survivors)
      ⊎ (max_total < total_size survivors + e.size)

  -- `dropped` follows the survivors in `ordered`, and is what was deleted, in some order.
  pub record IsCut (ordered : List SnapshotEntry) (p : Piles) : Type 0 where
    pub dropped : List SnapshotEntry
    pub joined : reverse_aux p.survivors dropped ≡ ordered
    pub gone : Perm p.deletions dropped
    pub why : Reason p.survivors dropped

key_le-mtime : (a b : SnapshotEntry) → key_le a b ≡ true → a.mtime ≤ b.mtime
unfolding key_le
key_le-mtime a b h = ground arith

-- A suffix that is all too old goes whole.
split_by_age-old :
    (cutoff : ℕ) (rest : List SnapshotEntry) (p : Piles)
    → All (λ e. e.mtime < cutoff) rest
    → split_by_age cutoff rest p ≡ record p { deletions = reverse_aux rest p.deletions }
unfolding split_by_age
split_by_age-old cutoff [] p h = refl
split_by_age-old cutoff (e ∷ rest) p h =
    ground (arith, split_by_age-old cutoff rest (record p { deletions = e ∷ p.deletions }) h.1)

reverse_aux-perm : (xs ys : List SnapshotEntry) → Perm (reverse_aux xs ys) (xs ++ ys)
reverse_aux-perm [] ys = Perm.refl ys
reverse_aux-perm (x ∷ xs) ys = Perm.trans (reverse_aux-perm xs (x ∷ ys)) (perm_middle xs ys)

module _ (cutoff max_count max_total : ℕ) where
  old-IsCut :
      (e : SnapshotEntry) (rest survivors : List SnapshotEntry)
      → ltb e.mtime cutoff ≡ true
      → All (λ y. newest_first e y ≡ true) rest
      → IsCut cutoff max_count max_total
          (reverse_aux survivors (e ∷ rest))
          (split_by_age cutoff rest (record { survivors = survivors; deletions = e ∷ [] }))
  old-IsCut e rest survivors old h =
      let older =
        All-mono (λ y k. omega (arith, key_le-mtime y e k, ltb→lt e.mtime cutoff old)) rest h in
      rw (split_by_age-old cutoff rest (record { survivors = survivors; deletions = e ∷ [] }) older)
        (record {
          dropped = e ∷ rest;
          joined = refl;
          gone =
              Perm.trans (reverse_aux-perm rest (e ∷ []))
                (Perm.trans (perm_middle rest []) (rw append-nil (Perm.refl (e ∷ rest))));
          why = inl (ltb→lt e.mtime cutoff old);
        })

  split_by_age-IsCut :
      (rest survivors : List SnapshotEntry)
      → IsSorted newest_first rest
      → IsCut cutoff max_count max_total
          (reverse_aux survivors rest)
          (split_by_age cutoff rest (record { survivors = survivors; deletions = [] }))
  unfolding split_by_age
  split_by_age-IsCut [] survivors h = record {
    dropped = [];
    joined = refl;
    gone = Perm.refl [];
    why = tt;
  }
  split_by_age-IsCut (e ∷ rest) survivors h = elim (Bool-cases (ltb e.mtime cutoff)) [
    | inl old ↦ rw old (old-IsCut e rest survivors old h.0)
    | inr young ↦ rw young (split_by_age-IsCut rest (e ∷ survivors) h.1)
  ]

  trim_count-IsCut :
      (ordered survivors deletions : List SnapshotEntry)
      → IsCut cutoff max_count max_total ordered
          (record { survivors = survivors; deletions = deletions })
      → IsCut cutoff max_count max_total ordered (trim_count max_count survivors deletions)
  unfolding trim_count
  trim_count-IsCut ordered [] deletions h = h
  trim_count-IsCut ordered (e ∷ survivors) deletions h =
      elim (Bool-cases (ltb max_count (length (e ∷ survivors)))) [
        | inl over ↦ rw over (
            trim_count-IsCut ordered survivors (e ∷ deletions) (record {
              dropped = e ∷ h.dropped;
              joined = h.joined;
              gone = Perm.cons e h.gone;
              why = inr (inl (omega (arith, ltb→lt max_count _ over)));
            }))
        | inr fits ↦ rw fits h
      ]

  trim_bytes-IsCut :
      (ordered survivors deletions : List SnapshotEntry) (kept : ℕ)
      → kept ≡ total_size survivors
      → IsCut cutoff max_count max_total ordered
          (record { survivors = survivors; deletions = deletions })
      → IsCut cutoff max_count max_total ordered (trim_bytes max_total survivors deletions kept).0
  unfolding trim_bytes
  trim_bytes-IsCut ordered [] deletions kept k h = h
  trim_bytes-IsCut ordered (e ∷ survivors) deletions kept k h =
      elim (Bool-cases (ltb 1 (length (e ∷ survivors)) && ltb max_total kept)) [
        | inl over ↦ rw over (
            trim_bytes-IsCut ordered survivors (e ∷ deletions) (kept - e.size) (omega arith)
              (record {
                dropped = e ∷ h.dropped;
                joined = h.joined;
                gone = Perm.cons e h.gone;
                why = inr (inr (ground arith));
              }))
        | inr fits ↦ rw fits h
      ]

  -- From entries sorted newest first: the survivors are the newest ones, the deletions are all the
  -- others, and the newest of those was too old or passed the limit of count or of bytes.
  pub select-IsCut :
      (newest : SnapshotEntry) (rest : List SnapshotEntry)
      → IsSorted newest_first (newest ∷ rest)
      → IsCut cutoff max_count max_total
          (newest ∷ rest)
          (select cutoff max_count max_total newest rest).0
  unfolding select
  select-IsCut newest rest h =
      trim_bytes-IsCut _ _ _ _ refl
        (trim_count-IsCut _ _ _ (split_by_age-IsCut rest (newest ∷ []) h.1))
