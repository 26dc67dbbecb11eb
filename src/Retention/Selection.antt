-- ===== src/Retention/Selection.antt =====
-- The part of `prune_snapshots` that decides which snapshots go, from the sorted entries.
pub mod Split
pub mod Limits
use optimizr_actions.Prelude.{
  ℕ, ◌+◌, ◌-◌, Bool, ◌&&◌, ◌||◌, List, [], ◌∷◌, Text, length, sum_by, text_le, ltb, ◌==◌,
  if◌then◌else◌,
}
use optimizr_actions.Prelude.Sort.{sorted}

pub record SnapshotEntry : Type 0 where
  pub path : Text
  pub size : ℕ
  pub mtime : ℕ

-- `(a.mtime, a.path.name) <= (b.mtime, b.path.name)`
unfoldable pub key_le : SnapshotEntry → SnapshotEntry → Bool
unfolding text_le
key_le a b = ltb a.mtime b.mtime || (a.mtime == b.mtime) && text_le a.path b.path

-- Newest first.
abbrev pub newest_first : SnapshotEntry → SnapshotEntry → Bool
newest_first a b = key_le b a

-- `survivors` and `deletions`.
pub record Piles : Type 0 where
  pub survivors : List SnapshotEntry
  pub deletions : List SnapshotEntry

abbrev pub total_size : List SnapshotEntry → ℕ
total_size = sum_by (λ e. e.size)

-- `for entry in ordered[1:]: …`
unfoldable pub split_by_age : ℕ → List SnapshotEntry → Piles → Piles
split_by_age cutoff [] p = p
split_by_age cutoff (entry ∷ rest) p = split_by_age cutoff rest (
    if ltb entry.mtime cutoff
    then record p { deletions = entry ∷ p.deletions }
    else record p { survivors = entry ∷ p.survivors })

-- `while len(survivors) > max_count: …`
unfoldable pub trim_count : ℕ → List SnapshotEntry → List SnapshotEntry → Piles
trim_count max_count [] deletions = record { survivors = []; deletions = deletions }
trim_count max_count (entry ∷ survivors) deletions =
    let popped = trim_count max_count survivors (entry ∷ deletions) in
    if ltb max_count (length (entry ∷ survivors))
    then popped
    else record { survivors = entry ∷ survivors; deletions = deletions }

-- `while len(survivors) > 1 and kept_bytes > max_total_bytes: …`, with `kept_bytes` at the end.
unfoldable pub trim_bytes : ℕ → List SnapshotEntry → List SnapshotEntry → ℕ → Piles × ℕ
trim_bytes max_total [] deletions kept = (record { survivors = []; deletions = deletions }, kept)
trim_bytes max_total (entry ∷ survivors) deletions kept =
    let popped = trim_bytes max_total survivors (entry ∷ deletions) (kept - entry.size) in
    if ltb 1 (length (entry ∷ survivors)) && ltb max_total kept
    then popped
    else (record { survivors = entry ∷ survivors; deletions = deletions }, kept)

-- From the newest entry on: what survives, what goes, and `kept_bytes`.
unfoldable pub select : ℕ → ℕ → ℕ → SnapshotEntry → List SnapshotEntry → Piles × ℕ
unfolding split_by_age trim_count trim_bytes
select cutoff max_count max_total newest rest =
    let aged = split_by_age cutoff rest (record { survivors = newest ∷ []; deletions = [] }) in
    let counted = trim_count max_count aged.survivors aged.deletions in
    trim_bytes max_total counted.survivors counted.deletions (total_size counted.survivors)
