-- ===== src/Retention/Untouched.antt =====
-- Which files a run leaves alone.

use mathlib.Core.List.{reverse, reverse_aux-eq}
use optimizr_actions.Prelude.{
  ℕ, ◌⊎◌, inl, inr, bind_then, same_comm, all-append_right, ◌≡◌, refl, sym, ◌∙◌, true, not, ◌||◌,
  Bool, Bool-cases, List, [], ◌∷◌, all, Text, same, arith, ok, Result, err, if◌then◌else◌,
}
use optimizr_actions.Prelude.Perms.{all-perm}
use optimizr_actions.Prelude.Sort.{sorted, sorted-perm, IsSorted}
use optimizr_actions.Retention.Selection.Split.{select-IsCut}
use optimizr_actions.Retention.Accounting.{prune_snapshots-Ran, piles-perm, sorted-newest}
use optimizr_actions.Retention.Selection.{SnapshotEntry, key_le, newest_first, select}
use optimizr_actions.Retention.Run.{
  Child, is_snapshot, entry_of, load_snapshots, unlink, unlink_all, PruneConfig, PruneResult,
  prune_snapshots, prune_sorted, cutoff_of, RetentionError,
}

-- The children that are no snapshots: other files, directories, links.
unfoldable pub other_files : List Child → List Child
other_files [] = []
other_files (c ∷ cs) = let rest = other_files cs in if is_snapshot c then rest else c ∷ rest

-- No two children have one name.
abbrev pub AreUnique : List Child → Type 0
AreUnique [] = Unit
AreUnique (c ∷ cs) = (all (λ d. not (same c.name d.name)) cs ≡ true) × AreUnique cs

-- Every child of this name is a snapshot.
names_snapshots : List Child → Text → Bool
names_snapshots cs name = all (λ c. not (same c.name name) || is_snapshot c) cs

unlink-others :
    (name : Text) (cs : List Child)
    → names_snapshots cs name ≡ true
    → other_files (unlink name cs) ≡ other_files cs
unfolding unlink other_files names_snapshots
unlink-others name [] h = refl
unlink-others name (c ∷ cs) h = ground (arith, unlink-others name cs)

names_snapshots-unlink :
    (name other : Text) (cs : List Child)
    → names_snapshots cs other ≡ true
    → names_snapshots (unlink name cs) other ≡ true
unfolding unlink names_snapshots
names_snapshots-unlink name other [] h = refl
names_snapshots-unlink name other (c ∷ cs) h = ground (arith, names_snapshots-unlink name other cs)

abbrev safe : List Child → List SnapshotEntry → Bool
safe cs = all (λ e. names_snapshots cs e.path)

safe-unlink :
    (name : Text) (cs : List Child) (es : List SnapshotEntry)
    → safe cs es ≡ true
    → safe (unlink name cs) es ≡ true
safe-unlink name cs [] h = refl
safe-unlink name cs (e ∷ es) h =
    ground (arith, names_snapshots-unlink name e.path cs, safe-unlink name cs es)

unlink_all-others :
    (es : List SnapshotEntry) (cs : List Child)
    → safe cs es ≡ true
    → other_files (unlink_all es cs) ≡ other_files cs
unfolding unlink_all
unlink_all-others [] cs h = refl
unlink_all-others (e ∷ es) cs h =
    unlink_all-others es (unlink e.path cs) (safe-unlink e.path cs es (ground arith))
    ∙ unlink-others e.path cs (ground arith)

load_snapshots-cons :
    (c : Child) (cs : List Child) {es : List SnapshotEntry}
    → load_snapshots (c ∷ cs) ≡ ok es
    → ((tail : List SnapshotEntry) × (es ≡ entry_of c ∷ tail)
        × (is_snapshot c ≡ true)
        × (load_snapshots cs ≡ ok tail))
      ⊎ (load_snapshots cs ≡ ok es)
unfolding load_snapshots
load_snapshots-cons c cs {es} h = go (load_snapshots cs) refl
  where
    go :
        (r : Result RetentionError (List SnapshotEntry))
        → load_snapshots cs ≡ r
        → ((tail : List SnapshotEntry) × (es ≡ entry_of c ∷ tail)
            × (is_snapshot c ≡ true)
            × (load_snapshots cs ≡ ok tail))
          ⊎ (load_snapshots cs ≡ ok es)
    go (err e) loaded = absurd (ground arith)
    go (ok tail) loaded = elim (Bool-cases (is_snapshot c)) [
      | inl snapshot ↦ inl (tail, ground arith, snapshot, loaded)
      | inr otherwise ↦ inr (ground arith)
    ]

names_snapshots_unique :
    (name : Text) (cs : List Child)
    → all (λ d. not (same name d.name)) cs ≡ true
    → names_snapshots cs name ≡ true
unfolding names_snapshots
names_snapshots_unique name [] u = refl
names_snapshots_unique name (d ∷ cs) u =
    ground (arith, names_snapshots_unique name cs, same_comm name d.name)

head-safe :
    (c : Child) (cs : List Child)
    → is_snapshot c ≡ true
    → all (λ d. not (same c.name d.name)) cs ≡ true
    → names_snapshots (c ∷ cs) c.name ≡ true
unfolding names_snapshots
head-safe c cs s u = ground (arith, names_snapshots_unique c.name cs u)

abbrev fresh : Text → List SnapshotEntry → Bool
fresh name = all (λ e. not (same name e.path))

load_snapshots-fresh :
    (name : Text) (cs : List Child) (es : List SnapshotEntry)
    → all (λ d. not (same name d.name)) cs ≡ true
    → load_snapshots cs ≡ ok es
    → fresh name es ≡ true
unfolding load_snapshots
load_snapshots-fresh name [] es u h = ground arith
load_snapshots-fresh name (c ∷ cs) es u h = elim (load_snapshots-cons c cs h) [
  | inl (tail, e, _, loaded) ↦
      rw e (ground (arith, load_snapshots-fresh name cs tail (ground arith) loaded))
  | inr loaded ↦ load_snapshots-fresh name cs es (ground arith) loaded
]

safe-cons :
    (c : Child) (cs : List Child) (es : List SnapshotEntry)
    → fresh c.name es ≡ true
    → safe cs es ≡ true
    → safe (c ∷ cs) es ≡ true
unfolding names_snapshots
safe-cons c cs [] f h = refl
safe-cons c cs (e ∷ es) f h = ground (arith, safe-cons c cs es)

-- Where names are unique, an entry's name is that of snapshots only.
load_snapshots-safe :
    (cs : List Child) (es : List SnapshotEntry)
    → AreUnique cs
    → load_snapshots cs ≡ ok es
    → safe cs es ≡ true
unfolding load_snapshots
load_snapshots-safe [] es u h = ground arith
load_snapshots-safe (c ∷ cs) es u h = elim (load_snapshots-cons c cs h) [
  | inl (tail, e, snapshot, loaded) ↦ rw e (
      ground (
        arith,
        head-safe c cs snapshot u.0,
        safe-cons c cs tail (load_snapshots-fresh c.name cs tail u.0 loaded)
            (load_snapshots-safe cs tail u.1 loaded),
      ))
  | inr loaded ↦
      safe-cons c cs es (load_snapshots-fresh c.name cs es u.0 loaded)
        (load_snapshots-safe cs es u.1 loaded)
]

prune_sorted-others :
    (now max_count days max_total : ℕ) (children : List Child) (ordered : List SnapshotEntry)
    {out : PruneResult × List Child}
    → safe children ordered ≡ true
    → IsSorted newest_first ordered
    → prune_sorted now max_count days max_total children ordered ≡ ok out
    → other_files out.1 ≡ other_files children
unfolding prune_sorted
prune_sorted-others now max_count days max_total children [] s sort h = ground arith
prune_sorted-others now max_count days max_total children (newest ∷ rest) {out} s sort h =
    let (cutoff, _, finished) = bind_then (cutoff_of now days) _ h in
    let cut = select-IsCut cutoff max_count max_total newest rest sort in
    let piles = (select cutoff max_count max_total newest rest).0 in
    let deletions = sorted key_le (reverse piles.deletions) in
    let e : out.1 ≡ unlink_all deletions children = cc in
    let p = λ (x : SnapshotEntry). names_snapshots children x.path in
    let same_piles = all-perm p (
      piles-perm _ piles cut.dropped (sym (reverse_aux-eq piles.survivors cut.dropped) ∙ cut.joined)
        cut.gone) in
    rw e (
      unlink_all-others deletions children
        (all-append_right p (reverse piles.survivors) deletions (same_piles ∙ s)))

-- Files that are no snapshots, directories and other names survive every run that returns, in place
-- and unchanged, whatever the limits are.
pub prune_snapshots-other_files :
    (config : PruneConfig) (clock : ℕ) (children : List Child) (r : PruneResult)
    (remaining : List Child)
    → AreUnique children
    → prune_snapshots config clock children ≡ ok (r, remaining)
    → other_files remaining ≡ other_files children
prune_snapshots-other_files config clock children r remaining u h =
    let ran = prune_snapshots-Ran config clock children h in
    prune_sorted-others ran.now ran.max_count ran.max_age_days ran.max_total children _
      (all-perm (λ e. names_snapshots children e.path) (sorted-perm newest_first ran.entries)
        ∙ load_snapshots-safe children ran.entries u ran.loaded)
      (sorted-newest ran.entries) ran.finished
