-- ===== src/Retention/Run.antt =====
-- `prune_snapshots` with its checks, and the directory that it works on.
use optimizr_actions.Prelude.{
  ℕ, ◌+◌, ◌-◌, ◌*◌, Bool, ◌&&◌, Option, none, some, List, [], ◌∷◌, map, codes, Text, ends_with,
  same, ltb, if◌then◌else◌, Result, ok, err, ◌>>=◌, ◌>>◌, raise_if, guard, any,
}
use mathlib.Core.List.{reverse}
use optimizr_actions.Prelude.Sort.{sorted}
use optimizr_actions.Retention.Selection.{
  SnapshotEntry, Piles, key_le, newest_first, total_size, select,
}

pub data RetentionError : Type 0 where
  root_not_absolute root_is_filesystem_root root_not_directory root_is_symlink : RetentionError
  root_has_symlink_component not_an_integer below_one symlink_in_root : RetentionError
  naive_now date_overflow : RetentionError

-- What the checks read of the root path: of each prefix of it, whether it exists and is a link.
pub record Component : Type 0 where
  pub exists : Bool
  pub is_symlink : Bool

pub record Root : Type 0 where
  pub is_absolute : Bool
  pub is_own_parent : Bool
  pub exists : Bool
  pub is_dir : Bool
  pub is_symlink : Bool
  pub prefixes : List Component

-- An argument of no fixed type. A number below 0 is `negative`.
pub data Argument : Type 0 where
  int : ℕ → Argument
  negative boolean other : Argument

pub data Moment : Type 0 where
  aware : ℕ → Moment
  naive : Moment

-- An entry of the root directory.
pub record Child : Type 0 where
  pub name : Text
  pub is_symlink : Bool
  pub is_file : Bool
  pub size : ℕ
  pub mtime : ℕ

pub record PruneConfig : Type 0 where
  pub root : Root
  pub max_count : Argument
  pub max_age_days : Argument
  pub max_total_bytes : Argument
  pub now : Option Moment

pub record PruneResult : Type 0 where
  pub kept : List Text
  pub deleted : List Text
  pub kept_bytes : ℕ
  pub deleted_bytes : ℕ
  pub total_bytes_before : ℕ
  pub total_bytes_after : ℕ
  pub over_budget_bytes : ℕ

unfoldable pub validate_root : Root → Result RetentionError (Unit {0})
validate_root root = do
  guard root.is_absolute root_not_absolute
  raise_if root.is_own_parent root_is_filesystem_root
  guard (root.exists && root.is_dir) root_not_directory
  raise_if root.is_symlink root_is_symlink
  raise_if (any (λ c. c.exists && c.is_symlink) root.prefixes) root_has_symlink_component

unfoldable pub validate_positive_int : Argument → Result RetentionError ℕ
validate_positive_int (int n) = if ltb n 1 then err below_one else ok n
validate_positive_int negative = err below_one
validate_positive_int boolean = err not_an_integer
validate_positive_int other = err not_an_integer

-- `child.is_file() and child.name.endswith(".tar.gz")`
unfoldable pub is_snapshot : Child → Bool
is_snapshot child = child.is_file && ends_with child.name (codes ".tar.gz")

abbrev pub entry_of : Child → SnapshotEntry
entry_of child = record { path = child.name; size = child.size; mtime = child.mtime }

unfoldable pub load_snapshots : List Child → Result RetentionError (List SnapshotEntry)
unfolding is_snapshot
load_snapshots [] = ok []
load_snapshots (child ∷ rest) =
    if child.is_symlink
    then err symlink_in_root
    else (load_snapshots rest >>= λ entries.
        ok (if is_snapshot child then entry_of child ∷ entries else entries))

abbrev pub microseconds_per_day : ℕ
microseconds_per_day = 86400000000

-- `now - timedelta(days=…)`, which raises before the year 1.
unfoldable pub cutoff_of : ℕ → ℕ → Result RetentionError ℕ
cutoff_of now days =
    if ltb now (days * microseconds_per_day)
    then err date_overflow
    else ok (now - days * microseconds_per_day)

-- `now` in UTC: the configured moment, or the clock's.
unfoldable pub now_of : Option Moment → ℕ → Result RetentionError ℕ
now_of none clock = ok clock
now_of (some (aware t)) clock = ok t
now_of (some naive) clock = err naive_now

-- `entry.path.unlink()`
unfoldable pub unlink : Text → List Child → List Child
unlink name [] = []
unlink name (child ∷ rest) =
    let others = unlink name rest in if same child.name name then others else child ∷ others

unfoldable pub unlink_all : List SnapshotEntry → List Child → List Child
unfolding unlink
unlink_all [] children = children
unlink_all (entry ∷ rest) children = unlink_all rest (unlink entry.path children)

abbrev pub no_snapshots : PruneResult
no_snapshots = record {
  kept = [];
  deleted = [];
  kept_bytes = 0;
  deleted_bytes = 0;
  total_bytes_before = 0;
  total_bytes_after = 0;
  over_budget_bytes = 0;
}

unfoldable pub report : ℕ → Piles × ℕ → PruneResult
unfolding key_le
report max_total (piles, kept_bytes) =
    let deletions = sorted key_le (reverse piles.deletions) in
    let deleted_bytes = total_size deletions in
    record {
      kept = map (λ e. e.path) (reverse piles.survivors);
      deleted = map (λ e. e.path) deletions;
      kept_bytes = kept_bytes;
      deleted_bytes = deleted_bytes;
      total_bytes_before = kept_bytes + deleted_bytes;
      total_bytes_after = kept_bytes;
      over_budget_bytes = kept_bytes - max_total;
    }

-- The rest of `prune_snapshots`, from the sorted entries on.
unfoldable pub prune_sorted :
    ℕ
    → ℕ
    → ℕ
    → ℕ
    → List Child
    → List SnapshotEntry
    → Result RetentionError (PruneResult × List Child)
unfolding select report unlink_all cutoff_of
prune_sorted now max_count max_age_days max_total children [] = ok (no_snapshots, children)
prune_sorted now max_count max_age_days max_total children (newest ∷ rest) = do
  cutoff ← cutoff_of now max_age_days
  let selected = select cutoff max_count max_total newest rest
  let deletions = sorted key_le (reverse selected.0.deletions)
  ok (report max_total selected, unlink_all deletions children)

-- The result and the directory afterwards.
unfoldable pub prune_snapshots :
    PruneConfig → ℕ → List Child → Result RetentionError (PruneResult × List Child)
unfolding validate_root validate_positive_int now_of load_snapshots prune_sorted
prune_snapshots config clock children = do
  validate_root config.root
  max_count ← validate_positive_int config.max_count
  max_age_days ← validate_positive_int config.max_age_days
  max_total_bytes ← validate_positive_int config.max_total_bytes
  now ← now_of config.now clock
  entries ← load_snapshots children
  prune_sorted now max_count max_age_days max_total_bytes children (sorted newest_first entries)
