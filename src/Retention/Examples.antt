-- ===== src/Retention/Examples.antt =====
-- A directory with four snapshots and another file, and what a run does to it.
use optimizr_actions.Prelude.{
  ℕ, ◌*◌, ◌≡◌, refl, true, false, List, [], ◌∷◌, codes, Text, same, text_le, starts_with, ends_with,
  none, ok, arith,
}
use optimizr_actions.Prelude.Sort.{sorted}
use optimizr_actions.Retention.Selection.{SnapshotEntry, key_le, select}
use optimizr_actions.Retention.Selection.Split.{IsCut, select-IsCut}
use optimizr_actions.Retention.Selection.Limits.{Final, select-Final}
use optimizr_actions.Retention.Run.{
  Child, Root, PruneConfig, PruneResult, int, microseconds_per_day, prune_snapshots,
}
use optimizr_actions.Retention.Accounting.{Accounts, prune_snapshots-Accounts}
use optimizr_actions.Retention.Untouched.{other_files, prune_snapshots-other_files}

abbrev day : ℕ → ℕ
day n = n * microseconds_per_day

abbrev snapshot : Text → ℕ → ℕ → SnapshotEntry
snapshot name size at = record { path = name; size = size; mtime = day at }

abbrev newest : SnapshotEntry
newest = snapshot (codes "d.tar.gz") 60 100

abbrev older : List SnapshotEntry
older =
    snapshot (codes "c.tar.gz") 30 99
    ∷ snapshot (codes "b.tar.gz") 20 98
    ∷ snapshot (codes "a.tar.gz") 10 3
    ∷ []

abbrev file : Text → ℕ → ℕ → Child
file name size at = record {
  name = name;
  is_symlink = false;
  is_file = true;
  size = size;
  mtime = day at;
}

abbrev notes : Child
notes = file (codes "notes.txt") 5 1

abbrev directory : List Child
directory =
    file (codes "b.tar.gz") 20 98
    ∷ file (codes "d.tar.gz") 60 100
    ∷ notes
    ∷ file (codes "a.tar.gz") 10 3
    ∷ file (codes "c.tar.gz") 30 99
    ∷ []

abbrev found : List SnapshotEntry
found =
    snapshot (codes "b.tar.gz") 20 98
    ∷ newest
    ∷ snapshot (codes "a.tar.gz") 10 3
    ∷ snapshot (codes "c.tar.gz") 30 99
    ∷ []

abbrev left : List Child
left = file (codes "d.tar.gz") 60 100 ∷ notes ∷ []

abbrev backups : Root
backups = record {
  is_absolute = true;
  is_own_parent = false;
  exists = true;
  is_dir = true;
  is_symlink = false;
  prefixes = [];
}

abbrev config : PruneConfig
config = record {
  root = backups;
  max_count = int 2;
  max_age_days = int 14;
  max_total_bytes = int 75;
  now = none;
}

abbrev outcome : PruneResult
outcome = record {
  kept = codes "d.tar.gz" ∷ [];
  deleted = codes "a.tar.gz" ∷ codes "b.tar.gz" ∷ codes "c.tar.gz" ∷ [];
  kept_bytes = 60;
  deleted_bytes = 60;
  total_bytes_before = 120;
  total_bytes_after = 60;
  over_budget_bytes = 0;
}

program : Unit {0}
unfolding prune_snapshots sorted key_le text_le same starts_with ends_with
program = tt

run : prune_snapshots config (day 101) directory ≡ ok (outcome, left)
unfolding program
run = refl

select-IsCut_example : IsCut (day 87) 2 75 (newest ∷ older) (select (day 87) 2 75 newest older).0
unfolding program
select-IsCut_example =
    select-IsCut (day 87) 2 75 newest older
      ((refl, (refl, (refl, tt))), ((refl, (refl, tt)), ((refl, tt), (tt, tt))))

select-Final_example : Final (day 87) newest 75 2 (select (day 87) 2 75 newest older)
select-Final_example = select-Final (day 87) newest 2 75 older (omega arith)

prune_snapshots-Accounts_example : Accounts found 2 75 outcome
unfolding program
prune_snapshots-Accounts_example =
    prune_snapshots-Accounts config (day 101) directory found 2 75 outcome left refl refl refl refl

prune_snapshots-other_files_example : other_files left ≡ other_files directory
unfolding program
prune_snapshots-other_files_example =
    prune_snapshots-other_files config (day 101) directory outcome left
      (refl, (refl, (refl, (refl, (refl, tt))))) refl
