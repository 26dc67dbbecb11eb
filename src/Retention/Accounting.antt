-- ===== src/Retention/Accounting.antt =====
-- What `prune_snapshots` reports against what it found in the directory.
use mathlib.Core.List.Perm
use mathlib.Core.List.{Perm, reverse, reverse_aux-eq, reverse_perm, map-append}
use optimizr_actions.Prelude.{
  ℕ, ◌+◌, ◌-◌, ◌≤◌, ◌≡◌, refl, sym, ap, ◌∙◌, subst, suc, sum_by, ◌⊎◌, inl, inr, true, false, List,
  [], ◌∷◌, ◌++◌, map, text_le_total, text_le_trans, length, arith, ok, bind_then, seq_then,
  sum_by-append,
}
use optimizr_actions.Prelude.Perms.{sum_by-perm}
use optimizr_actions.Prelude.Sort.{sorted, sorted-perm, sorted-IsSorted, IsSorted}
use optimizr_actions.Retention.Selection.{
  SnapshotEntry, Piles, key_le, newest_first, total_size, select,
}
use optimizr_actions.Retention.Selection.Split.{IsCut, select-IsCut}
use optimizr_actions.Retention.Selection.Limits.{Final, select-Final}
use optimizr_actions.Retention.Run.{
  PruneConfig, PruneResult, Child, Argument, validate_positive_int, load_snapshots, cutoff_of,
  no_snapshots, report, prune_sorted, prune_snapshots, validate_root, now_of,
}

-- What a run that returned went through.
pub record Ran (config : PruneConfig) (clock : ℕ) (children : List Child)
    (out : PruneResult × List Child) : Type 0 where
  pub now : ℕ
  pub max_count : ℕ
  pub max_age_days : ℕ
  pub max_total : ℕ
  pub entries : List SnapshotEntry
  pub counts : validate_positive_int config.max_count ≡ ok max_count
  pub bytes : validate_positive_int config.max_total_bytes ≡ ok max_total
  pub loaded : load_snapshots children ≡ ok entries
  pub finished :
      prune_sorted now max_count max_age_days max_total children (sorted newest_first entries)
      ≡ ok out

pub prune_snapshots-Ran :
    (config : PruneConfig) (clock : ℕ) (children : List Child) {out : PruneResult × List Child}
    → prune_snapshots config clock children ≡ ok out
    → Ran config clock children out
unfolding prune_snapshots
prune_snapshots-Ran config clock children h =
    let (_, h₁) = seq_then (validate_root config.root) _ h in
    let (count, e₁, h₂) = bind_then (validate_positive_int config.max_count) _ h₁ in
    let (days, e₂, h₃) = bind_then (validate_positive_int config.max_age_days) _ h₂ in
    let (total, e₃, h₄) = bind_then (validate_positive_int config.max_total_bytes) _ h₃ in
    let (now, e₄, h₅) = bind_then (now_of config.now clock) _ h₄ in
    let (entries, e₅, h₆) = bind_then (load_snapshots children) _ h₅ in
    record {
      now = now;
      max_count = count;
      max_age_days = days;
      max_total = total;
      entries = entries;
      counts = e₁;
      bytes = e₃;
      loaded = e₅;
      finished = h₆;
    }

validate_positive_int-pos : (a : Argument) {n : ℕ} → validate_positive_int a ≡ ok n → 1 ≤ n
unfolding validate_positive_int
validate_positive_int-pos a h = ground arith

-- The reported lists and sums, against the snapshots that were found.
pub record Accounts (entries : List SnapshotEntry) (max_count max_total : ℕ) (r : PruneResult)
    : Type 0 where
  pub kept_entries : List SnapshotEntry
  pub deleted_entries : List SnapshotEntry
  pub kept_paths : r.kept ≡ map (λ e. e.path) kept_entries
  pub deleted_paths : r.deleted ≡ map (λ e. e.path) deleted_entries
  pub divided : Perm (kept_entries ++ deleted_entries) entries
  pub kept_sum : r.kept_bytes ≡ total_size kept_entries
  pub deleted_sum : r.deleted_bytes ≡ total_size deleted_entries
  pub all_listed : Perm (r.kept ++ r.deleted) (map (λ e. e.path) entries)
  pub before : r.total_bytes_before ≡ total_size entries
  pub after : r.total_bytes_after + r.deleted_bytes ≡ r.total_bytes_before
  pub remain : r.total_bytes_after ≡ r.kept_bytes
  pub counted : length r.kept ≤ max_count
  pub excess : r.over_budget_bytes ≡ r.kept_bytes - max_total
  pub budget : r.kept_bytes ≤ max_total + r.over_budget_bytes
  pub over : (r.over_budget_bytes ≡ 0) ⊎ (length r.kept ≡ 1)

pub piles-perm :
    (ordered : List SnapshotEntry) (p : Piles) (dropped : List SnapshotEntry)
    → reverse p.survivors ++ dropped ≡ ordered
    → Perm p.deletions dropped
    → Perm (reverse p.survivors ++ sorted key_le (reverse p.deletions)) ordered
piles-perm ordered p dropped joined gone = subst (Perm _) joined (
    Perm.append_left (reverse p.survivors) (
      Perm.trans (sorted-perm key_le (reverse p.deletions))
        (Perm.trans (reverse_perm p.deletions) gone)))

length-path : (s : List SnapshotEntry) → length (map (λ e. e.path) s) ≡ length s
length-path [] = refl
length-path (e ∷ s) = ap suc (length-path s)

one : SnapshotEntry → ℕ
one e = 1

length-eq-sum : (s : List SnapshotEntry) → length s ≡ sum_by one s
unfolding one
length-eq-sum [] = refl
length-eq-sum (e ∷ s) = omega (arith, length-eq-sum s)

length-kept : (s : List SnapshotEntry) → length (map (λ e. e.path) (reverse s)) ≡ length s
length-kept s =
    length-path (reverse s)
    ∙ length-eq-sum (reverse s)
    ∙ sum_by-perm one (reverse_perm s)
    ∙ sym (length-eq-sum s)

module _ {cutoff max_count max_total : ℕ} {newest : SnapshotEntry} where
  report-Accounts :
      (entries ordered : List SnapshotEntry) (out : Piles × ℕ)
      → Perm ordered entries
      → IsCut cutoff max_count max_total ordered out.0
      → Final cutoff newest max_total max_count out
      → Accounts entries max_count max_total (report max_total out)
  unfolding report
  report-Accounts entries ordered out same cut final =
      let joined = sym (reverse_aux-eq out.0.survivors cut.dropped) ∙ cut.joined in
      let every = Perm.trans (piles-perm ordered out.0 cut.dropped joined cut.gone) same in
      let kept = reverse out.0.survivors in
      let deleted = sorted key_le (reverse out.0.deletions) in
      let sums = sum_by-append (λ e. e.size) kept deleted in
      let whole = sum_by-perm (λ e. e.size) every in
      let stays = sum_by-perm (λ e. e.size) (reverse_perm out.0.survivors) in
      let counts = length-kept out.0.survivors in
      record {
        kept_entries = kept;
        deleted_entries = deleted;
        kept_paths = refl;
        deleted_paths = refl;
        divided = every;
        kept_sum = omega (arith, stays, final.summed);
        deleted_sum = refl;
        remain = refl;
        excess = refl;
        all_listed = rw (← map-append (λ e. e.path) kept deleted) (Perm.map (λ e. e.path) every);
        before = omega (arith, sums, whole, stays, final.summed);
        after = refl;
        counted = omega (arith, counts, final.counted);
        budget = omega arith;
        over = elim final.within [
          | inl fits ↦ inl (omega arith)
          | inr alone ↦ inr (counts ∙ alone)
        ];
      }

key_le_total : (a b : SnapshotEntry) → key_le b a ≡ false → key_le a b ≡ true
unfolding key_le
key_le_total a b h = ground (arith, text_le_total b.path a.path)

key_le_trans : (a b c : SnapshotEntry) → key_le b a ≡ true → key_le c b ≡ true → key_le c a ≡ true
unfolding key_le
key_le_trans a b c h k = ground (arith, text_le_trans c.path b.path a.path)

pub sorted-newest :
    (entries : List SnapshotEntry) → IsSorted newest_first (sorted newest_first entries)
sorted-newest = sorted-IsSorted newest_first key_le_total key_le_trans

prune_sorted-Accounts :
    (now max_count days max_total : ℕ) (children : List Child)
    (entries ordered : List SnapshotEntry) {out : PruneResult × List Child}
    → 1 ≤ max_count
    → Perm ordered entries
    → IsSorted newest_first ordered
    → prune_sorted now max_count days max_total children ordered ≡ ok out
    → Accounts entries max_count max_total out.0
unfolding prune_sorted
prune_sorted-Accounts now max_count days max_total children entries [] {out} m same sort h =
    let e : out.0 ≡ no_snapshots = ground arith in
    rw e (record {
      kept_entries = [];
      deleted_entries = [];
      kept_paths = refl;
      deleted_paths = refl;
      divided = same;
      kept_sum = refl;
      deleted_sum = refl;
      remain = refl;
      excess = omega arith;
      all_listed = Perm.map (λ e. e.path) same;
      before = sum_by-perm (λ e. e.size) same;
      after = refl;
      counted = omega arith;
      budget = omega arith;
      over = inl refl;
    })
prune_sorted-Accounts now max_count days max_total children entries (newest ∷ rest) {out} m same
      sort h =
    let (cutoff, _, finished) = bind_then (cutoff_of now days) _ h in
    let e : out.0 ≡ report max_total (select cutoff max_count max_total newest rest) = cc in
    rw e (
      report-Accounts entries (newest ∷ rest) _ same
        (select-IsCut cutoff max_count max_total newest rest sort)
        (select-Final cutoff newest max_count max_total rest m))

-- A run that returns, on the snapshots that it found and with the limits that it was given, lists
-- each snapshot once, as kept or as deleted. The reported bytes are the sums of the sizes of those
-- kept, of those deleted and of all. At most `max_count` are kept. The reported excess is what the
-- bytes kept pass the budget by, and zero unless exactly one snapshot is kept.
pub prune_snapshots-Accounts :
    (config : PruneConfig) (clock : ℕ) (children : List Child) (entries : List SnapshotEntry)
    (max_count max_total : ℕ) (r : PruneResult) (remaining : List Child)
    → load_snapshots children ≡ ok entries
    → validate_positive_int config.max_count ≡ ok max_count
    → validate_positive_int config.max_total_bytes ≡ ok max_total
    → prune_snapshots config clock children ≡ ok (r, remaining)
    → Accounts entries max_count max_total r
prune_snapshots-Accounts config clock children entries max_count max_total r remaining l c t h =
    let ran = prune_snapshots-Ran config clock children h in
    let e₁ : ran.entries ≡ entries = cc (ran.loaded) in
    let e₂ : ran.max_count ≡ max_count = cc (ran.counts) in
    let e₃ : ran.max_total ≡ max_total = cc (ran.bytes) in
    rw (← e₁, ← e₂, ← e₃)
      (prune_sorted-Accounts ran.now ran.max_count ran.max_age_days ran.max_total children
        ran.entries _ (validate_positive_int-pos config.max_count ran.counts)
        (sorted-perm newest_first ran.entries) (sorted-newest ran.entries) ran.finished)
