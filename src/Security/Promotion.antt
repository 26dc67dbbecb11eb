-- ===== src/Security/Promotion.antt =====
-- .github/actions/security-retry-result/retry_result.py
pub mod Evidence
pub mod Compatibility
pub mod Consistency
use optimizr_actions.Prelude.{
  Bool, true, false, not, ◌&&◌, ◌||◌, Option, none, some, List, [], ◌∷◌, ◌++◌, Text, codes, same,
  member, strip, all, ◌==◌, if◌then◌else◌, ℕ, zero, suc,
}
use optimizr_actions.Prelude.Dicts.{Dict, lookup}
use optimizr_actions.Prelude.Integers.{ℤ, pos, negsuc}
use optimizr_actions.Prelude.Splits.{splitlines}
use optimizr_actions.Prelude.Regex.{Regex, one, seq, exactly, times, between, fullmatch}
use optimizr_actions.Security.Classifications.{
  Classification, clean, actionable_vulnerability, unfixed_warning, scanner_error, not_run,
  normalize_security_classification,
}

abbrev pub is_hex : ℕ → Bool
is_hex c = between b'0' b'9' c || between b'a' b'f' c || between b'A' b'F' c

-- `sha256:[0-9a-fA-F]{64}\Z`
abbrev pub image_ref : Regex
image_ref = seq (exactly (codes "sha256:")) (times 64 (one is_hex))

-- `rebuild_result`
pub data Rebuild : Type 0 where
  skipped failed no_change rebuilt : Rebuild

pub record Counts : Type 0 where
  pub fixable_vulnerability_count : ℤ
  pub unfixed_vulnerability_count : ℤ
  pub misconfiguration_count : ℤ
  pub secret_count : ℤ

pub record RetryResult : Type 0 where
  pub initial_result : Classification
  pub rebuild_attempted : Bool
  pub rebuild_result : Rebuild
  pub final_result : Classification
  pub passed : Bool
  pub compatibility_allowed : Bool
  pub counts : Counts

-- `_classification`
abbrev pub or_scanner_error : Option Classification → Classification
or_scanner_error none = scanner_error
or_scanner_error (some not_run) = scanner_error
or_scanner_error (some normalized) = normalized

unfoldable pub classification : Text → Classification
unfolding normalize_security_classification
classification raw = or_scanner_error (normalize_security_classification raw)

abbrev pub is_zero : ℤ → Bool
is_zero (pos zero) = true
is_zero _ = false

abbrev pub is_positive : ℤ → Bool
is_positive (pos (suc n)) = true
is_positive _ = false

unfoldable pub compatibility_allowed : Classification → Rebuild → Counts → Bool
compatibility_allowed unfixed_warning state counts =
    is_unchanged state
    && is_zero counts.fixable_vulnerability_count
    && is_positive counts.unfixed_vulnerability_count
    && is_zero counts.misconfiguration_count
    && is_zero counts.secret_count
  where
    is_unchanged : Rebuild → Bool
    is_unchanged skipped = true
    is_unchanged no_change = true
    is_unchanged _ = false
compatibility_allowed _ state counts = false

-- `ref for ref in lines if ref.strip()`, stripped
unfoldable pub stripped_lines : List Text → List Text
unfolding strip
stripped_lines [] = []
stripped_lines (line ∷ lines) =
    let rest = stripped_lines lines in
    elim (strip line) [ [] ↦ rest | (c ∷ ref) ↦ (c ∷ ref) ∷ rest ]

-- The references of an image, where each of them is immutable.
unfoldable pub refs : Text → Option (List Text)
unfolding stripped_lines splitlines fullmatch
refs raw =
    let lines = stripped_lines (splitlines raw) in
    if all (fullmatch image_ref) lines then some lines else none

-- Equality of the sets.
unfoldable pub same_refs : List Text → List Text → Bool
unfolding member same
same_refs before after =
    all (λ ref. member ref after) before && all (λ ref. member ref before) after

abbrev pub has_refs : List Text → Bool
has_refs [] = false
has_refs (_ ∷ _) = true

abbrev pub is_actionable : Classification → Bool
is_actionable actionable_vulnerability = true
is_actionable _ = false

-- `in {"clean", "unfixed_warning"}`
abbrev pub is_passing : Classification → Bool
is_passing clean = true
is_passing unfixed_warning = true
is_passing _ = false

pub record RetryInputs : Type 0 where
  pub initial_outcome : Text
  pub initial_classification : Text
  pub rebuild_outcome : Text
  pub final_outcome : Text
  pub final_classification : Text
  pub retry_enabled : Bool
  pub initial_refs : Text
  pub remediated_refs : Text
  pub initial_counts : Counts
  pub final_counts : Counts

module _ (inputs : RetryInputs) (initial : Classification) where
  unfoldable pub invalid_refs : RetryResult
  unfolding compatibility_allowed
  invalid_refs =
      let attempted = is_actionable initial && inputs.retry_enabled in
      let result = if attempted then failed else skipped in
      record {
        initial_result = initial;
        rebuild_attempted = attempted;
        rebuild_result = result;
        final_result = scanner_error;
        passed = false;
        compatibility_allowed = compatibility_allowed scanner_error result inputs.initial_counts;
        counts = inputs.initial_counts;
      }

  -- A result of the first scan.
  unfoldable pub without_rebuild : Classification → Bool → Bool → RetryResult
  without_rebuild final passed allowed = record {
    initial_result = initial;
    rebuild_attempted = false;
    rebuild_result = skipped;
    final_result = final;
    passed = passed;
    compatibility_allowed = allowed;
    counts = inputs.initial_counts;
  }

  unfoldable pub failed_rebuild : RetryResult
  failed_rebuild = record {
    initial_result = initial;
    rebuild_attempted = true;
    rebuild_result = failed;
    final_result = scanner_error;
    passed = false;
    compatibility_allowed = false;
    counts = inputs.initial_counts;
  }

  unfoldable pub unchanged : RetryResult
  unfolding compatibility_allowed
  unchanged = record {
    initial_result = initial;
    rebuild_attempted = true;
    rebuild_result = no_change;
    final_result = initial;
    passed = false;
    compatibility_allowed = compatibility_allowed initial no_change inputs.initial_counts;
    counts = inputs.initial_counts;
  }

  -- The scan of the rebuilt image.
  unfoldable pub rescanned : RetryResult
  unfolding classification compatibility_allowed same
  rescanned =
      let final = classification inputs.final_classification in
      let passed = same inputs.final_outcome (codes "success") && is_passing final in
      let result = if passed then rebuilt else failed in
      record {
        initial_result = initial;
        rebuild_attempted = true;
        rebuild_result = result;
        final_result = final;
        passed = passed;
        compatibility_allowed = compatibility_allowed final result inputs.final_counts;
        counts = inputs.final_counts;
      }

  unfoldable pub retried : List Text → List Text → RetryResult
  unfolding same without_rebuild failed_rebuild unchanged rescanned same_refs compatibility_allowed
  retried before after =
      if not (is_actionable initial) || not inputs.retry_enabled
      then without_rebuild initial false
          (compatibility_allowed initial skipped inputs.initial_counts)
      else if same inputs.rebuild_outcome (codes "skipped")
      then without_rebuild initial false false
      else if not (same inputs.rebuild_outcome (codes "success"))
      then failed_rebuild
      else if not (has_refs before) || not (has_refs after)
      then failed_rebuild
      else if same_refs before after
      then unchanged
      else rescanned

  unfoldable pub with_refs : List Text → List Text → RetryResult
  unfolding same without_rebuild retried compatibility_allowed
  with_refs before after =
      if same inputs.initial_outcome (codes "success")
      then if is_passing initial && has_refs before
        then without_rebuild initial true
            (compatibility_allowed initial skipped inputs.initial_counts)
        else if not (is_actionable initial) || not inputs.retry_enabled
        then without_rebuild (if is_actionable initial then initial else scanner_error) false false
        else retried before after
      else retried before after

unfoldable pub evaluate_retry : RetryInputs → RetryResult
unfolding classification refs invalid_refs with_refs
evaluate_retry inputs =
    let initial = classification inputs.initial_classification in
    elim (refs inputs.initial_refs) [
      | none ↦ invalid_refs inputs initial
      | some before ↦ elim (refs inputs.remediated_refs) [
        | none ↦ invalid_refs inputs initial
        | some after ↦ with_refs inputs initial before after
      ]
    ]

-- `int(raw)`, where the text is a number
module _ (int_of : Text → Option ℤ) (environment : Dict Text) where
  unfoldable pub env : Text → Text → Text
  unfolding lookup
  env name default = elim (lookup name environment) [ none ↦ default | some value ↦ value ]

  unfoldable pub env_bool : Text → Bool
  unfolding env same
  env_bool name = same (env name []) (codes "true")

  unfoldable pub env_count : Text → ℤ
  unfolding env
  env_count name = elim (int_of (env name (codes "0"))) [
    | none ↦ pos 0
    | some (pos n) ↦ pos n
    | some (negsuc n) ↦ pos 0
  ]

  unfoldable pub env_counts : Text → Counts
  unfolding env_count
  env_counts prefix = record {
    fixable_vulnerability_count = env_count (prefix ++ codes "_FIXABLE_VULNERABILITY_COUNT");
    unfixed_vulnerability_count = env_count (prefix ++ codes "_UNFIXED_VULNERABILITY_COUNT");
    misconfiguration_count = env_count (prefix ++ codes "_MISCONFIGURATION_COUNT");
    secret_count = env_count (prefix ++ codes "_SECRET_COUNT");
  }

  -- What `main` prints.
  unfoldable pub retry_result : RetryResult
  unfolding env env_bool env_counts evaluate_retry
  retry_result = evaluate_retry (record {
    initial_outcome = env (codes "INITIAL_OUTCOME") [];
    initial_classification = env (codes "INITIAL_CLASSIFICATION") [];
    rebuild_outcome = env (codes "REBUILD_OUTCOME") [];
    final_outcome = env (codes "FINAL_OUTCOME") [];
    final_classification = env (codes "FINAL_CLASSIFICATION") [];
    retry_enabled = env_bool (codes "RETRY_ENABLED");
    initial_refs = env (codes "INITIAL_REFS") [];
    remediated_refs = env (codes "REMEDIATED_REFS") [];
    initial_counts = env_counts (codes "INITIAL");
    final_counts = env_counts (codes "FINAL");
  })
