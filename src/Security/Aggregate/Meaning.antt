-- ===== src/Security/Aggregate/Meaning.antt =====
-- What the aggregate of the summaries says of each of them.
use optimizr_actions.Prelude.{
  ℕ, ◌+◌, ◌<◌, ◌≡◌, subst, inl, inr, Bool, Bool-cases, true, false, List, [], ◌∷◌, All, Any, sum_by,
  ltb, Result, ok, bind_then, if_lem, arith,
}
use optimizr_actions.Security.Classifications.{
  Classification, clean, actionable_vulnerability, unfixed_warning, misconfiguration_detected,
  secret_detected, scanner_error,
}
use optimizr_actions.Security.Aggregate.{
  AggregateError, SummaryFile, Totals, Aggregate, no_findings, read_counts, add_counts,
  add_summaries, classification_of, aggregate_summaries,
}

-- The counts that the summaries give, one by one.
pub data Counted : List SummaryFile → List Totals → Type 0 where
  none_left : Counted [] []
  counted :
      (file : SummaryFile) (counts : Totals) (files : List SummaryFile) (rest : List Totals)
      → read_counts file ≡ ok counts
      → Counted files rest
      → Counted (file ∷ files) (counts ∷ rest)

abbrev pub IsFree : (Totals → ℕ) → List Totals → Type 0
IsFree f summaries = All (λ t. f t ≡ 0) summaries

abbrev pub Finds : (Totals → ℕ) → List Totals → Type 0
Finds f summaries = Any (λ t. 0 < f t) summaries

-- What a classification says: the first kind of finding that some summary counts.
pub data Means (summaries : List Totals) : Bool → Classification → Type 0 where
  gate_failed : Means summaries true scanner_error
  finds_secrets : Finds (λ t. t.secret_count) summaries → Means summaries false secret_detected
  finds_misconfigurations :
      IsFree (λ t. t.secret_count) summaries
      → Finds (λ t. t.misconfiguration_count) summaries
      → Means summaries false misconfiguration_detected
  finds_fixable :
      IsFree (λ t. t.secret_count) summaries
      → IsFree (λ t. t.misconfiguration_count) summaries
      → Finds (λ t. t.fixable_vulnerability_count) summaries
      → Means summaries false actionable_vulnerability
  finds_unfixed :
      IsFree (λ t. t.secret_count) summaries
      → IsFree (λ t. t.misconfiguration_count) summaries
      → IsFree (λ t. t.fixable_vulnerability_count) summaries
      → Finds (λ t. t.unfixed_vulnerability_count) summaries
      → Means summaries false unfixed_warning
  finds_nothing :
      IsFree (λ t. t.secret_count) summaries
      → IsFree (λ t. t.misconfiguration_count) summaries
      → IsFree (λ t. t.fixable_vulnerability_count) summaries
      → IsFree (λ t. t.unfixed_vulnerability_count) summaries
      → Means summaries false clean

pub record Sums (start : Totals) (summaries : List Totals) (totals : Totals) : Type 0 where
  pub fixable :
      totals.fixable_vulnerability_count
      ≡ start.fixable_vulnerability_count + sum_by (λ t. t.fixable_vulnerability_count) summaries
  pub unfixed :
      totals.unfixed_vulnerability_count
      ≡ start.unfixed_vulnerability_count + sum_by (λ t. t.unfixed_vulnerability_count) summaries
  pub misconfigurations :
      totals.misconfiguration_count
      ≡ start.misconfiguration_count + sum_by (λ t. t.misconfiguration_count) summaries
  pub secrets : totals.secret_count ≡ start.secret_count + sum_by (λ t. t.secret_count) summaries

sum_zero : (f : Totals → ℕ) (summaries : List Totals) → sum_by f summaries ≡ 0 → IsFree f summaries
sum_zero f [] h = tt
sum_zero f (t ∷ ts) h = (ground arith, sum_zero f ts (ground arith))

sum_positive :
    (f : Totals → ℕ) (summaries : List Totals) → 0 < sum_by f summaries → Finds f summaries
sum_positive f [] h = absurd (ground arith)
sum_positive f (t ∷ ts) h = elim (Bool-cases (ltb 0 (f t))) [
  | inl here ↦ inl (ground arith)
  | inr gone ↦ inr (sum_positive f ts (ground arith))
]

-- A total that is tested, and what it says of the summaries.
none_found :
    (f : Totals → ℕ) (summaries : List Totals) (total : ℕ)
    → total ≡ 0 + sum_by f summaries
    → ltb 0 total ≡ false
    → IsFree f summaries
none_found f summaries total e h = sum_zero f summaries (ground arith)

some_found :
    (f : Totals → ℕ) (summaries : List Totals) (total : ℕ)
    → total ≡ 0 + sum_by f summaries
    → ltb 0 total ≡ true
    → Finds f summaries
some_found f summaries total e h = sum_positive f summaries (ground arith)

classification_of-Means :
    (summaries : List Totals) (totals : Totals) (gate_error : Bool)
    → Sums no_findings summaries totals
    → Means summaries gate_error (classification_of totals gate_error)
unfolding classification_of
classification_of-Means summaries totals true sums = gate_failed
classification_of-Means summaries totals false sums =
    let P : Classification → Type 0 = Means summaries false in
    if_lem P (ltb 0 totals.secret_count) _ _
      (λ h. finds_secrets (some_found _ summaries totals.secret_count sums.secrets h))
      (λ s.
        let free_s = none_found _ summaries totals.secret_count sums.secrets s in
        if_lem P (ltb 0 totals.misconfiguration_count) _ _
          (λ h.
            finds_misconfigurations free_s
              (some_found _ summaries totals.misconfiguration_count sums.misconfigurations h))
          (λ m.
            let free_m =
              none_found _ summaries totals.misconfiguration_count sums.misconfigurations m in
            if_lem P (ltb 0 totals.fixable_vulnerability_count) _ _
              (λ h.
                finds_fixable free_s free_m
                  (some_found _ summaries totals.fixable_vulnerability_count sums.fixable h))
              (λ f.
                let free_f =
                  none_found _ summaries totals.fixable_vulnerability_count sums.fixable f in
                if_lem P (ltb 0 totals.unfixed_vulnerability_count) _ _
                  (λ h.
                    finds_unfixed free_s free_m free_f
                      (some_found _ summaries totals.unfixed_vulnerability_count sums.unfixed h))
                  (λ u.
                    finds_nothing free_s free_m free_f
                      (none_found _ summaries totals.unfixed_vulnerability_count sums.unfixed u)))))

pub record IsAccurate (files : List SummaryFile) (gate_error : Bool) (aggregate : Aggregate)
    : Type 0 where
  pub summaries : List Totals
  pub read : Counted files summaries
  pub sums : Sums no_findings summaries aggregate.totals
  pub means : Means summaries gate_error aggregate.classification

add_summaries-Sums :
    (start : Totals) (files : List SummaryFile) (totals : Totals)
    → add_summaries start files ≡ ok totals
    → (summaries : List Totals) × Counted files summaries × Sums start summaries totals
unfolding add_summaries add_counts
add_summaries-Sums start [] totals h =
    let same_totals : start ≡ totals = cc in
    (
      [],
      none_left,
      subst (Sums start []) same_totals (record {
        fixable = ground arith;
        unfixed = ground arith;
        misconfigurations = ground arith;
        secrets = ground arith;
      }),
    )
add_summaries-Sums start (file ∷ files) totals h =
    let (counts, read, k) =
      bind_then (read_counts file) (λ counts. add_summaries (add_counts start counts) files) h in
    let (summaries, all_read, sums) = add_summaries-Sums (add_counts start counts) files totals k in
    (
      counts ∷ summaries,
      counted file counts files summaries read all_read,
      record {
        fixable = ground (arith, sums.fixable);
        unfixed = ground (arith, sums.unfixed);
        misconfigurations = ground (arith, sums.misconfigurations);
        secrets = ground (arith, sums.secrets);
      },
    )

-- An aggregate that is returned has read every file, its totals are the sums of their counts, and its
-- classification is the gate's error or the first of secrets, misconfigurations, fixable and unfixed
-- vulnerabilities that some summary counts, and clean only where no summary counts anything.
pub aggregate_summaries-IsAccurate :
    (files : List SummaryFile) (gate_error : Bool) (aggregate : Aggregate)
    → aggregate_summaries files gate_error ≡ ok aggregate
    → IsAccurate files gate_error aggregate
unfolding aggregate_summaries
aggregate_summaries-IsAccurate [] gate_error aggregate h = absurd cc
aggregate_summaries-IsAccurate (file ∷ files) gate_error aggregate h =
    let (totals, added, k) = bind_then (add_summaries no_findings (file ∷ files)) _ h in
    let (summaries, read, sums) = add_summaries-Sums no_findings (file ∷ files) totals added in
    subst (IsAccurate (file ∷ files) gate_error) (returned k) (record {
      summaries = summaries;
      read = read;
      sums = sums;
      means = classification_of-Means summaries totals gate_error sums;
    })
  where
    returned : {x y : Aggregate} → Path (Result AggregateError Aggregate) (ok x) (ok y) → x ≡ y
    returned e = cc
