-- ===== src/Validation.antt =====
-- src/quantara/validation_quality.py: the gate between the folds and their publication. The counts of nulls
-- and signs are records with the keys that fold_stats.py gives; the keys of the coverage are those of
-- folds.py. `decimal_of` stands for the constructor of Decimal, `none` where it raises; the
-- `evidence` of a finding is a record for people and is read by no decision.
pub mod Demands
pub mod Gate
pub mod Segments
pub mod Statistics
mod Tests
use quantara.Prelude.{
  ℕ, zero, suc, ◌+◌, ◌-◌, Bool, true, false, not, ◌&&◌, ◌||◌, Option, none, some, List, [], ◌∷◌,
  ◌++◌, length, ltb, leb, ◌==◌, if◌then◌else◌,
}
use quantara.Text.{Text}
use quantara.Decimal.{Decimal, leb_decimal}
use quantara.Folds.{Range, Fold, FoldPartition}
use quantara.Validation.Statistics.{
  FoldStats, NullCounts, SignDistribution, count_if, decimal_or_raise, differ, mean_fails,
  null_failures, null_mismatches, out_of_bounds, returns_fail, signs_fail, time_failures,
  time_failures_from,
}

pub data CheckId : Type 0 where
  validation_coverage_partition validation_fold_count validation_fold_leakage_invariants : CheckId
  validation_structural_nulls validation_sign_distribution_sum validation_returns_bounds : CheckId
  validation_time_bounds : CheckId

pub data Outcome : Type 0 where
  pass fail : Outcome

pub record Finding : Type 0 where
  pub check_id : CheckId
  pub outcome : Outcome
  pub count : ℕ

pub data State : Type 0 where
  state_pass state_fail : State

pub record ValidationQualityReport : Type 0 where
  pub findings : List Finding
  pub state : State

-- The closure `record`.
abbrev pub record_check : CheckId → Bool → ℕ → Finding
record_check check_id ok count = record {
  check_id = check_id;
  outcome = if ok then pass else fail;
  count = count;
}

-- `range(start, start + count)`
unfoldable pub row_range : (start count : ℕ) → List ℕ
row_range start zero = []
row_range start (suc count) = start ∷ row_range (suc start) count

unfoldable pub member : ℕ → List ℕ → Bool
member i [] = false
member i (j ∷ js) = i == j || member i js

-- `test_indices & cur_set` is not empty.
unfoldable pub overlaps : (test_indices cur_set : List ℕ) → Bool
unfolding member
overlaps [] cur_set = false
overlaps (i ∷ test_indices) cur_set = member i cur_set || overlaps test_indices cur_set

-- The loop over the folds: whether their test segments are disjoint, and the number of rows in the set
-- `test_indices` where it ends. What is added to the set is disjoint from it.
unfoldable pub segments_loop : (test_indices : List ℕ) → List Fold → Bool × ℕ
unfolding overlaps row_range
segments_loop test_indices [] = (true, length test_indices)
segments_loop test_indices (f ∷ folds) =
    let cur_set = row_range f.test_range.0 (f.test_range.1 - f.test_range.0) in
    let rest = segments_loop (cur_set ++ test_indices) folds in
    if overlaps test_indices cur_set then (false, length test_indices) else rest

unfoldable pub coverage_ok : FoldPartition → (expected_parent_rows : ℕ) → Bool
unfolding segments_loop
coverage_ok partition expected_parent_rows =
    let (segments_disjoint, indices) = segments_loop [] partition.folds in
    let total_matches =
      partition.parent_rows == expected_parent_rows
      && partition.coverage.total_rows == expected_parent_rows in
    let role_sum_matches =
      partition.excluded_head_rows + partition.coverage.test_rows == expected_parent_rows in
    let coverage_keys_valid = partition.coverage.fold_count == length partition.folds in
    total_matches
    && role_sum_matches
    && coverage_keys_valid
    && segments_disjoint
    && indices == partition.coverage.test_rows

abbrev pub is_range : Range → ℕ → ℕ → Bool
is_range (a, b) start end = a == start && b == end

-- The ranges of one fold, where both are given: each `continue` of the loop is a test.
unfoldable pub leaks_between :
    (min_train_size embargo : ℕ) (train embargo_range test : Range) → Bool
leaks_between min_train_size embargo (train_start, train_end) embargo_range (test_start, test_end) =
    ltb train_end (min_train_size + train_start)
    || not (test_start == train_end + embargo)
    || not (is_range embargo_range train_end test_start)
    || leb (test_start + 1) (train_end + embargo)

unfoldable pub leaks : (min_train_size embargo : ℕ) → Fold → Bool
leaks min_train_size embargo fold = elim fold.train_range [
  | none ↦ true
  | some train ↦ elim fold.embargo_range [
    | none ↦ true
    | some embargoed ↦ leaks_between min_train_size embargo train embargoed fold.test_range
  ]
]

unfoldable pub any_failing : List Finding → Bool
any_failing [] = false
any_failing (f ∷ findings) = elim f.outcome [ pass ↦ any_failing findings | fail ↦ true ]

unfoldable pub count_ok : (fold_count stats_count : ℕ) → Bool
count_ok fold_count stats_count = ltb 0 fold_count && fold_count == stats_count

-- The findings in the order in which they are recorded.
unfoldable pub findings_of :
    (decimal_of : Text → Option Decimal) (partition : FoldPartition) (stats : List FoldStats)
    (expected_parent_rows min_train_size embargo : ℕ)
    → List Finding
unfolding count_ok
findings_of decimal_of partition stats expected_parent_rows min_train_size embargo =
    let cov_ok = coverage_ok partition expected_parent_rows in
    let counted = count_ok (length partition.folds) (length stats) in
    let leakage_failures = count_if (leaks min_train_size embargo) partition.folds in
    let nulls = null_failures stats in
    let signs = count_if signs_fail stats in
    let returns = count_if (returns_fail decimal_of) stats in
    let times = time_failures stats in
    record_check validation_coverage_partition cov_ok (if cov_ok then 0 else 1)
    ∷ record_check validation_fold_count counted (if counted then 0 else 1)
    ∷ record_check validation_fold_leakage_invariants (leakage_failures == 0) leakage_failures
    ∷ record_check validation_structural_nulls (nulls == 0) nulls
    ∷ record_check validation_sign_distribution_sum (signs == 0) signs
    ∷ record_check validation_returns_bounds (returns == 0) returns
    ∷ record_check validation_time_bounds (times == 0) times
    ∷ []

unfoldable pub report_of : List Finding → ValidationQualityReport
unfolding any_failing
report_of findings = record {
  findings = findings;
  state = if any_failing findings then state_fail else state_pass;
}

unfoldable pub evaluate_validation_quality :
    (decimal_of : Text → Option Decimal) (partition : FoldPartition) (stats : List FoldStats)
    (expected_parent_rows min_train_size embargo : ℕ)
    → ValidationQualityReport
evaluate_validation_quality decimal_of partition stats expected_parent_rows min_train_size embargo =
    report_of (findings_of decimal_of partition stats expected_parent_rows min_train_size embargo)
