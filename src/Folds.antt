-- ===== src/Folds.antt =====
-- src/quantara/folds.py: anchored walk-forward folds over the rows of a research table.
-- Row counts and sizes are natural numbers; each difference that the source compares is written as
-- a sum on the other side, which is the same test over the integers.
pub mod Ranges
pub mod Leakage
mod Tests
use quantara.Prelude.{
  ℕ, zero, suc, ◌+◌, ◌-◌, ◌≡◌, Bool, true, false, Option, none, some, List, [], ◌∷◌, length, ltb,
  leb, if◌then◌else◌,
}
use quantara.Errors.{
  Error, Result, ok, err, undersized_parent_dataset, diverged, ◌>>=◌, ◌>>◌, raise_if,
}

abbrev pub default_test_size : ℕ
default_test_size = 72

abbrev pub default_min_train_size : ℕ
default_min_train_size = 336

abbrev pub default_embargo : ℕ
default_embargo = 24

-- A half-open range of row numbers.
abbrev pub Range : Type 0
Range = ℕ × ℕ

pub record Fold : Type 0 where
  pub fold_id : ℕ
  pub train_range : Option Range
  pub embargo_range : Option Range
  pub test_range : Range

pub record Coverage : Type 0 where
  pub total_rows : ℕ
  pub fold_count : ℕ
  pub test_rows : ℕ

pub record FoldPartition : Type 0 where
  pub parent_rows : ℕ
  pub excluded_head_rows : ℕ
  pub folds : List Fold
  pub coverage : Coverage

-- The `while` loop of `compute_test_ranges`, on fuel.
pub range_loop : ℕ → (n_rows test_size current : ℕ) → Result (List Range)
range_loop zero n_rows test_size current = err diverged
range_loop (suc fuel) n_rows test_size current =
    let next_start = current + test_size in
    let rest = do
      ranges ← range_loop fuel n_rows test_size next_start
      ok ((current, next_start) ∷ ranges)
    in if ltb n_rows next_start
      then ok []
      else if ltb n_rows (next_start + test_size)
      then ok ((current, n_rows) ∷ [])
      else rest

pub compute_test_ranges : (n_rows test_size first_test_start : ℕ) → Result (List Range)
unfolding range_loop
compute_test_ranges n_rows test_size first_test_start =
    if ltb n_rows (first_test_start + test_size)
    then ok []
    else range_loop (suc n_rows) n_rows test_size first_test_start

-- The body of the loop over `enumerate(test_ranges)`.
unfoldable pub make_fold : (min_train_size embargo fold_id : ℕ) → Range → Fold
make_fold min_train_size embargo fold_id (test_start, test_end) =
    let train_end = test_start - embargo in
    let trained = leb (min_train_size + embargo) test_start in
    record {
      fold_id = fold_id;
      train_range = if trained then some (0, train_end) else none;
      embargo_range = if trained then some (train_end, test_start) else none;
      test_range = (test_start, test_end);
    }

unfoldable pub make_folds : (min_train_size embargo fold_id : ℕ) → List Range → List Fold
unfolding make_fold
make_folds min_train_size embargo fold_id [] = []
make_folds min_train_size embargo fold_id (r ∷ rs) =
    make_fold min_train_size embargo fold_id r ∷ make_folds min_train_size embargo (suc fold_id) rs

pub total_test_rows : List Fold → ℕ
total_test_rows [] = 0
total_test_rows (f ∷ fs) = f.test_range.1 - f.test_range.0 + total_test_rows fs

-- The record that `build_walkforward_folds` returns for its test ranges.
unfoldable pub assemble_partition : (n_rows min_train_size embargo : ℕ) → List Range → FoldPartition
unfolding make_folds total_test_rows
assemble_partition n_rows min_train_size embargo test_ranges =
    let folds = make_folds min_train_size embargo 0 test_ranges in
    record {
      parent_rows = n_rows;
      excluded_head_rows = min_train_size + embargo;
      folds = folds;
      coverage = record {
        total_rows = n_rows;
        fold_count = length folds;
        test_rows = total_test_rows folds;
      };
    }

unfoldable pub build_walkforward_folds :
    (n_rows test_size min_train_size embargo : ℕ) → Result FoldPartition
unfolding compute_test_ranges assemble_partition
build_walkforward_folds n_rows test_size min_train_size embargo = do
  raise_if (ltb n_rows (min_train_size + embargo + test_size)) undersized_parent_dataset
  let first_test_start = min_train_size + embargo
  test_ranges ← compute_test_ranges n_rows test_size first_test_start
  ok (assemble_partition n_rows min_train_size embargo test_ranges)
