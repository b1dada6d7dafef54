-- ===== src/Validation/Tests.antt =====
-- The gate on two folds of 520 rows.
use quantara.Prelude.{ℕ, ◌≡◌, ◌↔◌, refl, Option, some, List, [], ◌∷◌, arith}
use quantara.Prelude.Int.{pos}
use quantara.Text.{Text, codes}
use quantara.Decimal.{Decimal, leb_decimal, times}
use quantara.Errors.{ok}
use quantara.Folds.{
  FoldPartition, assemble_partition, make_folds, make_fold, build_walkforward_folds,
}
use quantara.Validation.{
  state_pass, state_fail, row_range, member, overlaps, segments_loop, coverage_ok, leaks_between,
  leaks, any_failing, count_ok, findings_of, report_of, evaluate_validation_quality,
}
use quantara.Validation.Statistics.{
  count_if, null_mismatches, null_failures, signs_fail, decimal_or_raise, out_of_bounds, mean_fails,
  returns_fail, time_failures_from, time_failures,
}
use quantara.Validation.Statistics.{NullCounts, FoldStats}
use quantara.Validation.Demands.{StatsPass}
use quantara.Validation.Gate.{evaluate_validation_quality-build}

-- It reads two numbers.
abbrev read_decimal : Text → Option Decimal
read_decimal t = some (record { coefficient = pos 0; scale = 0 })

evaluate_validation_quality-build_example :
    (p : FoldPartition) × (build_walkforward_folds 520 72 336 24 ≡ ok p)
    × ((stats : List FoldStats)
        → ((evaluate_validation_quality read_decimal p stats 520 336 24).state ≡ state_pass)
          ↔ StatsPass read_decimal p stats)
evaluate_validation_quality-build_example =
    evaluate_validation_quality-build read_decimal 520 72 336 24 (omega arith) (omega arith)

abbrev no_nulls : NullCounts
no_nulls = record {
  f_ret_1 = 0;
  f_roc_60 = 0;
  f_rvol_20 = 0;
  f_volratio_20 = 0;
  l_fwdret_24 = 0;
  l_fwddir_24 = 0;
}

abbrev segment : (rows first last : ℕ) → FoldStats
segment rows first last = record {
  row_count = rows;
  open_time_ms_first = first;
  open_time_ms_last = last;
  null_counts = no_nulls;
  expected_null_counts = no_nulls;
  sign_distribution = record { down = rows; flat = 0; up = 0 };
  fwdret_mean = some (codes "0");
  fwdret_min = some (codes "0");
  fwdret_max = some (codes "0");
}

-- Two segments in order pass; with the second in the place of the first they fail.
in_order :
    (evaluate_validation_quality read_decimal
      (assemble_partition 6 1 1 ((2, 4) ∷ (4, 6) ∷ []))
      (segment 2 10 20 ∷ segment 2 30 40 ∷ [])
      6
      1
      1).state
    ≡ state_pass
unfolding evaluate_validation_quality findings_of report_of any_failing coverage_ok segments_loop
    overlaps member row_range leaks leaks_between count_if null_failures null_mismatches signs_fail
    returns_fail mean_fails decimal_or_raise out_of_bounds leb_decimal times time_failures
    time_failures_from count_ok assemble_partition make_folds make_fold
in_order = refl

out_of_order :
    (evaluate_validation_quality read_decimal
      (assemble_partition 6 1 1 ((2, 4) ∷ (4, 6) ∷ []))
      (segment 2 30 40 ∷ segment 2 10 20 ∷ [])
      6
      1
      1).state
    ≡ state_fail
unfolding evaluate_validation_quality findings_of report_of any_failing coverage_ok segments_loop
    overlaps member row_range leaks leaks_between count_if null_failures null_mismatches signs_fail
    returns_fail mean_fails decimal_or_raise out_of_bounds leb_decimal times time_failures
    time_failures_from count_ok assemble_partition make_folds make_fold
out_of_order = refl
