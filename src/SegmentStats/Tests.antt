-- ===== src/SegmentStats/Tests.antt =====
-- A table of four rows, validated in two folds of one row.
use quantara.Prelude.{◌≡◌, refl, Option, none, some, List, [], ◌∷◌, arith}
use quantara.Prelude.Int.{pos, ◌-ℤ◌, ◌+ℤ◌}
use quantara.Text.{Text, codes, numeral, rjust_zeros}
use quantara.Decimal.{Decimal, times, ltb_decimal, context_add, round_coefficient}
use quantara.Errors.{ok}
use quantara.Rows.{Cell}
use quantara.Hashing.{render_decimal_18_python}
use quantara.Hashing.Content.{render_decimal_18, dispatch, use_rust_kernel}
use quantara.Folds.{FoldPartition, assemble_partition, build_walkforward_folds}
use quantara.Features.{
  extract_series, series, as_decimal, compute_features, column_from, fill, one_bar_return,
  change_between, relative_change, compute_labels, labels_loop, direction,
}
use quantara.Features.Table.{
  ResearchRow, build_research_rows, research_rows, row_at, stored_at, storage, open_time_of,
}
use quantara.Features.Fixtures.{context_18, no_text, parent_row, warm_row}
use quantara.SegmentStats.Stage.{validation_report, fold_stats_list}
use quantara.SegmentStats.{compute_fold_stats}
use quantara.SegmentStats.Structure.{table_parameters}
use quantara.SegmentStats.Order.{ParentsRise}
use quantara.SegmentStats.Passes.{Validates, validation_report-build}
use quantara.Validation.{evaluate_validation_quality}
use quantara.Validation.Statistics.{FoldStats, NullCounts}

abbrev parents : List (List Cell)
parents = parent_row 100 1 7 ∷ parent_row 200 1 7 ∷ parent_row 300 1 7 ∷ parent_row 400 1 7 ∷ []

abbrev unchanged : Decimal
unchanged = record { coefficient = pos 0; scale = 18 }

abbrev table : List ResearchRow
table =
    warm_row 100 none (some unchanged) (some (pos 0))
    ∷ warm_row 200 (some unchanged) (some unchanged) (some (pos 0))
    ∷ warm_row 300 (some unchanged) (some unchanged) (some (pos 0))
    ∷ warm_row 400 (some unchanged) none none
    ∷ []

build_table : build_research_rows context_18 no_text parents 1 ≡ ok table
unfolding build_research_rows extract_series series as_decimal compute_features column_from fill
    one_bar_return change_between relative_change compute_labels labels_loop direction research_rows
    row_at stored_at storage open_time_of times ltb_decimal ◌-ℤ◌
build_table = refl

parents_rise : ParentsRise parents
unfolding open_time_of
parents_rise = (
  100,
  refl,
  omega arith,
  (200, refl, omega arith, (300, refl, omega arith, (400, refl, omega arith, tt))),
)

abbrev expected_1 : NullCounts
expected_1 = record {
  f_ret_1 = 0;
  f_roc_60 = 1;
  f_rvol_20 = 1;
  f_volratio_20 = 1;
  l_fwdret_24 = 0;
  l_fwddir_24 = 0;
}

abbrev expected_2 : NullCounts
expected_2 = record {
  f_ret_1 = 0;
  f_roc_60 = 1;
  f_rvol_20 = 1;
  f_volratio_20 = 1;
  l_fwdret_24 = 1;
  l_fwddir_24 = 1;
}

abbrev zero_text : Option Text
zero_text = some (codes "0.000000000000000000")

abbrev stats : List FoldStats
stats =
    record {
      row_count = 1;
      open_time_ms_first = 300;
      open_time_ms_last = 300;
      null_counts = expected_1;
      expected_null_counts = expected_1;
      sign_distribution = record { down = 0; flat = 1; up = 0 };
      fwdret_mean = zero_text;
      fwdret_min = zero_text;
      fwdret_max = zero_text;
    }
    ∷ record {
      row_count = 1;
      open_time_ms_first = 400;
      open_time_ms_last = 400;
      null_counts = expected_2;
      expected_null_counts = expected_2;
      sign_distribution = record { down = 0; flat = 0; up = 0 };
      fwdret_mean = none;
      fwdret_min = none;
      fwdret_max = none;
    }
    ∷ []

abbrev read_zero : Text → Option Decimal
read_zero t = some unchanged

abbrev folds : FoldPartition
folds = assemble_partition 4 1 1 ((2, 3) ∷ (3, 4) ∷ [])

two_segments :
    validation_report context_18 read_zero table 1 1 1 (table_parameters 1)
    ≡ ok (folds, stats, evaluate_validation_quality read_zero folds stats 4 1 1)
unfolding validation_report fold_stats_list compute_fold_stats build_walkforward_folds
    render_decimal_18 dispatch use_rust_kernel render_decimal_18_python context_add
    round_coefficient numeral rjust_zeros times ltb_decimal ◌+ℤ◌
two_segments = refl

validation_report-build_example :
    Validates context_18 read_zero table
      (validation_report context_18 read_zero table 1 1 1 (table_parameters 1))
validation_report-build_example =
    validation_report-build context_18 no_text read_zero parents 1 1 1 1 table parents_rise
      (omega arith) (omega arith) build_table
