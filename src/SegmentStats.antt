-- ===== src/SegmentStats.antt =====
-- src/quantara/fold_stats.py: the statistics of one test segment of the research table. The context of
-- 50 digits is the one of features.py; `sum` adds in Python's ambient context, of 28 digits. The record
-- that is returned stands in Validation/Statistics, since validation_quality.py reads it.
pub mod Counts
pub mod Order
pub mod Stage
pub mod Passes
pub mod Structure
pub mod Total
mod Tests
use Prim.Native.Nat.{min, max}
use quantara.Prelude.{
  ℕ, zero, suc, ◌+◌, ◌-◌, Option, none, some, List, [], ◌∷◌, ◌++◌, length, if◌then◌else◌,
}
use quantara.Prelude.Int.{ℤ, pos, negsuc}
use quantara.Text.{Text}
use quantara.Decimal.{Decimal, context_add, ltb_decimal}
use quantara.Errors.{Result, ok, err, ◌>>=◌, value_error}
use quantara.Hashing.Content.{render_decimal_18}
use quantara.Folds.{Range}
use quantara.Features.{Context, whole, slice}
use quantara.Features.Table.{ResearchRow}
use quantara.Validation.Statistics.{NullCounts, SignDistribution, FoldStats}

-- The parameters are given, as by the pipeline: the defaults for None are not modelled.
pub record Parameters : Type 0 where
  pub roc_window : ℕ
  pub vol_window : ℕ
  pub volume_window : ℕ
  pub label_horizon : ℕ

-- The closure `overlap`; a difference below 0 is 0, here as in `max(0, ...)`.
abbrev pub overlap : (a b c d : ℕ) → ℕ
overlap a b c d = min b d - max a c

unfoldable pub compute_expected_segment_nulls :
    (start_idx end_idx total_parent_rows : ℕ) → Parameters → NullCounts
compute_expected_segment_nulls start_idx end_idx total_parent_rows params =
    let n = total_parent_rows in
    let h = params.label_horizon in
    record {
      f_ret_1 = overlap start_idx end_idx 0 1;
      f_roc_60 = overlap start_idx end_idx 0 params.roc_window;
      f_rvol_20 = overlap start_idx end_idx 0 params.vol_window;
      f_volratio_20 = overlap start_idx end_idx 0 (params.volume_window - 1);
      l_fwdret_24 = overlap start_idx end_idx (n - h) n;
      l_fwddir_24 = overlap start_idx end_idx (n - h) n;
    }

-- What the loop over the rows of the segment counts and collects.
pub record Tally : Type 0 where
  pub null_counts : NullCounts
  pub sign_counts : SignDistribution
  pub fwdret_values : List Decimal

abbrev pub raise_null {ℓ} : {A : Type ℓ} → Option A → ℕ → ℕ
raise_null none n = suc n
raise_null (some a) n = n

unfoldable pub count_nulls : ResearchRow → NullCounts → NullCounts
count_nulls row counts = record {
  f_ret_1 = raise_null row.f_ret_1 counts.f_ret_1;
  f_roc_60 = raise_null row.f_roc_60 counts.f_roc_60;
  f_rvol_20 = raise_null row.f_rvol_20 counts.f_rvol_20;
  f_volratio_20 = raise_null row.f_volratio_20 counts.f_volratio_20;
  l_fwdret_24 = raise_null row.l_fwdret_24 counts.l_fwdret_24;
  l_fwddir_24 = raise_null row.l_fwddir_24 counts.l_fwddir_24;
}

-- A direction that is none of the three is not counted.
unfoldable pub count_sign : Option ℤ → SignDistribution → SignDistribution
count_sign none signs = signs
count_sign (some (negsuc zero)) signs = record {
  down = suc signs.down;
  flat = signs.flat;
  up = signs.up;
}
count_sign (some (pos zero)) signs = record {
  down = signs.down;
  flat = suc signs.flat;
  up = signs.up;
}
count_sign (some (pos (suc zero))) signs = record {
  down = signs.down;
  flat = signs.flat;
  up = suc signs.up;
}
count_sign _ signs = signs

abbrev pub append_value : Option Decimal → List Decimal → List Decimal
append_value none values = values
append_value (some value) values = values ++ (value ∷ [])

unfoldable pub count_row : ResearchRow → Tally → Tally
unfolding count_nulls count_sign
count_row row tally = record {
  null_counts = count_nulls row tally.null_counts;
  sign_counts = count_sign row.l_fwddir_24 tally.sign_counts;
  fwdret_values = append_value row.l_fwdret_24 tally.fwdret_values;
}

unfoldable pub tally_rows : List ResearchRow → Tally → Tally
unfolding count_row
tally_rows [] tally = tally
tally_rows (row ∷ rows) tally = tally_rows rows (count_row row tally)

abbrev pub empty_tally : Tally
empty_tally = record {
  null_counts = record {
    f_ret_1 = 0;
    f_roc_60 = 0;
    f_rvol_20 = 0;
    f_volratio_20 = 0;
    l_fwdret_24 = 0;
    l_fwddir_24 = 0;
  };
  sign_counts = record { down = 0; flat = 0; up = 0 };
  fwdret_values = [];
}

-- `sum(values)`, from 0 on.
unfoldable pub sum_from : Decimal → List Decimal → Decimal
sum_from total [] = total
sum_from total (value ∷ values) = sum_from (context_add 28 total value) values

-- `min(values)` and `max(values)` of the values behind the first.
unfoldable pub min_from : Decimal → List Decimal → Decimal
min_from least [] = least
min_from least (value ∷ values) = min_from (if ltb_decimal value least then value else least) values

unfoldable pub max_from : Decimal → List Decimal → Decimal
max_from most [] = most
max_from most (value ∷ values) = max_from (if ltb_decimal most value then value else most) values

-- `parent_rows[start:end]` has a first row: the times of the first and of the last.
unfoldable pub last_open_time : ResearchRow → List ResearchRow → ℕ
last_open_time row [] = row.open_time_ms
last_open_time row (next ∷ rows) = last_open_time next rows

-- The mean, the minimum and the maximum.
pub record Bounds : Type 0 where
  pub fwdret_mean : Option Text
  pub fwdret_min : Option Text
  pub fwdret_max : Option Text

-- `if total_parent_rows is not None`
unfoldable pub parent_total : Option ℕ → List ResearchRow → ℕ
parent_total none parent_rows = length parent_rows
parent_total (some n) parent_rows = n

module _ (context : Context) where
  -- `render_decimal_18(quantize_q18(value))`
  unfoldable pub render : Decimal → Result Text
  render value =
      context.quantize value >>= λ quantized. render_decimal_18 context.renderer quantized

  unfoldable pub bounds_of : List Decimal → Result Bounds
  unfolding render sum_from min_from max_from
  bounds_of [] = ok (record { fwdret_mean = none; fwdret_min = none; fwdret_max = none })
  bounds_of (value ∷ values) =
      context.divide (sum_from (whole 0) (value ∷ values)) (whole (suc (length values)))
      >>= λ mean_dec. render mean_dec >>= λ mean. render (min_from value values) >>= λ least.
          render (max_from value values) >>= λ most.
          ok (record { fwdret_mean = some mean; fwdret_min = some least; fwdret_max = some most })

  -- The statistics of the rows of a segment.
  unfoldable pub segment_stats : (expected : NullCounts) → List ResearchRow → Result FoldStats
  unfolding tally_rows bounds_of last_open_time
  segment_stats expected [] = err value_error
  segment_stats expected (row ∷ rows) =
      let tally = tally_rows (row ∷ rows) empty_tally in
      bounds_of tally.fwdret_values >>= λ bounds. ok (record {
        row_count = length (row ∷ rows);
        open_time_ms_first = row.open_time_ms;
        open_time_ms_last = last_open_time row rows;
        null_counts = tally.null_counts;
        expected_null_counts = expected;
        sign_distribution = tally.sign_counts;
        fwdret_mean = bounds.fwdret_mean;
        fwdret_min = bounds.fwdret_min;
        fwdret_max = bounds.fwdret_max;
      })

  unfoldable pub compute_fold_stats :
      (parent_rows : List ResearchRow) (test_range : Range) (total_parent_rows : Option ℕ)
      → Parameters
      → Result FoldStats
  unfolding segment_stats compute_expected_segment_nulls parent_total
  compute_fold_stats parent_rows (start_idx, end_idx) total_parent_rows params =
      segment_stats
        (compute_expected_segment_nulls start_idx end_idx
          (parent_total total_parent_rows parent_rows) params)
        (slice start_idx end_idx parent_rows)
