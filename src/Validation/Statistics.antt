-- ===== src/Validation/Statistics.antt =====
-- src/quantara/validation_quality.py: the checks of the statistics of the folds, which fold_stats.py gives.
use quantara.Prelude.{
  ℕ, ◌+◌, Bool, true, false, not, ◌&&◌, Option, none, some, List, [], ◌∷◌, ltb, leb, ◌==◌,
  if◌then◌else◌,
}
use quantara.Text.{Text}
use quantara.Decimal.{Decimal, leb_decimal}

-- The six columns of `NULLABLE_COLUMNS`.
pub record NullCounts : Type 0 where
  pub f_ret_1 : ℕ
  pub f_roc_60 : ℕ
  pub f_rvol_20 : ℕ
  pub f_volratio_20 : ℕ
  pub l_fwdret_24 : ℕ
  pub l_fwddir_24 : ℕ

pub record SignDistribution : Type 0 where
  pub down : ℕ
  pub flat : ℕ
  pub up : ℕ

pub record FoldStats : Type 0 where
  pub row_count : ℕ
  pub open_time_ms_first : ℕ
  pub open_time_ms_last : ℕ
  pub null_counts : NullCounts
  pub expected_null_counts : NullCounts
  pub sign_distribution : SignDistribution
  pub fwdret_mean : Option Text
  pub fwdret_min : Option Text
  pub fwdret_max : Option Text

-- The number of elements for which a counter is raised.
unfoldable pub count_if {ℓ} : {A : Type ℓ} → (A → Bool) → List A → ℕ
count_if test [] = 0
count_if test (a ∷ as_) = (if test a then 1 else 0) + count_if test as_

abbrev pub differ : ℕ → ℕ → ℕ
differ actual expected = if actual == expected then 0 else 1

-- The inner loop over `NULLABLE_COLUMNS`.
unfoldable pub null_mismatches : (actual expected : NullCounts) → ℕ
null_mismatches actual expected =
    differ actual.f_ret_1 expected.f_ret_1
    + differ actual.f_roc_60 expected.f_roc_60
    + differ actual.f_rvol_20 expected.f_rvol_20
    + differ actual.f_volratio_20 expected.f_volratio_20
    + differ actual.l_fwdret_24 expected.l_fwdret_24
    + differ actual.l_fwddir_24 expected.l_fwddir_24

unfoldable pub null_failures : List FoldStats → ℕ
unfolding null_mismatches
null_failures [] = 0
null_failures (stats ∷ rest) =
    null_mismatches stats.null_counts stats.expected_null_counts + null_failures rest

unfoldable pub signs_fail : FoldStats → Bool
signs_fail stats =
    let signs = stats.sign_distribution in
    not (signs.down + signs.flat + signs.up + stats.null_counts.l_fwddir_24 == stats.row_count)

-- `Decimal(value)` of a string or None; None raises.
unfoldable pub decimal_or_raise :
    (decimal_of : Text → Option Decimal) → Option Text → Option Decimal
decimal_or_raise decimal_of none = none
decimal_or_raise decimal_of (some t) = decimal_of t

unfoldable pub out_of_bounds : (mean low high : Option Decimal) → Bool
out_of_bounds (some mean) (some low) (some high) =
    not (leb_decimal low mean && leb_decimal mean high)
out_of_bounds _ _ _ = true

-- The test of the bounds, where there is a mean.
unfoldable pub mean_fails :
    (decimal_of : Text → Option Decimal) (low high : Option Decimal) → (mean : Option Text) → Bool
unfolding out_of_bounds
mean_fails decimal_of low high none = false
mean_fails decimal_of low high (some mean) = out_of_bounds (decimal_of mean) low high

unfoldable pub returns_fail : (decimal_of : Text → Option Decimal) → FoldStats → Bool
unfolding decimal_or_raise mean_fails
returns_fail decimal_of stats =
    mean_fails decimal_of (decimal_or_raise decimal_of stats.fwdret_min)
      (decimal_or_raise decimal_of stats.fwdret_max) stats.fwdret_mean

-- The loop over the segments' times, behind the segment that came before.
unfoldable pub time_failures_from : (previous : FoldStats) → List FoldStats → ℕ
time_failures_from previous [] = 0
time_failures_from previous (stats ∷ rest) =
    (if ltb stats.open_time_ms_last stats.open_time_ms_first then 1 else 0)
    + (if leb stats.open_time_ms_first previous.open_time_ms_last then 1 else 0)
    + time_failures_from stats rest

unfoldable pub time_failures : List FoldStats → ℕ
unfolding time_failures_from
time_failures [] = 0
time_failures (stats ∷ rest) =
    (if ltb stats.open_time_ms_last stats.open_time_ms_first then 1 else 0)
    + time_failures_from stats rest
