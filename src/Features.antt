-- ===== src/Features.antt =====
-- src/quantara/features.py: the features and labels of the research table. A row of the parent is
-- the positional tuple that Parquet gives back. What the code takes of `decimal.Context(prec=50)` but
-- its sum is a record of operations, each of which may raise; `decimal_of_str` stands for
-- `Decimal(str(value))` of a value that is neither a float nor a Decimal.
pub mod Causal
pub mod Columns
pub mod Forward
pub mod Nulls
pub mod Rows
pub mod Table
pub mod Windows
pub mod Fixtures
mod Tests
use quantara.Prelude.{
  ℕ, zero, suc, ◌+◌, ◌-◌, Option, none, some, List, [], ◌∷◌, length, get_elem?, set, take, drop,
  replicate, if◌then◌else◌,
}
use quantara.Prelude.Int.{ℤ, pos, negsuc}
use quantara.Decimal.{Decimal, context_add, ltb_decimal}
use quantara.Hashing.Content.{Renderer}
use quantara.Errors.{Result, ok, err, ◌>>=◌, index_error, type_error, value_error, ill_typed}
use quantara.Rows.{Cell, time, decimal, float}

-- The operations of `COMPUTE_CONTEXT`; `quantize` is to the unit of 18 places. `renderer` is what
-- render_decimal_18 dispatches on.
pub record Context : Type 0 where
  pub divide : Decimal → Decimal → Result Decimal
  pub subtract : Decimal → Decimal → Result Decimal
  pub multiply : Decimal → Decimal → Result Decimal
  pub sqrt : Decimal → Result Decimal
  pub quantize : Decimal → Result Decimal
  pub renderer : Renderer

abbrev pub roc_window : ℕ
roc_window = 60

abbrev pub vol_window : ℕ
vol_window = 20

abbrev pub volume_window : ℕ
volume_window = 20

abbrev pub ret_warmup : ℕ
ret_warmup = 1

-- `Decimal(n)`
abbrev pub whole : ℕ → Decimal
whole n = record { coefficient = pos n; scale = 0 }

abbrev pub or_index_error {ℓ} : {A : Type ℓ} → Option A → Result A
or_index_error none = err index_error
or_index_error (some a) = ok a

-- `xs[i]`
abbrev pub at_index {ℓ} : {A : Type ℓ} → List A → ℕ → Result A
at_index xs i = or_index_error (get_elem? xs i)

-- `xs[a:b]`
abbrev pub slice {ℓ} : {A : Type ℓ} → (a b : ℕ) → List A → List A
slice a b xs = drop a (take b xs)

abbrev pub Column : Type 0
Column = List (Option Decimal)

unfoldable pub as_decimal : (decimal_of_str : Cell → Result Decimal) → Cell → Result Decimal
as_decimal decimal_of_str (decimal d) = ok d
as_decimal decimal_of_str float = err value_error
as_decimal decimal_of_str other = decimal_of_str other

-- One of the two comprehensions of extract_series.
unfoldable pub series :
    (decimal_of_str : Cell → Result Decimal) (index : ℕ) → List (List Cell) → Result (List Decimal)
unfolding as_decimal
series decimal_of_str index [] = ok []
series decimal_of_str index (row ∷ rows) =
    at_index row index >>= (λ cell. as_decimal decimal_of_str cell) >>= λ value.
    series decimal_of_str index rows >>= λ rest. ok (value ∷ rest)

abbrev pub close_index : ℕ
close_index = 16

abbrev pub volume_index : ℕ
volume_index = 17

unfoldable pub extract_series :
    (decimal_of_str : Cell → Result Decimal)
    → List (List Cell)
    → Result (List Decimal × List Decimal)
unfolding series
extract_series decimal_of_str rows = series decimal_of_str close_index rows >>= λ closes.
    series decimal_of_str volume_index rows >>= λ volumes. ok (closes, volumes)

-- `column[t] = compute(t)` for the `count` numbers t from `start` on.
unfoldable pub fill {ℓ} :
    {V : Type ℓ} (compute : ℕ → Result V) (start count : ℕ)
    → List (Option V)
    → Result (List (Option V))
fill compute start zero column = ok column
fill compute start (suc count) column =
    compute start >>= λ value. fill compute (suc start) count (set column start (some value))

-- `[None] * n`, filled for t in range(start, n).
unfoldable pub column_from {ℓ} :
    {V : Type ℓ} (compute : ℕ → Result V) (start n : ℕ) → Result (List (Option V))
unfolding fill
column_from compute start n = fill compute start (n - start) (replicate n none)

-- `for value in window: total = add(total, value)`; a null raises.
unfoldable pub total_of : List (Option Decimal) → Decimal → Result Decimal
total_of [] total = ok total
total_of (none ∷ window) total = err type_error
total_of (some value ∷ window) total = total_of window (context_add 50 total value)

unfoldable pub volume_total : List Decimal → Decimal → Decimal
volume_total [] total = total
volume_total (value ∷ window) total = volume_total window (context_add 50 total value)

-- The direction of a forward return.
unfoldable pub direction : (future base : Decimal) → ℤ
direction future base =
    if ltb_decimal base future then pos 1 else if ltb_decimal future base then negsuc 0 else pos 0

pub record Features : Type 0 where
  pub f_ret_1 : Column
  pub f_roc_60 : Column
  pub f_rvol_20 : Column
  pub f_volratio_20 : Column

pub record Labels : Type 0 where
  pub l_fwdret_24 : Column
  pub l_fwddir_24 : List (Option ℤ)

module _ (context : Context) where
  -- `subtract(divide(a, b), 1)`
  unfoldable pub relative_change : (a b : Decimal) → Result Decimal
  relative_change a b = context.divide a b >>= λ quotient. context.subtract quotient (whole 1)

  unfoldable pub change_between : List Decimal → (later earlier : ℕ) → Result Decimal
  unfolding relative_change
  change_between closes later earlier =
      at_index closes later >>= λ a. at_index closes earlier >>= λ b. relative_change a b

  unfoldable pub one_bar_return : List Decimal → (index : ℕ) → Result Decimal
  unfolding change_between
  one_bar_return closes index = change_between closes index (index - 1)

  unfoldable pub roc_at : List Decimal → (t : ℕ) → Result Decimal
  unfolding change_between
  roc_at closes t = change_between closes t (t - roc_window)

  unfoldable pub squared_sum : (mean : Decimal) → List (Option Decimal) → Decimal → Result Decimal
  squared_sum mean [] total = ok total
  squared_sum mean (none ∷ window) total = err type_error
  squared_sum mean (some value ∷ window) total = context.subtract value mean >>= λ deviation.
      context.multiply deviation deviation >>= λ square.
      squared_sum mean window (context_add 50 total square)

  unfoldable pub volatility : List (Option Decimal) → Result Decimal
  unfolding total_of squared_sum
  volatility window = total_of window (whole 0) >>= λ total.
      context.divide total (whole vol_window) >>= λ mean.
      squared_sum mean window (whole 0) >>= λ squares.
      context.divide squares (whole (vol_window - 1)) >>= λ variance. context.sqrt variance

  unfoldable pub rvol_at : (ret : Column) (t : ℕ) → Result Decimal
  unfolding volatility
  rvol_at ret t = volatility (slice (t + 1 - vol_window) (t + 1) ret)

  unfoldable pub volratio_at : List Decimal → (t : ℕ) → Result Decimal
  unfolding volume_total
  volratio_at volumes t =
      context.divide (volume_total (slice (t + 1 - volume_window) (t + 1) volumes) (whole 0))
        (whole volume_window)
      >>= λ mean_volume. at_index volumes t >>= λ volume. context.divide volume mean_volume

  unfoldable pub compute_features : (closes volumes : List Decimal) → Result Features
  unfolding column_from one_bar_return roc_at rvol_at volratio_at
  compute_features closes volumes =
      let n = length closes in
      column_from (one_bar_return closes) ret_warmup n >>= λ ret.
      column_from (roc_at closes) roc_window n >>= λ roc.
      column_from (rvol_at ret) vol_window n >>= λ rvol.
      column_from (volratio_at volumes) (volume_window - 1) n >>= λ volratio.
      ok (record { f_ret_1 = ret; f_roc_60 = roc; f_rvol_20 = rvol; f_volratio_20 = volratio })

  -- The loop of compute_labels, `count` rounds from t on.
  unfoldable pub labels_loop :
      (closes : List Decimal) (horizon t count : ℕ) → Labels → Result Labels
  unfolding relative_change direction
  labels_loop closes horizon t zero labels = ok labels
  labels_loop closes horizon t (suc count) labels = at_index closes (t + horizon) >>= λ future.
      at_index closes t >>= λ base. relative_change future base >>= λ change.
      labels_loop closes horizon (suc t) count (record {
        l_fwdret_24 = set labels.l_fwdret_24 t (some change);
        l_fwddir_24 = set labels.l_fwddir_24 t (some (direction future base));
      })

  unfoldable pub compute_labels : (closes : List Decimal) (horizon : ℕ) → Result Labels
  unfolding labels_loop
  compute_labels closes horizon =
      let n = length closes in
      labels_loop closes horizon 0 (n - horizon)
        (record { l_fwdret_24 = replicate n none; l_fwddir_24 = replicate n none })
