-- ===== src/Canonical/Reconcile/Tests.antt =====
-- reconcile_rows of src/quantara/canonical.py on one row, as Parquet gives it back.
use quantara.Prelude.{◌≡◌, refl, List, [], ◌∷◌, false}
use quantara.Prelude.Int.{pos}
use quantara.Text.{codes, text_eq, numeral, numeral_loop, rjust_zeros}
use quantara.Decimal.{Decimal, times}
use quantara.Rows.{CanonicalRow, Cell, text, time, count, decimal}
use quantara.Hashing.Content.{Renderer, render_decimal_18, dispatch, use_rust_kernel, python}
use quantara.Hashing.{render_decimal_18_python, place_digits}
use quantara.Errors.{ok, err, runtime_error, reconciliation_mismatch}
use quantara.Canonical.Reconcile.{
  rendered_value, rendered_values, strings, to_content_array, value_eq, values_eq, check_arrays,
  reconcile_loop, reconcile_rows,
}
use quantara.Canonical.Reconcile.Same.{SameRows, reconcile_rows-SameRows}

abbrev python_renderer : Renderer
python_renderer = record { available = false; mode = python; kernel = λ d. err runtime_error }

abbrev price : Decimal
price = record { coefficient = pos 125; scale = 2 }

-- The same number in the scale of the column.
abbrev stored_price : Decimal
stored_price = record { coefficient = pos 1250000000000000000; scale = 18 }

abbrev row : CanonicalRow
row = record {
  identity = codes "binance" ∷ [];
  open_time_ms = 60000;
  close_time_ms = 119999;
  nominal_available_ms = 120000;
  open_ = price;
  high = price;
  low = price;
  close = price;
  base_asset_volume = price;
  quote_asset_volume = price;
  trade_count = pos 7;
  taker_buy_base_volume = price;
  taker_buy_quote_volume = price;
  source_ignore = codes "0";
}

abbrev stored : List Cell
stored =
    text (codes "binance")
    ∷ time 60000
    ∷ time 119999
    ∷ time 120000
    ∷ decimal stored_price
    ∷ decimal stored_price
    ∷ decimal stored_price
    ∷ decimal stored_price
    ∷ decimal stored_price
    ∷ decimal stored_price
    ∷ count (pos 7)
    ∷ decimal stored_price
    ∷ decimal stored_price
    ∷ text (codes "0")
    ∷ []

reconciled : reconcile_rows python_renderer (row ∷ []) (stored ∷ []) ≡ ok tt
unfolding reconcile_rows reconcile_loop to_content_array rendered_values rendered_value strings
    check_arrays values_eq value_eq text_eq render_decimal_18 dispatch use_rust_kernel
    render_decimal_18_python place_digits numeral numeral_loop rjust_zeros times
reconciled = refl

row_missing : reconcile_rows python_renderer (row ∷ []) [] ≡ err reconciliation_mismatch
unfolding reconcile_rows
row_missing = refl

reconcile_rows-SameRows_example : SameRows python_renderer (row ∷ []) (stored ∷ [])
reconcile_rows-SameRows_example =
    reconcile_rows-SameRows python_renderer (row ∷ []) (stored ∷ []) reconciled
