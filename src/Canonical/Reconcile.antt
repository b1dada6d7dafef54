-- ===== src/Canonical/Reconcile.antt =====
-- src/quantara/canonical.py: to_content_array and reconcile_rows. A persisted row is the tuple of its values;
-- the schema has no column for floats, and a float equals no value here.
pub mod Arrays
pub mod Same
mod Tests
use quantara.Prelude.{
  ℕ, Bool, true, false, not, ◌&&◌, List, [], ◌∷◌, ◌++◌, length, ◌==◌, if◌then◌else◌,
}
use quantara.Prelude.Int.{ℤ, pos, leb_ℤ}
use quantara.Text.{Text, text_eq}
use quantara.Decimal.{Decimal}
use quantara.Rows.{CanonicalRow, Cell, text, time, count, decimal, float}
use quantara.Hashing.Content.{Renderer, render_decimal_18}
use quantara.Errors.{Result, ok, err, reconciliation_mismatch, value_error, raise_if, ◌>>=◌, ◌>>◌}

-- A value of a content array: a string, an integer, or another.
pub data Value : Type 0 where
  str : Text → Value
  int : ℤ → Value
  other : Value

unfoldable pub rendered_value : Renderer → Cell → Result Value
rendered_value renderer (text t) = ok (str t)
rendered_value renderer (time t) = ok (int (pos t))
rendered_value renderer (count n) = ok (int n)
rendered_value renderer (decimal d) = do t ← render_decimal_18 renderer d; ok (str t)
rendered_value renderer float = ok other

-- `[render_decimal_18(value) if isinstance(value, Decimal) else value for value in actual]`
unfoldable pub rendered_values : Renderer → List Cell → Result (List Value)
unfolding rendered_value
rendered_values renderer [] = ok []
rendered_values renderer (cell ∷ cells) = do
  value ← rendered_value renderer cell
  values ← rendered_values renderer cells
  ok (value ∷ values)

unfoldable pub strings : List Text → List Value
strings [] = []
strings (t ∷ ts) = str t ∷ strings ts

unfoldable pub to_content_array : Renderer → CanonicalRow → Result (List Value)
unfolding strings
to_content_array renderer self = do
  open_text ← render_decimal_18 renderer self.open_
  high_text ← render_decimal_18 renderer self.high
  low_text ← render_decimal_18 renderer self.low
  close_text ← render_decimal_18 renderer self.close
  base ← render_decimal_18 renderer self.base_asset_volume
  quote ← render_decimal_18 renderer self.quote_asset_volume
  taker_base ← render_decimal_18 renderer self.taker_buy_base_volume
  taker_quote ← render_decimal_18 renderer self.taker_buy_quote_volume
  ok (
      strings self.identity
      ++ (int (pos self.open_time_ms)
          ∷ int (pos self.close_time_ms)
          ∷ int (pos self.nominal_available_ms)
          ∷ str open_text
          ∷ str high_text
          ∷ str low_text
          ∷ str close_text
          ∷ str base
          ∷ str quote
          ∷ int self.trade_count
          ∷ str taker_base
          ∷ str taker_quote
          ∷ str self.source_ignore
          ∷ []))

unfoldable pub value_eq : Value → Value → Bool
value_eq (str s) (str t) = text_eq s t
value_eq (int m) (int n) = leb_ℤ m n && leb_ℤ n m
value_eq _ _ = false

unfoldable pub values_eq : List Value → List Value → Bool
unfolding value_eq
values_eq [] [] = true
values_eq (v ∷ vs) (w ∷ ws) = value_eq v w && values_eq vs ws
values_eq _ _ = false

-- The exception of a row: columns are counted with `zip(..., strict=True)`, which refuses arrays of
-- different lengths with a ValueError.
unfoldable pub check_arrays : (expected rendered : List Value) → Result (Unit {0})
unfolding values_eq
check_arrays expected rendered =
    if values_eq expected rendered
    then ok tt
    else if length expected == length rendered
    then err reconciliation_mismatch
    else err value_error

unfoldable pub reconcile_loop : Renderer → List CanonicalRow → List (List Cell) → Result (Unit {0})
reconcile_loop renderer [] parquet_rows = ok tt
reconcile_loop renderer (source ∷ source_rows) [] = ok tt
reconcile_loop renderer (source ∷ source_rows) (persisted ∷ parquet_rows) = do
  expected ← to_content_array renderer source
  rendered ← rendered_values renderer persisted
  check_arrays expected rendered
  reconcile_loop renderer source_rows parquet_rows

unfoldable pub reconcile_rows : Renderer → List CanonicalRow → List (List Cell) → Result (Unit {0})
reconcile_rows renderer source_rows parquet_rows = do
  raise_if (not (length source_rows == length parquet_rows)) reconciliation_mismatch
  reconcile_loop renderer source_rows parquet_rows
