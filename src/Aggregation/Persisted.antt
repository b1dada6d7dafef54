-- ===== src/Aggregation/Persisted.antt =====
-- The rows that canonical.py persists and aggregation.py restores, both under src/quantara. Parquet is
-- a library: a persisted row is the tuple of its 23 values in the order of the schema. The schema
-- fixes the type of each, which the source does not test again: another is `ill_typed` here.
mod Tests
use quantara.Prelude.{
  ℕ, suc, ◌≡◌, refl, sym, ap, ◌∙◌, Bool, true, false, not, ◌||◌, List, [], ◌∷◌, ◌++◌, map, length,
  All, ◌==◌, arith,
}
use quantara.Text.{Text}
use quantara.Rows.{CanonicalRow, Cell, text, time, count, decimal, float}
use quantara.Errors.{
  Result, ok, err, quantara_error, ill_typed, ◌>>=◌, ◌>>◌, raise_if, >>=-eq-ok, raise_if-eq-ok,
}

-- `isinstance(value, float)` of some value.
pub has_float : List Cell → Bool
has_float [] = false
has_float (float ∷ cells) = true
has_float (text t ∷ cells) = has_float cells
has_float (time t ∷ cells) = has_float cells
has_float (count n ∷ cells) = has_float cells
has_float (decimal d ∷ cells) = has_float cells

-- The `CanonicalRow(...)` call.
pub restore_row : List Cell → Result CanonicalRow
restore_row
      (text i0
        ∷ text i1
        ∷ text i2
        ∷ text i3
        ∷ text i4
        ∷ text i5
        ∷ text i6
        ∷ text i7
        ∷ text i8
        ∷ text i9
        ∷ time open_time
        ∷ time close_time
        ∷ time available
        ∷ decimal open_price
        ∷ decimal high
        ∷ decimal low
        ∷ decimal close
        ∷ decimal base
        ∷ decimal quote
        ∷ count trades
        ∷ decimal taker_base
        ∷ decimal taker_quote
        ∷ text ignore
        ∷ []) =
    ok (record {
      identity = i0 ∷ i1 ∷ i2 ∷ i3 ∷ i4 ∷ i5 ∷ i6 ∷ i7 ∷ i8 ∷ i9 ∷ [];
      open_time_ms = open_time;
      close_time_ms = close_time;
      nominal_available_ms = available;
      open_ = open_price;
      high = high;
      low = low;
      close = close;
      base_asset_volume = base;
      quote_asset_volume = quote;
      trade_count = trades;
      taker_buy_base_volume = taker_base;
      taker_buy_quote_volume = taker_quote;
      source_ignore = ignore;
    })
restore_row _ = err ill_typed

pub rows_from_persisted : List (List Cell) → Result (List CanonicalRow)
unfolding has_float restore_row
rows_from_persisted [] = ok []
rows_from_persisted (values ∷ rest) = do
  raise_if (not (length values == 23)) quantara_error
  raise_if (has_float values) quantara_error
  row ← restore_row values
  rows ← rows_from_persisted rest
  ok (row ∷ rows)

-- The values of one row in the columns of `write_canonical_parquet`.
unfoldable pub persisted_values : CanonicalRow → List Cell
persisted_values row =
    map (λ t. text t) row.identity
    ++ (time row.open_time_ms
        ∷ time row.close_time_ms
        ∷ time row.nominal_available_ms
        ∷ decimal row.open_
        ∷ decimal row.high
        ∷ decimal row.low
        ∷ decimal row.close
        ∷ decimal row.base_asset_volume
        ∷ decimal row.quote_asset_volume
        ∷ count row.trade_count
        ∷ decimal row.taker_buy_base_volume
        ∷ decimal row.taker_buy_quote_volume
        ∷ text row.source_ignore
        ∷ [])

abbrev pub HasIdentity : CanonicalRow → Type 0
HasIdentity row = length row.identity ≡ 10

-- The first of the persisted rows, by the ten strings of its identity.
restore_one :
    (identity : List Text) (row : CanonicalRow) (rest : List (List Cell))
    → row.identity ≡ identity
    → length identity ≡ 10
    → rows_from_persisted (persisted_values row ∷ rest)
      ≡ (rows_from_persisted rest >>= λ rows. ok (row ∷ rows))
unfolding rows_from_persisted persisted_values has_float restore_row
restore_one [] row rest same ten = absurd (omega arith)
restore_one (a ∷ []) row rest same ten = absurd (omega arith)
restore_one (a ∷ b ∷ []) row rest same ten = absurd (omega arith)
restore_one (a ∷ b ∷ c ∷ []) row rest same ten = absurd (omega arith)
restore_one (a ∷ b ∷ c ∷ d ∷ []) row rest same ten = absurd (omega arith)
restore_one (a ∷ b ∷ c ∷ d ∷ e ∷ []) row rest same ten = absurd (omega arith)
restore_one (a ∷ b ∷ c ∷ d ∷ e ∷ f ∷ []) row rest same ten = absurd (omega arith)
restore_one (a ∷ b ∷ c ∷ d ∷ e ∷ f ∷ g ∷ []) row rest same ten = absurd (omega arith)
restore_one (a ∷ b ∷ c ∷ d ∷ e ∷ f ∷ g ∷ h ∷ []) row rest same ten = absurd (omega arith)
restore_one (a ∷ b ∷ c ∷ d ∷ e ∷ f ∷ g ∷ h ∷ i ∷ []) row rest same ten = absurd (omega arith)
restore_one (a ∷ b ∷ c ∷ d ∷ e ∷ f ∷ g ∷ h ∷ i ∷ j ∷ []) row rest same ten = rw same refl
restore_one (a ∷ b ∷ c ∷ d ∷ e ∷ f ∷ g ∷ h ∷ i ∷ j ∷ k ∷ more) row rest same ten =
    absurd (omega arith)

-- Rows with an identity of ten strings come back as they were persisted, all of them and in order.
pub rows_from_persisted-persisted_values :
    (rows : List CanonicalRow)
    → All HasIdentity rows
    → rows_from_persisted (map persisted_values rows) ≡ ok rows
unfolding rows_from_persisted
rows_from_persisted-persisted_values [] a = refl
rows_from_persisted-persisted_values (row ∷ rows) a =
    restore_one row.identity row (map persisted_values rows) refl a.0
    ∙ rw (rows_from_persisted-persisted_values rows a.1) refl
