-- ===== src/Aggregation/Persisted/Tests.antt =====
-- rows_from_persisted of src/quantara/aggregation.py on one row, on a short tuple and on a float.
use quantara.Prelude.{◌≡◌, refl, List, [], ◌∷◌, map, replicate}
use quantara.Prelude.Int.{pos}
use quantara.Decimal.{Decimal}
use quantara.Text.{Text, codes}
use quantara.Rows.{CanonicalRow, text, float}
use quantara.Errors.{ok, err, quantara_error}
use quantara.Aggregation.Persisted.{
  rows_from_persisted, persisted_values, rows_from_persisted-persisted_values,
}

abbrev price : Decimal
price = record { coefficient = pos 125; scale = 2 }

abbrev identity_names : List Text
identity_names =
    codes "binance"
    ∷ codes "spot"
    ∷ codes "BTCUSDT-SPOT"
    ∷ codes "BTCUSDT"
    ∷ codes "BTC"
    ∷ codes "USDT"
    ∷ codes "USDT"
    ∷ codes "SPOT"
    ∷ codes "1m"
    ∷ codes "1"
    ∷ []

abbrev stored_row : CanonicalRow
stored_row = record {
  identity = identity_names;
  open_time_ms = 60000;
  close_time_ms = 119999;
  nominal_available_ms = 120000;
  open_ = price;
  high = price;
  low = price;
  close = price;
  base_asset_volume = price;
  quote_asset_volume = price;
  trade_count = pos 2;
  taker_buy_base_volume = price;
  taker_buy_quote_volume = price;
  source_ignore = codes "0";
}

refuses_short : rows_from_persisted ((text (codes "binance") ∷ []) ∷ []) ≡ err quantara_error
unfolding rows_from_persisted
refuses_short = refl

refuses_float : rows_from_persisted (replicate 23 float ∷ []) ≡ err quantara_error
unfolding rows_from_persisted
refuses_float = refl

rows_from_persisted-persisted_values_example :
    rows_from_persisted (map persisted_values (stored_row ∷ [])) ≡ ok (stored_row ∷ [])
rows_from_persisted-persisted_values_example =
    rows_from_persisted-persisted_values (stored_row ∷ []) (refl, tt)
