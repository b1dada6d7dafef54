-- ===== src/Canonical/Tests.antt =====
-- src/quantara/canonical.py on two rows in the wrong order, and on one row given twice.
use quantara.Prelude.{ℕ, ◌+◌, ◌≡◌, refl, false, List, [], ◌∷◌}
use quantara.Prelude.Int.{pos}
use quantara.Decimal.{Decimal}
use quantara.Text.{codes}
use quantara.Rows.{SourceRow}
use quantara.Errors.{ok, err, duplicate_open_time}
use quantara.Canonical.{DatasetDescriptor, build_canonical_row, build_rows, assemble_canonical_rows}
use quantara.Canonical.Sorted.{IsAssembled, assemble_canonical_rows-IsAssembled}

abbrev one_unit : Decimal
one_unit = record { coefficient = pos 1; scale = 0 }

abbrev source : ℕ → SourceRow
source t = record {
  open_time = t;
  close_time = t + 59999;
  open_ = one_unit;
  high = one_unit;
  low = one_unit;
  close = one_unit;
  base_asset_volume = one_unit;
  quote_asset_volume = one_unit;
  trade_count = pos 1;
  taker_buy_base_volume = one_unit;
  taker_buy_quote_volume = one_unit;
  source_ignore = codes "0";
}

abbrev descriptor : DatasetDescriptor
descriptor = record {
  provider = codes "binance";
  market_type = codes "spot";
  instrument_id = codes "BTCUSDT-SPOT";
  provider_symbol = codes "BTCUSDT";
  base_asset = codes "BTC";
  quote_asset = codes "USDT";
  settlement_asset = codes "USDT";
  contract_type = codes "SPOT";
  interval = codes "1m";
  schema_version = codes "1";
}

abbrev unordered : List SourceRow
unordered = source 120000 ∷ source 60000 ∷ []

sorts :
    assemble_canonical_rows unordered descriptor
    ≡ ok (
      build_canonical_row (source 60000) descriptor
          ∷ build_canonical_row (source 120000) descriptor
          ∷ [],
      false,
    )
unfolding assemble_canonical_rows build_rows
sorts = refl

rejects_twice :
    assemble_canonical_rows (source 60000 ∷ unordered) descriptor ≡ err duplicate_open_time
unfolding assemble_canonical_rows build_rows
rejects_twice = refl

assemble_canonical_rows-IsAssembled_example :
    IsAssembled (build_rows unordered descriptor) (assemble_canonical_rows unordered descriptor)
assemble_canonical_rows-IsAssembled_example =
    assemble_canonical_rows-IsAssembled unordered descriptor
