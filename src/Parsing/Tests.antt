-- ===== src/Parsing/Tests.antt =====
-- src/quantara/parsing.py on concrete texts.
use quantara.Prelude.{ℕ, ◌^◌, ◌<◌, ◌≡◌, refl, false, List, [], ◌∷◌, length, some}
use quantara.Prelude.Int.{pos}
use quantara.Decimal.{scaled_integer}
use quantara.Text.{Text, codes, text_eq, partition, all_digits, value, lstrip_zeros, rstrip_zeros}
use quantara.Prelude.Int.{◌+ℤ◌}
use quantara.Rows.{SourceRow}
use quantara.Errors.{ok, err, malformed_numeric, decimal_overflow}
use quantara.Parsing.{
  Period, header, parse_rows, parse_fields, parse_timestamp_ms, parse_count, make_row,
}
use quantara.Parsing.Contract.{DataRecords, AllValid, count_records, parse_rows-AllValid}
use quantara.Parsing.Numeric.{parse_numeric, parse_fixed_point, expand_scientific, matches_numeric}
use quantara.Parsing.Numeric.Representable.{parse_numeric-representable}

abbrev january : Period
january = record { start_ms = 1704067200000; end_ms = 1706745600000; csv_header_absent = false }

abbrev one_row : List (List Text)
one_row =
    header
    ∷ []
    ∷ (codes "1704067200000"
        ∷ codes "42314.00"
        ∷ codes "42335.80"
        ∷ codes "42289.60"
        ∷ codes "42331.90"
        ∷ codes "289.641"
        ∷ codes "1704067259999"
        ∷ codes "12256155.27290"
        ∷ codes "3310"
        ∷ codes "175.211"
        ∷ codes "7414459.86160"
        ∷ codes "0"
        ∷ [])
    ∷ []

abbrev row : SourceRow
row = record {
  open_time = 1704067200000;
  close_time = 1704067259999;
  open_ = record { coefficient = pos 4231400; scale = 2 };
  high = record { coefficient = pos 4233580; scale = 2 };
  low = record { coefficient = pos 4228960; scale = 2 };
  close = record { coefficient = pos 4233190; scale = 2 };
  base_asset_volume = record { coefficient = pos 289641; scale = 3 };
  quote_asset_volume = record { coefficient = pos 1225615527290; scale = 5 };
  trade_count = pos 3310;
  taker_buy_base_volume = record { coefficient = pos 175211; scale = 3 };
  taker_buy_quote_volume = record { coefficient = pos 741445986160; scale = 5 };
  source_ignore = codes "0";
}

parse_one_row : parse_rows january one_row ≡ ok (row ∷ [])
unfolding parse_rows parse_fields parse_timestamp_ms parse_count make_row parse_numeric
    parse_fixed_point expand_scientific matches_numeric text_eq partition all_digits value
    lstrip_zeros rstrip_zeros
parse_one_row = refl

parse_scientific : parse_numeric (codes "8.4E-7") ≡ ok (record { coefficient = pos 84; scale = 8 })
unfolding parse_numeric parse_fixed_point expand_scientific matches_numeric partition all_digits
    value lstrip_zeros rstrip_zeros ◌+ℤ◌
parse_scientific = refl

parse_errors :
    (parse_numeric (codes "-1") ≡ err malformed_numeric)
    × (parse_numeric (codes "1234567890123456789012") ≡ err decimal_overflow)
unfolding parse_numeric parse_fixed_point expand_scientific matches_numeric partition all_digits
    value lstrip_zeros rstrip_zeros
parse_errors = (refl, refl)

parse_numeric-representable_example :
    (z : ℕ) × (scaled_integer 18 (record { coefficient = pos 84; scale = 8 }) ≡ some (pos z))
    × (z < 10 ^ 38)
parse_numeric-representable_example =
    parse_numeric-representable (codes "8.4E-7") (record { coefficient = pos 84; scale = 8 })
      parse_scientific

parse_rows-AllValid_example :
    (records : List (List Text)) × DataRecords january one_row records
    × AllValid january (row ∷ [])
    × (length (row ∷ []) ≡ count_records records)
parse_rows-AllValid_example = parse_rows-AllValid january one_row (row ∷ []) parse_one_row
