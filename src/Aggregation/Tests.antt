-- ===== src/Aggregation/Tests.antt =====
-- src/quantara/aggregation.py on four minutes, made into bars of two minutes.
use quantara.Prelude.{
  ℕ, ◌+◌, ◌*◌, ◌/◌, ◌≡◌, ◌≤◌, refl, List, [], ◌∷◌, ◌++◌, length, arith, inl, ◌⊎◌,
}
use quantara.Prelude.Int.{pos}
use quantara.Decimal.{
  Decimal, magnitude, times, context_add, ltb_decimal, round_coefficient, scaled_integer,
}
use quantara.Decimal.Value.{units}
use quantara.Text.{codes, text_eq}
use quantara.Rows.{Ascends, CanonicalRow}
use quantara.Errors.{
  ok, err, unordered_minute_input, incomplete_group, decimal_precision_or_scale_overflow,
}
use quantara.Prelude.Int.{◌+ℤ◌}
use quantara.Aggregation.{
  Groups, exact_trade_count, make_bar, aggregate_group, aggregate_timeframe, exact_volume_sum,
  max_decimal, min_decimal, last_close, covers_from, count_offenders, canonical_max_coefficient,
  sum_volumes,
}
use quantara.Aggregation.Sums.{FitsColumn, total_units, exact_volume_sum_lem}
use quantara.Aggregation.Buckets.{Grouped, members_of}
use quantara.Aggregation.Bars.{AreBars}
use quantara.Aggregation.Results.{
  aggregate_timeframe-AreBars, aggregate_timeframe-Conserves, Conserves,
}
use quantara.Aggregation.Rejections.{aggregate_timeframe-Breaks}

-- `n` hundredths.
abbrev cents : ℕ → Decimal
cents n = record { coefficient = pos n; scale = 2 }

abbrev minute : (open_time high low : ℕ) → CanonicalRow
minute t high low = record {
  identity = codes "binance" ∷ [];
  open_time_ms = t;
  close_time_ms = t + 59999;
  nominal_available_ms = t + 60000;
  open_ = cents low;
  high = cents high;
  low = cents low;
  close = cents high;
  base_asset_volume = cents 150;
  quote_asset_volume = record { coefficient = pos 7; scale = 0 };
  trade_count = pos 3;
  taker_buy_base_volume = cents 100;
  taker_buy_quote_volume = cents 500;
  source_ignore = codes "0";
}

abbrev four_minutes : List CanonicalRow
four_minutes =
    minute 120000 310 300
    ∷ minute 180000 330 305
    ∷ minute 240000 320 290
    ∷ minute 300000 320 310
    ∷ []

abbrev bar : (open_time open_ high low close : ℕ) → CanonicalRow
bar t o h l c = record {
  identity = codes "bars" ∷ [];
  open_time_ms = t;
  close_time_ms = t + 119999;
  nominal_available_ms = t + 120000;
  open_ = cents o;
  high = cents h;
  low = cents l;
  close = cents c;
  base_asset_volume = cents 300;
  quote_asset_volume = record { coefficient = pos 14; scale = 0 };
  trade_count = pos 6;
  taker_buy_base_volume = cents 200;
  taker_buy_quote_volume = cents 1000;
  source_ignore = codes "0";
}

abbrev two_bars : List CanonicalRow
two_bars = bar 120000 300 330 300 330 ∷ bar 240000 290 320 290 320 ∷ []

aggregate_four : aggregate_timeframe four_minutes (codes "bars" ∷ []) 120000 ≡ ok two_bars
unfolding aggregate_timeframe aggregate_group make_bar covers_from count_offenders max_decimal
    min_decimal last_close exact_volume_sum sum_volumes context_add round_coefficient scaled_integer
    times ltb_decimal ◌+ℤ◌ text_eq exact_trade_count
aggregate_four = refl

-- A missing minute is never filled in.
aggregate_gap :
    aggregate_timeframe
      (minute 120000 310 300 ∷ minute 240000 320 290 ∷ minute 300000 320 310 ∷ [])
      (codes "bars" ∷ [])
      120000
    ≡ err incomplete_group
unfolding aggregate_timeframe aggregate_group
aggregate_gap = refl

exact_volume_sum_lem_example :
    ((t : Decimal) × (exact_volume_sum (cents 150 ∷ cents 25 ∷ []) ≡ ok t)
      × (units t ≡ total_units (cents 150 ∷ cents 25 ∷ []))
      × FitsColumn t)
    ⊎ ((exact_volume_sum (cents 150 ∷ cents 25 ∷ []) ≡ err decimal_precision_or_scale_overflow)
        × (canonical_max_coefficient ≤ magnitude (total_units (cents 150 ∷ cents 25 ∷ []))))
unfolding times
exact_volume_sum_lem_example =
    exact_volume_sum_lem (cents 150 ∷ cents 25 ∷ [])
      ((omega arith, omega arith), ((omega arith, omega arith), tt)) (omega arith)

aggregate_timeframe-AreBars_example :
    Ascends four_minutes
    × ((groups : Groups) × Grouped 120000 0 groups
        × (members_of groups ≡ four_minutes)
        × AreBars (codes "bars" ∷ []) 120000 groups two_bars)
aggregate_timeframe-AreBars_example =
    aggregate_timeframe-AreBars four_minutes (codes "bars" ∷ []) 120000 two_bars (omega arith)
      aggregate_four

aggregate_timeframe-Conserves_example :
    (length four_minutes ≡ length two_bars * (120000 / 60000))
    × Conserves (λ r. r.base_asset_volume) four_minutes two_bars
    × Conserves (λ r. r.quote_asset_volume) four_minutes two_bars
    × Conserves (λ r. r.taker_buy_base_volume) four_minutes two_bars
    × Conserves (λ r. r.taker_buy_quote_volume) four_minutes two_bars
unfolding times
aggregate_timeframe-Conserves_example =
    aggregate_timeframe-Conserves four_minutes (codes "bars" ∷ []) 120000 two_bars (omega arith)
      aggregate_four (omega arith) (omega arith) (omega arith) (omega arith) (omega arith)

aggregate_timeframe-Breaks_example :
    aggregate_timeframe
      (minute 120000 310 300 ∷ [] ++ minute 240000 320 290 ∷ minute 180000 330 305 ∷ [])
      (codes "bars" ∷ [])
      120000
    ≡ err unordered_minute_input
aggregate_timeframe-Breaks_example =
    aggregate_timeframe-Breaks (minute 120000 310 300 ∷ []) (minute 240000 320 290)
      (minute 180000 330 305) [] (codes "bars" ∷ []) 120000 unordered_minute_input (omega arith)
      (inl (omega arith, refl))
