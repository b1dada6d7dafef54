-- ===== src/DerivedQuality/Tests.antt =====
-- src/quantara/derive_quality.py on two bars of five minutes.
use quantara.Prelude.{ℕ, ◌+◌, ◌≡◌, ◌≢◌, refl, true, none, some, List, [], ◌∷◌, arith}
use quantara.Prelude.Int.{pos}
use quantara.Decimal.{Decimal}
use quantara.Text.{codes}
use quantara.Rows.{CanonicalRow}
use quantara.Quality.{state_pass, warn_blocked, tally, repeated, adjacent}
use quantara.DerivedQuality.{evaluate_derived_quality}
use quantara.DerivedQuality.Complete.Decision.{
  Decides, evaluate_derived_quality-Decides, evaluate_derived_quality-none,
}

abbrev units_of : ℕ → Decimal
units_of n = record { coefficient = pos n; scale = 1 }

abbrev bar : (open_time volume : ℕ) → CanonicalRow
bar t volume = record {
  identity = codes "binance" ∷ [];
  open_time_ms = t;
  close_time_ms = t + 299999;
  nominal_available_ms = t + 300000;
  open_ = units_of 20;
  high = units_of 25;
  low = units_of 19;
  close = units_of 21;
  base_asset_volume = units_of volume;
  quote_asset_volume = units_of volume;
  trade_count = pos 3;
  taker_buy_base_volume = units_of 0;
  taker_buy_quote_volume = units_of 0;
  source_ignore = codes "0";
}

abbrev two_bars : List CanonicalRow
two_bars = bar 600000 15 ∷ bar 900000 14 ∷ []

-- No bars where none are expected: nothing fails, but the boundaries could not be checked.
blocks_empty : evaluate_derived_quality [] 300000 600000 (some 0) true ≡ warn_blocked
unfolding evaluate_derived_quality tally repeated adjacent
blocks_empty = refl

evaluate_derived_quality-Decides_example :
    Decides
      (evaluate_derived_quality two_bars 300000 600000 (some 2) true)
      two_bars
      300000
      600000
      2
      true
evaluate_derived_quality-Decides_example =
    evaluate_derived_quality-Decides two_bars 300000 600000 2 true (omega arith)

evaluate_derived_quality-none_example :
    evaluate_derived_quality two_bars 300000 600000 none true ≢ state_pass
evaluate_derived_quality-none_example = evaluate_derived_quality-none two_bars 300000 600000 true
