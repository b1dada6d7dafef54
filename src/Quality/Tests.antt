-- ===== src/Quality/Tests.antt =====
-- src/quantara/quality.py on two minutes, and on one minute too few.
use quantara.Prelude.{ℕ, ◌+◌, ◌≡◌, refl, true, false, some, List, [], ◌∷◌}
use quantara.Prelude.Int.{pos}
use quantara.Decimal.{Decimal, leb_decimal, ltb_decimal, times}
use quantara.Text.{codes, text_eq}
use quantara.Rows.{CanonicalRow}
use quantara.Quality.{state_pass, warn_blocked, state_fail, evaluate_quality}
use quantara.Quality.Golden.{Tells, evaluate_quality-Tells}

abbrev units_of : ℕ → Decimal
units_of n = record { coefficient = pos n; scale = 1 }

abbrev minute : (open_time volume : ℕ) → CanonicalRow
minute t volume = record {
  identity = codes "binance" ∷ [];
  open_time_ms = t;
  close_time_ms = t + 59999;
  nominal_available_ms = t + 60000;
  open_ = units_of 20;
  high = units_of 25;
  low = units_of 19;
  close = units_of 21;
  base_asset_volume = units_of volume;
  quote_asset_volume = units_of volume;
  trade_count = pos 3;
  taker_buy_base_volume = units_of 0;
  taker_buy_quote_volume = units_of 0;
  source_ignore = codes "0";
}

abbrev two_minutes : List CanonicalRow
two_minutes = minute 600000 15 ∷ minute 660000 14 ∷ []

passes : (evaluate_quality two_minutes 600000 720000 true (some 2)).state ≡ state_pass
unfolding evaluate_quality leb_decimal ltb_decimal times text_eq
passes = refl

-- A minute without trades is only warned of, and so is an order that had to be repaired.
warns :
    (evaluate_quality (minute 600000 15 ∷ minute 660000 0 ∷ []) 600000 720000 true (some 2)).state
    ≡ warn_blocked
unfolding evaluate_quality leb_decimal ltb_decimal times text_eq
warns = refl

fails : (evaluate_quality two_minutes 600000 780000 false (some 3)).state ≡ state_fail
unfolding evaluate_quality leb_decimal ltb_decimal times text_eq
fails = refl

evaluate_quality-Tells_example :
    Tells
      (evaluate_quality two_minutes 600000 720000 true (some 2)).state
      two_minutes
      600000
      720000
      2
      true
evaluate_quality-Tells_example = evaluate_quality-Tells two_minutes 600000 720000 2 true
