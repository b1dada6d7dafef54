-- ===== src/Rows.antt =====
-- The rows that the stages hand on: `SourceRow` of src/quantara/parsing.py, `CanonicalRow` of
-- src/quantara/canonical.py, and the persisted tuples that Parquet gives back. Epoch milliseconds
-- are natural numbers (the parser takes unsigned timestamps alone); counts are signed.
use quantara.Prelude.{ℕ, ◌<◌, List, [], ◌∷◌}
use quantara.Prelude.Int.{ℤ}
use quantara.Decimal.{Decimal}
use quantara.Text.{Text}

pub record SourceRow : Type 0 where
  pub open_time : ℕ
  pub close_time : ℕ
  pub open_ : Decimal
  pub high : Decimal
  pub low : Decimal
  pub close : Decimal
  pub base_asset_volume : Decimal
  pub quote_asset_volume : Decimal
  pub trade_count : ℤ
  pub taker_buy_base_volume : Decimal
  pub taker_buy_quote_volume : Decimal
  pub source_ignore : Text

pub record CanonicalRow : Type 0 where
  pub identity : List Text
  pub open_time_ms : ℕ
  pub close_time_ms : ℕ
  pub nominal_available_ms : ℕ
  pub open_ : Decimal
  pub high : Decimal
  pub low : Decimal
  pub close : Decimal
  pub base_asset_volume : Decimal
  pub quote_asset_volume : Decimal
  pub trade_count : ℤ
  pub taker_buy_base_volume : Decimal
  pub taker_buy_quote_volume : Decimal
  pub source_ignore : Text

-- The open times rise strictly from above `previous`.
abbrev pub AscendsFrom : ℕ → List CanonicalRow → Type 0
AscendsFrom previous [] = Unit
AscendsFrom previous (r ∷ rs) = (previous < r.open_time_ms) × AscendsFrom r.open_time_ms rs

abbrev pub Ascends : List CanonicalRow → Type 0
Ascends [] = Unit
Ascends (r ∷ rs) = AscendsFrom r.open_time_ms rs

-- One value of a persisted tuple, by the type that Python gives it.
pub data Cell : Type 0 where
  text : Text → Cell
  time : ℕ → Cell
  count : ℤ → Cell
  decimal : Decimal → Cell
  float : Cell
