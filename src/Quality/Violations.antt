-- ===== src/Quality/Violations.antt =====
-- src/quantara/quality.py: the tests of the loop over the rows, and what a row adds to each counter.
use quantara.Prelude.{ℕ, ◌+◌, Bool, not, ◌&&◌, ◌==◌, if◌then◌else◌}
use quantara.Prelude.Int.{pos, ltb_ℤ}
use quantara.Decimal.{Decimal, leb_decimal, ltb_decimal}
use quantara.Text.{codes, text_eq}
use quantara.Rows.{CanonicalRow}

-- `Decimal` compared with the integer 0.
abbrev pub zero_decimal : Decimal
zero_decimal = record { coefficient = pos 0; scale = 0 }

unfoldable pub is_zero : Decimal → Bool
is_zero d = leb_decimal d zero_decimal && leb_decimal zero_decimal d

-- The tests of the loop over the rows, by what they add to its counters.
abbrev pub violation : Bool → ℕ
violation holds = if holds then 0 else 1

unfoldable pub ohlc_holds : CanonicalRow → Bool
ohlc_holds row =
    leb_decimal row.open_ row.high
    && leb_decimal row.close row.high
    && leb_decimal row.low row.open_
    && leb_decimal row.low row.close
    && leb_decimal row.low row.high

unfoldable pub prices_positive : CanonicalRow → Bool
prices_positive row =
    ltb_decimal zero_decimal row.open_
    && ltb_decimal zero_decimal row.high
    && ltb_decimal zero_decimal row.low
    && ltb_decimal zero_decimal row.close

unfoldable pub volumes_nonnegative : CanonicalRow → Bool
volumes_nonnegative row =
    leb_decimal zero_decimal row.base_asset_volume
    && leb_decimal zero_decimal row.quote_asset_volume
    && leb_decimal zero_decimal row.taker_buy_base_volume
    && leb_decimal zero_decimal row.taker_buy_quote_volume

unfoldable pub taker_within : CanonicalRow → Bool
taker_within row =
    leb_decimal row.taker_buy_base_volume row.base_asset_volume
    && leb_decimal row.taker_buy_quote_volume row.quote_asset_volume

-- What one row adds to each counter.
unfoldable pub ohlc_violation : CanonicalRow → ℕ
unfolding ohlc_holds
ohlc_violation row = violation (ohlc_holds row)

unfoldable pub price_violation : CanonicalRow → ℕ
unfolding prices_positive
price_violation row = violation (prices_positive row)

unfoldable pub volume_violation : CanonicalRow → ℕ
unfolding volumes_nonnegative
volume_violation row =
    violation (volumes_nonnegative row) + violation (not (ltb_ℤ row.trade_count (pos 0)))

unfoldable pub close_time_violation : CanonicalRow → ℕ
close_time_violation row = violation (row.close_time_ms == row.open_time_ms + 59999)

unfoldable pub taker_violation : CanonicalRow → ℕ
unfolding taker_within
taker_violation row = violation (taker_within row)

unfoldable pub zero_volume : CanonicalRow → ℕ
unfolding is_zero
zero_volume row = violation (not (is_zero row.base_asset_volume && is_zero row.quote_asset_volume))

unfoldable pub nonzero_ignore : CanonicalRow → ℕ
nonzero_ignore row = violation (text_eq row.source_ignore (codes "0"))
