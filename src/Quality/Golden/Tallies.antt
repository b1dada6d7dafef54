-- ===== src/Quality/Golden/Tallies.antt =====
-- The counters of violations of src/quantara/quality.py, by what each row is.
use quantara.Prelude.{ℕ, ◌+◌, ◌≡◌, ◌↔◌, refl, true, List, [], ◌∷◌, All, arith}
use quantara.Prelude.Int.{pos, ◌≤ℤ◌}
use quantara.Decimal.{Decimal, ltb_decimal}
use quantara.Decimal.Order.{◌≤ᵈ◌}
use quantara.Text.{codes, text_eq_iff}
use quantara.Rows.{CanonicalRow}
use quantara.Quality.{tally}
use quantara.Quality.Violations.{
  zero_decimal, is_zero, ohlc_holds, prices_positive, volumes_nonnegative, taker_within,
  ohlc_violation, price_violation, volume_violation, close_time_violation, taker_violation,
  zero_volume, nonzero_ignore,
}

abbrev pub IsBounded : CanonicalRow → Type 0
IsBounded r =
    (r.open_ ≤ᵈ r.high)
    × (r.close ≤ᵈ r.high)
    × (r.low ≤ᵈ r.open_)
    × (r.low ≤ᵈ r.close)
    × (r.low ≤ᵈ r.high)

-- `0 < d`
abbrev pub IsPositive : Decimal → Type 0
IsPositive d = ltb_decimal zero_decimal d ≡ true

abbrev pub IsPriced : CanonicalRow → Type 0
IsPriced r = IsPositive r.open_ × IsPositive r.high × IsPositive r.low × IsPositive r.close

abbrev pub HasVolumes : CanonicalRow → Type 0
HasVolumes r =
    (zero_decimal ≤ᵈ r.base_asset_volume)
    × (zero_decimal ≤ᵈ r.quote_asset_volume)
    × (zero_decimal ≤ᵈ r.taker_buy_base_volume)
    × (zero_decimal ≤ᵈ r.taker_buy_quote_volume)
    × (pos 0 ≤ℤ r.trade_count)

abbrev pub IsMinute : CanonicalRow → Type 0
IsMinute r = r.close_time_ms ≡ r.open_time_ms + 59999

abbrev pub IsWithinTotals : CanonicalRow → Type 0
IsWithinTotals r =
    (r.taker_buy_base_volume ≤ᵈ r.base_asset_volume)
    × (r.taker_buy_quote_volume ≤ᵈ r.quote_asset_volume)

-- By value.
abbrev pub IsZero : Decimal → Type 0
IsZero d = (d ≤ᵈ zero_decimal) × (zero_decimal ≤ᵈ d)

abbrev pub IsTraded : CanonicalRow → Type 0
IsTraded r = ¬ (IsZero r.base_asset_volume × IsZero r.quote_asset_volume)

abbrev pub IsIgnorable : CanonicalRow → Type 0
IsIgnorable r = r.source_ignore ≡ codes "0"

pub tally_iff :
    (f : CanonicalRow → ℕ) (P : CanonicalRow → Type 0)
    → ((r : CanonicalRow) → (f r ≡ 0) ↔ P r)
    → (rows : List CanonicalRow) → (tally f rows ≡ 0) ↔ All P rows
unfolding tally
tally_iff f P e [] = (λ h. tt, λ h. refl)
tally_iff f P e (r ∷ rows) = (
  λ h. ((e r).0 (omega arith), (tally_iff f P e rows).0 (omega arith)),
  λ a. omega (arith, (e r).1 a.0, (tally_iff f P e rows).1 a.1),
)

pub tally-IsBounded :
    (rows : List CanonicalRow) → (tally ohlc_violation rows ≡ 0) ↔ All IsBounded rows
unfolding ohlc_violation ohlc_holds
tally-IsBounded = tally_iff ohlc_violation IsBounded (λ r. ground arith)

pub tally-IsPriced :
    (rows : List CanonicalRow) → (tally price_violation rows ≡ 0) ↔ All IsPriced rows
unfolding price_violation prices_positive
tally-IsPriced = tally_iff price_violation IsPriced (λ r. ground arith)

pub tally-HasVolumes :
    (rows : List CanonicalRow) → (tally volume_violation rows ≡ 0) ↔ All HasVolumes rows
unfolding volume_violation volumes_nonnegative
tally-HasVolumes = tally_iff volume_violation HasVolumes (λ r. ground arith)

pub tally-IsMinute :
    (rows : List CanonicalRow) → (tally close_time_violation rows ≡ 0) ↔ All IsMinute rows
unfolding close_time_violation
tally-IsMinute = tally_iff close_time_violation IsMinute (λ r. ground arith)

pub tally-IsWithinTotals :
    (rows : List CanonicalRow) → (tally taker_violation rows ≡ 0) ↔ All IsWithinTotals rows
unfolding taker_violation taker_within
tally-IsWithinTotals = tally_iff taker_violation IsWithinTotals (λ r. ground arith)

pub tally-IsTraded : (rows : List CanonicalRow) → (tally zero_volume rows ≡ 0) ↔ All IsTraded rows
unfolding zero_volume is_zero
tally-IsTraded = tally_iff zero_volume IsTraded (λ r. ground arith)

pub tally-IsIgnorable :
    (rows : List CanonicalRow) → (tally nonzero_ignore rows ≡ 0) ↔ All IsIgnorable rows
unfolding nonzero_ignore
tally-IsIgnorable =
    tally_iff nonzero_ignore IsIgnorable
      (λ r. ground (arith, text_eq_iff r.source_ignore (codes "0")))
