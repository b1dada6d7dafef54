-- ===== src/Aggregation/Bars.antt =====
-- The loop over the buckets in aggregate_timeframe (src/quantara/aggregation.py): what a bar is.
use quantara.Prelude.{
  All, ℕ, ◌+◌, ◌-◌, ◌*◌, ◌/◌, ◌≡◌, refl, subst, List, [], ◌∷◌, arith, length, map, true, false, not,
  ◌&&◌, Bool-cases, inl, inr, ◌==◌, ==_iff, Option, none, some, ltb,
}
use quantara.Decimal.{Decimal}
use quantara.Text.{Text, codes, text_eq, text_eq_iff}
use quantara.Rows.{CanonicalRow}
use quantara.Errors.{ok, >>=-eq-ok, ok_injective, raise_if-eq-ok}
use quantara.Aggregation.{
  Groups, last_close, covers_from, count_offenders, exact_volume_sum, exact_trade_count, make_bar,
  aggregate_group, aggregate_groups,
}
use quantara.Aggregation.Extremes.{
  IsMaximum, IsMinimum, max_decimal-IsMaximum, min_decimal-IsMinimum,
}

-- The members open every minute from `start` on.
abbrev pub EveryMinute : ℕ → List CanonicalRow → Type 0
EveryMinute start [] = Unit
EveryMinute start (m ∷ ms) = (m.open_time_ms ≡ start) × EveryMinute (start + 60000) ms

covers_from-EveryMinute :
    (t end : ℕ) (ms : List CanonicalRow)
    → covers_from t end ms ≡ true
    → EveryMinute (t + 60000) ms × (t + 60000 + length ms * 60000 ≡ end)
unfolding covers_from
covers_from-EveryMinute t end [] h = ground arith
covers_from-EveryMinute t end (m ∷ ms) h = elim (Bool-cases (m.open_time_ms == t + 60000)) [
  | inl e ↦
      let at = (==_iff m.open_time_ms (t + 60000)).0 e in
      let (k, s) = covers_from-EveryMinute m.open_time_ms end ms (rw e at h) in
      ((at, rw at at k), omega (arith, s))
  | inr ne ↦ absurd (ground arith)
]

-- Nobody in the group has another `source_ignore` than "0".
no_offenders :
    (ms : List CanonicalRow) → count_offenders ms ≡ 0 → All (λ m. m.source_ignore ≡ codes "0") ms
unfolding count_offenders
no_offenders [] h = tt
no_offenders (m ∷ ms) h = elim (Bool-cases (text_eq m.source_ignore (codes "0"))) [
  | inl e ↦ ((text_eq_iff m.source_ignore (codes "0")).0 e, no_offenders ms (ground arith))
  | inr ne ↦ absurd (ground arith)
]

-- The open of the first row, and the close of the last.
abbrev pub first_price : List CanonicalRow → Option Decimal
first_price [] = none
first_price (m ∷ ms) = some m.open_

abbrev pub last_price : List CanonicalRow → Option Decimal
last_price [] = none
last_price (m ∷ []) = some m.close
last_price (m ∷ n ∷ ms) = last_price (n ∷ ms)

last_close-last_price :
    (m : CanonicalRow) (ms : List CanonicalRow) → some (last_close m ms) ≡ last_price (m ∷ ms)
unfolding last_close
last_close-last_price m [] = refl
last_close-last_price m (n ∷ ms) = last_close-last_price n ms

-- What the bar of a group is: its members are the complete minutes of the bucket, none carries a
-- nonzero `ignore`, and each field is the exact aggregate of the members' fields.
pub record IsBarOf (identity : List Text) (timeframe_ms bucket : ℕ) (members : List CanonicalRow)
    (bar : CanonicalRow) : Type 0 where
  pub size : length members ≡ timeframe_ms / 60000
  pub minutes : EveryMinute bucket members
  pub span : bucket + length members * 60000 ≡ bucket + timeframe_ms
  pub clean : All (λ m. m.source_ignore ≡ codes "0") members
  pub same_identity : bar.identity ≡ identity
  pub opens_at : bar.open_time_ms ≡ bucket
  pub closes_at : bar.close_time_ms ≡ bucket + timeframe_ms - 1
  pub available_at : bar.nominal_available_ms ≡ bucket + timeframe_ms
  pub first_open : some bar.open_ ≡ first_price members
  pub last_price : some bar.close ≡ last_price members
  pub highest : IsMaximum bar.high (map (λ m. m.high) members)
  pub lowest : IsMinimum bar.low (map (λ m. m.low) members)
  pub base_sum :
      exact_volume_sum (map (λ m. m.base_asset_volume) members) ≡ ok bar.base_asset_volume
  pub quote_sum :
      exact_volume_sum (map (λ m. m.quote_asset_volume) members) ≡ ok bar.quote_asset_volume
  pub trade_sum : exact_trade_count members ≡ ok bar.trade_count
  pub taker_base_sum :
      exact_volume_sum (map (λ m. m.taker_buy_base_volume) members) ≡ ok bar.taker_buy_base_volume
  pub taker_quote_sum :
      exact_volume_sum (map (λ m. m.taker_buy_quote_volume) members) ≡ ok bar.taker_buy_quote_volume
  pub ignore : bar.source_ignore ≡ codes "0"

-- The facts that the guards of the loop body establish.
abbrev IsComplete : (timeframe_ms bucket : ℕ) → List CanonicalRow → Type 0
IsComplete tf bucket members =
    (length members ≡ tf / 60000)
    × EveryMinute bucket members
    × (bucket + length members * 60000 ≡ bucket + tf)
    × All (λ m. m.source_ignore ≡ codes "0") members

make_bar-IsBarOf :
    (identity : List Text) (tf bucket : ℕ) (m : CanonicalRow) (ms : List CanonicalRow)
    (bar : CanonicalRow)
    → IsComplete tf bucket (m ∷ ms)
    → make_bar identity tf bucket m ms ≡ ok bar
    → IsBarOf identity tf bucket (m ∷ ms) bar
unfolding make_bar
make_bar-IsBarOf identity tf bucket m ms bar (size, minutes, span, clean) h =
    let (base, e1, h1) =
      >>=-eq-ok (exact_volume_sum (map (λ r. r.base_asset_volume) (m ∷ ms))) _ h in
    let (quote, e2, h2) =
      >>=-eq-ok (exact_volume_sum (map (λ r. r.quote_asset_volume) (m ∷ ms))) _ h1 in
    let (trades, e3, h3) = >>=-eq-ok (exact_trade_count (m ∷ ms)) _ h2 in
    let (tb, e4, h4) =
      >>=-eq-ok (exact_volume_sum (map (λ r. r.taker_buy_base_volume) (m ∷ ms))) _ h3 in
    let (tq, e5, h5) =
      >>=-eq-ok (exact_volume_sum (map (λ r. r.taker_buy_quote_volume) (m ∷ ms))) _ h4 in
    subst (IsBarOf identity tf bucket (m ∷ ms)) (ok_injective h5) (record {
      size = size;
      minutes = minutes;
      span = span;
      clean = clean;
      same_identity = refl;
      opens_at = refl;
      closes_at = refl;
      available_at = refl;
      first_open = refl;
      last_price = last_close-last_price m ms;
      highest = max_decimal-IsMaximum m.high (map (λ r. r.high) ms);
      lowest = min_decimal-IsMinimum m.low (map (λ r. r.low) ms);
      base_sum = e1;
      quote_sum = e2;
      trade_sum = e3;
      taker_base_sum = e4;
      taker_quote_sum = e5;
      ignore = refl;
    })

guards-IsComplete :
    (tf bucket : ℕ) (m : CanonicalRow) (ms : List CanonicalRow)
    → not (length (m ∷ ms) == tf / 60000) ≡ false
    → not (m.open_time_ms == bucket && covers_from m.open_time_ms (bucket + tf) ms) ≡ false
    → ltb 0 (count_offenders (m ∷ ms)) ≡ false
    → IsComplete tf bucket (m ∷ ms)
guards-IsComplete tf bucket m ms full covers none_bad =
    let at : m.open_time_ms ≡ bucket = ground arith in
    let (k, s) = covers_from-EveryMinute m.open_time_ms (bucket + tf) ms (ground arith) in
    (ground arith, (at, rw at at k), omega (arith, s), no_offenders (m ∷ ms) (ground arith))

aggregate_group-IsBarOf :
    (identity : List Text) (tf bucket : ℕ) (members : List CanonicalRow) (bar : CanonicalRow)
    → aggregate_group identity tf bucket members ≡ ok bar
    → IsBarOf identity tf bucket members bar
unfolding aggregate_group
aggregate_group-IsBarOf identity tf bucket [] bar h = absurd (ground arith)
aggregate_group-IsBarOf identity tf bucket (m ∷ ms) bar h =
    let (full, h1) = raise_if-eq-ok (not (length (m ∷ ms) == tf / 60000)) _ _ h in
    let (covers, h2) =
      raise_if-eq-ok (not (m.open_time_ms == bucket && covers_from m.open_time_ms (bucket + tf) ms))
        _ _ h1 in
    let (none_bad, h3) = raise_if-eq-ok (ltb 0 (count_offenders (m ∷ ms))) _ _ h2 in
    make_bar-IsBarOf identity tf bucket m ms bar
      (guards-IsComplete tf bucket m ms full covers none_bad) h3

-- One bar for each group, in order.
abbrev pub AreBars : (identity : List Text) (timeframe_ms : ℕ) → Groups → List CanonicalRow → Type 0
AreBars identity tf [] [] = Unit
AreBars identity tf ((b, ms) ∷ groups) (bar ∷ bars) =
    IsBarOf identity tf b ms bar × AreBars identity tf groups bars
AreBars identity tf _ _ = ⊥

pub aggregate_groups-AreBars :
    (identity : List Text) (tf : ℕ) (groups : Groups) (bars : List CanonicalRow)
    → aggregate_groups identity tf groups ≡ ok bars
    → AreBars identity tf groups bars
unfolding aggregate_groups
aggregate_groups-AreBars identity tf [] [] h = tt
aggregate_groups-AreBars identity tf [] (bar ∷ bars) h = cc
aggregate_groups-AreBars identity tf ((b, ms) ∷ groups) bars h =
    let (bar, e, h1) = >>=-eq-ok (aggregate_group identity tf b ms) _ h in
    let (rest, e', h2) = >>=-eq-ok (aggregate_groups identity tf groups) _ h1 in
    subst (AreBars identity tf ((b, ms) ∷ groups)) (ok_injective h2) (
      aggregate_group-IsBarOf identity tf b ms bar e,
      aggregate_groups-AreBars identity tf groups rest e',
    )
