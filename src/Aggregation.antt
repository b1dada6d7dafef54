-- ===== src/Aggregation.antt =====
-- src/quantara/aggregation.py: one-minute rows to bars of a longer timeframe.
pub mod Sums
pub mod Buckets
pub mod Extremes
pub mod Bars
pub mod Results
pub mod Rejections
pub mod Persisted
mod Tests
use quantara.Prelude.{
  ℕ, zero, suc, ◌+◌, ◌-◌, ◌*◌, ◌/◌, ◌%◌, ◌^◌, String, Bool, true, false, not, ◌&&◌, ◌||◌, Option,
  none, some, List, [], ◌∷◌, ◌++◌, map, length, ltb, leb, ◌==◌, str_eq, if◌then◌else◌,
}
use mathlib.Core.List.{foldl}
use quantara.Prelude.Int.{ℤ, pos, ◌+ℤ◌, ltb_ℤ}
use quantara.Decimal.{Decimal, magnitude, context_add, scaled_integer, ltb_decimal}
use quantara.Text.{Text, codes, text_eq}
use quantara.Rows.{CanonicalRow, Cell, text, time, count, decimal, float}
use quantara.Errors.{
  Error, Result, ok, err, unordered_minute_input, duplicate_open_time, incomplete_group,
  nonzero_source_ignore_in_group, decimal_precision_or_scale_overflow, integer_precision_overflow,
  quantara_error, zero_division_error, index_error, ill_typed, ◌>>=◌, ◌>>◌, raise_if,
}

abbrev pub int64_max : ℕ
int64_max = 2 ^ 63 - 1

abbrev pub canonical_max_coefficient : ℕ
canonical_max_coefficient = 10 ^ 38

-- `sum(m.trade_count for m in members)`, added from the left.
pub sum_trade_counts : ℤ → List CanonicalRow → ℤ
sum_trade_counts acc [] = acc
sum_trade_counts acc (m ∷ ms) = sum_trade_counts (acc +ℤ m.trade_count) ms

pub exact_trade_count : List CanonicalRow → Result ℤ
unfolding sum_trade_counts
exact_trade_count members =
    let total = sum_trade_counts (pos 0) members in
    if ltb_ℤ total (pos 0) || ltb_ℤ (pos int64_max) total
    then err integer_precision_overflow
    else ok total

-- The loop of `exact_volume_sum`, in the context of 80 digits.
pub sum_volumes : Decimal → List Decimal → Decimal
sum_volumes total [] = total
sum_volumes total (v ∷ vs) = sum_volumes (context_add 80 total v) vs

-- The two checks behind the loop.
pub check_representable : Decimal → Option ℤ → Result Decimal
check_representable total none = err decimal_precision_or_scale_overflow
check_representable total (some scaled) =
    if leb canonical_max_coefficient (magnitude scaled)
    then err decimal_precision_or_scale_overflow
    else ok total

-- `Decimal(0)`
abbrev pub decimal_zero : Decimal
decimal_zero = record { coefficient = pos 0; scale = 0 }

pub exact_volume_sum : List Decimal → Result Decimal
unfolding check_representable
exact_volume_sum values =
    let total = sum_volumes decimal_zero values in
    check_representable total (scaled_integer 18 total)

-- `max(m.high for m in members)` and `min(…)` over a first value and the others: the first of equals.
pub max_decimal : Decimal → List Decimal → Decimal
max_decimal best [] = best
max_decimal best (v ∷ vs) = max_decimal (if ltb_decimal best v then v else best) vs

pub min_decimal : Decimal → List Decimal → Decimal
min_decimal best [] = best
min_decimal best (v ∷ vs) = min_decimal (if ltb_decimal v best then v else best) vs

-- The first loop of `aggregate_timeframe`: each open time against the one before.
pub check_ascending : ℕ → List CanonicalRow → Result (Unit {0})
check_ascending previous [] = ok tt
check_ascending previous (r ∷ rs) =
    if ltb r.open_time_ms previous
    then err unordered_minute_input
    else if r.open_time_ms == previous
    then err duplicate_open_time
    else check_ascending r.open_time_ms rs

pub check_order : List CanonicalRow → Result (Unit {0})
unfolding check_ascending
check_order [] = ok tt
check_order (r ∷ rs) = check_ascending r.open_time_ms rs

-- The dictionary `grouped`, in insertion order: bucket start and members.
abbrev pub Groups : Type 0
Groups = List (ℕ × List CanonicalRow)

pub bucket_of : (timeframe_ms : ℕ) → CanonicalRow → ℕ
bucket_of timeframe_ms row = row.open_time_ms - row.open_time_ms % timeframe_ms

-- `grouped[bucket].append(row)`
pub append_to : ℕ → CanonicalRow → Groups → Groups
append_to bucket row [] = (bucket, row ∷ []) ∷ []
append_to bucket row ((b, members) ∷ rest) =
    if b == bucket
    then (b, members ++ row ∷ []) ∷ rest
    else (b, members) ∷ append_to bucket row rest

pub group_rows : (timeframe_ms : ℕ) → Groups → List CanonicalRow → Groups
unfolding append_to bucket_of
group_rows timeframe_ms grouped [] = grouped
group_rows timeframe_ms grouped (row ∷ rows) =
    group_rows timeframe_ms (append_to (bucket_of timeframe_ms row) row grouped) rows

-- `sorted(grouped)`, each bucket with its members: the keys of a dictionary are distinct.
pub insert_group : ℕ × List CanonicalRow → Groups → Groups
insert_group g [] = g ∷ []
insert_group g (h ∷ rest) = if leb g.0 h.0 then g ∷ h ∷ rest else h ∷ insert_group g rest

pub sort_groups : Groups → Groups
unfolding insert_group
sort_groups [] = []
sort_groups (g ∷ rest) = insert_group g (sort_groups rest)

-- Each member opens 60 seconds after the one before, and the last one minute before `end`.
pub covers_from : (previous end : ℕ) → List CanonicalRow → Bool
covers_from previous end [] = previous + 60000 == end
covers_from previous end (m ∷ ms) =
    m.open_time_ms == previous + 60000 && covers_from m.open_time_ms end ms

-- `sum(1 for m in members if m.source_ignore != "0")`
pub count_offenders : List CanonicalRow → ℕ
count_offenders [] = 0
count_offenders (m ∷ ms) =
    (if text_eq m.source_ignore (codes "0") then 0 else 1) + count_offenders ms

pub last_close : CanonicalRow → List CanonicalRow → Decimal
last_close m [] = m.close
last_close m (n ∷ ms) = last_close n ms

-- The `CanonicalRow(...)` call at the end of the loop over the buckets.
pub make_bar :
    (identity : List Text) (timeframe_ms bucket : ℕ)
    → CanonicalRow
    → List CanonicalRow
    → Result CanonicalRow
make_bar identity timeframe_ms bucket m ms = do
  let members = m ∷ ms
  base ← exact_volume_sum (map (λ r. r.base_asset_volume) members)
  quote ← exact_volume_sum (map (λ r. r.quote_asset_volume) members)
  trades ← exact_trade_count members
  taker_base ← exact_volume_sum (map (λ r. r.taker_buy_base_volume) members)
  taker_quote ← exact_volume_sum (map (λ r. r.taker_buy_quote_volume) members)
  ok (record {
    identity = identity;
    open_time_ms = bucket;
    close_time_ms = bucket + timeframe_ms - 1;
    nominal_available_ms = bucket + timeframe_ms;
    open_ = m.open_;
    high = max_decimal m.high (map (λ r. r.high) ms);
    low = min_decimal m.low (map (λ r. r.low) ms);
    close = last_close m ms;
    base_asset_volume = base;
    quote_asset_volume = quote;
    trade_count = trades;
    taker_buy_base_volume = taker_base;
    taker_buy_quote_volume = taker_quote;
    source_ignore = codes "0";
  })

-- The body of the loop over the buckets.
pub aggregate_group :
    (identity : List Text) (timeframe_ms bucket : ℕ) → List CanonicalRow → Result CanonicalRow
aggregate_group identity timeframe_ms bucket [] =
    if timeframe_ms / 60000 == 0 then err index_error else err incomplete_group
aggregate_group identity timeframe_ms bucket (m ∷ ms) = do
  raise_if (not (length (m ∷ ms) == timeframe_ms / 60000)) incomplete_group
  raise_if (not (m.open_time_ms == bucket && covers_from m.open_time_ms (bucket + timeframe_ms) ms))
      incomplete_group
  raise_if (ltb 0 (count_offenders (m ∷ ms))) nonzero_source_ignore_in_group
  make_bar identity timeframe_ms bucket m ms

pub aggregate_groups :
    (identity : List Text) (timeframe_ms : ℕ) → Groups → Result (List CanonicalRow)
aggregate_groups identity timeframe_ms [] = ok []
aggregate_groups identity timeframe_ms ((bucket, members) ∷ rest) = do
  bar ← aggregate_group identity timeframe_ms bucket members
  bars ← aggregate_groups identity timeframe_ms rest
  ok (bar ∷ bars)

is_nonempty : List CanonicalRow → Bool
is_nonempty [] = false
is_nonempty (r ∷ rs) = true

-- `row.open_time_ms % 0` raises at the first row.
pub aggregate_timeframe :
    (minutes : List CanonicalRow) (identity : List Text) (timeframe_ms : ℕ)
    → Result (List CanonicalRow)
unfolding check_order is_nonempty group_rows sort_groups aggregate_groups
aggregate_timeframe minutes identity timeframe_ms = do
  check_order minutes
  raise_if (timeframe_ms == 0 && is_nonempty minutes) zero_division_error
  aggregate_groups identity timeframe_ms (sort_groups (group_rows timeframe_ms [] minutes))
