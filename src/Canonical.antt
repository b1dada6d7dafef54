-- ===== src/Canonical.antt =====
-- src/quantara/canonical.py: canonical rows of source rows, in the order of their open times.
pub mod Reconcile
pub mod Sorted
mod Tests
use quantara.Prelude.{
  ℕ, suc, ◌+◌, Bool, true, false, not, ◌||◌, List, [], ◌∷◌, map, length, ltb, leb, ◌==◌,
  if◌then◌else◌,
}
use quantara.Text.{Text}
use quantara.Rows.{SourceRow, CanonicalRow}
use quantara.Errors.{Result, ok, err, duplicate_open_time}

-- The fields of a `DatasetDescriptor` that identify the rows.
pub record DatasetDescriptor : Type 0 where
  pub provider : Text
  pub market_type : Text
  pub instrument_id : Text
  pub provider_symbol : Text
  pub base_asset : Text
  pub quote_asset : Text
  pub settlement_asset : Text
  pub contract_type : Text
  pub interval : Text
  pub schema_version : Text

pub identity_of : DatasetDescriptor → List Text
identity_of descriptor =
    descriptor.provider ∷ descriptor.market_type ∷ descriptor.instrument_id
    ∷ descriptor.provider_symbol ∷ descriptor.base_asset ∷ descriptor.quote_asset
    ∷ descriptor.settlement_asset ∷ descriptor.contract_type ∷ descriptor.interval
    ∷ descriptor.schema_version ∷ []

pub build_canonical_row : SourceRow → DatasetDescriptor → CanonicalRow
unfolding identity_of
build_canonical_row source descriptor = record {
  identity = identity_of descriptor;
  open_time_ms = source.open_time;
  close_time_ms = source.close_time;
  nominal_available_ms = source.open_time + 60000;
  open_ = source.open_;
  high = source.high;
  low = source.low;
  close = source.close;
  base_asset_volume = source.base_asset_volume;
  quote_asset_volume = source.quote_asset_volume;
  trade_count = source.trade_count;
  taker_buy_base_volume = source.taker_buy_base_volume;
  taker_buy_quote_volume = source.taker_buy_quote_volume;
  source_ignore = source.source_ignore;
}

-- `all(a < b for a, b in itertools.pairwise(times))`
pub ascending_from : ℕ → List CanonicalRow → Bool
ascending_from previous [] = true
ascending_from previous (r ∷ rows) =
    if ltb previous r.open_time_ms then ascending_from r.open_time_ms rows else false

pub order_ok : List CanonicalRow → Bool
unfolding ascending_from
order_ok [] = true
order_ok (r ∷ rows) = ascending_from r.open_time_ms rows

-- `len(set(times)) != len(times)`
pub has_time : ℕ → List CanonicalRow → Bool
has_time t [] = false
has_time t (r ∷ rows) = t == r.open_time_ms || has_time t rows

pub has_duplicates : List CanonicalRow → Bool
unfolding has_time
has_duplicates [] = false
has_duplicates (r ∷ rows) = has_time r.open_time_ms rows || has_duplicates rows

-- `built.sort(key=lambda row: row.open_time_ms)`: rows of one time keep their order.
pub insert_row : CanonicalRow → List CanonicalRow → List CanonicalRow
insert_row r [] = r ∷ []
insert_row r (s ∷ rows) =
    if leb r.open_time_ms s.open_time_ms then r ∷ s ∷ rows else s ∷ insert_row r rows

pub sort_rows : List CanonicalRow → List CanonicalRow
unfolding insert_row
sort_rows [] = []
sort_rows (r ∷ rows) = insert_row r (sort_rows rows)

pub build_rows : List SourceRow → DatasetDescriptor → List CanonicalRow
unfolding build_canonical_row
build_rows rows descriptor = map (λ row. build_canonical_row row descriptor) rows

pub assemble_canonical_rows : List SourceRow → DatasetDescriptor → Result (List CanonicalRow × Bool)
unfolding order_ok has_duplicates sort_rows
assemble_canonical_rows rows descriptor =
    let built = build_rows rows descriptor in
    if order_ok built
    then ok (built, true)
    else if has_duplicates built
    then err duplicate_open_time
    else ok (sort_rows built, false)
