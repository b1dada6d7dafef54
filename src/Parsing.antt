-- ===== src/Parsing.antt =====
-- src/quantara/parsing.py: the rows of a kline CSV. `csv.reader` (standard library) splits the text
-- into records; the model takes the list of records that it yields, in order.
pub mod Numeric
pub mod Contract
mod Tests
use quantara.Prelude.{
  ℕ, suc, ◌+◌, ◌-◌, ◌^◌, Bool, true, false, not, ◌&&◌, ◌||◌, List, [], ◌∷◌, ltb, leb, ◌==◌,
  if◌then◌else◌,
}
use quantara.Prelude.Int.{ℤ, pos, negsuc, sub_ℕ, leb_ℤ}
use quantara.Decimal.{Decimal}
use quantara.Text.{Text, codes, text_eq, all_digits, value}
use quantara.Rows.{SourceRow}
use quantara.Errors.{
  Error, Result, ok, err, source_header_mismatch, malformed_timestamp, malformed_numeric, ◌>>=◌,
  ◌>>◌, raise_if,
}
use quantara.Parsing.Numeric.{is_digits, strip_sign, starts_with_minus, parse_numeric}

-- What `parse_rows` reads of a `DatasetDescriptor`: its period in epoch milliseconds, and whether it
-- declares that the file has no header.
pub record Period : Type 0 where
  pub start_ms : ℕ
  pub end_ms : ℕ
  pub csv_header_absent : Bool

abbrev pub header : List Text
header =
    codes "open_time"
    ∷ codes "open"
    ∷ codes "high"
    ∷ codes "low"
    ∷ codes "close"
    ∷ codes "volume"
    ∷ codes "close_time"
    ∷ codes "quote_volume"
    ∷ codes "count"
    ∷ codes "taker_buy_volume"
    ∷ codes "taker_buy_quote_volume"
    ∷ codes "ignore"
    ∷ []

-- `tuple(a) == b`
pub fields_eq : List Text → List Text → Bool
fields_eq [] [] = true
fields_eq [] (t ∷ ts) = false
fields_eq (s ∷ ss) [] = false
fields_eq (s ∷ ss) (t ∷ ts) = text_eq s t && fields_eq ss ts

pub parse_timestamp_ms : Text → Result ℕ
parse_timestamp_ms t = if is_digits t then ok (value t) else err malformed_timestamp

-- `-?[0-9]+`
pub is_signed_int : Text → Bool
is_signed_int [] = false
is_signed_int (c ∷ cs) = if c == b'-' then is_digits cs else is_digits (c ∷ cs)

-- `int(count)`
pub signed_value : Text → ℤ
signed_value [] = pos 0
signed_value (c ∷ cs) = if c == b'-' then sub_ℕ 0 (value cs) else pos (value (c ∷ cs))

-- `INT64_MIN <= n <= INT64_MAX`
abbrev pub fits_int64 : ℤ → Bool
fits_int64 n = leb_ℤ (sub_ℕ 0 (2 ^ 63)) n && leb_ℤ n (pos (2 ^ 63 - 1))

pub parse_count : Text → Result ℤ
unfolding is_signed_int signed_value
parse_count t =
    if not (is_signed_int t) || not (fits_int64 (signed_value t))
    then err malformed_numeric
    else ok (signed_value t)

-- The `SourceRow(...)` call.
pub make_row :
    (open_ms close_ms : ℕ) (open_price high_price low_price close_price base quote : Decimal)
    (trade_count : ℤ) (taker_base taker_quote : Decimal) (ignore : Text)
    → SourceRow
make_row open_ms close_ms open_price high_price low_price close_price base quote trade_count
      taker_base taker_quote ignore =
    record {
      open_time = open_ms;
      close_time = close_ms;
      open_ = open_price;
      high = high_price;
      low = low_price;
      close = close_price;
      base_asset_volume = base;
      quote_asset_volume = quote;
      trade_count = trade_count;
      taker_buy_base_volume = taker_base;
      taker_buy_quote_volume = taker_quote;
      source_ignore = ignore;
    }

-- The body of the loop for a record of twelve fields.
pub parse_fields : Period → List Text → Result SourceRow
parse_fields p
      (open_time ∷ open_ ∷ high ∷ low ∷ close ∷ volume ∷ close_time ∷ quote_volume ∷ count
        ∷ taker_buy_volume ∷ taker_buy_quote_volume ∷ ignore ∷ []) =
    do
      open_ms ← parse_timestamp_ms open_time
      close_ms ← parse_timestamp_ms close_time
      raise_if (not (close_ms == open_ms + 59999)) malformed_timestamp
      raise_if (not (leb p.start_ms open_ms && ltb open_ms p.end_ms)) malformed_timestamp
      trade_count ← parse_count count
      open_price ← parse_numeric open_
      high_price ← parse_numeric high
      low_price ← parse_numeric low
      close_price ← parse_numeric close
      base ← parse_numeric volume
      quote ← parse_numeric quote_volume
      taker_base ← parse_numeric taker_buy_volume
      taker_quote ← parse_numeric taker_buy_quote_volume
      ok (
          make_row open_ms close_ms open_price high_price low_price close_price base quote
            trade_count taker_base taker_quote ignore)
parse_fields p _ = err source_header_mismatch

-- The loop over the data records; an empty record is skipped.
pub parse_records : Period → List (List Text) → Result (List SourceRow)
parse_records p [] = ok []
parse_records p ([] ∷ records) = parse_records p records
parse_records p ((f ∷ fields) ∷ records) = do
  row ← parse_fields p (f ∷ fields)
  rows ← parse_records p records
  ok (row ∷ rows)

pub parse_rows : Period → List (List Text) → Result (List SourceRow)
unfolding parse_records fields_eq
parse_rows p [] = err source_header_mismatch
parse_rows p (first ∷ records) =
    if p.csv_header_absent
    then (do
      raise_if (fields_eq first header) source_header_mismatch
      parse_records p (first ∷ records))
    else (do
      raise_if (not (fields_eq first header)) source_header_mismatch
      parse_records p records)
