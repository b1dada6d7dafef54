-- ===== src/Hashing/Columns.antt =====
-- src/quantara/hashing.py: the schemas, their fingerprints, and the checks of a row against them.
use quantara.Prelude.{ℕ, suc, Bool, true, false, Option, none, some, List, [], ◌∷◌, ◌++◌, String}
use quantara.Prelude.Int.{pos}
use quantara.Text.{Text, codes}
use quantara.Json.{
  Json, Items, Fields, bool, int, string, array, object, no_items, item, no_fields, entry,
}
use quantara.Jcs.{canonicalize}
use quantara.Hashing.{utf_8, payload_digest}
use quantara.Errors.{Result, ok, ◌>>=◌}

-- The types of columns.
pub data ColumnType : Type 0 where
  utf8 timestamp_ms_utc decimal128_38_18 int64_nonnegative int64 int8 : ColumnType

-- An entry in front of a dictionary.
infixr 4 ◌▸◌
abbrev pub ◌▸◌ : String × Json → Fields → Fields
(key, value) ▸ entries = entry (codes key) value entries

abbrev pub text_of : String → Json
text_of s = string (codes s)

pub type_name : ColumnType → Json
type_name utf8 = text_of "utf8"
type_name timestamp_ms_utc = text_of "timestamp_ms_utc"
type_name decimal128_38_18 = text_of "decimal128_38_18"
type_name int64_nonnegative = text_of "int64_nonnegative"
type_name int64 = text_of "int64"
type_name int8 = text_of "int8"

abbrev pub canonical_columns : List (String × ColumnType)
canonical_columns =
    ("provider", utf8)
    ∷ ("market_type", utf8)
    ∷ ("instrument_id", utf8)
    ∷ ("provider_symbol", utf8)
    ∷ ("base_asset", utf8)
    ∷ ("quote_asset", utf8)
    ∷ ("settlement_asset", utf8)
    ∷ ("contract_type", utf8)
    ∷ ("interval", utf8)
    ∷ ("schema_version", utf8)
    ∷ ("open_time_utc", timestamp_ms_utc)
    ∷ ("close_time_utc", timestamp_ms_utc)
    ∷ ("nominal_available_time_utc", timestamp_ms_utc)
    ∷ ("open", decimal128_38_18)
    ∷ ("high", decimal128_38_18)
    ∷ ("low", decimal128_38_18)
    ∷ ("close", decimal128_38_18)
    ∷ ("base_asset_volume", decimal128_38_18)
    ∷ ("quote_asset_volume", decimal128_38_18)
    ∷ ("trade_count", int64_nonnegative)
    ∷ ("taker_buy_base_volume", decimal128_38_18)
    ∷ ("taker_buy_quote_volume", decimal128_38_18)
    ∷ ("source_ignore", utf8)
    ∷ []

-- A column of the research schema.
pub record ResearchColumn : Type 0 where
  pub name : String
  pub ctype : ColumnType
  pub role : String
  pub nullable : Bool

abbrev research_column : String → ColumnType → String → Bool → ResearchColumn
research_column name ctype role nullable = record {
  name = name;
  ctype = ctype;
  role = role;
  nullable = nullable;
}

abbrev pub research_columns : List ResearchColumn
research_columns =
    research_column "open_time_ms" int64 "index" false
    ∷ research_column "f_ret_1" decimal128_38_18 "feature" true
    ∷ research_column "f_roc_60" decimal128_38_18 "feature" true
    ∷ research_column "f_rvol_20" decimal128_38_18 "feature" true
    ∷ research_column "f_volratio_20" decimal128_38_18 "feature" true
    ∷ research_column "l_fwdret_24" decimal128_38_18 "label" true
    ∷ research_column "l_fwddir_24" int8 "label" true
    ∷ []

pub column_items : (index : ℕ) → List (String × ColumnType) → Items
unfolding type_name
column_items index [] = no_items
column_items index ((name, ctype) ∷ columns) =
    item
      (object (
        ("index", int (pos index))
        ▸ ("name", text_of name)
        ▸ ("type", type_name ctype)
        ▸ ("nullable", bool false)
        ▸ no_fields))
      (column_items (suc index) columns)

pub schema_payload : (schema_version : Text) → Json
unfolding column_items
schema_payload schema_version = object (
    ("schema_version", string schema_version)
    ▸ ("columns", array (column_items 0 canonical_columns))
    ▸ no_fields)

unfoldable pub string_items : List Text → Items
string_items [] = no_items
string_items (t ∷ ts) = item (string t) (string_items ts)

-- Without months, the frozen fingerprint; with months, that of the range.
pub schema_fingerprint :
    (sha256_hex : List ℕ → Text) (schema_version : Text) (months : Option (List Text)) → Result Text
unfolding schema_payload string_items
schema_fingerprint sha256_hex schema_version none =
    payload_digest sha256_hex (schema_payload schema_version)
schema_fingerprint sha256_hex schema_version (some months) = do
  encoded ← canonicalize (schema_payload schema_version)
  text ← canonicalize (
      object (
        ("months", array (string_items months))
        ▸ ("schema_fingerprint_payload", schema_payload schema_version)
        ▸ no_fields))
  ok (sha256_hex (codes "quantara-range-schema-fingerprint-v1" ++ 0 ∷ utf_8 text))

pub research_column_items : (index : ℕ) → List ResearchColumn → Items
unfolding type_name
research_column_items index [] = no_items
research_column_items index (column ∷ columns) =
    item
      (object (
        ("index", int (pos index))
        ▸ ("name", text_of column.name)
        ▸ ("type", type_name column.ctype)
        ▸ ("role", text_of column.role)
        ▸ ("nullable", bool column.nullable)
        ▸ no_fields))
      (research_column_items (suc index) columns)

pub research_fingerprint_payload : (schema_version : Text) → Json
unfolding research_column_items
research_fingerprint_payload schema_version = object (
    ("schema_version", string schema_version)
    ▸ ("columns", array (research_column_items 0 research_columns))
    ▸ no_fields)

pub research_schema_fingerprint : (sha256_hex : List ℕ → Text) (schema_version : Text) → Result Text
unfolding research_fingerprint_payload
research_schema_fingerprint sha256_hex schema_version =
    payload_digest sha256_hex (research_fingerprint_payload schema_version)
