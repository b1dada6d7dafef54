-- ===== src/Hashing/Content.antt =====
-- src/quantara/hashing.py: the checks of a row, the framing of rows under a domain, and the
-- choice between the Python functions and the Rust kernel. `str.lower` and `\d` of Unicode are arguments.
use quantara.Prelude.{
  ℕ, suc, Bool, true, false, Option, none, some, List, [], ◌∷◌, ◌++◌, length, not, ◌&&◌, ◌==◌,
  if◌then◌else◌,
}
use quantara.Text.{Text, codes, text_eq, partition}
use quantara.Decimal.{Decimal}
use quantara.Json.{Json, Items, null, bool, int, string, array, no_items, item}
use quantara.Jcs.{canonicalize}
use quantara.Hashing.{utf_8, ascii, render_decimal_18_python}
use quantara.Hashing.Columns.{
  ColumnType, decimal128_38_18, canonical_columns, ResearchColumn, research_columns,
}
use quantara.Errors.{
  Error, Result, ok, err, hash_payload_error, kernel_hash_payload_error, runtime_error, raise_if,
  ◌>>=◌, ◌>>◌,
}

unfoldable pub item_count : Items → ℕ
item_count no_items = 0
item_count (item value items) = suc (item_count items)

-- `isinstance(value, (str, int))`; a bool is an int.
unfoldable pub is_str_or_int : Json → Bool
is_str_or_int (string t) = true
is_str_or_int (int n) = true
is_str_or_int (bool b) = true
is_str_or_int _ = false

unfoldable pub check_values : Items → Result (Unit {0})
unfolding is_str_or_int
check_values no_items = ok tt
check_values (item value items) = do
  raise_if (not (is_str_or_int value)) hash_payload_error
  check_values items

unfoldable pub canonical_row_array : Items → Result Items
canonical_row_array values = do
  raise_if (not (item_count values == length canonical_columns)) hash_payload_error
  check_values values
  ok values

-- `^-?\d+\.\d{18}$` for a full match.
unfoldable pub all_of : (ℕ → Bool) → Text → Bool
all_of is_decimal [] = true
all_of is_decimal (c ∷ cs) = is_decimal c && all_of is_decimal cs

unfoldable pub matches_unsigned_q18 : (is_decimal : ℕ → Bool) → Text → Bool
unfolding all_of partition
matches_unsigned_q18 is_decimal t =
    let (before, found, after) = partition b'.' t in
    found
    && not (length before == 0)
    && all_of is_decimal before
    && length after == 18
    && all_of is_decimal after

unfoldable pub matches_q18 : (is_decimal : ℕ → Bool) → Text → Bool
matches_q18 is_decimal [] = false
matches_q18 is_decimal (c ∷ cs) =
    if c == b'-'
    then matches_unsigned_q18 is_decimal cs
    else matches_unsigned_q18 is_decimal (c ∷ cs)

unfoldable pub is_decimal_column : ColumnType → Bool
is_decimal_column decimal128_38_18 = true
is_decimal_column _ = false

-- The body of the loop for one column that is not null.
unfoldable pub check_value : (is_decimal : ℕ → Bool) → ResearchColumn → Json → Result (Unit {0})
unfolding matches_q18 is_decimal_column
check_value is_decimal column null = raise_if (not column.nullable) hash_payload_error
check_value is_decimal column (string t) =
    raise_if (not (is_decimal_column column.ctype && matches_q18 is_decimal t)) hash_payload_error
check_value is_decimal column (int n) = raise_if (is_decimal_column column.ctype) hash_payload_error
check_value is_decimal column _ = err hash_payload_error

unfoldable pub check_columns :
    (is_decimal : ℕ → Bool) → List ResearchColumn → Items → Result (Unit {0})
check_columns is_decimal [] items = ok tt
check_columns is_decimal (column ∷ columns) no_items = ok tt
check_columns is_decimal (column ∷ columns) (item value items) = do
  check_value is_decimal column value
  check_columns is_decimal columns items

unfoldable pub research_row_array : (is_decimal : ℕ → Bool) → Items → Result Items
research_row_array is_decimal values = do
  raise_if (not (item_count values == length research_columns)) hash_payload_error
  check_columns is_decimal research_columns values
  ok values

-- The bytes of the loop over the rows.
unfoldable pub frame_rows : (row_array : Items → Result Items) → List Items → Result (List ℕ)
frame_rows row_array [] = ok []
frame_rows row_array (row ∷ rows) = do
  values ← row_array row
  text ← canonicalize (array values)
  more ← frame_rows row_array rows
  ok (utf_8 text ++ 10 ∷ more)

-- All bytes that the digest is updated with.
unfoldable pub framed :
    (row_array : Items → Result Items) (lower : Text → Text) (domain fingerprint : Text)
    (rows : List Items)
    → Result (List ℕ)
framed row_array lower domain fingerprint rows = do
  name ← ascii (lower fingerprint)
  more ← frame_rows row_array rows
  ok (domain ++ 0 ∷ (name ++ 10 ∷ more))

abbrev pub content_hash_domain : Text
content_hash_domain = codes "quantara-canonical-content-v1"

abbrev pub research_content_hash_domain : Text
research_content_hash_domain = codes "quantara-research-content-v1"

unfoldable pub canonical_content_hash_python :
    (sha256_hex : List ℕ → Text) (lower : Text → Text) (fingerprint : Text) (rows : List Items)
    → Result Text
canonical_content_hash_python sha256_hex lower fingerprint rows = do
  bytes ← framed canonical_row_array lower content_hash_domain fingerprint rows
  ok (sha256_hex bytes)

unfoldable pub research_content_hash_python :
    (sha256_hex : List ℕ → Text) (lower : Text → Text) (is_decimal : ℕ → Bool) (fingerprint : Text)
    (rows : List Items)
    → Result Text
research_content_hash_python sha256_hex lower is_decimal fingerprint rows = do
  bytes ← framed (research_row_array is_decimal) lower research_content_hash_domain fingerprint rows
  ok (sha256_hex bytes)

-- What `_kernel_mode` makes of the variable of the environment.
pub data Mode : Type 0 where
  auto python rust : Mode

unfoldable pub kernel_mode : Option Text → Mode
kernel_mode none = auto
kernel_mode (some value) =
    if text_eq value (codes "python")
    then python
    else if text_eq value (codes "rust")
    then rust
    else auto

unfoldable pub active_hash_kernel : (available : Bool) → Mode → Mode
active_hash_kernel available python = python
active_hash_kernel available rust = rust
active_hash_kernel true auto = rust
active_hash_kernel false auto = python

unfoldable pub use_rust_kernel : (available : Bool) → Mode → Result Bool
use_rust_kernel available python = ok false
use_rust_kernel true rust = ok true
use_rust_kernel false rust = err runtime_error
use_rust_kernel available auto = ok available

-- `except KernelHashPayloadError`: another exception of the kernel stays as it is.
unfoldable pub raised_from : Error → Error
raised_from kernel_hash_payload_error = hash_payload_error
raised_from raised = raised

unfoldable pub from_kernel : Result Text → Result Text
unfolding raised_from
from_kernel (ok text) = ok text
from_kernel (err raised) = err (raised_from raised)

-- `kernel` and `python_oracle` are the two functions between which a call is dispatched.
unfoldable pub dispatch :
    (available : Bool) → Mode → (kernel : Result Text) → (python_oracle : Result Text) → Result Text
unfolding use_rust_kernel from_kernel
dispatch available mode kernel python_oracle = do
  rust_kernel ← use_rust_kernel available mode
  if rust_kernel then from_kernel kernel else python_oracle

-- What render_decimal_18 reads beside its argument: whether the kernel is installed, the mode, and the
-- kernel's own function.
pub record Renderer : Type 0 where
  pub available : Bool
  pub mode : Mode
  pub kernel : Decimal → Result Text

unfoldable pub render_decimal_18 : Renderer → Decimal → Result Text
unfolding dispatch
render_decimal_18 renderer d =
    dispatch renderer.available renderer.mode (renderer.kernel d) (render_decimal_18_python d)

unfoldable pub canonical_content_hash :
    (available : Bool) (mode : Mode) (kernel : Text → List Items → Result Text)
    (sha256_hex : List ℕ → Text) (lower : Text → Text) (fingerprint : Text) (rows : List Items)
    → Result Text
unfolding dispatch
canonical_content_hash available mode kernel sha256_hex lower fingerprint rows =
    dispatch available mode (kernel fingerprint rows)
      (canonical_content_hash_python sha256_hex lower fingerprint rows)

unfoldable pub research_content_hash :
    (available : Bool) (mode : Mode) (kernel : Text → List Items → Result Text)
    (sha256_hex : List ℕ → Text) (lower : Text → Text) (is_decimal : ℕ → Bool) (fingerprint : Text)
    (rows : List Items)
    → Result Text
unfolding dispatch
research_content_hash available mode kernel sha256_hex lower is_decimal fingerprint rows =
    dispatch available mode (kernel fingerprint rows)
      (research_content_hash_python sha256_hex lower is_decimal fingerprint rows)
