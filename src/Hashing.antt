-- ===== src/Hashing.antt =====
-- src/quantara/hashing.py: texts as bytes, decimals with 18 places, and the identity of a quality
-- report. SHA-256 and `str.lower` are arguments; texts have no lone surrogates.
pub mod Artifacts
pub mod Columns
pub mod Content
pub mod Encoding
pub mod Evaluations
pub mod Framing
pub mod Identity
pub mod Rendering
pub mod Units
mod Tests
use quantara.Prelude.{
  ℕ, zero, suc, ◌+◌, ◌-◌, ◌*◌, ◌/◌, ◌%◌, Bool, true, false, Option, none, some, List, [], ◌∷◌, ◌++◌,
  length, take, drop, ltb, leb, if◌then◌else◌,
}
use quantara.Prelude.Int.{ℤ, pos, negsuc, neg_part}
use quantara.Text.{Text, codes, text_eq, numeral, rjust_zeros}
use quantara.Decimal.{Decimal, magnitude, scaled_integer}
use quantara.Json.{Json, Items, Fields, string, array, object, no_items, item, no_fields, entry}
use quantara.Jcs.{canonicalize}
use quantara.Errors.{Result, ok, err, hash_payload_error, value_error, ◌>>=◌}

-- `text.encode("utf-8")`
unfoldable pub utf_8_char : ℕ → List ℕ
utf_8_char c =
    if ltb c 128
    then c ∷ []
    else if ltb c 2048
    then (192 + c / 64) ∷ (128 + c % 64) ∷ []
    else if ltb c 65536
    then (224 + c / 4096) ∷ (128 + c / 64 % 64) ∷ (128 + c % 64) ∷ []
    else (240 + c / 262144) ∷ (128 + c / 4096 % 64) ∷ (128 + c / 64 % 64) ∷ (128 + c % 64) ∷ []

unfoldable pub utf_8 : Text → List ℕ
unfolding utf_8_char
utf_8 [] = []
utf_8 (c ∷ cs) = utf_8_char c ++ utf_8 cs

-- `text.encode("ascii")`
unfoldable pub ascii : Text → Result (List ℕ)
ascii [] = ok []
ascii (c ∷ cs) = do bytes ← ascii cs; if ltb c 128 then ok (c ∷ bytes) else err value_error

-- `text[:-k]` and `text[-k:]`
abbrev pub drop_last : ℕ → Text → Text
drop_last k t = take (length t - k) t

abbrev pub take_last : ℕ → Text → Text
take_last k t = drop (length t - k) t

-- The last two lines of the function: the digits of the integer, and the point in front of 18.
unfoldable pub place_digits : ℤ → Text
place_digits z =
    let digits = rjust_zeros 19 (numeral (magnitude z)) in
    let sign = if ltb 0 (neg_part z) then b'-' ∷ [] else [] in
    sign ++ (drop_last 18 digits ++ b'.' ∷ take_last 18 digits)

pub place_or_raise : Option ℤ → Result Text
unfolding place_digits
place_or_raise none = err hash_payload_error
place_or_raise (some z) = ok (place_digits z)

unfoldable pub render_decimal_18_python : Decimal → Result Text
unfolding place_or_raise scaled_integer
render_decimal_18_python number = place_or_raise (scaled_integer 18 number)

-- `{k: v for k, v in check.items() if k != "operational_timestamp"}`
unfoldable pub without_timestamp : Fields → Fields
unfolding text_eq
without_timestamp no_fields = no_fields
without_timestamp (entry k v entries) =
    let rest = without_timestamp entries in
    if text_eq k (codes "operational_timestamp") then rest else entry k v rest

unfoldable pub normalized_checks : List Fields → Items
unfolding without_timestamp
normalized_checks [] = no_items
normalized_checks (check ∷ checks) =
    item (object (without_timestamp check)) (normalized_checks checks)

unfoldable pub quality_identity : List Fields → Result Text
quality_identity checks =
    canonicalize (object (entry (codes "checks") (array (normalized_checks checks)) no_fields))

-- `sha256_hex(canonicalize(payload).encode("utf-8"))`
unfoldable pub payload_digest : (sha256_hex : List ℕ → Text) → Json → Result Text
payload_digest sha256_hex payload = do text ← canonicalize payload; ok (sha256_hex (utf_8 text))
