-- ===== src/Hashing/Tests.antt =====
-- Hashes of small tables, with a digest that keeps every byte.
use quantara.Prelude.{ℕ, zero, suc, ◌≡◌, ◌⊎◌, refl, true, List, [], ◌∷◌, arith}
use quantara.Prelude.Int.{ℤ, pos, negsuc}
use quantara.Text.{Text, codes, is_digit, numeral, numeral_loop, partition}
use quantara.Decimal.{Decimal}
use quantara.Json.{Items, null, int, string, no_items, item}
use quantara.Errors.{ok, err, hash_payload_error}
use quantara.Jcs.{
  escape, escape_all, serialize_string, serialize_int, serialize, serialize_items, canonicalize,
}
use quantara.Hashing.{utf_8_char, utf_8, ascii, render_decimal_18_python}
use quantara.Hashing.Content.{
  item_count, is_str_or_int, check_values, canonical_row_array, all_of, matches_unsigned_q18,
  matches_q18, is_decimal_column, check_value, check_columns, research_row_array, frame_rows,
  framed, canonical_content_hash_python, research_content_hash_python,
}
use quantara.Hashing.Artifacts.{
  evaluation_content_hash, bytes, join_parts, check_digest, all_hex, is_hex, bytes_of,
}
use quantara.Hashing.Rendering.{read_units, render_decimal_18_python-IsExact}
use quantara.Hashing.Units.{IsUnits}
use quantara.Hashing.Identity.{
  HasCollision, canonical_content_hash_python-identifies, research_content_hash_python-separated,
}
use quantara.Hashing.Evaluations.{evaluation_content_hash-identifies}

abbrev identity : Text → Text
identity t = t

abbrev texts : ℕ → Items → Items
texts zero items = items
texts (suc n) items = item (string (codes "x")) (texts n items)

-- A row of 23 values.
abbrev kline : Items
kline = texts 22 (item (int (pos 7)) no_items)

abbrev research_row : Items
research_row = item (int (pos 60)) (
    item (string (codes "-1.000000000000000000"))
      (item null (item null (item null (item null (item (int (pos 1)) no_items))))))

kline_hash :
    (t : Text) × (canonical_content_hash_python identity identity (codes "ab") (kline ∷ []) ≡ ok t)
unfolding canonical_content_hash_python framed frame_rows canonical_row_array check_values
    is_str_or_int item_count ascii utf_8 utf_8_char canonicalize serialize serialize_items
    serialize_string escape_all escape serialize_int numeral numeral_loop
kline_hash = (_, refl)

canonical_content_hash_python-identifies_example :
    ((codes "ab" ≡ codes "ab") × (kline ∷ [] ≡ kline ∷ [])) ⊎ HasCollision identity
canonical_content_hash_python-identifies_example =
    canonical_content_hash_python-identifies identity identity (codes "ab") (codes "ab")
      (kline ∷ []) (kline ∷ []) kline_hash.0 (ground arith) (ground arith) kline_hash.1 kline_hash.1

-- A digest that keeps nothing.
abbrev forgetful : List ℕ → Text
forgetful b = codes "00"

kline_hash_00 :
    canonical_content_hash_python forgetful identity (codes "ab") (kline ∷ []) ≡ ok (codes "00")
unfolding canonical_content_hash_python framed frame_rows canonical_row_array check_values
    is_str_or_int item_count ascii canonicalize serialize serialize_items
kline_hash_00 = refl

research_hash_00 :
    research_content_hash_python forgetful identity is_digit (codes "ab") (research_row ∷ [])
    ≡ ok (codes "00")
unfolding research_content_hash_python framed frame_rows research_row_array check_columns
    check_value is_decimal_column matches_q18 matches_unsigned_q18 all_of partition item_count ascii
    canonicalize serialize serialize_items
research_hash_00 = refl

research_content_hash_python-separated_example : HasCollision forgetful
research_content_hash_python-separated_example =
    research_content_hash_python-separated forgetful identity is_digit (codes "ab") (codes "ab")
      (kline ∷ []) (research_row ∷ []) (codes "00") kline_hash_00 research_hash_00

abbrev two_bytes : List ℕ
two_bytes = 1 ∷ 2 ∷ []

abbrev fingerprint : Text
fingerprint = codes "0123456789abcdef0123456789abcdef0123456789abcdef0123456789abcdef"

evaluation_hash :
    (t : Text) × (evaluation_content_hash identity (string fingerprint) (bytes two_bytes) ≡ ok t)
unfolding evaluation_content_hash check_digest all_hex is_hex bytes_of join_parts ascii
evaluation_hash = (_, refl)

evaluation_content_hash-identifies_example :
    ((string fingerprint ≡ string fingerprint) × (two_bytes ≡ two_bytes)) ⊎ HasCollision identity
evaluation_content_hash-identifies_example =
    evaluation_content_hash-identifies identity (string fingerprint) (string fingerprint) two_bytes
      two_bytes evaluation_hash.0 evaluation_hash.1 evaluation_hash.1

abbrev minus_half : Decimal
minus_half = record { coefficient = negsuc 4; scale = 1 }

render_decimal_18_python-IsExact_example :
    ((t : Text) × (render_decimal_18_python minus_half ≡ ok t)
      × IsUnits minus_half (read_units t)
      × (matches_q18 is_digit t ≡ true))
    ⊎ ((render_decimal_18_python minus_half ≡ err hash_payload_error)
        × ((z : ℤ) → ¬ IsUnits minus_half z))
render_decimal_18_python-IsExact_example =
    render_decimal_18_python-IsExact is_digit (λ c h. h) minus_half
