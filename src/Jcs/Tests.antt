-- ===== src/Jcs/Tests.antt =====
-- Canonical texts of small values.
use quantara.Prelude.{◌≡◌, refl, some, [], ◌∷◌}
use quantara.Prelude.Int.{negsuc}
use quantara.Text.{Text, codes, numeral, numeral_loop}
use quantara.Json.{Json, null, int, string, array, object, no_items, item, no_fields, entry}
use quantara.Errors.{ok}
use quantara.Jcs.{
  hex_digit, escape, escape_all, serialize_string, serialize_int, utf_16_be_char, utf_16_be,
  leb_bytes, insert_key, sort_keys, join_fields, serialize, serialize_items, serialize_fields,
  canonicalize,
}
use quantara.Jcs.Reader.{read}
use quantara.Jcs.Printable.{IsPrintable, canonicalize-IsPrintable}
use quantara.Jcs.RoundTrip.Sorted.{IsForm}
use quantara.Jcs.RoundTrip.Canonical.{read-canonicalize, canonicalize_injective}

-- Keys out of order, an escape, a negative number and a list.
abbrev sample : Json
sample = object (
    entry (codes "b") (array (item (int (negsuc 11)) (item null no_items)))
      (entry (codes "a") (string (10 ∷ [])) no_fields))

abbrev sorted_sample : Json
sorted_sample = object (
    entry (codes "a") (string (10 ∷ []))
      (entry (codes "b") (array (item (int (negsuc 11)) (item null no_items))) no_fields))

abbrev sample_text : Text
sample_text = codes "{\"a\":\"\\n\",\"b\":[-12,null]}"

sample_canonical : canonicalize sample ≡ ok sample_text
unfolding canonicalize serialize serialize_items serialize_fields join_fields sort_keys insert_key
    leb_bytes utf_16_be utf_16_be_char serialize_string escape_all escape hex_digit serialize_int
    numeral numeral_loop
sample_canonical = refl

sorted_sample_canonical : canonicalize sorted_sample ≡ ok sample_text
unfolding canonicalize serialize serialize_items serialize_fields join_fields sort_keys insert_key
    leb_bytes utf_16_be utf_16_be_char serialize_string escape_all escape hex_digit serialize_int
    numeral numeral_loop
sorted_sample_canonical = refl

read-canonicalize_example : (w : Json) × (read sample_text ≡ some w) × IsForm sample w
read-canonicalize_example = read-canonicalize sample sample_text sample_canonical

canonicalize_injective_example : (form : Json) × IsForm sample form × IsForm sorted_sample form
canonicalize_injective_example =
    canonicalize_injective sample sorted_sample sample_text sample_canonical sorted_sample_canonical

canonicalize-IsPrintable_example : IsPrintable sample_text
canonicalize-IsPrintable_example = canonicalize-IsPrintable sample sample_text sample_canonical
