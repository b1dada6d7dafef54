-- ===== src/Jcs.antt =====
-- src/quantara/jcs.py: canonical JSON. The pieces that the source appends to a list are joined at once.
pub mod Reader
pub mod RoundTrip
pub mod Printable
mod Tests
use quantara.Prelude.{
  ℕ, suc, ◌+◌, ◌-◌, ◌*◌, ◌/◌, ◌%◌, Bool, true, false, ◌&&◌, ◌||◌, List, [], ◌∷◌, ◌++◌, ltb, leb,
  ◌==◌, if◌then◌else◌,
}
use quantara.Prelude.Int.{ℤ, pos, negsuc}
use quantara.Text.{Text, codes, numeral}
use quantara.Json.{
  Json, Items, Fields, null, float, foreign, bool, int, string, array, object, no_items, item,
  no_fields, entry,
}
use quantara.Errors.{Result, ok, err, jcs_float_rejected, type_error, ◌>>=◌}

-- A hexadecimal digit, in lower case.
unfoldable pub hex_digit : ℕ → ℕ
hex_digit n = if ltb n 10 then 48 + n else 87 + n

-- `_STRING_ESCAPES`, `\u00xx` below a space, or the character itself.
unfoldable pub escape : ℕ → Text
unfolding hex_digit
escape c =
    if c == b'"'
    then b'\\' ∷ b'"' ∷ []
    else if c == b'\\'
    then b'\\' ∷ b'\\' ∷ []
    else if c == 8
    then b'\\' ∷ b'b' ∷ []
    else if c == 12
    then b'\\' ∷ b'f' ∷ []
    else if c == 10
    then b'\\' ∷ b'n' ∷ []
    else if c == 13
    then b'\\' ∷ b'r' ∷ []
    else if c == 9
    then b'\\' ∷ b't' ∷ []
    else if ltb c 32
    then b'\\' ∷ b'u' ∷ b'0' ∷ b'0' ∷ hex_digit (c / 16) ∷ hex_digit (c % 16) ∷ []
    else c ∷ []

unfoldable pub escape_all : Text → Text
escape_all [] = []
escape_all (c ∷ cs) = escape c ++ escape_all cs

unfoldable pub serialize_string : Text → Text
serialize_string t = b'"' ∷ (escape_all t ++ b'"' ∷ [])

-- `str(value)`
unfoldable pub serialize_int : ℤ → Text
serialize_int (pos n) = numeral n
serialize_int (negsuc n) = b'-' ∷ numeral (suc n)

-- `char.encode("utf-16-be")`
unfoldable pub utf_16_be_char : ℕ → List ℕ
utf_16_be_char c =
    if ltb c 65536
    then c / 256 ∷ c % 256 ∷ []
    else (55296 + (c - 65536) / 1024) / 256
      ∷ (55296 + (c - 65536) / 1024) % 256
      ∷ (56320 + (c - 65536) % 1024) / 256
      ∷ (56320 + (c - 65536) % 1024) % 256
      ∷ []

unfoldable pub utf_16_be : Text → List ℕ
unfolding utf_16_be_char
utf_16_be [] = []
utf_16_be (c ∷ cs) = utf_16_be_char c ++ utf_16_be cs

-- `a <= b` of byte strings.
unfoldable pub leb_bytes : List ℕ → List ℕ → Bool
leb_bytes [] bs = true
leb_bytes (a ∷ more) [] = false
leb_bytes (a ∷ more) (b ∷ bs) = ltb a b || (a == b && leb_bytes more bs)

-- `sorted(value, key=...)`, each key with what belongs to it.
unfoldable pub insert_key {ℓ} : {A : Type ℓ} → Text × A → List (Text × A) → List (Text × A)
unfolding utf_16_be leb_bytes
insert_key e [] = e ∷ []
insert_key e (f ∷ entries) =
    if leb_bytes (utf_16_be e.0) (utf_16_be f.0) then e ∷ f ∷ entries else f ∷ insert_key e entries

unfoldable pub sort_keys {ℓ} : {A : Type ℓ} → List (Text × A) → List (Text × A)
sort_keys [] = []
sort_keys (e ∷ entries) = insert_key e (sort_keys entries)

-- The comma in front of every item but the first.
abbrev pub comma : (first : Bool) → Text
comma true = []
comma false = b',' ∷ []

-- The loop over the sorted keys: the first value that does not serialize decides the error.
unfoldable pub join_fields : (first : Bool) → List (Text × Result Text) → Result Text
join_fields first [] = ok []
join_fields first ((key, value) ∷ entries) = do
  text ← value
  more ← join_fields false entries
  ok (comma first ++ (serialize_string key ++ b':' ∷ (text ++ more)))

unfoldable mutual
  pub serialize : Json → Result Text
  serialize null = ok (codes "null")
  serialize (bool true) = ok (codes "true")
  serialize (bool false) = ok (codes "false")
  serialize (int n) = ok (serialize_int n)
  serialize (string t) = ok (serialize_string t)
  serialize (array items) = do text ← serialize_items true items; ok (b'[' ∷ (text ++ b']' ∷ []))
  serialize (object entries) = do
    text ← join_fields true (sort_keys (serialize_fields entries))
    ok (b'{' ∷ (text ++ b'}' ∷ []))
  serialize float = err jcs_float_rejected
  serialize foreign = err type_error

  pub serialize_items : (first : Bool) → Items → Result Text
  serialize_items first no_items = ok []
  serialize_items first (item value items) = do
    text ← serialize value
    more ← serialize_items false items
    ok (comma first ++ (text ++ more))

  pub serialize_fields : Fields → List (Text × Result Text)
  serialize_fields no_fields = []
  serialize_fields (entry key value entries) = (key, serialize value) ∷ serialize_fields entries

-- `"".join(out)`
unfoldable pub canonicalize : Json → Result Text
canonicalize value = serialize value
