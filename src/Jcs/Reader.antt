-- ===== src/Jcs/Reader.antt =====
-- A reader of JSON texts, written from the grammar and not from src/quantara/jcs.py. It is what the texts
-- that jcs.py makes are measured by.
use quantara.Prelude.{
  ℕ, zero, suc, ◌+◌, ◌-◌, ◌*◌, Bool, true, false, Option, none, some, [], ◌∷◌, ltb, ◌==◌,
  if◌then◌else◌, length,
}
use quantara.Prelude.Int.{pos, sub_ℕ}
use quantara.Text.{Text, codes, is_digit, value}
use quantara.Json.{
  Json, Items, Fields, null, bool, int, string, array, object, no_items, item, no_fields, entry,
}

infixl 5 ◌▷◌
abbrev pub ◌▷◌ {ℓ κ} : {A : Type ℓ} {B : Type κ} → Option A → (A → Option B) → Option B
none ▷ f = none
some a ▷ f = f a

-- What follows a literal.
unfoldable pub expect : Text → Text → Option Text
expect [] t = some t
expect (c ∷ cs) [] = none
expect (c ∷ cs) (d ∷ t) = let rest = expect cs t in if c == d then rest else none

unfoldable pub hex_value : ℕ → ℕ
hex_value c = if ltb c 58 then c - 48 else c - 87

-- The letter of a two-character escape.
unfoldable pub unescape : ℕ → Option ℕ
unescape e =
    if e == b'"'
    then some b'"'
    else if e == b'\\'
    then some b'\\'
    else if e == b'b'
    then some 8
    else if e == b'f'
    then some 12
    else if e == b'n'
    then some 10
    else if e == b'r'
    then some 13
    else if e == b't'
    then some 9
    else none

-- `xxxx` behind a `\u`.
unfoldable pub read_hex : Text → Option (ℕ × Text)
unfolding hex_value
read_hex (a ∷ b ∷ c ∷ d ∷ t) =
    some (((hex_value a * 16 + hex_value b) * 16 + hex_value c) * 16 + hex_value d, t)
read_hex _ = none

-- The rest of an escape, behind its backslash.
unfoldable pub read_escape : Text → Option (ℕ × Text)
unfolding read_hex unescape
read_escape [] = none
read_escape (e ∷ t) = if e == b'u' then read_hex t else (unescape e ▷ λ c. some (c, t))

-- One character of a string, or its end.
unfoldable pub read_char : Text → Option (Option ℕ × Text)
unfolding read_escape
read_char [] = none
read_char (c ∷ t) =
    if c == b'"'
    then some (none, t)
    else if c == b'\\'
    then (read_escape t ▷ λ r. some (some r.0, r.1))
    else some (some c, t)

-- A character in front of the rest of its string, or the end.
pub read_more : Option ℕ → Text → Option (Text × Text) → Option (Text × Text)
read_more none t more = some ([], t)
read_more (some c) t more = more ▷ λ q. some (c ∷ q.0, q.1)

-- The characters up to the closing quote.
unfoldable pub read_chars : (fuel : ℕ) → Text → Option (Text × Text)
unfolding read_more
read_chars zero t = none
read_chars (suc fuel) t = read_char t ▷ λ r. read_more r.0 r.1 (read_chars fuel r.1)

-- The digits in front of a text, and what follows them.
unfoldable pub span_digits : Text → Text × Text
span_digits [] = ([], [])
span_digits (c ∷ t) =
    let more = span_digits t in if is_digit c then (c ∷ more.0, more.1) else ([], c ∷ t)

unfoldable pub read_number : Text → Json × Text
unfolding span_digits
read_number [] = (int (pos 0), [])
read_number (c ∷ t) =
    if c == b'-'
    then (int (sub_ℕ 0 (value (span_digits t).0)), (span_digits t).1)
    else (int (pos (value (span_digits (c ∷ t)).0)), (span_digits (c ∷ t)).1)

-- A comma in front of every item but the first.
abbrev pub expect_comma : (first : Bool) → Text → Option Text
expect_comma true t = some t
expect_comma false t = expect (b',' ∷ []) t

abbrev pub starts_with : ℕ → Text → Bool
starts_with c [] = false
starts_with c (d ∷ t) = d == c

-- What a call leaves is no structural part of its text, so each call costs a unit of fuel.
unfoldable mutual
  pub read_value : (fuel : ℕ) → Text → Option (Json × Text)
  read_value zero t = none
  read_value (suc fuel) [] = none
  read_value (suc fuel) (c ∷ t) =
      let items = (read_items fuel true t ▷ λ r. some (array r.0, r.1)) in
      let fields = (read_fields fuel true t ▷ λ r. some (object r.0, r.1)) in
      if c == b'n'
      then (expect (codes "ull") t ▷ λ rest. some (null, rest))
      else if c == b't'
      then (expect (codes "rue") t ▷ λ rest. some (bool true, rest))
      else if c == b'f'
      then (expect (codes "alse") t ▷ λ rest. some (bool false, rest))
      else if c == b'"'
      then (read_chars (suc (length t)) t ▷ λ r. some (string r.0, r.1))
      else if c == b'['
      then items
      else if c == b'{'
      then fields
      else some (read_number (c ∷ t))

  pub read_items : (fuel : ℕ) → (first : Bool) → Text → Option (Items × Text)
  read_items zero first t = none
  read_items (suc fuel) first t =
      let more =
        (expect_comma first t ▷ λ begun.
        read_value fuel begun ▷ λ r. read_items fuel false r.1 ▷ λ q. some (item r.0 q.0, q.1)) in
      if starts_with b']' t then (expect (b']' ∷ []) t ▷ λ rest. some (no_items, rest)) else more

  pub read_fields : (fuel : ℕ) → (first : Bool) → Text → Option (Fields × Text)
  read_fields zero first t = none
  read_fields (suc fuel) first t =
      let more =
        (expect_comma first t ▷ λ begun. expect (b'"' ∷ []) begun ▷ λ quoted.
        read_chars (suc (length quoted)) quoted ▷ λ key. expect (b':' ∷ []) key.1 ▷ λ named.
        read_value fuel named ▷ λ r.
        read_fields fuel false r.1 ▷ λ q. some (entry key.0 r.0 q.0, q.1)) in
      if starts_with b'}' t then (expect (b'}' ∷ []) t ▷ λ rest. some (no_fields, rest)) else more

if_at_end : Json → Text → Option Json
if_at_end v [] = some v
if_at_end v (c ∷ rest) = none

-- A whole text is one value.
unfoldable pub read : Text → Option Json
unfolding if_at_end
read t = read_value (suc (2 * length t)) t ▷ λ r. if_at_end r.0 r.1
