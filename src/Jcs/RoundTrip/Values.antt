-- ===== src/Jcs/RoundTrip/Values.antt =====
-- src/quantara/jcs.py against the reader: whole values.
use mathlib.Core.List.{append_assoc}
use quantara.Prelude.{
  ℕ, zero, suc, ◌*◌, ◌<◌, ◌≡◌, refl, sym, ap, ◌∙◌, subst, true, false, ◌||◌, some, List, [], ◌∷◌,
  ◌++◌, length, length-append, arith, ◌==◌, Bool-cases, inl, inr,
}
use quantara.Prelude.Int.{pos, negsuc}
use quantara.Text.{Text, codes, is_digit, numeral}
use quantara.Text.Numerals.{numeral-head}
use quantara.Json.{
  Json, Items, Fields, null, float, foreign, bool, int, string, array, object, no_items, item,
  no_fields, entry,
}
use quantara.Errors.{Result, ok, >>=-eq-ok, ok_injective}
use quantara.Jcs.{
  escape_all, serialize_string, serialize_int, utf_16_be, leb_bytes, insert_key, sort_keys,
  join_fields, serialize, serialize_items, serialize_fields,
}
use quantara.Jcs.Reader.{expect, read_number, read_value}
use quantara.Jcs.RoundTrip.{ends_number, read_chars-escape_all, escape_all-length}

-- A dictionary of the entries.
unfoldable pub fields_of : List (Text × Json) → Fields
fields_of [] = no_fields
fields_of ((key, value) ∷ entries) = entry key value (fields_of entries)

-- The same value with the keys of every dictionary sorted.
unfoldable mutual
  pub normalize : Json → Json
  normalize (array items) = array (normalize_items items)
  normalize (object entries) = object (fields_of (sort_keys (normalize_fields entries)))
  normalize null = null
  normalize float = float
  normalize foreign = foreign
  normalize (bool b) = bool b
  normalize (int n) = int n
  normalize (string t) = string t

  pub normalize_items : Items → Items
  normalize_items no_items = no_items
  normalize_items (item value items) = item (normalize value) (normalize_items items)

  pub normalize_fields : Fields → List (Text × Json)
  normalize_fields no_fields = []
  normalize_fields (entry key value entries) = (key, normalize value) ∷ normalize_fields entries

-- With fuel for its length, and no digit behind it, the text reads as the value.
abbrev pub ReadsAs : Text → Json → Type 0
ReadsAs t v =
    (rest : Text) (fuel : ℕ)
    → ends_number rest ≡ true
    → 2 * length t < fuel
    → read_value fuel (t ++ rest) ≡ some (v, rest)

abbrev pub IsRead : Result Text → Json → Type 0
IsRead r v = (t : Text) → r ≡ ok t → ReadsAs t v

abbrev pub AreRead : List (Text × Result Text) → List (Text × Json) → Type 0
AreRead [] [] = Unit
AreRead ((k, r) ∷ es) ((j, v) ∷ vs) = (k ≡ j) × IsRead r v × AreRead es vs
AreRead _ _ = ⊥

insert_key-AreRead :
    (k : Text) (r : Result Text) (v : Json) (es : List (Text × Result Text))
    (vs : List (Text × Json))
    → IsRead r v
    → AreRead es vs
    → AreRead (insert_key (k, r) es) (insert_key (k, v) vs)
unfolding insert_key
insert_key-AreRead k r v [] [] h a = (refl, h, tt)
insert_key-AreRead k r v [] (w ∷ vs) h a = absurd a
insert_key-AreRead k r v (e ∷ es) [] h a = absurd a
insert_key-AreRead k r v ((l, e) ∷ es) ((m, w) ∷ vs) h (same, b, a) =
    elim (Bool-cases (leb_bytes (utf_16_be k) (utf_16_be l))) [
      | inl before ↦
          let before' : leb_bytes (utf_16_be k) (utf_16_be m) ≡ true =
            ap (λ x. leb_bytes (utf_16_be k) (utf_16_be x)) (sym same) ∙ before in
          rw (before, before') (refl, h, (same, b, a))
      | inr after ↦
          let after' : leb_bytes (utf_16_be k) (utf_16_be m) ≡ false =
            ap (λ x. leb_bytes (utf_16_be k) (utf_16_be x)) (sym same) ∙ after in
          rw (after, after') (same, b, insert_key-AreRead k r v es vs h a)
    ]

pub sort_keys-AreRead :
    (es : List (Text × Result Text)) (vs : List (Text × Json))
    → AreRead es vs
    → AreRead (sort_keys es) (sort_keys vs)
unfolding sort_keys
sort_keys-AreRead [] [] a = tt
sort_keys-AreRead [] (w ∷ vs) a = absurd a
sort_keys-AreRead (e ∷ es) [] a = absurd a
sort_keys-AreRead ((l, e) ∷ es) ((m, w) ∷ vs) (same, b, a) =
    subst (λ x. AreRead (insert_key (l, e) (sort_keys es)) (insert_key (x, w) (sort_keys vs))) same
      (insert_key-AreRead l e w (sort_keys es) (sort_keys vs) b (sort_keys-AreRead es vs a))

-- What a value begins with is none of the closing brackets.
abbrev pub Opens : Text → Type 0
Opens t = (c : ℕ) × (more : Text) × (t ≡ c ∷ more) × ((c == b']') ≡ false)

pub serialize-Opens : (v : Json) (t : Text) → serialize v ≡ ok t → Opens t
unfolding serialize serialize_string serialize_int
serialize-Opens null t e = (b'n', codes "ull", sym (ok_injective e), refl)
serialize-Opens float t e = cc
serialize-Opens foreign t e = cc
serialize-Opens (bool true) t e = (b't', codes "rue", sym (ok_injective e), refl)
serialize-Opens (bool false) t e = (b'f', codes "alse", sym (ok_injective e), refl)
serialize-Opens (int (pos n)) t e =
    let (c, more, h, d) = numeral-head n in (c, more, sym (ok_injective e) ∙ h, ground arith)
serialize-Opens (int (negsuc n)) t e = (b'-', numeral (suc n), sym (ok_injective e), refl)
serialize-Opens (string s) t e = (b'"', escape_all s ++ b'"' ∷ [], sym (ok_injective e), refl)
serialize-Opens (array items) t e =
    let (text, h, f) = >>=-eq-ok (serialize_items true items) _ e in
    (b'[', text ++ b']' ∷ [], sym (ok_injective f), refl)
serialize-Opens (object entries) t e =
    let (text, h, f) = >>=-eq-ok (join_fields true (sort_keys (serialize_fields entries))) _ e in
    (b'{', text ++ b'}' ∷ [], sym (ok_injective f), refl)

-- The leaves.
pub read_leaf :
    (rest : Text) (fuel : ℕ)
    → 0 < fuel
    → (read_value fuel (codes "null" ++ rest) ≡ some (null, rest))
      × (read_value fuel (codes "true" ++ rest) ≡ some (bool true, rest))
      × (read_value fuel (codes "false" ++ rest) ≡ some (bool false, rest))
unfolding read_value expect
read_leaf rest zero h = absurd (omega arith)
read_leaf rest (suc fuel) h = (refl, refl, refl)

pub read_value-string :
    (s rest : Text) (fuel : ℕ)
    → 0 < fuel
    → read_value fuel (serialize_string s ++ rest) ≡ some (string s, rest)
unfolding read_value serialize_string
read_value-string s rest zero h = absurd (omega arith)
read_value-string s rest (suc fuel) h =
    let whole = append_assoc (escape_all s) (b'"' ∷ []) rest in
    rw whole (
      rw
        (read_chars-escape_all (suc (length (escape_all s ++ b'"' ∷ rest))) s rest
          (omega (arith, escape_all-length s, length-append (escape_all s) (b'"' ∷ rest))))
        refl)

pub read_value-number :
    (c : ℕ) (t : Text) (fuel : ℕ)
    → 0 < fuel
    → (is_digit c || c == b'-') ≡ true
    → read_value fuel (c ∷ t) ≡ some (read_number (c ∷ t))
unfolding read_value
read_value-number c t zero h d = absurd (omega arith)
read_value-number c t (suc fuel) h d = ground arith
