-- ===== src/Jcs/RoundTrip/Whole.antt =====
-- src/quantara/jcs.py against the reader: arrays, dictionaries and the whole text.
use mathlib.Core.List.{append_assoc}
use quantara.Prelude.{
  ℕ, zero, suc, ◌+◌, ◌*◌, ◌≤◌, ◌<◌, ◌≡◌, refl, ap, ◌∙◌, subst, Bool, true, false, some, List, [],
  ◌∷◌, ◌++◌, length, length-append, arith, ◌==◌,
}
use quantara.Text.{Text}
use quantara.Json.{Json, Items, Fields, array, object, no_items, item, no_fields, entry}
use quantara.Errors.{Result, ok, >>=-eq-ok, ok_injective}
use quantara.Jcs.{escape_all, serialize_string, comma, join_fields, serialize, serialize_items}
use quantara.Jcs.Reader.{
  expect, expect_comma, starts_with, read_chars, read_value, read_items, read_fields,
}
use quantara.Jcs.RoundTrip.{ends_number, read_chars-escape_all, escape_all-length}
use quantara.Jcs.RoundTrip.Values.{fields_of, ReadsAs, AreRead, Opens}

expect_comma-comma : (first : Bool) (t : Text) → expect_comma first (comma first ++ t) ≡ some t
unfolding expect
expect_comma-comma true t = refl
expect_comma-comma false t = refl

-- Behind a comma, or at once, no item looks like the end.
starts_with-comma :
    (first : Bool) (c : ℕ) (t : Text)
    → (c == b']') ≡ false
    → starts_with b']' (comma first ++ c ∷ t) ≡ false
starts_with-comma true c t h = h
starts_with-comma false c t h = refl

pub serialize_items-ends :
    (xs : Items) (more rest : Text)
    → serialize_items false xs ≡ ok more
    → ends_number (more ++ b']' ∷ rest) ≡ true
unfolding serialize_items
serialize_items-ends no_items more rest e =
    subst (λ m. ends_number (m ++ b']' ∷ rest) ≡ true) (ok_injective e) refl
serialize_items-ends (item v xs) more rest e =
    let (t, h, f) = >>=-eq-ok (serialize v) _ e in
    let (m, g, q) = >>=-eq-ok (serialize_items false xs) _ f in
    subst (λ m. ends_number (m ++ b']' ∷ rest) ≡ true) (ok_injective q) refl

-- An item read off its text, and then the others.
read_item :
    (first : Bool) (t more rest : Text) (v : Json) (xs : Items) (fuel : ℕ)
    → Opens t
    → read_value fuel (t ++ (more ++ b']' ∷ rest)) ≡ some (v, more ++ b']' ∷ rest)
    → read_items fuel false (more ++ b']' ∷ rest) ≡ some (xs, rest)
    → read_items (suc fuel) first ((comma first ++ (t ++ more)) ++ b']' ∷ rest)
      ≡ some (item v xs, rest)
unfolding read_items
read_item first t more rest v xs fuel (c, u, o, d) hv hx =
    let shape : (comma first ++ (t ++ more)) ++ b']' ∷ rest
        ≡ comma first ++ (t ++ (more ++ b']' ∷ rest)) =
      append_assoc (comma first) (t ++ more) (b']' ∷ rest)
      ∙ ap (λ z. comma first ++ z) (append_assoc t more (b']' ∷ rest)) in
    let opened : starts_with b']' (comma first ++ (t ++ (more ++ b']' ∷ rest))) ≡ false =
      ap (λ z. starts_with b']' (comma first ++ (z ++ (more ++ b']' ∷ rest)))) o
      ∙ starts_with-comma first c (u ++ (more ++ b']' ∷ rest)) d in
    rw (shape, opened, expect_comma-comma first (t ++ (more ++ b']' ∷ rest)), hv, hx) refl

abbrev pub ReadsItems : Bool → Text → Items → Type 0
ReadsItems first t xs =
    (rest : Text) (fuel : ℕ)
    → 2 * length t + 1 < fuel
    → read_items fuel first (t ++ b']' ∷ rest) ≡ some (xs, rest)

Opens-length : (t : Text) → Opens t → 1 ≤ length t
Opens-length [] (c, u, o, d) = cc
Opens-length (a ∷ t) o = omega arith

pub read_no_items :
    (first : Bool) (rest : Text) (fuel : ℕ)
    → 0 < fuel
    → read_items fuel first (b']' ∷ rest) ≡ some (no_items, rest)
unfolding read_items expect
read_no_items first rest zero h = absurd (omega arith)
read_no_items first rest (suc fuel) h = refl

pub item-ReadsItems :
    (first : Bool) (t more : Text) (v : Json) (xs : Items)
    → Opens t
    → ReadsAs t v
    → ReadsItems false more xs
    → ((rest : Text) → ends_number (more ++ b']' ∷ rest) ≡ true)
    → ReadsItems first (comma first ++ (t ++ more)) (item v xs)
item-ReadsItems first t more v xs o hv hx ends rest zero h = absurd (omega arith)
item-ReadsItems first t more v xs o hv hx ends rest (suc fuel) h =
    let n = length-append (comma first) (t ++ more) in
    let m = length-append t more in
    let k = Opens-length t o in
    read_item first t more rest v xs fuel o
      (hv (more ++ b']' ∷ rest) fuel (ends rest) (omega (arith, n, m)))
      (hx rest fuel (omega (arith, n, m, k)))

pub array-ReadsAs :
    (text : Text) (xs : Items)
    → ReadsItems true text xs
    → ReadsAs (b'[' ∷ (text ++ b']' ∷ [])) (array xs)
unfolding read_value
array-ReadsAs text xs h rest zero ends f = absurd (omega arith)
array-ReadsAs text xs h rest (suc fuel) ends f =
    rw
      (
        append_assoc text (b']' ∷ []) rest,
        h rest fuel (omega (arith, length-append text (b']' ∷ []))),
      )
      refl

-- The tail of a dictionary's text begins with no digit.
join_fields-ends :
    (es : List (Text × Result Text)) (more rest : Text)
    → join_fields false es ≡ ok more
    → ends_number (more ++ b'}' ∷ rest) ≡ true
unfolding join_fields
join_fields-ends [] more rest e =
    subst (λ m. ends_number (m ++ b'}' ∷ rest) ≡ true) (ok_injective e) refl
join_fields-ends ((k, r) ∷ es) more rest e =
    let (t, h, f) = >>=-eq-ok r _ e in
    let (m, g, q) = >>=-eq-ok (join_fields false es) _ f in
    subst (λ m. ends_number (m ++ b'}' ∷ rest) ≡ true) (ok_injective q) refl

starts_with-key : (first : Bool) (t : Text) → starts_with b'}' (comma first ++ b'"' ∷ t) ≡ false
starts_with-key true t = refl
starts_with-key false t = refl

-- A key and its value read off their text, and then the others.
read_field :
    (first : Bool) (key t more rest : Text) (v : Json) (vs : Fields) (fuel : ℕ)
    → read_value fuel (t ++ (more ++ b'}' ∷ rest)) ≡ some (v, more ++ b'}' ∷ rest)
    → read_fields fuel false (more ++ b'}' ∷ rest) ≡ some (vs, rest)
    → read_fields
        (suc fuel)
        first
        ((comma first ++ (serialize_string key ++ b':' ∷ (t ++ more))) ++ b'}' ∷ rest)
      ≡ some (entry key v vs, rest)
unfolding read_fields serialize_string expect
read_field first key t more rest v vs fuel hv hx =
    let behind : Text = b':' ∷ (t ++ (more ++ b'}' ∷ rest)) in
    let quoted : Text = escape_all key ++ b'"' ∷ behind in
    let shape : (comma first ++ (b'"' ∷ (escape_all key ++ b'"' ∷ []) ++ b':' ∷ (t ++ more)))
          ++ b'}' ∷ rest
        ≡ comma first ++ b'"' ∷ quoted =
      append_assoc (comma first) (b'"' ∷ (escape_all key ++ b'"' ∷ []) ++ b':' ∷ (t ++ more))
        (b'}' ∷ rest)
      ∙ ap (λ z. comma first ++ b'"' ∷ z)
          (append_assoc (escape_all key ++ b'"' ∷ []) (b':' ∷ (t ++ more)) (b'}' ∷ rest)
            ∙ append_assoc (escape_all key) (b'"' ∷ []) (b':' ∷ ((t ++ more) ++ b'}' ∷ rest))
            ∙ ap (λ z. escape_all key ++ b'"' ∷ b':' ∷ z) (append_assoc t more (b'}' ∷ rest))) in
    let keyed : read_chars (suc (length quoted)) quoted ≡ some (key, behind) =
      read_chars-escape_all (suc (length quoted)) key behind
        (omega (arith, escape_all-length key, length-append (escape_all key) (b'"' ∷ behind))) in
    rw
      (shape, starts_with-key first quoted, expect_comma-comma first (b'"' ∷ quoted), keyed, hv, hx)
      refl

abbrev pub ReadsFields : Bool → Text → Fields → Type 0
ReadsFields first t vs =
    (rest : Text) (fuel : ℕ)
    → 2 * length t + 1 < fuel
    → read_fields fuel first (t ++ b'}' ∷ rest) ≡ some (vs, rest)

read_no_fields : (first : Bool) → ReadsFields first [] no_fields
unfolding read_fields expect
read_no_fields first rest zero h = absurd (omega arith)
read_no_fields first rest (suc fuel) h = refl

field-ReadsFields :
    (first : Bool) (key t more : Text) (v : Json) (vs : Fields)
    → ReadsAs t v
    → ReadsFields false more vs
    → ((rest : Text) → ends_number (more ++ b'}' ∷ rest) ≡ true)
    → ReadsFields first
        (comma first ++ (serialize_string key ++ b':' ∷ (t ++ more)))
        (entry key v vs)
field-ReadsFields first key t more v vs hv hx ends rest zero h = absurd (omega arith)
field-ReadsFields first key t more v vs hv hx ends rest (suc fuel) h =
    let n = length-append (comma first) (serialize_string key ++ b':' ∷ (t ++ more)) in
    let m = length-append (serialize_string key) (b':' ∷ (t ++ more)) in
    let k = length-append t more in
    read_field first key t more rest v vs fuel
      (hv (more ++ b'}' ∷ rest) fuel (ends rest) (omega (arith, n, m, k)))
      (hx rest fuel (omega (arith, n, m, k)))

pub join_fields-ReadsFields :
    (first : Bool) (es : List (Text × Result Text)) (vs : List (Text × Json)) (text : Text)
    → AreRead es vs
    → join_fields first es ≡ ok text
    → ReadsFields first text (fields_of vs)
unfolding join_fields fields_of
join_fields-ReadsFields first [] [] text a e =
    subst (λ z. ReadsFields first z no_fields) (ok_injective e) (read_no_fields first)
join_fields-ReadsFields first [] (w ∷ vs) text a e = absurd a
join_fields-ReadsFields first (x ∷ es) [] text a e = absurd a
join_fields-ReadsFields first ((k, r) ∷ es) ((j, v) ∷ vs) text (same, h, a) e =
    let (t, p, f) = >>=-eq-ok r _ e in
    let (more, g, q) = >>=-eq-ok (join_fields false es) _ f in
    subst (λ z. ReadsFields first z (entry j v (fields_of vs))) (ok_injective q)
      (subst
        (λ z.
          ReadsFields first (comma first ++ (serialize_string k ++ b':' ∷ (t ++ more)))
            (entry z v (fields_of vs)))
        same
        (field-ReadsFields first k t more v (fields_of vs) (h t p)
          (join_fields-ReadsFields false es vs more a g) (λ rest. join_fields-ends es more rest g)))

pub object-ReadsAs :
    (text : Text) (vs : Fields)
    → ReadsFields true text vs
    → ReadsAs (b'{' ∷ (text ++ b'}' ∷ [])) (object vs)
unfolding read_value
object-ReadsAs text xs h rest zero ends f = absurd (omega arith)
object-ReadsAs text xs h rest (suc fuel) ends f =
    rw
      (
        append_assoc text (b'}' ∷ []) rest,
        h rest fuel (omega (arith, length-append text (b'}' ∷ []))),
      )
      refl
