-- ===== src/Jcs/Printable.antt =====
-- The characters of the texts that src/quantara/jcs.py makes.
use quantara.Prelude.{
  ℕ, suc, ◌≤◌, ◌≡◌, subst, Bool, true, false, List, [], ◌∷◌, ◌++◌, All, arith, Bool-cases, inl, inr,
}
use quantara.Prelude.Int.{ℤ, pos, negsuc}
use quantara.Text.{Text, all_digits, numeral}
use quantara.Text.Numerals.{all_digits-numeral}
use quantara.Json.{
  Json, Items, Fields, null, float, foreign, bool, int, string, array, object, no_items, item,
  no_fields, entry,
}
use quantara.Errors.{Result, ok, >>=-eq-ok, ok_injective}
use quantara.Jcs.{
  hex_digit, escape, escape_all, serialize_string, serialize_int, utf_16_be, leb_bytes, insert_key,
  sort_keys, comma, join_fields, serialize, serialize_items, serialize_fields, canonicalize,
}

-- No character below a space.
abbrev pub IsPrintable : Text → Type 0
IsPrintable = All (λ c. 32 ≤ c)

pub IsPrintable-append : (s t : Text) → IsPrintable s → IsPrintable t → IsPrintable (s ++ t)
IsPrintable-append [] t a b = b
IsPrintable-append (c ∷ s) t a b = (a.0, IsPrintable-append s t a.1 b)

escape-IsPrintable : (c : ℕ) → IsPrintable (escape c)
unfolding escape hex_digit
escape-IsPrintable c = ground arith

escape_all-IsPrintable : (t : Text) → IsPrintable (escape_all t)
unfolding escape_all
escape_all-IsPrintable [] = tt
escape_all-IsPrintable (c ∷ t) =
    IsPrintable-append (escape c) (escape_all t) (escape-IsPrintable c) (escape_all-IsPrintable t)

serialize_string-IsPrintable : (t : Text) → IsPrintable (serialize_string t)
unfolding serialize_string
serialize_string-IsPrintable t = (
  omega arith,
  IsPrintable-append (escape_all t) (b'"' ∷ []) (escape_all-IsPrintable t) (omega arith, tt),
)

digits-IsPrintable : (t : Text) → all_digits t ≡ true → IsPrintable t
unfolding all_digits
digits-IsPrintable [] h = tt
digits-IsPrintable (c ∷ t) h = (ground arith, digits-IsPrintable t (ground arith))

serialize_int-IsPrintable : (n : ℤ) → IsPrintable (serialize_int n)
unfolding serialize_int
serialize_int-IsPrintable (pos n) = digits-IsPrintable (numeral n) (all_digits-numeral n)
serialize_int-IsPrintable (negsuc n) =
    (omega arith, digits-IsPrintable (numeral (suc n)) (all_digits-numeral (suc n)))

comma-IsPrintable : (first : Bool) → IsPrintable (comma first)
comma-IsPrintable true = tt
comma-IsPrintable false = (omega arith, tt)

-- Between two brackets.
bracketed-IsPrintable :
    (a b : ℕ) (t : Text) → 32 ≤ a → 32 ≤ b → IsPrintable t → IsPrintable (a ∷ (t ++ b ∷ []))
bracketed-IsPrintable a b t h k p = (h, IsPrintable-append t (b ∷ []) p (k, tt))

abbrev PrintsPlain : Result Text → Type 0
PrintsPlain r = (t : Text) → r ≡ ok t → IsPrintable t

abbrev PrintPlain : List (Text × Result Text) → Type 0
PrintPlain = All (λ e. PrintsPlain e.1)

insert_key-PrintPlain :
    (e : Text × Result Text) (es : List (Text × Result Text))
    → PrintsPlain e.1
    → PrintPlain es
    → PrintPlain (insert_key e es)
unfolding insert_key
insert_key-PrintPlain e [] h a = (h, tt)
insert_key-PrintPlain e (f ∷ es) h a =
    elim (Bool-cases (leb_bytes (utf_16_be e.0) (utf_16_be f.0))) [
      | inl before ↦ rw before (h, a)
      | inr after ↦ rw after (a.0, insert_key-PrintPlain e es h a.1)
    ]

sort_keys-PrintPlain : (es : List (Text × Result Text)) → PrintPlain es → PrintPlain (sort_keys es)
unfolding sort_keys
sort_keys-PrintPlain [] a = tt
sort_keys-PrintPlain (e ∷ es) a =
    insert_key-PrintPlain e (sort_keys es) a.0 (sort_keys-PrintPlain es a.1)

join_fields-IsPrintable :
    (first : Bool) (es : List (Text × Result Text))
    → PrintPlain es
    → PrintsPlain (join_fields first es)
unfolding join_fields
join_fields-IsPrintable first [] a t e = subst IsPrintable (ok_injective e) tt
join_fields-IsPrintable first ((k, r) ∷ es) a t e =
    let (u, h, f) = >>=-eq-ok r _ e in
    let (more, g, q) = >>=-eq-ok (join_fields false es) _ f in
    subst IsPrintable (ok_injective q) (
      IsPrintable-append (comma first) _ (comma-IsPrintable first) (
        IsPrintable-append (serialize_string k) _ (serialize_string-IsPrintable k) (
          omega arith,
          IsPrintable-append u more (a.0 u h) (join_fields-IsPrintable false es a.1 more g),
        )))

mutual
  unfolding serialize serialize_items serialize_fields

  serialize-IsPrintable : (v : Json) → PrintsPlain (serialize v)
  serialize-IsPrintable null t e = subst IsPrintable (ok_injective e) (ground arith)
  serialize-IsPrintable float t e = cc
  serialize-IsPrintable foreign t e = cc
  serialize-IsPrintable (bool true) t e = subst IsPrintable (ok_injective e) (ground arith)
  serialize-IsPrintable (bool false) t e = subst IsPrintable (ok_injective e) (ground arith)
  serialize-IsPrintable (int n) t e =
      subst IsPrintable (ok_injective e) (serialize_int-IsPrintable n)
  serialize-IsPrintable (string s) t e =
      subst IsPrintable (ok_injective e) (serialize_string-IsPrintable s)
  serialize-IsPrintable (array items) t e =
      let (text, h, f) = >>=-eq-ok (serialize_items true items) _ e in
      subst IsPrintable (ok_injective f) (
        bracketed-IsPrintable b'[' b']' text (omega arith) (omega arith)
          (serialize_items-IsPrintable true items text h))
  serialize-IsPrintable (object entries) t e =
      let (text, h, f) = >>=-eq-ok (join_fields true (sort_keys (serialize_fields entries))) _ e in
      subst IsPrintable (ok_injective f) (
        bracketed-IsPrintable b'{' b'}' text (omega arith) (omega arith) (
          join_fields-IsPrintable true (sort_keys (serialize_fields entries))
            (sort_keys-PrintPlain (serialize_fields entries) (serialize_fields-PrintPlain entries))
            text h))

  serialize_items-IsPrintable : (first : Bool) (xs : Items) → PrintsPlain (serialize_items first xs)
  serialize_items-IsPrintable first no_items t e = subst IsPrintable (ok_injective e) tt
  serialize_items-IsPrintable first (item v xs) t e =
      let (u, h, f) = >>=-eq-ok (serialize v) _ e in
      let (more, g, q) = >>=-eq-ok (serialize_items false xs) _ f in
      subst IsPrintable (ok_injective q) (
        IsPrintable-append (comma first) _ (comma-IsPrintable first) (
          IsPrintable-append u more (serialize-IsPrintable v u h)
            (serialize_items-IsPrintable false xs more g)))

  serialize_fields-PrintPlain : (fs : Fields) → PrintPlain (serialize_fields fs)
  serialize_fields-PrintPlain no_fields = tt
  serialize_fields-PrintPlain (entry key v fs) =
      (serialize-IsPrintable v, serialize_fields-PrintPlain fs)

-- A canonical text has no character below a space (U+0000 to U+001F), and so no line feed and no
-- carriage return, whatever the strings in it.
pub canonicalize-IsPrintable : (v : Json) (t : Text) → canonicalize v ≡ ok t → IsPrintable t
unfolding canonicalize
canonicalize-IsPrintable v t e = serialize-IsPrintable v t e
