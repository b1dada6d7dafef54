-- ===== src/Jcs/RoundTrip/Canonical.antt =====
-- canonicalize of src/quantara/jcs.py: what its text reads as.
use mathlib.Core.List.{append-nil}
use mathlib.Core.Option.{some-injective}
use quantara.Prelude.{
  suc, ◌*◌, ◌≡◌, refl, sym, ap, ◌∙◌, subst, Bool, true, false, some, [], ◌++◌, length, arith,
}
use quantara.Prelude.Int.{ℤ, pos, negsuc}
use quantara.Text.{Text, codes, numeral}
use quantara.Text.Numerals.{numeral-head}
use quantara.Json.{
  Json, Items, Fields, null, float, foreign, bool, int, string, array, object, no_items, item,
  no_fields, entry,
}
use quantara.Errors.{ok, >>=-eq-ok, ok_injective}
use quantara.Jcs.{
  serialize_string, serialize_int, sort_keys, join_fields, serialize, serialize_items,
  serialize_fields, canonicalize,
}
use quantara.Jcs.Reader.{read_number, read_value, read}
use quantara.Jcs.RoundTrip.{read_number-pos, read_number-neg}
use quantara.Jcs.RoundTrip.Values.{
  normalize, normalize_items, normalize_fields, fields_of, ReadsAs, IsRead, AreRead,
  sort_keys-AreRead, serialize-Opens, read_leaf, read_value-string, read_value-number,
}
use quantara.Jcs.RoundTrip.Sorted.{IsForm, normalize-IsForm}
use quantara.Jcs.RoundTrip.Whole.{
  ReadsItems, read_no_items, item-ReadsItems, serialize_items-ends, array-ReadsAs,
  join_fields-ReadsFields, object-ReadsAs,
}

int-ReadsAs : (n : ℤ) → ReadsAs (serialize_int n) (int n)
unfolding serialize_int
int-ReadsAs (pos n) rest fuel ends h =
    let (c, t, e, d) = numeral-head n in
    rw e (
      read_value-number c (t ++ rest) fuel (omega arith) (ground arith)
      ∙ ap (λ r. some r) (ap (λ z. read_number (z ++ rest)) (sym e) ∙ read_number-pos n rest ends))
int-ReadsAs (negsuc n) rest fuel ends h =
    read_value-number b'-' (numeral (suc n) ++ rest) fuel (omega arith) refl
    ∙ ap (λ r. some r) (read_number-neg n rest ends)

leaf-ReadsAs :
    ReadsAs (codes "null") null
    × ReadsAs (codes "true") (bool true)
    × ReadsAs (codes "false") (bool false)
leaf-ReadsAs = (
  λ rest fuel ends h. (read_leaf rest fuel (omega arith)).0,
  λ rest fuel ends h. (read_leaf rest fuel (omega arith)).1,
  λ rest fuel ends h. (read_leaf rest fuel (omega arith)).2,
)

string-ReadsAs : (s : Text) → ReadsAs (serialize_string s) (string s)
unfolding serialize_string
string-ReadsAs s rest fuel ends h = read_value-string s rest fuel (omega arith)

no_items-ReadsItems : (first : Bool) → ReadsItems first [] no_items
no_items-ReadsItems first rest fuel h = read_no_items first rest fuel (omega arith)

mutual
  unfolding serialize serialize_items serialize_fields normalize normalize_items normalize_fields

  serialize-IsRead : (v : Json) → IsRead (serialize v) (normalize v)
  serialize-IsRead null t e = subst (λ z. ReadsAs z null) (ok_injective e) leaf-ReadsAs.0
  serialize-IsRead float t e = cc
  serialize-IsRead foreign t e = cc
  serialize-IsRead (bool true) t e =
      subst (λ z. ReadsAs z (bool true)) (ok_injective e) leaf-ReadsAs.1
  serialize-IsRead (bool false) t e =
      subst (λ z. ReadsAs z (bool false)) (ok_injective e) leaf-ReadsAs.2
  serialize-IsRead (int n) t e = subst (λ z. ReadsAs z (int n)) (ok_injective e) (int-ReadsAs n)
  serialize-IsRead (string s) t e =
      subst (λ z. ReadsAs z (string s)) (ok_injective e) (string-ReadsAs s)
  serialize-IsRead (array items) t e =
      let (text, h, f) = >>=-eq-ok (serialize_items true items) _ e in
      subst (λ z. ReadsAs z (array (normalize_items items))) (ok_injective f)
        (array-ReadsAs text (normalize_items items) (serialize_items-ReadsItems true items text h))
  serialize-IsRead (object entries) t e =
      let (text, h, f) = >>=-eq-ok (join_fields true (sort_keys (serialize_fields entries))) _ e in
      let vs = sort_keys (normalize_fields entries) in
      let related =
        sort_keys-AreRead (serialize_fields entries) (normalize_fields entries)
          (serialize_fields-AreRead entries) in
      subst (λ z. ReadsAs z (object (fields_of vs))) (ok_injective f)
        (object-ReadsAs text (fields_of vs)
          (join_fields-ReadsFields true (sort_keys (serialize_fields entries)) vs text related h))

  serialize_items-ReadsItems :
      (first : Bool) (xs : Items) (text : Text)
      → serialize_items first xs ≡ ok text
      → ReadsItems first text (normalize_items xs)
  serialize_items-ReadsItems first no_items text e =
      subst (λ z. ReadsItems first z no_items) (ok_injective e) (no_items-ReadsItems first)
  serialize_items-ReadsItems first (item v xs) text e =
      let (t, h, f) = >>=-eq-ok (serialize v) _ e in
      let (more, g, q) = >>=-eq-ok (serialize_items false xs) _ f in
      subst (λ z. ReadsItems first z (item (normalize v) (normalize_items xs))) (ok_injective q)
        (item-ReadsItems first t more (normalize v) (normalize_items xs) (serialize-Opens v t h)
          (serialize-IsRead v t h) (serialize_items-ReadsItems false xs more g)
          (λ rest. serialize_items-ends xs more rest g))

  serialize_fields-AreRead : (fs : Fields) → AreRead (serialize_fields fs) (normalize_fields fs)
  serialize_fields-AreRead no_fields = tt
  serialize_fields-AreRead (entry key v fs) =
      (refl, serialize-IsRead v, serialize_fields-AreRead fs)

read_normalized : (v : Json) (t : Text) → canonicalize v ≡ ok t → read t ≡ some (normalize v)
unfolding canonicalize read
read_normalized v t e =
    let whole : read_value (suc (2 * length t)) t ≡ some (normalize v, []) =
      ap (read_value (suc (2 * length t))) (sym (append-nil t))
      ∙ serialize-IsRead v t e [] (suc (2 * length t)) refl (omega arith) in
    rw whole refl

pub normalize_equal :
    (v w : Json) (t : Text)
    → canonicalize v ≡ ok t
    → canonicalize w ≡ ok t
    → normalize v ≡ normalize w
normalize_equal v w t e f = some-injective _ _ (sym (read_normalized v t e) ∙ read_normalized w t f)

-- A text that canonicalize makes is one that the reader reads, and it reads as the value in which the
-- entries of every dictionary are a permutation of the original ones, in the order of the UTF-16 code units of
-- their keys.
pub read-canonicalize :
    (v : Json) (t : Text) → canonicalize v ≡ ok t → (w : Json) × (read t ≡ some w) × IsForm v w
read-canonicalize v t e = (normalize v, read_normalized v t e, normalize-IsForm v)

-- Two values with one canonical text have a common form, of which the entries of every dictionary are a
-- permutation of the entries of either: they are equal up to the order of entries, and nothing else
-- is lost in a payload that is hashed.
pub canonicalize_injective :
    (v w : Json) (t : Text)
    → canonicalize v ≡ ok t
    → canonicalize w ≡ ok t
    → (form : Json) × IsForm v form × IsForm w form
canonicalize_injective v w t e f = (
  normalize v,
  normalize-IsForm v,
  subst (IsForm w) (sym (normalize_equal v w t e f)) (normalize-IsForm w),
)
