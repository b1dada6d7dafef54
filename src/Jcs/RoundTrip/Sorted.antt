-- ===== src/Jcs/RoundTrip/Sorted.antt =====
-- The order of src/quantara/jcs.py on the keys of a dictionary, told by 16-bit code units, and the form
-- that a value has in it.
use mathlib.Core.List.{Perm}
use mathlib.Core.List.Perm
use quantara.Prelude.{
  ℕ, ◌≡◌, ◌<◌, ◌⊎◌, inl, inr, refl, true, false, List, [], ◌∷◌, ◌++◌, ◌+◌, ◌-◌, ◌/◌, ◌%◌, ltb,
  arith, Bool-cases, if◌then◌else◌, sym, ap, ◌∙◌,
}
use quantara.Text.{Text}
use quantara.Json.{
  Json, Items, Fields, null, float, foreign, bool, int, string, array, object, no_items, item,
  no_fields, entry,
}
use quantara.Jcs.{utf_16_be_char, utf_16_be, leb_bytes, insert_key, sort_keys}
use quantara.Jcs.RoundTrip.Values.{fields_of, normalize, normalize_items, normalize_fields}

-- The 16-bit code units of a text: a character beyond them is a pair of surrogates.
abbrev pub char_units : ℕ → List ℕ
char_units c =
    if ltb c 65536 then c ∷ [] else (55296 + (c - 65536) / 1024) ∷ (56320 + (c - 65536) % 1024) ∷ []

abbrev pub code_units : Text → List ℕ
code_units [] = []
code_units (c ∷ cs) = char_units c ++ code_units cs

-- One list of units is before the other, or the same.
abbrev pub Precedes : List ℕ → List ℕ → Type 0
Precedes [] vs = Unit
Precedes (u ∷ us) [] = ⊥
Precedes (u ∷ us) (v ∷ vs) = (u < v) ⊎ ((u ≡ v) × Precedes us vs)

abbrev pub KeysAscendFrom : Text → List (Text × Json) → Type 0
KeysAscendFrom k [] = Unit
KeysAscendFrom k ((l, v) ∷ entries) =
    Precedes (code_units k) (code_units l) × KeysAscendFrom l entries

-- The entries stand in the order of their keys.
abbrev pub KeysAscend : List (Text × Json) → Type 0
KeysAscend [] = Unit
KeysAscend ((k, v) ∷ entries) = KeysAscendFrom k entries

-- The second value is the first with the entries of every dictionary in the order of their keys: a
-- permutation of the entries that were there.
mutual
  pub IsForm : Json → Json → Type 0
  IsForm (array items) w = (others : Items) × (w ≡ array others) × AreForms items others
  IsForm (object entries) w =
      (formed : List (Text × Json)) × (others : List (Text × Json)) × (w
        ≡ object (fields_of others))
      × EntriesForm entries formed
      × Perm others formed
      × KeysAscend others
  IsForm null w = w ≡ null
  IsForm float w = w ≡ float
  IsForm foreign w = w ≡ foreign
  IsForm (bool b) w = w ≡ bool b
  IsForm (int n) w = w ≡ int n
  IsForm (string t) w = w ≡ string t

  pub AreForms : Items → Items → Type 0
  AreForms no_items ws = ws ≡ no_items
  AreForms (item v vs) ws =
      (w : Json) × (others : Items) × (ws ≡ item w others) × IsForm v w × AreForms vs others

  pub EntriesForm : Fields → List (Text × Json) → Type 0
  EntriesForm no_fields formed = formed ≡ []
  EntriesForm (entry key v entries) formed =
      (w : Json) × (others : List (Text × Json)) × (formed ≡ (key, w) ∷ others)
      × IsForm v w
      × EntriesForm entries others

-- The bytes of units, the high one first.
abbrev bytes_of_units : List ℕ → List ℕ
bytes_of_units [] = []
bytes_of_units (u ∷ us) = u / 256 ∷ u % 256 ∷ bytes_of_units us

utf_16_be-code_units : (t : Text) → utf_16_be t ≡ bytes_of_units (code_units t)
unfolding utf_16_be utf_16_be_char
utf_16_be-code_units [] = refl
utf_16_be-code_units (c ∷ cs) = elim (Bool-cases (ltb c 65536)) [
  | inl small ↦ rw (small, utf_16_be-code_units cs) refl
  | inr large ↦ rw (large, utf_16_be-code_units cs) refl
]

leb_bytes-Precedes :
    (us vs : List ℕ) → leb_bytes (bytes_of_units us) (bytes_of_units vs) ≡ true → Precedes us vs
unfolding leb_bytes
leb_bytes-Precedes [] vs h = tt
leb_bytes-Precedes (u ∷ us) [] h = absurd (let clash = h in cc)
leb_bytes-Precedes (u ∷ us) (v ∷ vs) h = elim (Bool-cases (ltb u v)) [
  | inl less ↦ inl (ground arith)
  | inr not_less ↦ inr (ground arith, leb_bytes-Precedes us vs (ground arith))
]

leb_bytes_total : (as_ bs : List ℕ) → leb_bytes as_ bs ≡ false → leb_bytes bs as_ ≡ true
unfolding leb_bytes
leb_bytes_total [] bs h = absurd (let clash = h in cc)
leb_bytes_total (a ∷ as_) [] h = refl
leb_bytes_total (a ∷ as_) (b ∷ bs) h = ground (arith, leb_bytes_total as_ bs)

key_before :
    (k l : Text)
    → leb_bytes (utf_16_be k) (utf_16_be l) ≡ true
    → Precedes (code_units k) (code_units l)
key_before k l h = leb_bytes-Precedes (code_units k) (code_units l) (
    sym (ap (λ z. leb_bytes z (bytes_of_units (code_units l))) (utf_16_be-code_units k))
    ∙ (sym (ap (λ z. leb_bytes (utf_16_be k) z) (utf_16_be-code_units l)) ∙ h))

key_after :
    (k l : Text)
    → leb_bytes (utf_16_be k) (utf_16_be l) ≡ false
    → Precedes (code_units l) (code_units k)
key_after k l h = key_before l k (leb_bytes_total (utf_16_be k) (utf_16_be l) h)

insert_key-KeysAscendFrom :
    (l k : Text) (v : Json) (entries : List (Text × Json))
    → Precedes (code_units l) (code_units k)
    → KeysAscendFrom l entries
    → KeysAscendFrom l (insert_key (k, v) entries)
unfolding insert_key
insert_key-KeysAscendFrom l k v [] first a = (first, tt)
insert_key-KeysAscendFrom l k v ((m, w) ∷ entries) first (next, a) =
    elim (Bool-cases (leb_bytes (utf_16_be k) (utf_16_be m))) [
      | inl before ↦ rw before (first, (key_before k m before, a))
      | inr after ↦ rw after (next, insert_key-KeysAscendFrom m k v entries (key_after k m after) a)
    ]

insert_key-KeysAscend :
    (k : Text) (v : Json) (entries : List (Text × Json))
    → KeysAscend entries
    → KeysAscend (insert_key (k, v) entries)
unfolding insert_key
insert_key-KeysAscend k v [] a = tt
insert_key-KeysAscend k v ((m, w) ∷ entries) a =
    elim (Bool-cases (leb_bytes (utf_16_be k) (utf_16_be m))) [
      | inl before ↦ rw before (key_before k m before, a)
      | inr after ↦ rw after (insert_key-KeysAscendFrom m k v entries (key_after k m after) a)
    ]

sort_keys-KeysAscend : (entries : List (Text × Json)) → KeysAscend (sort_keys entries)
unfolding sort_keys
sort_keys-KeysAscend [] = tt
sort_keys-KeysAscend ((k, v) ∷ entries) =
    insert_key-KeysAscend k v (sort_keys entries) (sort_keys-KeysAscend entries)

insert_key-Perm :
    (e : Text × Json) (entries : List (Text × Json)) → Perm (insert_key e entries) (e ∷ entries)
unfolding insert_key
insert_key-Perm e [] = Perm.refl (e ∷ [])
insert_key-Perm e (f ∷ entries) = elim (Bool-cases (leb_bytes (utf_16_be e.0) (utf_16_be f.0))) [
  | inl before ↦ rw before (Perm.refl (e ∷ f ∷ entries))
  | inr after ↦
      rw after (Perm.trans (Perm.cons f (insert_key-Perm e entries)) (Perm.swap e f entries))
]

sort_keys-Perm : (entries : List (Text × Json)) → Perm (sort_keys entries) entries
unfolding sort_keys
sort_keys-Perm [] = Perm.refl []
sort_keys-Perm (e ∷ entries) =
    Perm.trans (insert_key-Perm e (sort_keys entries)) (Perm.cons e (sort_keys-Perm entries))

mutual
  unfolding IsForm normalize normalize_items normalize_fields

  pub normalize-IsForm : (v : Json) → IsForm v (normalize v)
  normalize-IsForm (array items) = (normalize_items items, refl, normalize_items-AreForms items)
  normalize-IsForm (object entries) = (
    normalize_fields entries,
    sort_keys (normalize_fields entries),
    refl,
    normalize_fields-EntriesForm entries,
    sort_keys-Perm (normalize_fields entries),
    sort_keys-KeysAscend (normalize_fields entries),
  )
  normalize-IsForm null = refl
  normalize-IsForm float = refl
  normalize-IsForm foreign = refl
  normalize-IsForm (bool b) = refl
  normalize-IsForm (int n) = refl
  normalize-IsForm (string t) = refl

  pub normalize_items-AreForms : (vs : Items) → AreForms vs (normalize_items vs)
  normalize_items-AreForms no_items = refl
  normalize_items-AreForms (item v vs) =
      (normalize v, normalize_items vs, refl, normalize-IsForm v, normalize_items-AreForms vs)

  pub normalize_fields-EntriesForm :
      (entries : Fields) → EntriesForm entries (normalize_fields entries)
  normalize_fields-EntriesForm no_fields = refl
  normalize_fields-EntriesForm (entry key v entries) = (
    normalize v,
    normalize_fields entries,
    refl,
    normalize-IsForm v,
    normalize_fields-EntriesForm entries,
  )
