-- ===== src/Hashing/Framing.antt =====
-- The bytes that the content hashes of src/quantara/hashing.py are taken of tell the rows.
use quantara.Prelude.{
  ℕ, ◌≤◌, ◌≡◌, ◌≢◌, refl, sym, ap, ◌∙◌, subst, Bool, not, List, [], ◌∷◌, ◌++◌, arith, length, ltb,
  ◌==◌, Bool-cases, inl, inr, if_true,
}
use quantara.Text.{Text}
use quantara.Json.{Items, null, float, foreign, bool, int, string, array, object, no_items, item}
use quantara.Jcs.{canonicalize}
use quantara.Jcs.RoundTrip.Values.{normalize, normalize_items}
use quantara.Jcs.RoundTrip.Canonical.{normalize_equal}
use quantara.Jcs.Printable.{canonicalize-IsPrintable}
use quantara.Hashing.{utf_8, ascii}
use quantara.Hashing.Encoding.{utf_8_injective, utf_8-All, line_unique}
use quantara.Hashing.Columns.{ResearchColumn, research_columns}
use quantara.Hashing.Content.{
  item_count, is_str_or_int, check_values, canonical_row_array, check_value, check_columns,
  research_row_array, frame_rows, framed,
}
use quantara.Errors.{Result, ok, hash_payload_error, >>=-eq-ok, raise_if-eq-ok, ok_injective}

-- What a check of rows lets through is the row itself, with no dictionary or list in it.
abbrev pub IsRowCheck : (Items → Result Items) → Type 0
IsRowCheck row_array =
    (row values : Items) → row_array row ≡ ok values → (values ≡ row) × (normalize_items row ≡ row)

check_values-normalize : (row : Items) → check_values row ≡ ok tt → normalize_items row ≡ row
unfolding check_values normalize normalize_items is_str_or_int
check_values-normalize no_items h = refl
check_values-normalize (item null row) h = cc
check_values-normalize (item float row) h = cc
check_values-normalize (item foreign row) h = cc
check_values-normalize (item (bool b) row) h = ap (item (bool b)) (check_values-normalize row h)
check_values-normalize (item (int n) row) h = ap (item (int n)) (check_values-normalize row h)
check_values-normalize (item (string t) row) h = ap (item (string t)) (check_values-normalize row h)
check_values-normalize (item (array items) row) h = cc
check_values-normalize (item (object entries) row) h = cc

pub canonical_row_array-IsRowCheck : IsRowCheck canonical_row_array
unfolding canonical_row_array
canonical_row_array-IsRowCheck row values h =
    let (c, k) = raise_if-eq-ok _ _ _ h in
    let (u, e, f) = >>=-eq-ok (check_values row) _ k in
    (sym (ok_injective f), check_values-normalize row e)

check_columns-normalize :
    (is_decimal : ℕ → Bool) (columns : List ResearchColumn) (row : Items)
    → item_count row ≤ length columns
    → check_columns is_decimal columns row ≡ ok tt
    → normalize_items row ≡ row
unfolding item_count check_columns check_value normalize normalize_items
check_columns-normalize is_decimal columns no_items l h = refl
check_columns-normalize is_decimal [] (item v row) l h = absurd (omega arith)
check_columns-normalize is_decimal (c ∷ columns) (item null row) l h =
    let (u, e, f) = >>=-eq-ok (check_value is_decimal c null) _ h in
    ap (item null) (check_columns-normalize is_decimal columns row (omega arith) f)
check_columns-normalize is_decimal (c ∷ columns) (item float row) l h = cc
check_columns-normalize is_decimal (c ∷ columns) (item foreign row) l h = cc
check_columns-normalize is_decimal (c ∷ columns) (item (bool b) row) l h = cc
check_columns-normalize is_decimal (c ∷ columns) (item (int n) row) l h =
    let (u, e, f) = >>=-eq-ok (check_value is_decimal c (int n)) _ h in
    ap (item (int n)) (check_columns-normalize is_decimal columns row (omega arith) f)
check_columns-normalize is_decimal (c ∷ columns) (item (string t) row) l h =
    let (u, e, f) = >>=-eq-ok (check_value is_decimal c (string t)) _ h in
    ap (item (string t)) (check_columns-normalize is_decimal columns row (omega arith) f)
check_columns-normalize is_decimal (c ∷ columns) (item (array items) row) l h = cc
check_columns-normalize is_decimal (c ∷ columns) (item (object entries) row) l h = cc

pub research_row_array-IsRowCheck :
    (is_decimal : ℕ → Bool) → IsRowCheck (research_row_array is_decimal)
unfolding research_row_array
research_row_array-IsRowCheck is_decimal row values h =
    let (c, k) =
      raise_if-eq-ok (not (item_count row == length research_columns)) hash_payload_error _ h in
    let (u, e, f) = >>=-eq-ok (check_columns is_decimal research_columns row) _ k in
    let few : item_count row ≤ length research_columns = ground arith in
    (sym (ok_injective f), check_columns-normalize is_decimal research_columns row few e)

-- One line of the payload.
frame_rows-cons :
    (row_array : Items → Result Items) (row : Items) (rows : List Items) (bytes : List ℕ)
    → IsRowCheck row_array
    → frame_rows row_array (row ∷ rows) ≡ ok bytes
    → (text : Text) × (more : List ℕ) × (canonicalize (array row) ≡ ok text)
      × (frame_rows row_array rows ≡ ok more)
      × (bytes ≡ utf_8 text ++ 10 ∷ more)
      × (normalize_items row ≡ row)
unfolding frame_rows
frame_rows-cons row_array row rows bytes check h =
    let (values, e, f) = >>=-eq-ok (row_array row) _ h in
    let (text, g, k) = >>=-eq-ok (canonicalize (array values)) _ f in
    let (more, l, q) = >>=-eq-ok (frame_rows row_array rows) _ k in
    let (same, plain) = check row values e in
    (
      text,
      more,
      subst (λ v. canonicalize (array v) ≡ ok text) same g,
      l,
      sym (ok_injective q),
      plain,
    )

array_injective : {a b : Items} → array a ≡ array b → a ≡ b
array_injective h = cc

append-nonempty : (s u : List ℕ) → s ++ 10 ∷ u ≢ []
append-nonempty [] u h = cc
append-nonempty (x ∷ s) u h = cc

pub frame_rows_injective :
    (row_array : Items → Result Items) (rows others : List Items) (bytes : List ℕ)
    → IsRowCheck row_array
    → frame_rows row_array rows ≡ ok bytes
    → frame_rows row_array others ≡ ok bytes
    → rows ≡ others
unfolding normalize
frame_rows_injective row_array [] [] bytes check h k = refl
frame_rows_injective row_array [] (o ∷ others) bytes check h k =
    let (s, u, a, b, c, d) = frame_rows-cons row_array o others bytes check k in
    absurd (append-nonempty (utf_8 s) u (sym c ∙ sym (ok_injective (unfold frame_rows in h))))
frame_rows_injective row_array (r ∷ rows) [] bytes check h k =
    let (s, u, a, b, c, d) = frame_rows-cons row_array r rows bytes check h in
    absurd (append-nonempty (utf_8 s) u (sym c ∙ sym (ok_injective (unfold frame_rows in k))))
frame_rows_injective row_array (r ∷ rows) (o ∷ others) bytes check h k =
    let (s, u, a, b, c, d) = frame_rows-cons row_array r rows bytes check h in
    let (t, v, e, f, g, p) = frame_rows-cons row_array o others bytes check k in
    let (same_line, same_rest) =
      line_unique (utf_8 s) (utf_8 t) u v (utf_8-All s (canonicalize-IsPrintable (array r) s a))
        (utf_8-All t (canonicalize-IsPrintable (array o) t e)) (sym c ∙ g) in
    let same_text : s ≡ t = utf_8_injective s t same_line in
    let same_value : normalize (array r) ≡ normalize (array o) =
      normalize_equal (array r) (array o) s a
        (subst (λ z. canonicalize (array o) ≡ ok z) (sym same_text) e) in
    let rest : rows ≡ others =
      frame_rows_injective row_array rows others u check b
        (subst (λ z. frame_rows row_array others ≡ ok z) (sym same_rest) f) in
    let same_row : r ≡ o = sym d ∙ array_injective same_value ∙ p in rw (same_row, rest) refl

pub ascii_lem : (t : Text) (bytes : List ℕ) → ascii t ≡ ok bytes → bytes ≡ t
unfolding ascii
ascii_lem [] bytes h = sym (ok_injective h)
ascii_lem (c ∷ t) bytes h =
    let (rest, e, f) = >>=-eq-ok (ascii t) _ h in
    elim (Bool-cases (ltb c 128)) [
      | inl small ↦
          sym (ok_injective (sym (if_true _ _ _ small) ∙ f))
          ∙ ap (λ (z : Text). c ∷ z) (ascii_lem t rest e)
      | inr large ↦ absurd (cc)
    ]

-- The bytes of a content hash, taken apart.
pub framed_lem :
    (row_array : Items → Result Items) (lower : Text → Text) (domain fingerprint : Text)
    (rows : List Items) (bytes : List ℕ)
    → framed row_array lower domain fingerprint rows ≡ ok bytes
    → (more : List ℕ) × (frame_rows row_array rows ≡ ok more)
      × (bytes ≡ domain ++ 0 ∷ (lower fingerprint ++ 10 ∷ more))
unfolding framed
framed_lem row_array lower domain fingerprint rows bytes h =
    let (name, e, f) = >>=-eq-ok (ascii (lower fingerprint)) _ h in
    let (more, g, k) = >>=-eq-ok (frame_rows row_array rows) _ f in
    (
      more,
      g,
      sym (ok_injective k)
          ∙ ap (λ (n : List ℕ). domain ++ 0 ∷ (n ++ 10 ∷ more))
              (ascii_lem (lower fingerprint) name e),
    )
