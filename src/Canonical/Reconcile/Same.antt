-- ===== src/Canonical/Reconcile/Same.antt =====
-- What reconcile_rows of src/quantara/canonical.py establishes of the persisted rows.
use quantara.Prelude.{
  ◌≡◌, refl, sym, ap, ◌∙◌, subst, Bool, true, false, not, List, [], ◌∷◌, length, ◌==◌, arith, inl,
  inr, Bool-cases, if_true, if_false, ◌⊎◌, if◌then◌else◌,
}
use quantara.Prelude.Int.{ℤ, pos, eq_of_parts}
use quantara.Text.{Text, text_eq_iff, is_digit}
use quantara.Decimal.{Decimal}
use quantara.Rows.{CanonicalRow, Cell, text, time, count, decimal, float}
use quantara.Hashing.{render_decimal_18_python}
use quantara.Hashing.Content.{Renderer, render_decimal_18, use_rust_kernel, from_kernel, dispatch}
use quantara.Hashing.Units.{IsUnits}
use quantara.Hashing.Rendering.{read_units, render_decimal_18_python-IsExact}
use quantara.Aggregation.Persisted.{persisted_values}
use quantara.Errors.{Result, ok, err, >>=-eq-ok, raise_if-eq-ok, ok_injective}
use quantara.Canonical.Reconcile.Arrays.{to_content_array-rendered}
use quantara.Canonical.Reconcile.{
  Value, str, int, other, rendered_value, rendered_values, to_content_array, value_eq, values_eq,
  check_arrays, reconcile_loop, reconcile_rows,
}

-- What equal renderings say of two decimals: the Python function has rendered them, and they are the
-- same number, whatever their scales; or the kernel has, and gave both the same text.
abbrev pub SameDecimal : Renderer → (a b : Decimal) → Type 0
SameDecimal renderer a b =
    ((use_rust_kernel renderer.available renderer.mode ≡ ok false)
      × ((z : ℤ) × IsUnits a z × IsUnits b z))
    ⊎ ((use_rust_kernel renderer.available renderer.mode ≡ ok true)
        × ((t : Text) × (renderer.kernel a ≡ ok t) × (renderer.kernel b ≡ ok t)))

-- Two values of a column: decimals are as above, texts are the same, and so are times and counts, which
-- are integers. A text beside a decimal is what the decimal renders to.
abbrev pub SameCell : Renderer → Cell → Cell → Type 0
SameCell renderer (decimal a) (decimal b) = SameDecimal renderer a b
SameCell renderer (decimal a) (text t) = render_decimal_18 renderer a ≡ ok t
SameCell renderer (text t) (decimal b) = render_decimal_18 renderer b ≡ ok t
SameCell renderer (text s) (text t) = s ≡ t
SameCell renderer (time s) (time t) = s ≡ t
SameCell renderer (time s) (count n) = pos s ≡ n
SameCell renderer (count m) (time t) = m ≡ pos t
SameCell renderer (count m) (count n) = m ≡ n
SameCell renderer float float = Unit
SameCell renderer _ _ = ⊥

abbrev pub SameCells : Renderer → List Cell → List Cell → Type 0
SameCells renderer [] [] = Unit
SameCells renderer (a ∷ as_) (b ∷ bs) = SameCell renderer a b × SameCells renderer as_ bs
SameCells renderer _ _ = ⊥

-- As many rows, with the same values in the columns.
abbrev pub SameRows : Renderer → List CanonicalRow → List (List Cell) → Type 0
SameRows renderer [] [] = Unit
SameRows renderer (r ∷ rows) (cells ∷ rest) =
    SameCells renderer (persisted_values r) cells × SameRows renderer rows rest
SameRows renderer _ _ = ⊥

rendered-IsUnits :
    (d : Decimal) (t : Text) → render_decimal_18_python d ≡ ok t → IsUnits d (read_units t)
rendered-IsUnits d t h = elim (render_decimal_18_python-IsExact is_digit (λ c e. e) d) [
  | inl (u, e, units, form) ↦ subst (λ z. IsUnits d (read_units z)) (ok_injective (sym e ∙ h)) units
  | inr (e, none_fits) ↦ let clash = sym e ∙ h in cc
]

from_kernel-ok : (r : Result Text) (t : Text) → from_kernel r ≡ ok t → r ≡ ok t
unfolding from_kernel
from_kernel-ok (ok s) t h = h
from_kernel-ok (err e) t h = absurd (let clash = h in cc)

-- The text that the renderer gives is the kernel's, or the one of the Python function.
render_decimal_18-cases :
    (renderer : Renderer) (d : Decimal) (t : Text)
    → render_decimal_18 renderer d ≡ ok t
    → ((use_rust_kernel renderer.available renderer.mode ≡ ok true) × (renderer.kernel d ≡ ok t))
      ⊎ ((use_rust_kernel renderer.available renderer.mode ≡ ok false)
          × (render_decimal_18_python d ≡ ok t))
unfolding render_decimal_18 dispatch
render_decimal_18-cases renderer d t h =
    let (b, e, f) = >>=-eq-ok (use_rust_kernel renderer.available renderer.mode) _ h in
    by_choice b e f
  where
    by_choice :
        (b : Bool)
        → use_rust_kernel renderer.available renderer.mode ≡ ok b
        → (if b then from_kernel (renderer.kernel d) else render_decimal_18_python d) ≡ ok t
        → ((use_rust_kernel renderer.available renderer.mode ≡ ok true)
            × (renderer.kernel d ≡ ok t))
          ⊎ ((use_rust_kernel renderer.available renderer.mode ≡ ok false)
              × (render_decimal_18_python d ≡ ok t))
    by_choice true e f = inl (e, from_kernel-ok (renderer.kernel d) t f)
    by_choice false e f = inr (e, f)

rendered_value-decimal :
    (renderer : Renderer) (d : Decimal) (v : Value)
    → rendered_value renderer (decimal d) ≡ ok v
    → (t : Text) × (render_decimal_18 renderer d ≡ ok t) × (v ≡ str t)
unfolding rendered_value
rendered_value-decimal renderer d v h =
    let (t, e, f) = >>=-eq-ok (render_decimal_18 renderer d) _ h in (t, e, sym (ok_injective f))

str_injective : {s t : Text} → str s ≡ str t → s ≡ t
str_injective h = cc

same_text-SameDecimal :
    (renderer : Renderer) (a b : Decimal) (t : Text)
    → render_decimal_18 renderer a ≡ ok t
    → render_decimal_18 renderer b ≡ ok t
    → SameDecimal renderer a b
same_text-SameDecimal renderer a b t e f = elim (render_decimal_18-cases renderer a t e) [
  | inl (rust, x) ↦ elim (render_decimal_18-cases renderer b t f) [
    | inl (again, y) ↦ inr (rust, (t, x, y))
    | inr (python, y) ↦ let clash = ok_injective (sym rust ∙ python) in cc
  ]
  | inr (python, x) ↦ elim (render_decimal_18-cases renderer b t f) [
    | inl (rust, y) ↦ let clash = ok_injective (sym rust ∙ python) in cc
    | inr (again, y) ↦ inl (python, (read_units t, rendered-IsUnits a t x, rendered-IsUnits b t y))
  ]
]

rendered_value-SameCell :
    (renderer : Renderer) (a b : Cell) (v : Value)
    → rendered_value renderer a ≡ ok v
    → rendered_value renderer b ≡ ok v
    → SameCell renderer a b
unfolding rendered_value
rendered_value-SameCell renderer (decimal a) (decimal b) v h k =
    let (s, e, f) = rendered_value-decimal renderer a v h in
    let (t, g, l) = rendered_value-decimal renderer b v k in
    let same : t ≡ s = str_injective (sym l ∙ f) in
    same_text-SameDecimal renderer a b s e (g ∙ ap ok same)
rendered_value-SameCell renderer (decimal a) (text b) v h k =
    let (t, e, f) = rendered_value-decimal renderer a v h in
    let same : b ≡ t = str_injective (ok_injective k ∙ f) in e ∙ ap ok (sym same)
rendered_value-SameCell renderer (text a) (decimal b) v h k =
    let (t, e, f) = rendered_value-decimal renderer b v k in
    let same : a ≡ t = str_injective (ok_injective h ∙ f) in e ∙ ap ok (sym same)
rendered_value-SameCell renderer (decimal a) (time b) v h k =
    let (t, e, f) = rendered_value-decimal renderer a v h in let clash = ok_injective k ∙ f in cc
rendered_value-SameCell renderer (time a) (decimal b) v h k =
    let (t, e, f) = rendered_value-decimal renderer b v k in let clash = ok_injective h ∙ f in cc
rendered_value-SameCell renderer (decimal a) (count b) v h k =
    let (t, e, f) = rendered_value-decimal renderer a v h in let clash = ok_injective k ∙ f in cc
rendered_value-SameCell renderer (count a) (decimal b) v h k =
    let (t, e, f) = rendered_value-decimal renderer b v k in let clash = ok_injective h ∙ f in cc
rendered_value-SameCell renderer (decimal a) float v h k =
    let (t, e, f) = rendered_value-decimal renderer a v h in let clash = ok_injective k ∙ f in cc
rendered_value-SameCell renderer float (decimal b) v h k =
    let (t, e, f) = rendered_value-decimal renderer b v k in let clash = ok_injective h ∙ f in cc
rendered_value-SameCell renderer (text a) (text b) v h k = let both = ok_injective (h ∙ sym k) in cc
rendered_value-SameCell renderer (text a) (time b) v h k = let both = ok_injective (h ∙ sym k) in cc
rendered_value-SameCell renderer (text a) (count b) v h k =
    let both = ok_injective (h ∙ sym k) in cc
rendered_value-SameCell renderer (text a) float v h k = let both = ok_injective (h ∙ sym k) in cc
rendered_value-SameCell renderer (time a) (text b) v h k = let both = ok_injective (h ∙ sym k) in cc
rendered_value-SameCell renderer (time a) (time b) v h k = let both = ok_injective (h ∙ sym k) in cc
rendered_value-SameCell renderer (time a) (count b) v h k =
    let both = ok_injective (h ∙ sym k) in cc
rendered_value-SameCell renderer (time a) float v h k = let both = ok_injective (h ∙ sym k) in cc
rendered_value-SameCell renderer (count a) (text b) v h k =
    let both = ok_injective (h ∙ sym k) in cc
rendered_value-SameCell renderer (count a) (time b) v h k =
    let both = ok_injective (h ∙ sym k) in cc
rendered_value-SameCell renderer (count a) (count b) v h k =
    let both = ok_injective (h ∙ sym k) in cc
rendered_value-SameCell renderer (count a) float v h k = let both = ok_injective (h ∙ sym k) in cc
rendered_value-SameCell renderer float (text b) v h k = let both = ok_injective (h ∙ sym k) in cc
rendered_value-SameCell renderer float (time b) v h k = let both = ok_injective (h ∙ sym k) in cc
rendered_value-SameCell renderer float (count b) v h k = let both = ok_injective (h ∙ sym k) in cc
rendered_value-SameCell renderer float float v h k = tt

rendered_values-cons :
    (renderer : Renderer) (cell : Cell) (cells : List Cell) (vs : List Value)
    → rendered_values renderer (cell ∷ cells) ≡ ok vs
    → (v : Value) × (more : List Value) × (rendered_value renderer cell ≡ ok v)
      × (rendered_values renderer cells ≡ ok more)
      × (vs ≡ v ∷ more)
unfolding rendered_values
rendered_values-cons renderer cell cells vs h =
    let (v, e, f) = >>=-eq-ok (rendered_value renderer cell) _ h in
    let (more, g, k) = >>=-eq-ok (rendered_values renderer cells) _ f in
    (v, more, e, g, sym (ok_injective k))

nothing_rendered : (renderer : Renderer) → rendered_values renderer [] ≡ ok []
unfolding rendered_values
nothing_rendered renderer = refl

rendered_values-SameCells :
    (renderer : Renderer) (as_ bs : List Cell) (vs : List Value)
    → rendered_values renderer as_ ≡ ok vs
    → rendered_values renderer bs ≡ ok vs
    → SameCells renderer as_ bs
rendered_values-SameCells renderer [] [] vs h k = tt
rendered_values-SameCells renderer [] (b ∷ bs) vs h k =
    let (v, more, e, f, g) = rendered_values-cons renderer b bs vs k in
    let nothing = ok_injective (sym (nothing_rendered renderer) ∙ h) in cc
rendered_values-SameCells renderer (a ∷ as_) [] vs h k =
    let (v, more, e, f, g) = rendered_values-cons renderer a as_ vs h in
    let nothing = ok_injective (sym (nothing_rendered renderer) ∙ k) in cc
rendered_values-SameCells renderer (a ∷ as_) (b ∷ bs) vs h k =
    let (v, more, e, f, g) = rendered_values-cons renderer a as_ vs h in
    let (w, rest, l, m, n) = rendered_values-cons renderer b bs vs k in
    let same : w ≡ v = cc in
    let same_rest : rest ≡ more = cc in
    (
      rendered_value-SameCell renderer a b v e (l ∙ ap ok same),
      rendered_values-SameCells renderer as_ bs more f (m ∙ ap ok same_rest),
    )

value_eq-eq : (v w : Value) → value_eq v w ≡ true → v ≡ w
unfolding value_eq
value_eq-eq (str s) (str t) h = ap str ((text_eq_iff s t).0 h)
value_eq-eq (int m) (int n) h = ap int (eq_of_parts m n (ground arith))
value_eq-eq (str s) (int n) h = cc
value_eq-eq (str s) other h = cc
value_eq-eq (int m) (str t) h = cc
value_eq-eq (int m) other h = cc
value_eq-eq other w h = cc

values_eq-eq : (vs ws : List Value) → values_eq vs ws ≡ true → vs ≡ ws
unfolding values_eq
values_eq-eq [] [] h = refl
values_eq-eq [] (w ∷ ws) h = cc
values_eq-eq (v ∷ vs) [] h = cc
values_eq-eq (v ∷ vs) (w ∷ ws) h =
    let e = value_eq-eq v w (ground arith) in let f = values_eq-eq vs ws (ground arith) in cc

check_arrays-eq : (vs ws : List Value) → check_arrays vs ws ≡ ok tt → vs ≡ ws
unfolding check_arrays
check_arrays-eq vs ws h = elim (Bool-cases (values_eq vs ws)) [
  | inl same ↦ values_eq-eq vs ws same
  | inr differ ↦
      let k = sym (if_false _ _ _ differ) ∙ h in
      elim (Bool-cases (length vs == length ws)) [
        | inl level ↦ let clash = sym (if_true _ _ _ level) ∙ k in cc
        | inr uneven ↦ let clash = sym (if_false _ _ _ uneven) ∙ k in cc
      ]
]

reconcile_loop-SameRows :
    (renderer : Renderer) (rows : List CanonicalRow) (tuples : List (List Cell))
    → length rows ≡ length tuples
    → reconcile_loop renderer rows tuples ≡ ok tt
    → SameRows renderer rows tuples
unfolding reconcile_loop
reconcile_loop-SameRows renderer [] [] n h = tt
reconcile_loop-SameRows renderer [] (cells ∷ tuples) n h = absurd (omega arith)
reconcile_loop-SameRows renderer (r ∷ rows) [] n h = absurd (omega arith)
reconcile_loop-SameRows renderer (r ∷ rows) (cells ∷ tuples) n h =
    let (expected, e, a) = >>=-eq-ok (to_content_array renderer r) _ h in
    let (rendered, f, b) = >>=-eq-ok (rendered_values renderer cells) _ a in
    let (u, g, c) = >>=-eq-ok (check_arrays expected rendered) _ b in
    let same = check_arrays-eq expected rendered g in
    (
      rendered_values-SameCells renderer (persisted_values r) cells expected
          (to_content_array-rendered renderer r expected e) (f ∙ ap ok (sym same)),
      reconcile_loop-SameRows renderer rows tuples (omega arith) c,
    )

-- A reconciliation that passes has found as many persisted rows as source rows, with the same texts,
-- times and counts in the same columns; where the Python function renders decimals, a decimal is the
-- same number, at whatever scale it was written, and where the kernel does, it has the same text.
pub reconcile_rows-SameRows :
    (renderer : Renderer) (rows : List CanonicalRow) (tuples : List (List Cell))
    → reconcile_rows renderer rows tuples ≡ ok tt
    → SameRows renderer rows tuples
unfolding reconcile_rows
reconcile_rows-SameRows renderer rows tuples h =
    let (level, k) = raise_if-eq-ok (not (length rows == length tuples)) _ _ h in
    reconcile_loop-SameRows renderer rows tuples (ground arith) k
