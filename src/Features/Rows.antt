-- ===== src/Features/Rows.antt =====
-- The rows that src/quantara/features.py makes of its columns, and the series of the parent's rows.
use quantara.Prelude.{
  ℕ, zero, suc, ◌+◌, ◌<◌, ◌≡◌, refl, sym, ap, ◌∙◌, some, List, [], ◌∷◌, length, get_elem?, arith,
}
use mathlib.Core.Option.{some-injective}
use quantara.Decimal.{Decimal}
use quantara.Errors.{Result, ok, ◌>>=◌, >>=-eq-ok, ok_injective}
use quantara.Rows.{Cell}
use quantara.Features.{Features, Labels, Context, at_index, as_decimal, series}
use quantara.Features.Table.{ResearchRow, stored_at, open_time_of, row_at, research_rows}
use quantara.Features.Columns.{Agree}

series_cons :
    (decimal_of_str : Cell → Result Decimal) (index : ℕ) (row : List Cell) (rows : List (List Cell))
    (xs : List Decimal)
    → series decimal_of_str index (row ∷ rows) ≡ ok xs
    → (x : Decimal) × (rest : List Decimal) × ((at_index row index >>= λ cell.
          as_decimal decimal_of_str cell)
        ≡ ok x)
      × (series decimal_of_str index rows ≡ ok rest)
      × (xs ≡ x ∷ rest)
unfolding series
series_cons decimal_of_str index row rows xs h =
    let (x, e, k) = >>=-eq-ok (at_index row index >>= λ cell. as_decimal decimal_of_str cell) _ h in
    let (rest, f, g) = >>=-eq-ok (series decimal_of_str index rows) _ k in
    (x, rest, e, f, sym (ok_injective g))

pub length-series :
    (decimal_of_str : Cell → Result Decimal) (index : ℕ) (rows : List (List Cell))
    (xs : List Decimal)
    → series decimal_of_str index rows ≡ ok xs
    → length xs ≡ length rows
unfolding series
length-series decimal_of_str index [] xs h = ap length (sym (ok_injective h))
length-series decimal_of_str index (row ∷ rows) xs h =
    let (x, rest, e, f, g) = series_cons decimal_of_str index row rows xs h in
    ap length g ∙ ap suc (length-series decimal_of_str index rows rest f)

cons_Agree :
    (x y : Decimal) (xs ys : List Decimal) (m : ℕ)
    → x ≡ y
    → Agree m xs ys
    → Agree (suc m) (x ∷ xs) (y ∷ ys)
cons_Agree x y xs ys m e a zero l = ap some e
cons_Agree x y xs ys m e a (suc i) l = a i (omega arith)

-- Series of rows that agree, agree.
pub series-Agree :
    (decimal_of_str : Cell → Result Decimal) (index m : ℕ) (rows other : List (List Cell))
    (xs ys : List Decimal)
    → Agree m rows other
    → series decimal_of_str index rows ≡ ok xs
    → series decimal_of_str index other ≡ ok ys
    → Agree m xs ys
unfolding series
series-Agree decimal_of_str index zero rows other xs ys a h g i l = absurd (omega arith)
series-Agree decimal_of_str index (suc m) [] [] xs ys a h g i l =
    ap (λ zs. get_elem? zs i) (sym (ok_injective h) ∙ ok_injective g)
series-Agree decimal_of_str index (suc m) [] (row ∷ rows) xs ys a h g i l =
    let clash = a 0 (omega arith) in cc
series-Agree decimal_of_str index (suc m) (row ∷ rows) [] xs ys a h g i l =
    let clash = a 0 (omega arith) in cc
series-Agree decimal_of_str index (suc m) (row ∷ rows) (second ∷ others) xs ys a h g i l =
    let (x, rest, e, f, p) = series_cons decimal_of_str index row rows xs h in
    let (y, more, e2, f2, q) = series_cons decimal_of_str index second others ys g in
    let same : row ≡ second = some-injective _ _ (a 0 (omega arith)) in
    let heads : x ≡ y =
      ok_injective
        (sym e ∙ ap (λ r. at_index r index >>= λ cell. as_decimal decimal_of_str cell) same ∙ e2) in
    let tails =
      series-Agree decimal_of_str index m rows others rest more (λ j k. a (suc j) (omega arith)) f
        f2 in
    rw (p, q) (cons_Agree x y rest more m heads tails i l)

-- What one row holds.
pub row_at_lem :
    (context : Context) (features : Features) (labels : Labels) (t : ℕ) (parent : List Cell)
    (row : ResearchRow)
    → row_at context features labels t parent ≡ ok row
    → ((at_index parent 10 >>= λ cell. open_time_of cell) ≡ ok row.open_time_ms)
      × (stored_at context features.f_ret_1 t ≡ ok row.f_ret_1)
      × (stored_at context features.f_roc_60 t ≡ ok row.f_roc_60)
      × (stored_at context features.f_rvol_20 t ≡ ok row.f_rvol_20)
      × (stored_at context features.f_volratio_20 t ≡ ok row.f_volratio_20)
      × (stored_at context labels.l_fwdret_24 t ≡ ok row.l_fwdret_24)
      × (at_index labels.l_fwddir_24 t ≡ ok row.l_fwddir_24)
unfolding row_at
row_at_lem context features labels t parent row h =
    let (cell, a, h1) = >>=-eq-ok (at_index parent 10) _ h in
    let (open_time, b, h2) = >>=-eq-ok (open_time_of cell) _ h1 in
    let (ret, c, h3) = >>=-eq-ok (stored_at context features.f_ret_1 t) _ h2 in
    let (roc, d, h4) = >>=-eq-ok (stored_at context features.f_roc_60 t) _ h3 in
    let (rvol, e, h5) = >>=-eq-ok (stored_at context features.f_rvol_20 t) _ h4 in
    let (volratio, f, h6) = >>=-eq-ok (stored_at context features.f_volratio_20 t) _ h5 in
    let (fwdret, g, h7) = >>=-eq-ok (stored_at context labels.l_fwdret_24 t) _ h6 in
    let (fwddir, k, h8) = >>=-eq-ok (at_index labels.l_fwddir_24 t) _ h7 in
    rw (sym (ok_injective h8)) (rw a b, c, d, e, f, g, k)

abbrev pub RowsAt :
    Context → Features → Labels → (t : ℕ) → List (List Cell) → List ResearchRow → (i : ℕ) → Type 0
RowsAt context features labels t parents rows i =
    (parent : List Cell) × (row : ResearchRow) × (get_elem? parents i ≡ some parent)
    × (get_elem? rows i ≡ some row)
    × (row_at context features labels (t + i) parent ≡ ok row)

cons_RowsAt :
    (context : Context) (features : Features) (labels : Labels) (t : ℕ) (parent : List Cell)
    (parents : List (List Cell)) (row : ResearchRow) (rows : List ResearchRow)
    → row_at context features labels t parent ≡ ok row
    → ((i : ℕ) → i < length parents → RowsAt context features labels (suc t) parents rows i)
    → (i : ℕ) → i < suc (length parents)
    → RowsAt context features labels t (parent ∷ parents) (row ∷ rows) i
cons_RowsAt context features labels t parent parents row rows e each zero l =
    let same : t + 0 ≡ t = omega arith in
    (parent, row, refl, refl, ap (λ k. row_at context features labels k parent) same ∙ e)
cons_RowsAt context features labels t parent parents row rows e each (suc i) l =
    let (p, r, a, b, c) = each i (omega arith) in
    let same : t + suc i ≡ suc t + i = omega arith in
    (p, r, a, b, ap (λ k. row_at context features labels k p) same ∙ c)

-- The rows, one by one.
pub research_rows_at :
    (context : Context) (features : Features) (labels : Labels) (t : ℕ) (parents : List (List Cell))
    (rows : List ResearchRow)
    → research_rows context features labels t parents ≡ ok rows
    → (length rows ≡ length parents)
      × ((i : ℕ) → i < length parents → RowsAt context features labels t parents rows i)
unfolding research_rows
research_rows_at context features labels t [] rows h =
    (ap length (sym (ok_injective h)), λ i l. absurd (omega arith))
research_rows_at context features labels t (parent ∷ parents) rows h =
    let (row, a, h1) = >>=-eq-ok (row_at context features labels t parent) _ h in
    let (rest, b, h2) = >>=-eq-ok (research_rows context features labels (suc t) parents) _ h1 in
    let (size, each) = research_rows_at context features labels (suc t) parents rest b in
    rw (sym (ok_injective h2))
      (ap suc size, λ i l. cons_RowsAt context features labels t parent parents row rest a each i l)
