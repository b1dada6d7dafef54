-- ===== src/Features/Causal.antt =====
-- No row of src/quantara/features.py looks ahead: its features are those of the rows up to it, its labels
-- those of the rows up to its horizon.
use mathlib.Core.Option.{some-injective}
use quantara.Prelude.{
  ℕ, zero, suc, ◌+◌, ◌-◌, ◌≤◌, ◌<◌, ◌≡◌, refl, sym, ap, ◌∙◌, Option, some, List, [], ◌∷◌, ◌++◌, map,
  length, get_elem?, take, length-append, arith,
}
use quantara.Prelude.Int.{ℤ}
use quantara.Decimal.{Decimal}
use quantara.Errors.{Result, ok, >>=-eq-ok, ok_injective}
use quantara.Rows.{Cell}
use quantara.Features.{
  Context, Column, Features, Labels, series, close_index, volume_index, extract_series,
  compute_features, compute_labels,
}
use quantara.Features.Table.{ResearchRow, stored_at, row_at, research_rows, build_research_rows}
use quantara.Features.Columns.{Agree, Agree-append, take-Agree, at_index-Agree}
use quantara.Features.Rows.{length-series, series-Agree, row_at_lem, research_rows_at, RowsAt}
use quantara.Features.Forward.{compute_labels-Agree}
use quantara.Features.Windows.{compute_features-Agree}

-- What a row says of the past: its time and its four features.
abbrev pub features_of :
    ResearchRow → ℕ × Option Decimal × Option Decimal × Option Decimal × Option Decimal
features_of row = (row.open_time_ms, row.f_ret_1, row.f_roc_60, row.f_rvol_20, row.f_volratio_20)

get_elem?-map {ℓ κ} :
    {A : Type ℓ} {B : Type κ} (f : A → B) (xs : List A) (i : ℕ) {x : A}
    → get_elem? xs i ≡ some x
    → get_elem? (map f xs) i ≡ some (f x)
get_elem?-map f [] i e = cc
get_elem?-map f (y ∷ xs) zero e = ap (λ z. some (f z)) (some-injective _ _ e)
get_elem?-map f (y ∷ xs) (suc i) e = get_elem?-map f xs i e

-- What a row says of the future.
abbrev pub labels_of : ResearchRow → Option Decimal × Option ℤ
labels_of row = (row.l_fwdret_24, row.l_fwddir_24)

stored_at_same :
    (context : Context) (m i : ℕ) (column second : Column)
    → i < m
    → Agree m column second
    → stored_at context column i ≡ stored_at context second i
unfolding stored_at
stored_at_same context m i column second l a = rw (at_index-Agree m i column second l a) refl

extract_series_lem :
    (decimal_of_str : Cell → Result Decimal) (parents : List (List Cell))
    (closes volumes : List Decimal)
    → extract_series decimal_of_str parents ≡ ok (closes, volumes)
    → (series decimal_of_str close_index parents ≡ ok closes)
      × (series decimal_of_str volume_index parents ≡ ok volumes)
unfolding extract_series
extract_series_lem decimal_of_str parents closes volumes h =
    let (c, a, h1) = >>=-eq-ok (series decimal_of_str close_index parents) _ h in
    let (v, b, h2) = >>=-eq-ok (series decimal_of_str volume_index parents) _ h1 in
    let e = ok_injective h2 in (a ∙ ap (λ p. ok p.0) e, b ∙ ap (λ p. ok p.1) e)

-- The parts of a build that succeeds.
pub build_research_rows_parts :
    (context : Context) (decimal_of_str : Cell → Result Decimal) (parents : List (List Cell))
    (horizon : ℕ) (rows : List ResearchRow)
    → build_research_rows context decimal_of_str parents horizon ≡ ok rows
    → (closes : List Decimal) × (volumes : List Decimal) × (features : Features) × (labels : Labels)
      × (series decimal_of_str close_index parents ≡ ok closes)
      × (series decimal_of_str volume_index parents ≡ ok volumes)
      × (compute_features context closes volumes ≡ ok features)
      × (compute_labels context closes horizon ≡ ok labels)
      × (research_rows context features labels 0 parents ≡ ok rows)
unfolding build_research_rows extract_series
build_research_rows_parts context decimal_of_str parents horizon rows h =
    let ((closes, volumes), e, h1) = >>=-eq-ok (extract_series decimal_of_str parents) _ h in
    let (a, b) = extract_series_lem decimal_of_str parents closes volumes e in
    let (features, c, h2) = >>=-eq-ok (compute_features context closes volumes) _ h1 in
    let (labels, d, h3) = >>=-eq-ok (compute_labels context closes horizon) _ h2 in
    (closes, volumes, features, labels, a, b, c, d, h3)

-- One row of two builds over parents that agree so far.
same_features :
    (context : Context) (m i : ℕ) (features second : Features) (labels others : Labels)
    (parent : List Cell) (row twin : ResearchRow)
    → i < m
    → Agree m features.f_ret_1 second.f_ret_1
    → Agree m features.f_roc_60 second.f_roc_60
    → Agree m features.f_rvol_20 second.f_rvol_20
    → Agree m features.f_volratio_20 second.f_volratio_20
    → row_at context features labels i parent ≡ ok row
    → row_at context second others i parent ≡ ok twin
    → features_of row ≡ features_of twin
unfolding stored_at
same_features context m i features second labels others parent row twin l a b c d h g =
    let (t1, r1, o1, v1, x1, f1, d1) = row_at_lem context features labels i parent row h in
    let (t2, r2, o2, v2, x2, f2, d2) = row_at_lem context second others i parent twin g in
    let same_time = ok_injective (sym t1 ∙ t2) in
    let same_ret = ok_injective (sym r1 ∙ stored_at_same context m i _ _ l a ∙ r2) in
    let same_roc = ok_injective (sym o1 ∙ stored_at_same context m i _ _ l b ∙ o2) in
    let same_rvol = ok_injective (sym v1 ∙ stored_at_same context m i _ _ l c ∙ v2) in
    let same_volratio = ok_injective (sym x1 ∙ stored_at_same context m i _ _ l d ∙ x2) in cc

same_labels :
    (context : Context) (m i : ℕ) (features second : Features) (labels others : Labels)
    (parent : List Cell) (row twin : ResearchRow)
    → i < m
    → Agree m labels.l_fwdret_24 others.l_fwdret_24
    → Agree m labels.l_fwddir_24 others.l_fwddir_24
    → row_at context features labels i parent ≡ ok row
    → row_at context second others i parent ≡ ok twin
    → labels_of row ≡ labels_of twin
same_labels context m i features second labels others parent row twin l a b h g =
    let (t1, r1, o1, v1, x1, f1, d1) = row_at_lem context features labels i parent row h in
    let (t2, r2, o2, v2, x2, f2, d2) = row_at_lem context second others i parent twin g in
    let same_fwdret = ok_injective (sym f1 ∙ stored_at_same context m i _ _ l a ∙ f2) in
    let same_fwddir = ok_injective (sym d1 ∙ at_index-Agree m i _ _ l b ∙ d2) in cc

-- The rows of two builds in one place, over one row of their parents.
twin_rows :
    (context : Context) (features second : Features) (labels others : Labels)
    (parents twins : List (List Cell)) (rows more : List ResearchRow) (i : ℕ)
    → get_elem? parents i ≡ get_elem? twins i
    → RowsAt context features labels 0 parents rows i
    → RowsAt context second others 0 twins more i
    → (parent : List Cell) × (row : ResearchRow) × (twin : ResearchRow) × (get_elem? rows i
        ≡ some row)
      × (get_elem? more i ≡ some twin)
      × (row_at context features labels i parent ≡ ok row)
      × (row_at context second others i parent ≡ ok twin)
twin_rows context features second labels others parents twins rows more i e r s =
    let (p, row, a, b, c) = r in
    let (q, twin, x, y, z) = s in
    let same : q ≡ p = some-injective _ _ (sym x ∙ sym e ∙ a) in
    let at : 0 + i ≡ i = omega arith in
    (
      p,
      row,
      twin,
      b,
      y,
      ap (λ k. row_at context features labels k p) (sym at) ∙ c,
      ap (λ k. row_at context second others k p) (sym at)
          ∙ ap (row_at context second others (0 + i)) (sym same)
          ∙ z,
    )

-- A build gives one row for each row of the parent. Two parents that begin with the same rows, with
-- whatever follows them, give research rows with the same times and features for those rows, and
-- with the same labels for those of them whose label horizon lies within them.
pub build_research_rows-causal :
    (context : Context) (decimal_of_str : Cell → Result Decimal) (horizon : ℕ)
    (common later other : List (List Cell)) (rows twins : List ResearchRow)
    → build_research_rows context decimal_of_str (common ++ later) horizon ≡ ok rows
    → build_research_rows context decimal_of_str (common ++ other) horizon ≡ ok twins
    → (length rows ≡ length common + length later)
      × (take (length common) (map features_of rows) ≡ take (length common) (map features_of twins))
      × (take (length common - horizon) (map labels_of rows)
          ≡ take (length common - horizon) (map labels_of twins))
build_research_rows-causal context decimal_of_str horizon common later other rows twins h g =
    let m = length common in
    let (closes, volumes, features, labels, a, b, c, d, e) =
      build_research_rows_parts context decimal_of_str (common ++ later) horizon rows h in
    let (closes2, volumes2, features2, labels2, a2, b2, c2, d2, e2) =
      build_research_rows_parts context decimal_of_str (common ++ other) horizon twins g in
    let agree = Agree-append common later other in
    let size = length-append common later in
    let size2 = length-append common other in
    let long : m ≤ length closes =
      omega (arith, length-series decimal_of_str close_index (common ++ later) closes a, size) in
    let long2 : m ≤ length closes2 =
      omega (arith, length-series decimal_of_str close_index (common ++ other) closes2 a2, size2) in
    let same_closes = series-Agree decimal_of_str close_index m _ _ closes closes2 agree a a2 in
    let same_volumes = series-Agree decimal_of_str volume_index m _ _ volumes volumes2 agree b b2 in
    let (ret, roc, rvol, volratio) =
      compute_features-Agree context m closes volumes closes2 volumes2 features features2 long long2
        same_closes same_volumes c c2 in
    let (fwdret, fwddir) =
      compute_labels-Agree context m horizon closes closes2 labels labels2 long long2 same_closes d
        d2 in
    let (count, each) = research_rows_at context features labels 0 (common ++ later) rows e in
    let (count2, each2) = research_rows_at context features2 labels2 0 (common ++ other) twins e2 in
    let features_same : Agree m (map features_of rows) (map features_of twins) = λ i l.
      let (p, r, q, x, y, z, w) =
        twin_rows context features features2 labels labels2 _ _ _ _ i (agree i l)
          (each i (omega arith)) (each2 i (omega arith)) in
      get_elem?-map features_of rows i x
      ∙ ap some (same_features context m i _ _ _ _ p r q l ret roc rvol volratio z w)
      ∙ sym (get_elem?-map features_of twins i y) in
    let labels_same : Agree (m - horizon) (map labels_of rows) (map labels_of twins) = λ i l.
      let (p, r, q, x, y, z, w) =
        twin_rows context features features2 labels labels2 _ _ _ _ i (agree i (omega arith))
          (each i (omega arith)) (each2 i (omega arith)) in
      get_elem?-map labels_of rows i x
      ∙ ap some (same_labels context (m - horizon) i _ _ _ _ p r q l fwdret fwddir z w)
      ∙ sym (get_elem?-map labels_of twins i y) in
    (count ∙ size, take-Agree m _ _ features_same, take-Agree (m - horizon) _ _ labels_same)
