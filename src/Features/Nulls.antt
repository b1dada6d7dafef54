-- ===== src/Features/Nulls.antt =====
-- Where the research table of src/quantara/features.py has nulls: in the warm-up rows of a feature and in
-- the last rows of a label, and nowhere else.
use mathlib.Core.Option.{some-injective}
use quantara.Prelude.{
  ℕ, ◌+◌, ◌-◌, ◌<◌, ◌≡◌, ◌⊎◌, inl, inr, refl, sym, ap, ◌∙◌, subst, Bool, true, false, Option, none,
  some, List, length, get_elem?, replicate, arith, ltb, leb, Bool-cases,
}
use quantara.Prelude.Int.{ℤ, pos, negsuc}
use quantara.Decimal.{Decimal, ltb_decimal}
use quantara.Errors.{Result, ok, >>=-eq-ok, ok_injective}
use quantara.Rows.{Cell}
use quantara.Features.{
  Context, Column, Features, Labels, one_bar_return, roc_at, rvol_at, volratio_at, at_index,
  or_index_error, direction, ret_warmup, roc_window, vol_window, volume_window, close_index,
}
use quantara.Features.Table.{ResearchRow, row_at, stored_at, storage, build_research_rows}
use quantara.Features.Columns.{HeadNull, Filled}
use quantara.Features.Columns.{get_elem?-replicate}
use quantara.Features.Rows.{length-series, row_at_lem, research_rows_at}
use quantara.Features.Forward.{fwddir_at, fwdret_at, compute_labels-Filled}
use quantara.Features.Causal.{build_research_rows_parts}
use quantara.Features.Windows.{compute_features-HeadNull}

abbrev pub is_null {ℓ} : {A : Type ℓ} → Option A → Bool
is_null none = true
is_null (some a) = false

-- The three directions.
abbrev pub IsDirection : ℤ → Type 0
IsDirection z = (z ≡ negsuc 0) ⊎ ((z ≡ pos 0) ⊎ (z ≡ pos 1))

abbrev pub IsSign : Option ℤ → Type 0
IsSign none = Unit
IsSign (some z) = IsDirection z

-- Row i of a table of n rows.
pub record TableRow (horizon n i : ℕ) (row : ResearchRow) : Type 0 where
  pub ret : is_null row.f_ret_1 ≡ ltb i ret_warmup
  pub roc : is_null row.f_roc_60 ≡ ltb i roc_window
  pub rvol : is_null row.f_rvol_20 ≡ ltb i vol_window
  pub volratio : is_null row.f_volratio_20 ≡ ltb i (volume_window - 1)
  pub fwdret : is_null row.l_fwdret_24 ≡ leb (n - horizon) i
  pub fwddir : is_null row.l_fwddir_24 ≡ leb (n - horizon) i
  pub sign : IsSign row.l_fwddir_24

at_index-some {ℓ} :
    {A : Type ℓ} (xs : List A) (i : ℕ) (x y : A)
    → get_elem? xs i ≡ some x
    → at_index xs i ≡ ok y
    → x ≡ y
at_index-some xs i x y e h = ok_injective (ap or_index_error (sym e) ∙ h)

storage-is_null :
    (context : Context) (value out : Option Decimal)
    → storage context value ≡ ok out
    → is_null out ≡ is_null value
unfolding storage
storage-is_null context none out h = ap is_null (sym (ok_injective h))
storage-is_null context (some value) out h =
    let (quantized, a, k) = >>=-eq-ok (context.quantize value) _ h in
    ap is_null (sym (ok_injective k))

stored_at-is_null :
    (context : Context) (column : Column) (i : ℕ) (value out : Option Decimal)
    → get_elem? column i ≡ some value
    → stored_at context column i ≡ ok out
    → is_null out ≡ is_null value
unfolding stored_at
stored_at-is_null context column i value out e h =
    let (v, a, k) = >>=-eq-ok (at_index column i) _ h in
    storage-is_null context v out k ∙ ap is_null (sym (at_index-some column i value v e a))

direction-IsDirection : (future base : Decimal) → IsDirection (direction future base)
unfolding direction
direction-IsDirection future base = elim (Bool-cases (ltb_decimal base future)) [
  | inl up ↦ rw up (inr (inr refl))
  | inr flat ↦ elim (Bool-cases (ltb_decimal future base)) [
    | inl down ↦ rw (flat, down) (inl refl)
    | inr level ↦ rw (flat, level) (inr (inl refl))
  ]
]

HeadNull-is_null :
    (context : Context) (compute : ℕ → Result Decimal) (start n : ℕ) (column : Column) (i : ℕ)
    (out : Option Decimal)
    → HeadNull compute start n column
    → i < n
    → stored_at context column i ≡ ok out
    → is_null out ≡ ltb i start
HeadNull-is_null context compute start n column i out h l e = elim (Bool-cases (ltb i start)) [
  | inl below ↦
      stored_at-is_null context column i none out (h.null i (ground arith) l) e ∙ sym below
  | inr behind ↦
      let (v, a, b) = h.computed i (ground arith) l in
      stored_at-is_null context column i (some v) out b e ∙ sym behind
]

-- A place of a column of labels: a null from `count` on, else what was computed.
Filled-place {ℓ} :
    {V : Type ℓ} (compute : ℕ → Result V) (count n : ℕ) (column : List (Option V)) (i : ℕ)
    → Filled compute 0 count (replicate n none) column
    → i < n
    → (value : Option V) × (get_elem? column i ≡ some value)
      × (is_null value ≡ leb count i)
      × ((v : V) → value ≡ some v → compute i ≡ ok v)
Filled-place compute count n column i f l = elim (Bool-cases (leb count i)) [
  | inl behind ↦
      (none, f.tail i (ground arith) ∙ get_elem?-replicate n i none l, sym behind, λ v clash. cc)
  | inr below ↦
      let (v, a, b) = f.computed i (omega arith) (ground arith) in
      (some v, b, sym below, λ w e. a ∙ ap ok (some-injective _ _ e))
]

fwddir_at-IsDirection :
    (closes : List Decimal) (horizon i : ℕ) (z : ℤ)
    → fwddir_at closes horizon i ≡ ok z
    → IsDirection z
fwddir_at-IsDirection closes horizon i z h =
    let (future, a, h1) = >>=-eq-ok (at_index closes (i + horizon)) _ h in
    let (base, b, h2) = >>=-eq-ok (at_index closes i) _ h1 in
    subst IsDirection (ok_injective h2) (direction-IsDirection future base)

IsSign-intro : (o : Option ℤ) → ((z : ℤ) → o ≡ some z → IsDirection z) → IsSign o
IsSign-intro none k = tt
IsSign-intro (some z) k = k z refl

stored_at-Filled :
    (context : Context) (compute : ℕ → Result Decimal) (count n : ℕ) (column : Column) (i : ℕ)
    (out : Option Decimal)
    → Filled compute 0 count (replicate n none) column
    → i < n
    → stored_at context column i ≡ ok out
    → is_null out ≡ leb count i
stored_at-Filled context compute count n column i out f l e =
    let (value, a, b, c) = Filled-place compute count n column i f l in
    stored_at-is_null context column i value out a e ∙ b

row_TableRow :
    (context : Context) (closes volumes : List Decimal) (horizon : ℕ) (features : Features)
    (labels : Labels) (i : ℕ) (parent : List Cell) (row : ResearchRow)
    → HeadNull (one_bar_return context closes) ret_warmup (length closes) features.f_ret_1
    → HeadNull (roc_at context closes) roc_window (length closes) features.f_roc_60
    → HeadNull (rvol_at context features.f_ret_1) vol_window (length closes) features.f_rvol_20
    → HeadNull
        (volratio_at context volumes)
        (volume_window - 1)
        (length closes)
        features.f_volratio_20
    → Filled
        (fwdret_at context closes horizon)
        0
        (length closes - horizon)
        (replicate (length closes) none)
        labels.l_fwdret_24
    → Filled
        (fwddir_at closes horizon)
        0
        (length closes - horizon)
        (replicate (length closes) none)
        labels.l_fwddir_24
    → i < length closes
    → row_at context features labels i parent ≡ ok row
    → TableRow horizon (length closes) i row
row_TableRow context closes volumes horizon features labels i parent row r o v x fr fd l h =
    let n = length closes in
    let (t1, r1, o1, v1, x1, f1, d1) = row_at_lem context features labels i parent row h in
    let (value, a, b, c) =
      Filled-place (fwddir_at closes horizon) (n - horizon) n labels.l_fwddir_24 i fd l in
    let same : value ≡ row.l_fwddir_24 = at_index-some labels.l_fwddir_24 i value _ a d1 in
    record {
      ret = HeadNull-is_null context _ ret_warmup n features.f_ret_1 i _ r l r1;
      roc = HeadNull-is_null context _ roc_window n features.f_roc_60 i _ o l o1;
      rvol = HeadNull-is_null context _ vol_window n features.f_rvol_20 i _ v l v1;
      volratio = HeadNull-is_null context _ (volume_window - 1) n features.f_volratio_20 i _ x l x1;
      fwdret = stored_at-Filled context _ (n - horizon) n labels.l_fwdret_24 i _ fr l f1;
      fwddir = ap is_null (sym same) ∙ b;
      sign = IsSign-intro _ (λ z e. fwddir_at-IsDirection closes horizon i z (c z (same ∙ e)));
    }

-- A build that succeeds gives one row for each row of the parent. A feature is null exactly in the
-- rows before its window is full (1 for the return, 60 for the rate of change, 20 for the
-- volatility, 19 for the volume ratio), the two labels exactly in the last `horizon` rows, and a
-- direction is -1, 0 or 1.
pub build_research_rows-TableRow :
    (context : Context) (decimal_of_str : Cell → Result Decimal) (parents : List (List Cell))
    (horizon : ℕ) (rows : List ResearchRow)
    → build_research_rows context decimal_of_str parents horizon ≡ ok rows
    → (length rows ≡ length parents)
      × ((i : ℕ) (row : ResearchRow)
          → i < length rows
          → get_elem? rows i ≡ some row
          → TableRow horizon (length rows) i row)
build_research_rows-TableRow context decimal_of_str parents horizon rows h =
    let (closes, volumes, features, labels, a, b, c, d, e) =
      build_research_rows_parts context decimal_of_str parents horizon rows h in
    let (size, each) = research_rows_at context features labels 0 parents rows e in
    let n = length-series decimal_of_str close_index parents closes a in
    let (ret, roc, rvol, volratio) = compute_features-HeadNull context closes volumes features c in
    let (fwdret, fwddir) = compute_labels-Filled context closes horizon labels d in
    let same : length closes ≡ length rows = n ∙ sym size in
    let at_row =
      λ (i : ℕ) (parent : List Cell) (made : ResearchRow)
          (w : row_at context features labels (0 + i) parent ≡ ok made).
        let from_zero : i ≡ 0 + i = omega arith in
        ap (λ k. row_at context features labels k parent) from_zero ∙ w in
    (
      size,
      λ i row l x.
          let (parent, made, y, z, w) = each i (omega arith) in
          let it : made ≡ row = some-injective _ _ (sym z ∙ x) in
          subst (λ k. TableRow horizon k i row) same
            (subst (TableRow horizon (length closes) i) it (
              row_TableRow context closes volumes horizon features labels i parent made ret roc rvol
                volratio fwdret fwddir (omega arith) (at_row i parent made w))),
    )
