-- ===== src/SegmentStats/Structure.antt =====
-- The segments of a research table against the checks of nulls and of signs.
use Prim.Native.Nat.{min, max}
use quantara.Prelude.{
  ℕ, zero, suc, ◌+◌, ◌-◌, ◌≤◌, ◌<◌, ◌≡◌, refl, sym, ap, ◌∙◌, Bool, some, List, [], ◌∷◌, length,
  get_elem?, take, drop, All, arith, ltb, leb,
}
use quantara.Errors.{ok, >>=-eq-ok, ok_injective}
use quantara.Features.{Context, slice, roc_window, vol_window, volume_window}
use quantara.Features.Table.{ResearchRow}
use quantara.Features.Nulls.{IsSign, TableRow}
use quantara.SegmentStats.{
  Parameters, compute_expected_segment_nulls, parent_total, tally_rows, empty_tally, bounds_of,
  segment_stats, compute_fold_stats, last_open_time,
}
use quantara.SegmentStats.Counts.{
  Follows, count_if-slice, count_if-below, count_if-behind, tally_rows-Counted, tally_rows-signs,
}
use quantara.Validation.Statistics.{count_if}
use quantara.Validation.Statistics.{FoldStats, NullCounts}
use quantara.Validation.Demands.{HasExpectedNulls, SignsAddUp}

-- The windows that features.py computes with, and the horizon of the labels.
abbrev pub table_parameters : (horizon : ℕ) → Parameters
table_parameters horizon = record {
  roc_window = roc_window;
  vol_window = vol_window;
  volume_window = volume_window;
  label_horizon = horizon;
}

-- The rows of a research table, as the build makes them.
abbrev pub IsTable : (horizon : ℕ) → List ResearchRow → Type 0
IsTable horizon rows =
    (i : ℕ) (row : ResearchRow)
    → i < length rows
    → get_elem? rows i ≡ some row
    → TableRow horizon (length rows) i row

-- What the statistics of a segment take from its rows.
pub segment_stats_lem :
    (context : Context) (expected : NullCounts) (rows : List ResearchRow) (stats : FoldStats)
    → segment_stats context expected rows ≡ ok stats
    → (row : ResearchRow) × (more : List ResearchRow) × (rows ≡ row ∷ more)
      × (stats.null_counts ≡ (tally_rows rows empty_tally).null_counts)
      × (stats.sign_distribution ≡ (tally_rows rows empty_tally).sign_counts)
      × (stats.expected_null_counts ≡ expected)
      × (stats.row_count ≡ length rows)
      × (stats.open_time_ms_first ≡ row.open_time_ms)
      × (stats.open_time_ms_last ≡ last_open_time row more)
unfolding segment_stats
segment_stats_lem context expected [] stats h = cc
segment_stats_lem context expected (row ∷ more) stats h =
    let (bounds, a, k) =
      >>=-eq-ok (bounds_of context (tally_rows (row ∷ more) empty_tally).fwdret_values) _ h in
    let e = ok_injective k in
    (
      row,
      more,
      refl,
      rw (sym e) refl,
      rw (sym e) refl,
      rw (sym e) refl,
      rw (sym e) refl,
      rw (sym e) refl,
      rw (sym e) refl,
    )

from_zero :
    (f : ℕ → Bool) (test : ResearchRow → Bool) (rows : List ResearchRow)
    → ((i : ℕ) (row : ResearchRow) → i < length rows → get_elem? rows i ≡ some row → test row ≡ f i)
    → Follows f 0 test rows
from_zero f test rows t i row l e = let same : i ≡ 0 + i = omega arith in t i row l e ∙ ap f same

segment_count-below :
    (test : ResearchRow → Bool) (rows : List ResearchRow) (a s e : ℕ)
    → ((i : ℕ) (row : ResearchRow)
        → i < length rows
        → get_elem? rows i ≡ some row
        → test row ≡ ltb i a)
    → s ≤ e
    → e ≤ length rows
    → count_if test (slice s e rows) ≡ min e a - max s 0
segment_count-below test rows a s e t h l = omega (
  arith,
  count_if-slice (λ i. ltb i a) test rows 0 s e (from_zero (λ i. ltb i a) test rows t) h l,
  count_if-below a (0 + s) (e - s),
)

segment_count-behind :
    (test : ResearchRow → Bool) (rows : List ResearchRow) (c s e : ℕ)
    → ((i : ℕ) (row : ResearchRow)
        → i < length rows
        → get_elem? rows i ≡ some row
        → test row ≡ leb c i)
    → s ≤ e
    → e ≤ length rows
    → count_if test (slice s e rows) ≡ min e (length rows) - max s c
segment_count-behind test rows c s e t h l = omega (
  arith,
  count_if-slice (λ i. leb c i) test rows 0 s e (from_zero (λ i. leb c i) test rows t) h l,
  count_if-behind c (0 + s) (e - s) (length rows) (omega arith),
)

module _ {ℓ κ} {A : Type ℓ} (P : A → Type κ) where
  All_intro :
      (xs : List A) → ((i : ℕ) (x : A) → i < length xs → get_elem? xs i ≡ some x → P x) → All P xs
  All_intro [] t = tt
  All_intro (x ∷ xs) t =
      (t 0 x (omega arith) refl, All_intro xs (λ i y l e. t (suc i) y (omega arith) e))

  All-take : (n : ℕ) (xs : List A) → All P xs → All P (take n xs)
  All-take zero xs a = tt
  All-take (suc n) [] a = tt
  All-take (suc n) (x ∷ xs) a = (a.0, All-take n xs a.1)

  All-drop : (n : ℕ) (xs : List A) → All P xs → All P (drop n xs)
  All-drop zero xs a = a
  All-drop (suc n) [] a = tt
  All-drop (suc n) (x ∷ xs) a = All-drop n xs a.1

-- The direction of a row is one of the three, or a null.
abbrev RowIsSigned : ResearchRow → Type 0
RowIsSigned row = IsSign row.l_fwddir_24

-- The statistics of a segment of a table have the nulls that are expected, and signs that add up.
pub compute_fold_stats-IsTable :
    (context : Context) (horizon : ℕ) (rows : List ResearchRow) (s e : ℕ) (stats : FoldStats)
    → IsTable horizon rows
    → s ≤ e
    → e ≤ length rows
    → compute_fold_stats context rows (s, e) (some (length rows)) (table_parameters horizon)
      ≡ ok stats
    → HasExpectedNulls stats × SignsAddUp stats
unfolding compute_fold_stats compute_expected_segment_nulls parent_total
compute_fold_stats-IsTable context horizon rows s e stats t h l k =
    let segment = slice s e rows in
    let n = length rows in
    let (row, more, shape, nulls, signs, expected, count, first, last) =
      segment_stats_lem context _ segment stats k in
    let (c1, c2, c3, c4, c5, c6) = tally_rows-Counted segment empty_tally in
    let signed : All RowIsSigned rows = All_intro RowIsSigned rows (λ i r b g. (t i r b g).sign) in
    let total =
      tally_rows-signs segment empty_tally
        (All-drop RowIsSigned s (take e rows) (All-take RowIsSigned e rows signed)) in
    rw (nulls, signs, expected, count)
      (
        (
          omega (arith, c1, segment_count-below _ rows 1 s e (λ i r b g. (t i r b g).ret) h l),
          omega (arith, c2, segment_count-below _ rows 60 s e (λ i r b g. (t i r b g).roc) h l),
          omega (arith, c3, segment_count-below _ rows 20 s e (λ i r b g. (t i r b g).rvol) h l),
          omega
              (arith, c4, segment_count-below _ rows 19 s e (λ i r b g. (t i r b g).volratio) h l),
          omega (
            arith,
            c5,
            segment_count-behind _ rows (n - horizon) s e (λ i r b g. (t i r b g).fwdret) h l,
          ),
          omega (
            arith,
            c6,
            segment_count-behind _ rows (n - horizon) s e (λ i r b g. (t i r b g).fwddir) h l,
          ),
        ),
        omega (arith, total),
      )
