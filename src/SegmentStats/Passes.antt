-- ===== src/SegmentStats/Passes.antt =====
-- The validation of a research table that features.py made: what the gate has left to decide.
use quantara.Prelude.{
  ◌⊎◌, inl, inr, ℕ, suc, ◌+◌, ◌≤◌, ◌<◌, ◌≡◌, ◌↔◌, refl, sym, ap, subst, ◌∙◌, Option, some, List, [],
  ◌∷◌, length, All, arith,
}
use quantara.Text.{Text}
use quantara.Decimal.{Decimal}
use quantara.Errors.{Error, err, Result, ok, >>=-eq-ok, ok_injective}
use quantara.Rows.{Cell}
use quantara.Folds.{Range, Fold, FoldPartition, make_fold, make_folds, assemble_partition}
use quantara.Folds.Ranges.{Tiles}
use quantara.Folds.Leakage.{build_parts}
use quantara.Features.{Context}
use quantara.Features.Table.{ResearchRow, build_research_rows}
use quantara.Features.Nulls.{build_research_rows-TableRow}
use quantara.SegmentStats.{Parameters, compute_fold_stats}
use quantara.SegmentStats.Order.{
  Rises, Spans, compute_fold_stats-Spans, Spans-order, Spans-next, ParentsRise,
  build_research_rows-Rises,
}
use quantara.SegmentStats.Total.{Raises, Tiles-fits, fold_stats_list-Settled}
use quantara.SegmentStats.Stage.{fold_stats_list, validation_report}
use quantara.SegmentStats.Structure.{IsTable, table_parameters, compute_fold_stats-IsTable}
use quantara.Validation.{ValidationQualityReport, evaluate_validation_quality, state_pass}
use quantara.Validation.Statistics.{FoldStats}
use quantara.Validation.Demands.{
  HasExpectedNulls, SignsAddUp, ReturnsBounded, TimesAscend, TimesAscendFrom, StatsPass,
}
use quantara.Validation.Gate.{evaluate_validation_quality-build}

-- The validation gives a report that only the bounds of the means decide, or raises what they raise.
abbrev pub Validates :
    Context
    → (Text → Option Decimal)
    → List ResearchRow
    → Result (FoldPartition × List FoldStats × ValidationQualityReport)
    → Type 0
Validates context decimal_of rows result =
    ((partition : FoldPartition) × (stats : List FoldStats) × (report : ValidationQualityReport)
      × (result ≡ ok (partition, stats, report))
      × ((report.state ≡ state_pass) ↔ All (ReturnsBounded decimal_of) stats))
    ⊎ ((raised : Error) × (result ≡ err raised) × Raises context rows raised)

-- What the statistics of a list of segments have, the first of which begins at row `current`.
abbrev Sound : List ResearchRow → (current : ℕ) → List FoldStats → Type 0
Sound rows current stats =
    All HasExpectedNulls stats
    × All SignsAddUp stats
    × TimesAscend stats
    × ((s e : ℕ) (previous : FoldStats)
        → s < e
        → e ≤ current
        → Spans rows (s, e) previous
        → TimesAscendFrom previous stats)

cons_Sound :
    (context : Context) (horizon : ℕ) (rows : List ResearchRow) (a b : ℕ) (first : FoldStats)
    (rest : List FoldStats)
    → IsTable horizon rows
    → Rises rows
    → a < b
    → b ≤ length rows
    → compute_fold_stats context rows (a, b) (some (length rows)) (table_parameters horizon)
      ≡ ok first
    → Sound rows b rest
    → Sound rows a (first ∷ rest)
cons_Sound context horizon rows a b first rest table rises l fits h (nulls, signs, ascend, from) =
    let (expected, total) =
      compute_fold_stats-IsTable context horizon rows a b first table (omega arith) fits h in
    let span =
      compute_fold_stats-Spans context rows a b (some (length rows)) (table_parameters horizon)
        first l fits h in
    let ordered = Spans-order rows a b first rises l span in
    let later = from a b first l (omega arith) span in
    (
      (expected, nulls),
      (total, signs),
      (ordered, later),
      λ s e previous k m before.
          (ordered, Spans-next rows s e a b previous first rises k m before span, later),
    )

fold_stats_list-cons :
    (context : Context) (rows : List ResearchRow) (parameters : Parameters) (fold : Fold)
    (folds : List Fold) (stats : List FoldStats)
    → fold_stats_list context rows parameters (fold ∷ folds) ≡ ok stats
    → (first : FoldStats) × (rest : List FoldStats) × (compute_fold_stats context rows
          fold.test_range
          (some (length rows))
          parameters
        ≡ ok first)
      × (fold_stats_list context rows parameters folds ≡ ok rest)
      × (stats ≡ first ∷ rest)
unfolding fold_stats_list
fold_stats_list-cons context rows parameters fold folds stats h =
    let (first, a, k) =
      >>=-eq-ok (compute_fold_stats context rows fold.test_range (some (length rows)) parameters) _
        h in
    let (rest, b, e) = >>=-eq-ok (fold_stats_list context rows parameters folds) _ k in
    (first, rest, a, b, sym (ok_injective e))

-- The statistics of the folds over segments that tile the rows of a table.
fold_stats_list-Sound :
    (context : Context) (horizon : ℕ) (rows : List ResearchRow) (ts mt emb id current : ℕ)
    (rs : List Range) (stats : List FoldStats)
    → IsTable horizon rows
    → Rises rows
    → 0 < ts
    → Tiles (length rows) ts current rs
    → fold_stats_list context rows (table_parameters horizon) (make_folds mt emb id rs) ≡ ok stats
    → (length (make_folds mt emb id rs) ≡ length stats) × Sound rows current stats
unfolding make_folds make_fold
fold_stats_list-Sound context horizon rows ts mt emb id current [] stats table rises pos t h =
    absurd t
fold_stats_list-Sound context horizon rows ts mt emb id current (r ∷ []) stats table rises pos t h =
    let (first, rest, a, b, e) =
      fold_stats_list-cons context rows (table_parameters horizon) (make_fold mt emb id r) [] stats
        h in
    let none_left : [] ≡ rest = ok_injective (unfold fold_stats_list in b) in
    rw (e, sym none_left)
      (
        refl,
        subst (λ c. Sound rows c (first ∷ [])) t.0
            (cons_Sound context horizon rows r.0 r.1 first [] table rises (omega arith)
              (omega arith) a (tt, tt, tt, λ s e previous k m before. tt)),
      )
fold_stats_list-Sound context horizon rows ts mt emb id current (r ∷ q ∷ rs) stats table rises pos t
      h =
    let (first, rest, a, b, e) =
      fold_stats_list-cons context rows (table_parameters horizon) (make_fold mt emb id r)
        (make_folds mt emb (suc id) (q ∷ rs)) stats h in
    let (size, sound) =
      fold_stats_list-Sound context horizon rows ts mt emb (suc id) r.1 (q ∷ rs) rest table rises
        pos t.2 b in
    let fits = Tiles-fits (length rows) ts r.1 (q ∷ rs) t.2 in
    rw e (
      ap suc size,
      subst (λ c. Sound rows c (first ∷ rest)) t.0
          (cons_Sound context horizon rows r.0 r.1 first rest table rises (omega arith)
            (omega arith) a sound),
    )

-- A research table is built from parent rows whose open times rise, the test size is positive, and there
-- are rows for one fold at least. The validation then gives a report that is PASS exactly if in every
-- fold the mean that is reported lies between the minimum and the maximum, all its other checks hold;
-- or it raises the exception that computing or rendering the mean, the minimum or the maximum of a
-- segment raises.
pub validation_report-build :
    (context : Context) (decimal_of_str : Cell → Result Decimal)
    (decimal_of : Text → Option Decimal) (parents : List (List Cell)) (horizon ts mt emb : ℕ)
    (rows : List ResearchRow)
    → ParentsRise parents
    → 0 < ts
    → mt + emb + ts ≤ length parents
    → build_research_rows context decimal_of_str parents horizon ≡ ok rows
    → Validates context decimal_of rows
        (validation_report context decimal_of rows ts mt emb (table_parameters horizon))
unfolding assemble_partition validation_report
validation_report-build context decimal_of_str decimal_of parents horizon ts mt emb rows rise pos
      fits built =
    let (size, table) =
      build_research_rows-TableRow context decimal_of_str parents horizon rows built in
    let rises = build_research_rows-Rises context decimal_of_str parents horizon rows rise built in
    let n = length rows in
    let fits_rows : mt + emb + ts ≤ n = omega arith in
    let (rs, tiles, assembled) = build_parts n ts mt emb pos fits_rows in
    let (p, folds, gate) = evaluate_validation_quality-build decimal_of n ts mt emb pos fits_rows in
    let same : p ≡ assemble_partition n mt emb rs = ok_injective (sym folds ∙ assembled) in
    let parameters = table_parameters horizon in
    elim (fold_stats_list-Settled context rows parameters ts mt emb 0 (mt + emb) rs pos tiles) [
      | inr (raised, e, why) ↦ inr (raised, rw (assembled, e) refl, why)
      | inl (stats, e) ↦
          let (count, sound) =
            fold_stats_list-Sound context horizon rows ts mt emb 0 (mt + emb) rs stats table rises
              pos tiles e in
          let (nulls, signs, ascend, from) = sound in
          let (to, back) =
            subst
              (λ q.
                ((evaluate_validation_quality decimal_of q stats n mt emb).state ≡ state_pass)
                ↔ StatsPass decimal_of q stats)
              same (gate stats) in
          inl (
            assemble_partition n mt emb rs,
            stats,
            evaluate_validation_quality decimal_of (assemble_partition n mt emb rs) stats n mt emb,
            rw (assembled, e) refl,
            (λ passed. (to passed).3, λ bounded. back (count, nulls, signs, bounded, ascend)),
          )
    ]
