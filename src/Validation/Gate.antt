-- ===== src/Validation/Gate.antt =====
-- What the gate of src/quantara/validation_quality.py demands of the statistics, for the folds of folds.py.
use quantara.Prelude.{
  ℕ, ◌+◌, ◌≤◌, ◌<◌, ◌≡◌, ◌↔◌, inl, inr, refl, Bool, true, false, Option, List, [], ◌∷◌, length,
  arith, ◌==◌, Bool-cases,
}
use quantara.Text.{Text}
use quantara.Decimal.{Decimal}
use quantara.Errors.{ok}
use quantara.Folds.{Range, FoldPartition, assemble_partition, make_folds, build_walkforward_folds}
use quantara.Folds.Ranges.{Tiles}
use quantara.Folds.Leakage.{build_parts, length-make_folds}
use quantara.Validation.{
  CheckId, Finding, state_pass, record_check, coverage_ok, leaks, any_failing, count_ok,
  findings_of, report_of, evaluate_validation_quality,
}
use quantara.Validation.Statistics.{count_if, signs_fail, returns_fail}
use quantara.Validation.Statistics.{FoldStats}
use quantara.Validation.Segments.{coverage_ok-Tiles, leaks-Tiles}
use quantara.Validation.Demands.{
  StatsPass, returns_fail-false, time_failures-zero, count_if-zero, null_failures-zero,
  signs_fail-false,
}

any_failing-record_check :
    (id : CheckId) (good : Bool) (n : ℕ) (fs : List Finding)
    → (any_failing (record_check id good n ∷ fs) ≡ false)
      ↔ ((good ≡ true) × (any_failing fs ≡ false))
unfolding any_failing
any_failing-record_check id true n fs = (λ h. (refl, h), λ w. w.1)
any_failing-record_check id false n fs = (λ h. cc, λ w. let (a, b) = w in cc)

report_of-state_pass :
    (fs : List Finding) → ((report_of fs).state ≡ state_pass) ↔ (any_failing fs ≡ false)
unfolding report_of
report_of-state_pass fs = elim (Bool-cases (any_failing fs)) [
  | inl failing ↦ rw failing (λ h. cc, λ h. cc)
  | inr none_failing ↦ rw none_failing (λ h. refl, λ h. refl)
]

==-true : (a b : ℕ) → ((a == b) ≡ true) ↔ (a ≡ b)
==-true a b = ground arith

some_range :
    (n ts mt emb : ℕ) (rs : List Range)
    → Tiles n ts (mt + emb) rs
    → 0 < length (make_folds mt emb 0 rs)
some_range n ts mt emb [] t = absurd t
some_range n ts mt emb (r ∷ rs) t = omega (arith, length-make_folds mt emb 0 (r ∷ rs))

nothing_fails : any_failing [] ≡ false
unfolding any_failing
nothing_fails = refl

-- The gate, for a partition that passes the checks of the folds themselves.
gate :
    (decimal_of : Text → Option Decimal) (p : FoldPartition) (n mt emb : ℕ) (stats : List FoldStats)
    → coverage_ok p n ≡ true
    → 0 < length p.folds
    → count_if (leaks mt emb) p.folds ≡ 0
    → ((evaluate_validation_quality decimal_of p stats n mt emb).state ≡ state_pass)
      ↔ StatsPass decimal_of p stats
unfolding evaluate_validation_quality findings_of count_ok
gate decimal_of p n mt emb stats covered some_fold tight =
    let nulls = null_failures-zero stats in
    let signs = count_if-zero signs_fail signs_fail-false stats in
    let returns = count_if-zero (returns_fail decimal_of) (returns_fail-false decimal_of) stats in
    let times = time_failures-zero stats in
    let whole = report_of-state_pass (findings_of decimal_of p stats n mt emb) in
    (
      λ h.
          let (a, h1) = (any_failing-record_check _ _ _ _).0 (whole.0 h) in
          let (b, h2) = (any_failing-record_check _ _ _ _).0 h1 in
          let (c, h3) = (any_failing-record_check _ _ _ _).0 h2 in
          let (d, h4) = (any_failing-record_check _ _ _ _).0 h3 in
          let (e, h5) = (any_failing-record_check _ _ _ _).0 h4 in
          let (f, h6) = (any_failing-record_check _ _ _ _).0 h5 in
          let (g, h7) = (any_failing-record_check _ _ _ _).0 h6 in
          (
            ground arith,
            nulls.0 (ground arith),
            signs.0 (ground arith),
            returns.0 (ground arith),
            times.0 (ground arith),
          ),
      λ (same, a, b, c, d).
          let e1 = nulls.1 a in
          let e2 = signs.1 b in
          let e3 = returns.1 c in
          let e4 = times.1 d in
          whole.1 (
            (any_failing-record_check _ _ _ _).1 (
              covered,
              (any_failing-record_check _ _ _ _).1 (
                ground arith,
                (any_failing-record_check _ _ _ _).1 (
                  ground arith,
                  (any_failing-record_check _ _ _ _).1 (
                    ground arith,
                    (any_failing-record_check _ _ _ _).1 (
                      ground arith,
                      (any_failing-record_check _ _ _ _).1 (
                        ground arith,
                        (any_failing-record_check _ _ _ _).1 (ground arith, nothing_fails),
                      ),
                    ),
                  ),
                ),
              ),
            )),
    )

-- With a positive test size and rows for one fold at least, the partition that is built passes the
-- checks of coverage and leakage, so that the report is PASS exactly if the statistics pass: one to
-- each fold, with the nulls that are expected, signs that add up, means within their bounds, and
-- times that ascend from segment to segment.
pub evaluate_validation_quality-build :
    (decimal_of : Text → Option Decimal) (n ts mt emb : ℕ)
    → 0 < ts
    → mt + emb + ts ≤ n
    → (p : FoldPartition) × (build_walkforward_folds n ts mt emb ≡ ok p)
      × ((stats : List FoldStats)
          → ((evaluate_validation_quality decimal_of p stats n mt emb).state ≡ state_pass)
            ↔ StatsPass decimal_of p stats)
unfolding assemble_partition
evaluate_validation_quality-build decimal_of n ts mt emb positive fits =
    let (rs, t, e) = build_parts n ts mt emb positive fits in
    (
      assemble_partition n mt emb rs,
      e,
      λ stats.
          gate decimal_of (assemble_partition n mt emb rs) n mt emb stats
            (coverage_ok-Tiles n ts mt emb rs t) (some_range n ts mt emb rs t)
            (leaks-Tiles n ts mt emb 0 (mt + emb) rs (omega arith) t),
    )
