-- ===== src/DerivedQuality/Complete/Decision.antt =====
-- evaluate_derived_quality of src/quantara/derive_quality.py: the state, by what the bars are.
use mathlib.Core.Bool.{true≢false}
use quantara.Prelude.{
  ℕ, ◌<◌, ◌≡◌, ◌≢◌, ◌↔◌, ◌⊎◌, inl, inr, refl, sym, ◌∙◌, true, false, Bool, ◌||◌, none, some, List,
  Bool-cases,
}
use quantara.Rows.{CanonicalRow}
use quantara.Quality.{State, state_pass, warn_blocked, state_fail}
use quantara.DerivedQuality.{
  Outcome, count_findings, row_findings, is_fail, is_blocking, any_outcome, report_state,
  all_findings, evaluate_derived_quality,
}
use quantara.DerivedQuality.Complete.{
  IsSeries, IsUnblocked, any-append, time_findings, time_findings-time_grid,
  time_grid-time_findings, row_findings_iff, row_findings-blocking, time_findings-blocking,
}

or-eq-false : (a b : Bool) → (a || b) ≡ false → (a ≡ false) × (b ≡ false)
or-eq-false true b h = cc
or-eq-false false b h = (refl, h)

false_or : (a b : Bool) → a ≡ false → b ≡ false → (a || b) ≡ false
false_or a b e f = rw (e, f) refl

module _ (rows : List CanonicalRow) (tf start n : ℕ) (ok : Bool) (positive : 0 < tf) where
  any_split :
      (test : Outcome → Bool)
      → any_outcome test (all_findings rows tf start (some n) ok) ≡ (
          any_outcome test (time_findings tf start n rows)
          || any_outcome test (row_findings tf rows ok))
  unfolding all_findings
  any_split test = any-append test (time_findings tf start n rows) (row_findings tf rows ok)

  fail_iff :
      (any_outcome is_fail (all_findings rows tf start (some n) ok) ≡ false)
      ↔ IsSeries rows tf start n ok
  fail_iff = (
    λ h.
        let (a, b) = or-eq-false _ _ (sym (any_split is_fail) ∙ h) in
        let (bounded, priced, volumes, within, long, reconciled) =
          (row_findings_iff tf rows ok).0 b in
        record {
          bars = time_findings-time_grid tf start n rows a;
          bounded = bounded;
          priced = priced;
          volumes = volumes;
          within = within;
          long = long;
          reconciled = reconciled;
        },
    λ g.
        any_split is_fail
        ∙ false_or _ _ (time_grid-time_findings tf start n rows positive g.bars g.long) (
            (row_findings_iff tf rows ok).1
              (g.bounded, g.priced, g.volumes, g.within, g.long, g.reconciled)),
  )

  blocking_iff :
      IsSeries rows tf start n ok
      → (any_outcome is_blocking (all_findings rows tf start (some n) ok) ≡ false)
        ↔ IsUnblocked rows n
  blocking_iff g = (
    λ h.
        let (a, b) = or-eq-false _ _ (sym (any_split is_blocking) ∙ h) in
        (
          (time_findings-blocking tf start n rows g.bars).0 a,
          (row_findings-blocking tf rows ok).0 b,
        ),
    λ u.
        any_split is_blocking
        ∙ false_or _ _ ((time_findings-blocking tf start n rows g.bars).1 u.0)
            ((row_findings-blocking tf rows ok).1 u.1),
  )

-- What the state of a report says of the bars.
abbrev pub Decides :
    State
    → (rows : List CanonicalRow) (timeframe_ms start_ms n : ℕ) (reconciliation_ok : Bool) → Type 0
Decides state rows tf start n ok =
    ((state ≡ state_pass) × IsSeries rows tf start n ok × IsUnblocked rows n)
    ⊎ (((state ≡ warn_blocked) × IsSeries rows tf start n ok × (¬ IsUnblocked rows n))
        ⊎ ((state ≡ state_fail) × (¬ IsSeries rows tf start n ok)))

-- Of bars of a positive timeframe that must be `n` in number, the state is one of three. It is PASS if
-- they are the whole series, sound and reconciled, with one bar at least and trades in each;
-- WARN_BLOCKED if they are the series but none, or some without trades; FAIL if they are not.
pub evaluate_derived_quality-Decides :
    (rows : List CanonicalRow) (timeframe_ms start_ms n : ℕ) (reconciliation_ok : Bool)
    → 0 < timeframe_ms
    → Decides
        (evaluate_derived_quality rows timeframe_ms start_ms (some n) reconciliation_ok)
        rows
        timeframe_ms
        start_ms
        n
        reconciliation_ok
unfolding evaluate_derived_quality report_state
evaluate_derived_quality-Decides rows tf start n ok positive =
    let fails = fail_iff rows tf start n ok positive in
    elim (Bool-cases (any_outcome is_fail (all_findings rows tf start (some n) ok))) [
      | inl failed ↦ inr (inr (rw failed refl, λ g. true≢false (sym failed ∙ fails.1 g)))
      | inr passed ↦
          let series = fails.0 passed in
          let blocks = blocking_iff rows tf start n ok positive series in
          elim (Bool-cases (any_outcome is_blocking (all_findings rows tf start (some n) ok))) [
            | inl blocked ↦ inr (
                inl (rw (passed, blocked) refl, series, λ u. true≢false (sym blocked ∙ blocks.1 u)))
            | inr free ↦ inl (rw (passed, free) refl, series, blocks.0 free)
          ]
    ]

-- A report that was made without the number of bars to expect is never PASS, whatever the bars.
pub evaluate_derived_quality-none :
    (rows : List CanonicalRow) (timeframe_ms start_ms : ℕ) (reconciliation_ok : Bool)
    → evaluate_derived_quality rows timeframe_ms start_ms none reconciliation_ok ≢ state_pass
unfolding evaluate_derived_quality report_state any_outcome is_blocking is_fail all_findings
    count_findings
evaluate_derived_quality-none rows tf start ok h =
    elim (Bool-cases (any_outcome is_fail (all_findings rows tf start none ok))) [
      | inl failed ↦ cc
      | inr passed ↦ cc
    ]
