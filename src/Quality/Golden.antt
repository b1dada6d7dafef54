-- ===== src/Quality/Golden.antt =====
-- evaluate_quality of src/quantara/quality.py: the state of the report, by what the rows are.
pub mod Findings
pub mod Grid
pub mod Tallies
use quantara.Prelude.{
  ℕ, zero, suc, subst, ◌+◌, ◌*◌, ◌<◌, ◌≤◌, ◌≡◌, ◌↔◌, ◌⊎◌, inl, inr, refl, sym, ap, ◌∙◌, true, false,
  Bool, ◌||◌, some, List, [], ◌∷◌, ◌++◌, map, length, All, arith, Bool-cases, ◌==◌, length-map,
  if◌then◌else◌,
}
use mathlib.Core.Bool.{or_assoc, true≢false}
use mathlib.Core.List.{append_assoc}
use quantara.Quality.Golden.Grid.{
  minute_grid, adjacent-time_grid, time_grid-adjacent, time_grid-ascending, repeated-time_grid,
  out_of_period-minute_grid, last_time-time_grid, length-time_grid,
}
use quantara.Quality.Golden.Tallies.{
  IsBounded, IsPriced, HasVolumes, IsMinute, IsWithinTotals, IsTraded, IsIgnorable, tally-IsBounded,
  tally-IsPriced, tally-HasVolumes, tally-IsMinute, tally-IsWithinTotals, tally-IsTraded,
  tally-IsIgnorable,
}
use quantara.Rows.{CanonicalRow}
use quantara.Quality.{
  Finding, State, state_pass, warn_blocked, state_fail, any_outcome, is_fail, is_warn, Outcome,
  count_findings, boundary_findings, sequence_findings, row_findings, warnings, tally, adjacent,
  repeated, out_of_period, last_time, report_state, all_findings, evaluate_quality, tally_check,
}
use quantara.Prelude.{ltb}
use quantara.Quality.Golden.Findings.{
  IsQuiet, time_findings, AreMinutes, any-append, time_findings-AreMinutes,
  AreMinutes-time_findings, row_findings_iff, warnings_iff, warnings-fail, time_findings-warn,
  row_findings-warn,
}

abbrev pub times_of : List CanonicalRow → List ℕ
times_of rows = map (λ row. row.open_time_ms) rows

-- The rows are the minutes of the period, all of them and in order, and each is sound.
pub record IsGolden (rows : List CanonicalRow) (start_ms end_ms n : ℕ) : Type 0 where
  pub nonempty : 0 < n
  pub whole : start_ms + n * 60000 ≡ end_ms
  pub minutes : times_of rows ≡ minute_grid start_ms n
  pub bounded : All IsBounded rows
  pub priced : All IsPriced rows
  pub volumes : All HasVolumes rows
  pub minute : All IsMinute rows
  pub within : All IsWithinTotals rows

or-eq-false : (a b : Bool) → (a || b) ≡ false → (a ≡ false) × (b ≡ false)
or-eq-false true b h = cc
or-eq-false false b h = (refl, h)

or_false : (b : Bool) → (b || false) ≡ b
or_false true = refl
or_false false = refl

module _ (rows : List CanonicalRow) (s e n : ℕ) (order : Bool) where
  split :
      all_findings rows s e order (some n)
      ≡ time_findings s e n (times_of rows) ++ (row_findings rows ++ warnings rows order)
  unfolding all_findings
  split =
      ap (λ fs. (count_findings (times_of rows) (some n)).0 ∷ fs)
        (append_assoc
          (boundary_findings s e (count_findings (times_of rows) (some n)).1 (times_of rows)
            ++ sequence_findings s e (times_of rows))
          (row_findings rows) (warnings rows order))

  any_split :
      (test : Outcome → Bool)
      → any_outcome test (all_findings rows s e order (some n)) ≡ (
          any_outcome test (time_findings s e n (times_of rows))
          || (any_outcome test (row_findings rows) || any_outcome test (warnings rows order)))
  any_split test =
      ap (any_outcome test) split
      ∙ any-append test (time_findings s e n (times_of rows))
          (row_findings rows ++ warnings rows order)
      ∙ ap (λ b. any_outcome test (time_findings s e n (times_of rows)) || b)
          (any-append test (row_findings rows) (warnings rows order))

  abbrev rows_fail : Bool
  rows_fail = any_outcome is_fail (row_findings rows)

  abbrev times_fail : Bool
  times_fail = any_outcome is_fail (time_findings s e n (times_of rows))

  fail_split :
      any_outcome is_fail (all_findings rows s e order (some n)) ≡ (times_fail || rows_fail)
  fail_split =
      any_split is_fail
      ∙ ap (λ b. times_fail || (rows_fail || b)) (warnings-fail rows order)
      ∙ ap (λ b. times_fail || b) (or_false rows_fail)

  fail_iff :
      (any_outcome is_fail (all_findings rows s e order (some n)) ≡ false) ↔ IsGolden rows s e n
  fail_iff = (
    λ h.
        let (a, b) = or-eq-false times_fail rows_fail (sym fail_split ∙ h) in
        let (nonempty, whole, minutes) = time_findings-AreMinutes s e n (times_of rows) a in
        let (bounded, priced, volumes, minute, within) = (row_findings_iff rows).0 b in
        record {
          nonempty = nonempty;
          whole = whole;
          minutes = minutes;
          bounded = bounded;
          priced = priced;
          volumes = volumes;
          minute = minute;
          within = within;
        },
    λ g.
        fail_split
        ∙ rw
            (
              AreMinutes-time_findings s e n (times_of rows) (g.nonempty, g.whole, g.minutes),
              (row_findings_iff rows).1 (g.bounded, g.priced, g.volumes, g.minute, g.within),
            )
            refl,
  )

  warn_split :
      any_outcome is_warn (all_findings rows s e order (some n))
      ≡ any_outcome is_warn (warnings rows order)
  warn_split =
      any_split is_warn ∙ rw (time_findings-warn s e n (times_of rows), row_findings-warn rows) refl

  warn_iff :
      (any_outcome is_warn (all_findings rows s e order (some n)) ≡ false) ↔ IsQuiet rows order
  warn_iff = rw warn_split (warnings_iff rows order)

-- What the state of a report says of the rows.
abbrev pub Tells : State → (rows : List CanonicalRow) (start_ms end_ms n : ℕ) → Bool → Type 0
Tells state rows start_ms end_ms n source_order_valid =
    ((state ≡ state_pass) × IsGolden rows start_ms end_ms n × IsQuiet rows source_order_valid)
    ⊎ (((state ≡ warn_blocked)
          × IsGolden rows start_ms end_ms n
          × (¬ IsQuiet rows source_order_valid))
        ⊎ ((state ≡ state_fail) × (¬ IsGolden rows start_ms end_ms n)))

-- Of rows that must be `n` in number, the state is one of three. It is PASS if the rows are all the
-- minutes of the period, in order and sound, and there is nothing to warn of; WARN_BLOCKED if they
-- are, and there is; FAIL if they are not.
pub evaluate_quality-Tells :
    (rows : List CanonicalRow) (start_ms end_ms n : ℕ) (source_order_valid : Bool)
    → Tells
        (evaluate_quality rows start_ms end_ms source_order_valid (some n)).state
        rows
        start_ms
        end_ms
        n
        source_order_valid
unfolding evaluate_quality report_state
evaluate_quality-Tells rows s e n order =
    let fails = fail_iff rows s e n order in
    let warns = warn_iff rows s e n order in
    elim (Bool-cases (any_outcome is_fail (all_findings rows s e order (some n)))) [
      | inl failed ↦ inr (inr (rw failed refl, λ g. true≢false (sym failed ∙ fails.1 g)))
      | inr passed ↦
          elim (Bool-cases (any_outcome is_warn (all_findings rows s e order (some n)))) [
            | inl warned ↦ inr (
                inl (
                  rw (passed, warned) refl,
                  fails.0 passed,
                  λ q. true≢false (sym warned ∙ warns.1 q),
                ))
            | inr quiet ↦ inl (rw (passed, quiet) refl, fails.0 passed, warns.0 quiet)
          ]
    ]
