-- ===== src/Quality/Golden/Findings.antt =====
-- The findings of src/quantara/quality.py, by what the rows are.
use quantara.Prelude.{
  ℕ, zero, suc, subst, ◌+◌, ◌*◌, ◌<◌, ◌≡◌, ◌↔◌, refl, sym, ap, ◌∙◌, true, false, Bool, ◌||◌, some,
  List, [], ◌∷◌, ◌++◌, length, All, arith,
}
use mathlib.Core.Bool.{or_assoc}
use quantara.Quality.Golden.Grid.{
  minute_grid, adjacent-time_grid, time_grid-adjacent, time_grid-ascending, repeated-time_grid,
  out_of_period-minute_grid, last_time-time_grid, length-time_grid,
}
use quantara.Quality.Golden.Tallies.{
  IsBounded, IsPriced, HasVolumes, IsMinute, IsWithinTotals, IsTraded, IsIgnorable, tally-IsBounded,
  tally-IsPriced, tally-HasVolumes, tally-IsMinute, tally-IsWithinTotals, tally-IsTraded,
  tally-IsIgnorable,
}
use quantara.Rows.{CanonicalRow}
use quantara.Quality.{
  Finding, any_outcome, is_fail, is_warn, Outcome, count_findings, boundary_findings,
  sequence_findings, row_findings, warnings, last_time, tally_check,
}

-- Nothing to warn of.
abbrev pub IsQuiet : List CanonicalRow → Bool → Type 0
IsQuiet rows source_order_valid =
    (source_order_valid ≡ true) × All IsTraded rows × All IsIgnorable rows

pub any-append :
    (test : Outcome → Bool) (xs ys : List Finding)
    → any_outcome test (xs ++ ys) ≡ (any_outcome test xs || any_outcome test ys)
unfolding any_outcome
any-append test [] ys = refl
any-append test (x ∷ xs) ys =
    rw (any-append test xs ys)
      (sym (or_assoc (test x.outcome) (any_outcome test xs) (any_outcome test ys)))

-- The findings on the open times: none fails where the times are the minutes of the period.
abbrev pub time_findings : (start_ms end_ms n : ℕ) → List ℕ → List Finding
time_findings start_ms end_ms n times =
    (count_findings times (some n)).0
      ∷ boundary_findings start_ms end_ms (count_findings times (some n)).1 times
    ++ sequence_findings start_ms end_ms times

abbrev pub AreMinutes : (start_ms end_ms n : ℕ) → List ℕ → Type 0
AreMinutes start_ms end_ms n times =
    (0 < n) × (start_ms + n * 60000 ≡ end_ms) × (times ≡ minute_grid start_ms n)

pub time_findings-AreMinutes :
    (start_ms end_ms n : ℕ) (times : List ℕ)
    → any_outcome is_fail (time_findings start_ms end_ms n times) ≡ false
    → AreMinutes start_ms end_ms n times
unfolding any_outcome is_fail count_findings boundary_findings sequence_findings
time_findings-AreMinutes s e n [] h = absurd (ground arith)
time_findings-AreMinutes s e n (t ∷ times) h =
    let count : suc (length times) ≡ n = ground arith in
    let first : t ≡ s = ground arith in
    let last : last_time t times + 60000 ≡ e = ground arith in
    let (grid, at) = adjacent-time_grid 60000 t times (ground arith) in
    (
      omega arith,
      omega (arith, at),
      subst (λ k. t ∷ times ≡ minute_grid t k) count grid ∙ ap (λ k. minute_grid k n) first,
    )

pub AreMinutes-time_findings :
    (start_ms end_ms n : ℕ) (times : List ℕ)
    → AreMinutes start_ms end_ms n times
    → any_outcome is_fail (time_findings start_ms end_ms n times) ≡ false
unfolding any_outcome is_fail count_findings boundary_findings sequence_findings
AreMinutes-time_findings s e zero times a = absurd (omega arith)
AreMinutes-time_findings s e (suc n) times (positive, whole, grid) = rw grid (
    ground (
      arith,
      length-time_grid 60000 (s + 60000) n,
      last_time-time_grid 60000 s n,
      repeated-time_grid 60000 (omega arith) s (suc n),
      time_grid-ascending 60000 (omega arith) s (suc n),
      time_grid-adjacent 60000 s (suc n),
      out_of_period-minute_grid s e s (suc n),
    ))

pub row_findings_iff :
    (rows : List CanonicalRow)
    → (any_outcome is_fail (row_findings rows) ≡ false) ↔ (
        All IsBounded rows
        × All IsPriced rows
        × All HasVolumes rows
        × All IsMinute rows
        × All IsWithinTotals rows)
unfolding any_outcome is_fail row_findings tally_check
row_findings_iff rows = ground (
  arith,
  tally-IsBounded rows,
  tally-IsPriced rows,
  tally-HasVolumes rows,
  tally-IsMinute rows,
  tally-IsWithinTotals rows,
)

pub warnings_iff :
    (rows : List CanonicalRow) (order : Bool)
    → (any_outcome is_warn (warnings rows order) ≡ false) ↔ IsQuiet rows order
unfolding any_outcome is_warn warnings
warnings_iff rows order = ground (arith, tally-IsTraded rows, tally-IsIgnorable rows)

-- No warning fails, and nothing else warns.
pub warnings-fail :
    (rows : List CanonicalRow) (order : Bool) → any_outcome is_fail (warnings rows order) ≡ false
unfolding any_outcome is_fail warnings
warnings-fail rows order = ground arith

pub time_findings-warn :
    (s e n : ℕ) (times : List ℕ) → any_outcome is_warn (time_findings s e n times) ≡ false
unfolding any_outcome is_warn count_findings boundary_findings sequence_findings
time_findings-warn s e n [] = ground arith
time_findings-warn s e n (t ∷ times) = ground arith

pub row_findings-warn : (rows : List CanonicalRow) → any_outcome is_warn (row_findings rows) ≡ false
unfolding any_outcome is_warn row_findings tally_check
row_findings-warn rows = ground arith
