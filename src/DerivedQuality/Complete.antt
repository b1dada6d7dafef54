-- ===== src/DerivedQuality/Complete.antt =====
-- The findings of src/quantara/derive_quality.py, by what the bars are.
pub mod Decision
use mathlib.Core.Bool.{or_assoc, true≢false}
use quantara.Prelude.{
  ℕ, zero, suc, ◌+◌, ◌*◌, ◌<◌, ◌≡◌, ◌↔◌, ◌⊎◌, inl, inr, refl, sym, ap, ◌∙◌, subst, true, false,
  Bool, ◌||◌, Option, none, some, List, [], ◌∷◌, ◌++◌, map, length, All, arith, Bool-cases, ◌==◌,
  length-map, ltb,
}
use quantara.Prelude.Int.{pos}
use quantara.Rows.{CanonicalRow}
use quantara.Quality.{
  State, state_pass, warn_blocked, state_fail, tally, last_time, adjacent, repeated,
}
use quantara.Quality.Violations.{volumes_nonnegative}
use quantara.Quality.Golden.{times_of}
use quantara.Quality.Golden.Grid.{
  time_grid, adjacent-time_grid, time_grid-adjacent, time_grid-ascending, repeated-time_grid,
  last_time-time_grid, length-time_grid,
}
use quantara.Quality.Golden.Tallies.{
  IsBounded, IsPriced, HasVolumes, IsWithinTotals, IsTraded, tally_iff, tally-IsBounded,
  tally-IsPriced, tally-IsWithinTotals, tally-IsTraded,
}
use quantara.DerivedQuality.{
  Finding, Outcome, volume_violation, close_violation, last_close_time, count_findings,
  boundary_findings, sequence_findings, row_findings, is_fail, is_blocking, any_outcome,
  report_state, all_findings, evaluate_derived_quality,
}

-- The bar closes a millisecond before the next one opens.
abbrev pub IsBarLong : (timeframe_ms : ℕ) → CanonicalRow → Type 0
IsBarLong timeframe_ms r = r.close_time_ms + 1 ≡ r.open_time_ms + timeframe_ms

-- The rows are `n` bars from `start_ms` on without a gap, each is sound, and they reconcile.
pub record IsSeries (rows : List CanonicalRow) (timeframe_ms start_ms n : ℕ)
    (reconciliation_ok : Bool) : Type 0 where
  pub bars : times_of rows ≡ time_grid timeframe_ms start_ms n
  pub bounded : All IsBounded rows
  pub priced : All IsPriced rows
  pub volumes : All HasVolumes rows
  pub within : All IsWithinTotals rows
  pub long : All (IsBarLong timeframe_ms) rows
  pub reconciled : reconciliation_ok ≡ true

-- Nothing blocks: there are bars, and trades in each.
abbrev pub IsUnblocked : List CanonicalRow → ℕ → Type 0
IsUnblocked rows n = (0 < n) × All IsTraded rows

pub any-append :
    (test : Outcome → Bool) (xs ys : List Finding)
    → any_outcome test (xs ++ ys) ≡ (any_outcome test xs || any_outcome test ys)
unfolding any_outcome
any-append test [] ys = refl
any-append test (x ∷ xs) ys =
    rw (any-append test xs ys)
      (sym (or_assoc (test x.outcome) (any_outcome test xs) (any_outcome test ys)))

tally-HasVolumes :
    (rows : List CanonicalRow) → (tally volume_violation rows ≡ 0) ↔ All HasVolumes rows
unfolding volume_violation volumes_nonnegative
tally-HasVolumes = tally_iff volume_violation HasVolumes (λ r. ground arith)

tally-IsBarLong :
    (tf : ℕ) (rows : List CanonicalRow)
    → (tally (close_violation tf) rows ≡ 0) ↔ All (IsBarLong tf) rows
unfolding close_violation
tally-IsBarLong tf = tally_iff (close_violation tf) (IsBarLong tf) (λ r. ground arith)

last_close_time-last_time :
    (tf : ℕ) (r : CanonicalRow) (rows : List CanonicalRow)
    → All (IsBarLong tf) (r ∷ rows)
    → last_close_time r rows + 1 ≡ last_time r.open_time_ms (times_of rows) + tf
unfolding last_close_time last_time
last_close_time-last_time tf r [] a = a.0
last_close_time-last_time tf r (s ∷ rows) a = last_close_time-last_time tf s rows a.1

-- The findings on the count, the boundaries and the sequence.
abbrev pub time_findings : (tf start n : ℕ) → List CanonicalRow → List Finding
time_findings tf start n rows =
    (count_findings rows (some n)).0
      ∷ boundary_findings tf start (count_findings rows (some n)).1 rows
    ++ sequence_findings tf (times_of rows)

pub time_findings-time_grid :
    (tf start n : ℕ) (rows : List CanonicalRow)
    → any_outcome is_fail (time_findings tf start n rows) ≡ false
    → times_of rows ≡ time_grid tf start n
unfolding any_outcome is_fail count_findings boundary_findings sequence_findings
time_findings-time_grid tf start n [] h =
    let empty : 0 ≡ n = ground arith in ap (time_grid tf start) empty
time_findings-time_grid tf start n (r ∷ rows) h =
    let count : suc (length rows) ≡ n = ground arith in
    let first : r.open_time_ms ≡ start = ground arith in
    let (grid, at) = adjacent-time_grid tf r.open_time_ms (times_of rows) (ground arith) in
    grid
    ∙ ap (λ k. time_grid tf r.open_time_ms (suc k)) (length-map rows (λ row. row.open_time_ms))
    ∙ ap (λ k. time_grid tf r.open_time_ms k) count
    ∙ ap (λ t. time_grid tf t n) first

pub time_grid-time_findings :
    (tf start n : ℕ) (rows : List CanonicalRow)
    → 0 < tf
    → times_of rows ≡ time_grid tf start n
    → All (IsBarLong tf) rows
    → any_outcome is_fail (time_findings tf start n rows) ≡ false
unfolding any_outcome is_fail count_findings boundary_findings sequence_findings
time_grid-time_findings tf start zero [] positive grid long = ground (
  arith,
  repeated-time_grid tf positive start 0,
  time_grid-ascending tf positive start 0,
  time_grid-adjacent tf start 0,
)
time_grid-time_findings tf start (suc n) [] positive grid long = cc
time_grid-time_findings tf start zero (r ∷ rows) positive grid long = cc
time_grid-time_findings tf start (suc n) (r ∷ rows) positive grid long =
    let first : r.open_time_ms ≡ start = cc in
    let rest : times_of rows ≡ time_grid tf (start + tf) n = cc in
    let count : length rows ≡ n =
      sym (length-map rows (λ row. row.open_time_ms))
      ∙ ap length rest
      ∙ length-time_grid tf (start + tf) n in
    let last : last_time r.open_time_ms (times_of rows) ≡ start + n * tf =
      rw (first, rest) (last_time-time_grid tf start n) in
    let distinct : repeated (times_of (r ∷ rows)) ≡ 0 =
      ap repeated grid ∙ repeated-time_grid tf positive start (suc n) in
    let ascending : adjacent ltb (times_of (r ∷ rows)) ≡ true =
      ap (adjacent ltb) grid ∙ time_grid-ascending tf positive start (suc n) in
    let stepped : adjacent (λ a b. a + tf == b) (times_of (r ∷ rows)) ≡ true =
      ap (adjacent (λ a b. a + tf == b)) grid ∙ time_grid-adjacent tf start (suc n) in
    ground (arith, last_close_time-last_time tf r rows long)

pub row_findings_iff :
    (tf : ℕ) (rows : List CanonicalRow) (ok : Bool)
    → (any_outcome is_fail (row_findings tf rows ok) ≡ false) ↔ (
        All IsBounded rows
        × All IsPriced rows
        × All HasVolumes rows
        × All IsWithinTotals rows
        × All (IsBarLong tf) rows
        × (ok ≡ true))
unfolding any_outcome is_fail row_findings
row_findings_iff tf rows ok = ground (
  arith,
  tally-IsBounded rows,
  tally-IsPriced rows,
  tally-HasVolumes rows,
  tally-IsWithinTotals rows,
  tally-IsBarLong tf rows,
)

pub row_findings-blocking :
    (tf : ℕ) (rows : List CanonicalRow) (ok : Bool)
    → (any_outcome is_blocking (row_findings tf rows ok) ≡ false) ↔ All IsTraded rows
unfolding any_outcome is_blocking row_findings
row_findings-blocking tf rows ok = ground (arith, tally-IsTraded rows)

pub time_findings-blocking :
    (tf start n : ℕ) (rows : List CanonicalRow)
    → times_of rows ≡ time_grid tf start n
    → (any_outcome is_blocking (time_findings tf start n rows) ≡ false) ↔ (0 < n)
unfolding any_outcome is_blocking count_findings boundary_findings sequence_findings
time_findings-blocking tf start zero [] grid = ground arith
time_findings-blocking tf start (suc n) [] grid = cc
time_findings-blocking tf start zero (r ∷ rows) grid = cc
time_findings-blocking tf start (suc n) (r ∷ rows) grid =
    let rest : times_of rows ≡ time_grid tf (start + tf) n = cc in
    let count : length rows ≡ n =
      sym (length-map rows (λ row. row.open_time_ms))
      ∙ ap length rest
      ∙ length-time_grid tf (start + tf) n in
    ground arith
