-- ===== src/DerivedQuality.antt =====
-- src/quantara/derive_quality.py: the checks over the bars of a derived dataset. The tests that it shares
-- with quality.py are those of Quality; a check that could not be made is `not_evaluated`.
pub mod Complete
mod Tests
use quantara.Prelude.{
  ℕ, ◌+◌, ◌*◌, Bool, true, false, not, ◌&&◌, ◌||◌, Option, none, some, List, [], ◌∷◌, ◌++◌, map,
  length, ltb, ◌==◌, if◌then◌else◌,
}
use quantara.Prelude.Int.{pos, ltb_ℤ}
use quantara.Rows.{CanonicalRow}
use quantara.Quality.{State, state_pass, warn_blocked, state_fail, adjacent, repeated, tally}
use quantara.Quality.Violations.{
  violation, ohlc_violation, price_violation, volumes_nonnegative, taker_violation, zero_volume,
}

pub data Outcome : Type 0 where
  pass warn fail not_evaluated : Outcome

-- A finding by its outcome and its count: its name and its severity enter no decision.
pub record Finding : Type 0 where
  pub outcome : Outcome
  pub count : ℕ

-- The closures `record`, `warn` and `not_evaluated`.
abbrev pub record_check : Bool → ℕ → Finding
record_check ok count = record { outcome = if ok then pass else fail; count = count }

abbrev pub warn_check : ℕ → Finding
warn_check count = record { outcome = if count == 0 then pass else warn; count = count }

abbrev pub unevaluated : Finding
unevaluated = record { outcome = not_evaluated; count = 0 }

-- `trade_count < 0 or not all(...)`
pub volume_violation : CanonicalRow → ℕ
volume_violation row = violation (not (ltb_ℤ row.trade_count (pos 0)) && volumes_nonnegative row)

pub close_violation : (timeframe_ms : ℕ) → CanonicalRow → ℕ
close_violation timeframe_ms row =
    violation (row.close_time_ms + 1 == row.open_time_ms + timeframe_ms)

-- `rows[-1].close_time_ms`
pub last_close_time : CanonicalRow → List CanonicalRow → ℕ
last_close_time r [] = r.close_time_ms
last_close_time r (s ∷ rows) = last_close_time s rows

-- The row count, and `complete_series`.
pub count_findings : List CanonicalRow → Option ℕ → Finding × Bool
count_findings rows none = (unevaluated, false)
count_findings rows (some expected_count) =
    let complete_series = length rows == expected_count in
    (record_check complete_series (length rows), complete_series)

pub boundary_findings :
    (timeframe_ms start_ms : ℕ) (complete_series : Bool) → List CanonicalRow → List Finding
unfolding last_close_time
boundary_findings timeframe_ms start_ms complete_series [] = unevaluated ∷ unevaluated ∷ []
boundary_findings timeframe_ms start_ms true (r ∷ rows) =
    record_check (r.open_time_ms == start_ms) 0
    ∷ record_check (last_close_time r rows + 1 == start_ms + length (r ∷ rows) * timeframe_ms) 0
    ∷ []
boundary_findings timeframe_ms start_ms false (r ∷ rows) = unevaluated ∷ unevaluated ∷ []

pub sequence_findings : (timeframe_ms : ℕ) → List ℕ → List Finding
sequence_findings timeframe_ms times =
    record_check (repeated times == 0) (repeated times)
    ∷ record_check (adjacent ltb times) 0
    ∷ record_check (adjacent (λ a b. a + timeframe_ms == b) times) 0
    ∷ []

abbrev pub tally_check : (CanonicalRow → ℕ) → List CanonicalRow → Finding
tally_check f rows = record_check (tally f rows == 0) (tally f rows)

pub row_findings :
    (timeframe_ms : ℕ) → List CanonicalRow → (reconciliation_ok : Bool) → List Finding
unfolding volume_violation close_violation
row_findings timeframe_ms rows reconciliation_ok =
    tally_check ohlc_violation rows
    ∷ tally_check price_violation rows
    ∷ tally_check volume_violation rows
    ∷ tally_check taker_violation rows
    ∷ tally_check (close_violation timeframe_ms) rows
    ∷ warn_check (tally zero_volume rows)
    ∷ record_check reconciliation_ok (if reconciliation_ok then 0 else 1)
    ∷ []

pub is_fail : Outcome → Bool
is_fail fail = true
is_fail pass = false
is_fail warn = false
is_fail not_evaluated = false

-- `f.outcome in blocking`
pub is_blocking : Outcome → Bool
is_blocking fail = false
is_blocking pass = false
is_blocking warn = true
is_blocking not_evaluated = true

pub any_outcome : (Outcome → Bool) → List Finding → Bool
any_outcome test [] = false
any_outcome test (f ∷ findings) = test f.outcome || any_outcome test findings

-- The state that the constructor of `DerivedQualityReport` sets.
pub report_state : List Finding → State
unfolding any_outcome is_fail is_blocking
report_state findings =
    if any_outcome is_fail findings
    then state_fail
    else if any_outcome is_blocking findings
    then warn_blocked
    else state_pass

pub all_findings :
    (rows : List CanonicalRow) (timeframe_ms start_ms : ℕ) → Option ℕ → Bool → List Finding
unfolding count_findings boundary_findings sequence_findings row_findings
all_findings rows timeframe_ms start_ms expected_count reconciliation_ok =
    let counted = count_findings rows expected_count in
    counted.0 ∷ boundary_findings timeframe_ms start_ms counted.1 rows
    ++ sequence_findings timeframe_ms (map (λ row. row.open_time_ms) rows)
    ++ row_findings timeframe_ms rows reconciliation_ok

pub evaluate_derived_quality :
    (rows : List CanonicalRow) (timeframe_ms start_ms : ℕ) (expected_count : Option ℕ)
    (reconciliation_ok : Bool)
    → State
unfolding all_findings report_state
evaluate_derived_quality rows timeframe_ms start_ms expected_count reconciliation_ok =
    report_state (all_findings rows timeframe_ms start_ms expected_count reconciliation_ok)
