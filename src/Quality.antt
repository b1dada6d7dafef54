-- ===== src/Quality.antt =====
-- src/quantara/quality.py: the checks over the canonical rows of a dataset, and the state that they
-- give. A finding keeps its outcome, severity and count; the `evidence` of the source is a record for
-- people and is read by no decision.
pub mod Golden
pub mod Violations
mod Tests
use quantara.Prelude.{
  ℕ, suc, ◌+◌, ◌-◌, Bool, true, false, not, ◌&&◌, ◌||◌, Option, none, some, List, [], ◌∷◌, ◌++◌,
  map, length, ltb, leb, ◌==◌, if◌then◌else◌,
}
use quantara.Prelude.Int.{pos, ltb_ℤ}
use quantara.Decimal.{Decimal, leb_decimal, ltb_decimal}
use quantara.Text.{codes, text_eq}
use quantara.Rows.{CanonicalRow}
use quantara.Quality.Violations.{
  close_time_violation, is_zero, nonzero_ignore, ohlc_holds, ohlc_violation, price_violation,
  prices_positive, taker_violation, taker_within, violation, volume_violation, volumes_nonnegative,
  zero_decimal, zero_volume,
}

-- The `check_id` strings of the source.
pub data CheckId : Type 0 where
  row_count_matches_expected first_boundary_exact last_boundary_exact : CheckId
  unique_open_times strictly_ascending_open_times adjacency_exactly_60000ms : CheckId
  period_membership_respected ohlc_bounds_hold prices_strictly_positive : CheckId
  volumes_and_counts_nonnegative close_time_equals_open_plus_59999 : CheckId
  taker_buy_within_counterpart_volumes : CheckId
  source_order_invalid zero_volume_candle nonzero_source_ignore : CheckId

pub data Outcome : Type 0 where
  pass warn fail : Outcome

pub data Severity : Type 0 where
  hard warning : Severity

pub data State : Type 0 where
  state_pass warn_blocked state_fail : State

pub record Finding : Type 0 where
  pub check_id : CheckId
  pub outcome : Outcome
  pub severity : Severity
  pub count : ℕ

pub record QualityReport : Type 0 where
  pub findings : List Finding
  pub state : State

-- The two closures `record` and `warn`.
abbrev pub record_check : CheckId → Bool → ℕ → Finding
record_check check_id ok count = record {
  check_id = check_id;
  outcome = if ok then pass else fail;
  severity = hard;
  count = count;
}

abbrev pub warn_check : CheckId → ℕ → Finding
warn_check check_id count = record {
  check_id = check_id;
  outcome = if count == 0 then pass else warn;
  severity = warning;
  count = count;
}

-- A counter after the loop.
unfoldable pub tally : (CanonicalRow → ℕ) → List CanonicalRow → ℕ
tally f [] = 0
tally f (row ∷ rows) = f row + tally f rows

-- `all(test(a, b) for a, b in zip(times, times[1:]))`
unfoldable pub adjacent : (ℕ → ℕ → Bool) → List ℕ → Bool
adjacent test [] = true
adjacent test (a ∷ []) = true
adjacent test (a ∷ b ∷ times) = test a b && adjacent test (b ∷ times)

-- `len(times) - len(set(times))`: how many times stand again later.
pub occurs : ℕ → List ℕ → Bool
occurs t [] = false
occurs t (u ∷ times) = t == u || occurs t times

unfoldable pub repeated : List ℕ → ℕ
unfolding occurs
repeated [] = 0
repeated (t ∷ times) = (if occurs t times then 1 else 0) + repeated times

pub out_of_period : (start_ms end_ms : ℕ) → List ℕ → ℕ
out_of_period start_ms end_ms [] = 0
out_of_period start_ms end_ms (t ∷ times) =
    violation (leb start_ms t && ltb t end_ms) + out_of_period start_ms end_ms times

-- `rows[-1]`
unfoldable pub last_time : ℕ → List ℕ → ℕ
last_time t [] = t
last_time t (u ∷ times) = last_time u times

-- The findings on the row count, and `complete_month`.
pub count_findings : List ℕ → Option ℕ → Finding × Bool
count_findings times none = (record_check row_count_matches_expected true (length times), false)
count_findings times (some expected_count) =
    let complete_month = length times == expected_count in
    (record_check row_count_matches_expected complete_month (length times), complete_month)

pub boundary_findings : (start_ms end_ms : ℕ) (complete_month : Bool) → List ℕ → List Finding
unfolding last_time
boundary_findings start_ms end_ms complete_month [] =
    record_check first_boundary_exact false 0 ∷ record_check last_boundary_exact false 0 ∷ []
boundary_findings start_ms end_ms true (t ∷ times) =
    record_check first_boundary_exact (t == start_ms) 0
    ∷ record_check last_boundary_exact (last_time t times + 60000 == end_ms) 0
    ∷ []
boundary_findings start_ms end_ms false (t ∷ times) =
    record_check first_boundary_exact true 0 ∷ record_check last_boundary_exact true 0 ∷ []

pub sequence_findings : (start_ms end_ms : ℕ) → List ℕ → List Finding
unfolding repeated adjacent out_of_period
sequence_findings start_ms end_ms times =
    record_check unique_open_times (repeated times == 0) (repeated times)
    ∷ record_check strictly_ascending_open_times (adjacent ltb times) 0
    ∷ record_check adjacency_exactly_60000ms (adjacent (λ a b. a + 60000 == b) times) 0
    ∷ record_check period_membership_respected (out_of_period start_ms end_ms times == 0)
        (out_of_period start_ms end_ms times)
    ∷ []

pub tally_check : CheckId → (CanonicalRow → ℕ) → List CanonicalRow → Finding
unfolding tally
tally_check check_id f rows = record_check check_id (tally f rows == 0) (tally f rows)

pub row_findings : List CanonicalRow → List Finding
unfolding tally_check ohlc_violation price_violation volume_violation close_time_violation
    taker_violation
row_findings rows =
    tally_check ohlc_bounds_hold ohlc_violation rows
    ∷ tally_check prices_strictly_positive price_violation rows
    ∷ tally_check volumes_and_counts_nonnegative volume_violation rows
    ∷ tally_check close_time_equals_open_plus_59999 close_time_violation rows
    ∷ tally_check taker_buy_within_counterpart_volumes taker_violation rows
    ∷ []

pub warnings : List CanonicalRow → Bool → List Finding
unfolding tally zero_volume nonzero_ignore
warnings rows source_order_valid =
    warn_check source_order_invalid (if source_order_valid then 0 else 1)
    ∷ warn_check zero_volume_candle (tally zero_volume rows)
    ∷ warn_check nonzero_source_ignore (tally nonzero_ignore rows)
    ∷ []

pub is_fail : Outcome → Bool
is_fail fail = true
is_fail pass = false
is_fail warn = false

pub is_warn : Outcome → Bool
is_warn warn = true
is_warn pass = false
is_warn fail = false

-- `any(test(f.outcome) for f in findings)`
pub any_outcome : (Outcome → Bool) → List Finding → Bool
any_outcome test [] = false
any_outcome test (f ∷ findings) = test f.outcome || any_outcome test findings

pub report_state : List Finding → State
unfolding any_outcome is_fail is_warn
report_state findings =
    if any_outcome is_fail findings
    then state_fail
    else if any_outcome is_warn findings
    then warn_blocked
    else state_pass

pub all_findings : (rows : List CanonicalRow) (start_ms end_ms : ℕ) → Bool → Option ℕ → List Finding
unfolding count_findings boundary_findings sequence_findings row_findings warnings
all_findings rows start_ms end_ms source_order_valid expected_count =
    let times = map (λ row. row.open_time_ms) rows in
    let counted = count_findings times expected_count in
    counted.0 ∷ boundary_findings start_ms end_ms counted.1 times
    ++ sequence_findings start_ms end_ms times
    ++ row_findings rows
    ++ warnings rows source_order_valid

pub evaluate_quality :
    (rows : List CanonicalRow) (start_ms end_ms : ℕ) (source_order_valid : Bool)
    (expected_count : Option ℕ)
    → QualityReport
unfolding all_findings report_state
evaluate_quality rows start_ms end_ms source_order_valid expected_count =
    let findings = all_findings rows start_ms end_ms source_order_valid expected_count in
    record { findings = findings; state = report_state findings }
