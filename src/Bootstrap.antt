-- ===== src/Bootstrap.antt =====
-- src/quantara/bootstrap_b4.py: the paired moving-block bootstrap over the hours of a year. The values
-- are integers in units of 10 ^ -18, and a missing hour is `none`, as `_scaled_integer` gives them.
-- A test of the source on the Python type of an argument has no counterpart.
pub mod Sums
pub mod Coverage
pub mod Draws
pub mod Unbiased
mod Tests
use Prim.Native.Nat.{min}
use quantara.Prelude.{
  ℕ, zero, suc, ◌+◌, ◌-◌, ◌*◌, ◌/◌, Bool, true, false, not, ◌||◌, Option, none, some, List, [], ◌∷◌,
  ◌++◌, length, get_elem?, ltb, leb, ◌==◌, if◌then◌else◌,
}
use quantara.Prelude.Int.{ℤ, pos, ◌+ℤ◌, ◌-ℤ◌}
use quantara.Errors.{Error, Result, ok, err, value_error, index_error, ◌>>=◌, ◌>>◌, raise_if}

pub validate_geometry : (hours block_hours : ℕ) → Result (Unit {0})
validate_geometry hours block_hours = do
  raise_if (hours == 0) value_error
  raise_if (block_hours == 0 || ltb hours block_hours) value_error

-- `start > hours - block_hours`, for blocks no longer than the year.
pub validate_start : (start hours block_hours : ℕ) → Result (Unit {0})
validate_start start hours block_hours = raise_if (ltb hours (start + block_hours)) value_error

-- `range(start, start + count)`
pub range : (start count : ℕ) → List ℕ
range start zero = []
range start (suc count) = start ∷ range (suc start) count

-- The loop of `materialize_resampled_indices`.
pub materialize_loop :
    (hours block_hours remaining : ℕ) (indices : List ℕ) → List ℕ → Result (List ℕ)
unfolding range
materialize_loop hours block_hours remaining indices [] =
    if remaining == 0 then ok indices else err value_error
materialize_loop hours block_hours remaining indices (start ∷ starts) =
    let consumed = min block_hours remaining in
    let extended = indices ++ range start consumed in
    let rest = materialize_loop hours block_hours (remaining - consumed) extended starts in
    validate_start start hours block_hours
    >> (if remaining - consumed == 0 then ok extended else rest)

pub materialize_resampled_indices : List ℕ → (hours block_hours : ℕ) → Result (List ℕ)
unfolding materialize_loop validate_geometry
materialize_resampled_indices starts hours block_hours = do
  validate_geometry hours block_hours
  materialize_loop hours block_hours hours [] starts

-- What a value adds to `running_value` and to `running_valid`.
pub value_of : Option ℤ → ℤ
value_of none = pos 0
value_of (some value) = value

pub valid_of : Option ℤ → ℤ
valid_of none = pos 0
valid_of (some value) = pos 1

-- `_prefixes`, one of the two lists at a time.
pub prefix : (Option ℤ → ℤ) → (running : ℤ) → List (Option ℤ) → List ℤ
prefix f running [] = running ∷ []
prefix f running (value ∷ values) = running ∷ prefix f (running +ℤ f value) values

-- `sequence[i]`
pub item : List ℤ → ℕ → Result ℤ
item [] i = err index_error
item (x ∷ xs) zero = ok x
item (x ∷ xs) (suc i) = item xs i

-- `numerator += value_prefix[end] - value_prefix[start]`, and so for the denominator.
pub block_difference : List ℤ → (start end : ℕ) → Result ℤ
unfolding item
block_difference sums start end = do
  upper ← item sums end
  lower ← item sums start
  ok (upper -ℤ lower)

-- The loop of `_aggregate_prefixes`; `multiplicity_delta` takes no part in its result.
pub aggregate_loop :
    (value_prefix valid_prefix : List ℤ) (hours block_hours remaining : ℕ)
    (numerator denominator : ℤ)
    → List ℕ
    → Result (ℤ × ℤ)
aggregate_loop value_prefix valid_prefix hours block_hours remaining numerator denominator [] =
    if remaining == 0 then ok (numerator, denominator) else err value_error
aggregate_loop value_prefix valid_prefix hours block_hours remaining numerator denominator
      (start ∷ starts) =
    do
      validate_start start hours block_hours
      let consumed = min block_hours remaining
      values ← block_difference value_prefix start (start + consumed)
      valid ← block_difference valid_prefix start (start + consumed)
      let rest =
          aggregate_loop value_prefix valid_prefix hours block_hours (remaining - consumed)
            (numerator +ℤ values) (denominator +ℤ valid) starts
      if remaining - consumed == 0 then ok (numerator +ℤ values, denominator +ℤ valid) else rest

pub aggregate_prefixes :
    (value_prefix valid_prefix : List ℤ) → List ℕ → (hours block_hours : ℕ) → Result (ℤ × ℤ)
unfolding aggregate_loop validate_geometry
aggregate_prefixes value_prefix valid_prefix starts hours block_hours = do
  validate_geometry hours block_hours
  aggregate_loop value_prefix valid_prefix hours block_hours hours (pos 0) (pos 0) starts

pub aggregate_from_starts : List (Option ℤ) → List ℕ → (block_hours : ℕ) → Result (ℤ × ℤ)
unfolding aggregate_prefixes prefix
aggregate_from_starts values starts block_hours =
    aggregate_prefixes (prefix value_of (pos 0) values) (prefix valid_of (pos 0) values) starts
      (length values) block_hours

-- `draw_count` of `sample_block_starts`.
pub draw_count : (hours block_hours : ℕ) → ℕ
draw_count hours block_hours = (hours + block_hours - 1) / block_hours
