-- ===== src/Bootstrap/Draws.antt =====
-- SplitMix64 and sample_block_starts of src/quantara/bootstrap_b4.py. A stream is its state; the loop that
-- redraws runs on fuel, and `diverged` says that no draw was taken. `& _MASK_64` and `>> k` are written
-- as `% 2 ^ 64` and `/ 2 ^ k`.
use Prim.Native.Nat.{bit_xor}
use quantara.Prelude.{
  ℕ, zero, suc, ◌+◌, ◌-◌, ◌*◌, ◌/◌, ◌%◌, ◌^◌, List, [], ◌∷◌, ltb, ◌==◌, if◌then◌else◌,
}
use quantara.Errors.{Result, ok, err, value_error, diverged, raise_if, ◌>>=◌, ◌>>◌}
use quantara.Bootstrap.{validate_geometry, draw_count}

abbrev pub golden_gamma : ℕ
golden_gamma = 11400714819323198485

abbrev pub mix_multiplier_1 : ℕ
mix_multiplier_1 = 13787848793156543929

abbrev pub mix_multiplier_2 : ℕ
mix_multiplier_2 = 10723151780598845931

-- `_TWO_TO_64`, and what `seed & _MASK_64` keeps.
abbrev pub two_to_64 : ℕ
two_to_64 = 2 ^ 64

unfoldable pub seeded : (seed : ℕ) → ℕ
seeded seed = seed % two_to_64

unfoldable pub next_state : (state : ℕ) → ℕ
next_state state = (state + golden_gamma) % two_to_64

-- The value that the new state gives.
unfoldable pub mix : (state : ℕ) → ℕ
mix state =
    let first = bit_xor state (state / 2 ^ 30) * mix_multiplier_1 % two_to_64 in
    let second = bit_xor first (first / 2 ^ 27) * mix_multiplier_2 % two_to_64 in
    bit_xor second (second / 2 ^ 31)

-- The value, and the stream behind it.
unfoldable pub next_u64 : (state : ℕ) → ℕ × ℕ
next_u64 state = (mix (next_state state), next_state state)

-- The largest multiple of the bound that a draw may stay below.
unfoldable pub limit_of : (bound : ℕ) → ℕ
limit_of bound = two_to_64 - two_to_64 % bound

-- The `while True` loop.
unfoldable pub below_loop : (fuel bound state : ℕ) → Result (ℕ × ℕ)
below_loop zero bound state = err diverged
below_loop (suc fuel) bound state =
    let (value, after) = next_u64 state in
    let rest = below_loop fuel bound after in
    if ltb value (limit_of bound) then ok (value % bound, after) else rest

unfoldable pub below : (fuel bound state : ℕ) → Result (ℕ × ℕ)
below fuel bound state = do
  raise_if (bound == 0) value_error
  raise_if (ltb two_to_64 bound) value_error
  below_loop fuel bound state

-- The tuple of draws, one after the other.
unfoldable pub draw_loop : (fuel bound count state : ℕ) → Result (List ℕ × ℕ)
draw_loop fuel bound zero state = ok ([], state)
draw_loop fuel bound (suc count) state = do
  (start, after) ← below fuel bound state
  (starts, last) ← draw_loop fuel bound count after
  ok (start ∷ starts, last)

unfoldable pub sample_block_starts : (fuel state hours block_hours : ℕ) → Result (List ℕ × ℕ)
sample_block_starts fuel state hours block_hours = do
  validate_geometry hours block_hours
  draw_loop fuel (hours - block_hours + 1) (draw_count hours block_hours) state
