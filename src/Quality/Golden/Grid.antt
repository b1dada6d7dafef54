-- ===== src/Quality/Golden/Grid.antt =====
-- The tests of src/quantara/quality.py on the open times, against times that are a step apart.
use quantara.Prelude.{
  ℕ, zero, suc, ◌+◌, ◌*◌, ◌<◌, ◌≤◌, ◌≡◌, refl, true, false, List, [], ◌∷◌, length, ltb, ◌==◌, arith,
  ap,
}
use quantara.Quality.{adjacent, repeated, occurs, out_of_period, last_time}

-- `n` times from `start` on, `step` apart.
abbrev pub time_grid : (step start n : ℕ) → List ℕ
time_grid step start zero = []
time_grid step start (suc n) = start ∷ time_grid step (start + step) n

-- `n` minutes from `start` on.
abbrev pub minute_grid : (start n : ℕ) → List ℕ
minute_grid start n = time_grid 60000 start n

module _ (step : ℕ) where
  -- Times that follow one another by a step are the grid from the first one.
  pub adjacent-time_grid :
      (t : ℕ) (times : List ℕ)
      → adjacent (λ a b. a + step == b) (t ∷ times) ≡ true
      → (t ∷ times ≡ time_grid step t (suc (length times)))
        × (last_time t times ≡ t + length times * step)
  unfolding adjacent last_time
  adjacent-time_grid t [] h = (refl, omega arith)
  adjacent-time_grid t (u ∷ times) h =
      let next : t + step ≡ u = ground arith in
      let (grid, last) = adjacent-time_grid u times (ground arith) in
      (ap (λ rest. t ∷ rest) (rw next grid), omega (arith, last))

  pub time_grid-adjacent :
      (start n : ℕ) → adjacent (λ a b. a + step == b) (time_grid step start n) ≡ true
  unfolding adjacent
  time_grid-adjacent start zero = refl
  time_grid-adjacent start (suc zero) = refl
  time_grid-adjacent start (suc (suc n)) = ground (arith, time_grid-adjacent (start + step) (suc n))

  pub length-time_grid : (start n : ℕ) → length (time_grid step start n) ≡ n
  length-time_grid start zero = refl
  length-time_grid start (suc n) = ap suc (length-time_grid (start + step) n)

  pub last_time-time_grid :
      (start n : ℕ) → last_time start (time_grid step (start + step) n) ≡ start + n * step
  unfolding last_time
  last_time-time_grid start zero = omega arith
  last_time-time_grid start (suc n) = omega (arith, last_time-time_grid (start + step) n)

  module _ (positive : 0 < step) where
    pub time_grid-ascending : (start n : ℕ) → adjacent ltb (time_grid step start n) ≡ true
    unfolding adjacent
    time_grid-ascending start zero = refl
    time_grid-ascending start (suc zero) = refl
    time_grid-ascending start (suc (suc n)) =
        ground (arith, time_grid-ascending (start + step) (suc n))

    occurs-time_grid : (t start n : ℕ) → t < start → occurs t (time_grid step start n) ≡ false
    unfolding occurs
    occurs-time_grid t start zero h = refl
    occurs-time_grid t start (suc n) h = ground (arith, occurs-time_grid t (start + step) n)

    pub repeated-time_grid : (start n : ℕ) → repeated (time_grid step start n) ≡ 0
    unfolding repeated
    repeated-time_grid start zero = refl
    repeated-time_grid start (suc n) =
        ground (arith, occurs-time_grid start (start + step) n, repeated-time_grid (start + step) n)

pub out_of_period-minute_grid :
    (lo end start n : ℕ)
    → lo ≤ start
    → start + n * 60000 ≤ end
    → out_of_period lo end (minute_grid start n) ≡ 0
unfolding out_of_period
out_of_period-minute_grid lo end start zero l h = refl
out_of_period-minute_grid lo end start (suc n) l h =
    ground (arith, out_of_period-minute_grid lo end (start + 60000) n)
