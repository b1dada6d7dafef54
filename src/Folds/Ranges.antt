-- ===== src/Folds/Ranges.antt =====
-- compute_test_ranges of src/quantara/folds.py.
use native.Mathlib.Decide.{dec_lt}
use quantara.Prelude.{
  ℕ, zero, suc, ◌+◌, ◌*◌, ◌≤◌, ◌<◌, ◌≡◌, refl, List, [], ◌∷◌, length, some, get_elem?, ltb, arith,
  inl, inr, Bool-cases,
}
use quantara.Errors.{ok}
use quantara.Folds.{Range, range_loop, compute_test_ranges}

-- The ranges follow one another from `current` to `n_rows`: all have `test_size` rows, but the last
-- may have up to `2 * test_size - 1`.
abbrev pub Tiles : (n_rows test_size current : ℕ) → List Range → Type 0
Tiles n ts current [] = ⊥
Tiles n ts current ((a, b) ∷ []) =
    (a ≡ current) × (b ≡ n) × (current + ts ≤ n) × (n < current + ts + ts)
Tiles n ts current ((a, b) ∷ r ∷ rs) = (a ≡ current) × (b ≡ current + ts) × Tiles n ts b (r ∷ rs)

cons-Tiles :
    (n ts current : ℕ) (rs : List Range)
    → Tiles n ts (current + ts) rs
    → Tiles n ts current ((current, current + ts) ∷ rs)
cons-Tiles n ts current [] t = absurd t
cons-Tiles n ts current (r ∷ rs) t = (refl, refl, t)

-- With a positive size the loop ends within its fuel, and tiles the rows.
pub range_loop-Tiles :
    (fuel n ts current : ℕ)
    → 0 < ts
    → current + ts ≤ n
    → n < current + fuel
    → (rs : List Range) × (range_loop fuel n ts current ≡ ok rs) × Tiles n ts current rs
unfolding range_loop
range_loop-Tiles zero n ts current pos fits enough = absurd (omega arith)
range_loop-Tiles (suc fuel) n ts current pos fits enough =
    elim (Bool-cases (ltb n (current + ts + ts))) [
      | inl last ↦ ((current, n) ∷ [], ground arith, ground arith)
      | inr more ↦
          let (rs, e, t) =
            range_loop-Tiles fuel n ts (current + ts) pos (ground arith) (omega arith) in
          ((current, current + ts) ∷ rs, ground arith, cons-Tiles n ts current rs t)
    ]

pub compute_test_ranges-Tiles :
    (n ts first : ℕ)
    → 0 < ts
    → first + ts ≤ n
    → (rs : List Range) × (compute_test_ranges n ts first ≡ ok rs) × Tiles n ts first rs
unfolding compute_test_ranges
compute_test_ranges-Tiles n ts first pos fits =
    let (rs, e, t) = range_loop-Tiles (suc n) n ts first pos fits (omega arith) in
    (rs, ground arith, t)

Tiles-fits : (n ts current : ℕ) (rs : List Range) → Tiles n ts current rs → current + ts ≤ n
Tiles-fits n ts current [] t = absurd t
Tiles-fits n ts current (r ∷ []) t = omega arith
Tiles-fits n ts current (r ∷ q ∷ rs) t = omega (arith, Tiles-fits n ts r.1 (q ∷ rs) t.2)

-- The range at position `i`, and where it ends.
pub Tiles-get_elem? :
    (n ts current : ℕ) (rs : List Range) (i a b : ℕ)
    → 0 < ts
    → Tiles n ts current rs
    → get_elem? rs i ≡ some (a, b)
    → (a ≡ current + i * ts) × (a + ts ≤ b) × (b ≤ n) × (b < a + ts + ts)
Tiles-get_elem? n ts current [] i a b p t e = absurd t
Tiles-get_elem? n ts current (r ∷ []) zero a b p t e = ground arith
Tiles-get_elem? n ts current (r ∷ []) (suc i) a b p t e = ground arith
Tiles-get_elem? n ts current (r ∷ q ∷ rs) zero a b p t e =
    ground (arith, Tiles-fits n ts r.1 (q ∷ rs) t.2)
Tiles-get_elem? n ts current (r ∷ q ∷ rs) (suc i) a b p t e =
    omega (arith, Tiles-get_elem? n ts r.1 (q ∷ rs) i a b p t.2 e)

pub length-Tiles :
    (n ts current : ℕ) (rs : List Range)
    → Tiles n ts current rs
    → (current + length rs * ts ≤ n) × (n < current + length rs * ts + ts)
length-Tiles n ts current [] t = absurd t
length-Tiles n ts current (r ∷ []) t = omega arith
length-Tiles n ts current (r ∷ q ∷ rs) t = omega (arith, length-Tiles n ts r.1 (q ∷ rs) t.2)

-- A later range begins behind the end of an earlier one.
pub Tiles-get_elem?_lt :
    (n ts current : ℕ) (rs : List Range) (i j a b c d : ℕ)
    → 0 < ts
    → Tiles n ts current rs
    → get_elem? rs i ≡ some (a, b)
    → get_elem? rs j ≡ some (c, d)
    → i < j
    → b ≤ c
Tiles-get_elem?_lt n ts current [] i j a b c d p t e f h = absurd t
Tiles-get_elem?_lt n ts current (r ∷ []) i zero a b c d p t e f h = absurd (omega arith)
Tiles-get_elem?_lt n ts current (r ∷ []) i (suc j) a b c d p t e f h = ground arith
Tiles-get_elem?_lt n ts current (r ∷ q ∷ rs) i zero a b c d p t e f h = absurd (omega arith)
Tiles-get_elem?_lt n ts current (r ∷ q ∷ rs) zero (suc j) a b c d p t e f h =
    ground (arith, Tiles-get_elem? n ts r.1 (q ∷ rs) j c d p t.2 f)
Tiles-get_elem?_lt n ts current (r ∷ q ∷ rs) (suc i) (suc j) a b c d p t e f h =
    Tiles-get_elem?_lt n ts r.1 (q ∷ rs) i j a b c d p t.2 e f (omega arith)

-- The range at some position holds the row.
abbrev pub HasRow : List Range → ℕ → Type 0
HasRow rs row = (i : ℕ) × (a : ℕ) × (b : ℕ) × (get_elem? rs i ≡ some (a, b)) × (a ≤ row) × (row < b)

pub Tiles-HasRow :
    (n ts current : ℕ) (rs : List Range) (row : ℕ)
    → Tiles n ts current rs
    → current ≤ row
    → row < n
    → HasRow rs row
Tiles-HasRow n ts current [] row t lo hi = absurd t
Tiles-HasRow n ts current (r ∷ []) row t lo hi = (0, r.0, r.1, refl, omega arith, omega arith)
Tiles-HasRow n ts current (r ∷ q ∷ rs) row t lo hi = elim (dec_lt row r.1) [
  | yes inside ↦ (0, r.0, r.1, refl, omega arith, inside)
  | no after ↦
      let (i, a, b, e, l, h) = Tiles-HasRow n ts r.1 (q ∷ rs) row t.2 (omega arith) hi in
      (suc i, a, b, e, l, h)
]
