-- ===== src/Bootstrap/Coverage.antt =====
-- materialize_resampled_indices of src/quantara/bootstrap_b4.py, on the starts that are drawn.
use Prim.Native.Nat.{min}
use native.Mathlib.Nat.{div-add-mod', mod-lt}
use quantara.Prelude.{
  ℕ, zero, suc, ◌+◌, ◌-◌, ◌*◌, ◌≤◌, ◌<◌, ◌≡◌, refl, ap, List, [], ◌∷◌, ◌++◌, All, length,
  length-append, arith, inl, inr, Bool-cases, ==_iff, ◌==◌,
}
use mathlib.Core.List.{append-nil, append_assoc}
use quantara.Errors.{ok}
use quantara.Bootstrap.{
  validate_geometry, validate_start, range, materialize_loop, materialize_resampled_indices,
  draw_count,
}

length-range : (start count : ℕ) → length (range start count) ≡ count
unfolding range
length-range start zero = refl
length-range start (suc count) = ap suc (length-range (suc start) count)

range-below :
    (hours start count : ℕ) → start + count ≤ hours → All (λ i. i < hours) (range start count)
unfolding range
range-below hours start zero h = tt
range-below hours start (suc count) h =
    (omega arith, range-below hours (suc start) count (omega arith))

All-append :
    (hours : ℕ) (is js : List ℕ)
    → All (λ i. i < hours) is
    → All (λ i. i < hours) js
    → All (λ i. i < hours) (is ++ js)
All-append hours [] js a b = b
All-append hours (i ∷ is) js a b = (a.0, All-append hours is js a.1 b)

-- From any point on, enough starts give the hours that remain.
materialize_loop-covers :
    (hours block remaining : ℕ) (indices starts : List ℕ)
    → All (λ s. s + block ≤ hours) starts
    → remaining ≤ length starts * block
    → (more : List ℕ) × (materialize_loop hours block remaining indices starts
        ≡ ok (indices ++ more))
      × (length more ≡ remaining)
      × All (λ i. i < hours) more
unfolding materialize_loop validate_start
materialize_loop-covers hours block remaining indices [] a h =
    ([], rw (append-nil indices) (ground arith), omega arith, tt)
materialize_loop-covers hours block remaining indices (start ∷ starts) a h =
    let consumed : ℕ = min block remaining in
    let below = range-below hours start consumed (omega (arith, a.0)) in
    elim (Bool-cases (remaining - consumed == 0)) [
      | inl last ↦ (
        range start consumed,
        ground (arith, a.0),
        omega (arith, length-range start consumed, (==_iff (remaining - consumed) 0).0 last),
        below,
      )
      | inr more ↦
          let (rest, e, n, b) =
            materialize_loop-covers hours block (remaining - consumed)
              (indices ++ range start consumed) starts a.1 (omega arith) in
          (
            range start consumed ++ rest,
            ground (arith, a.0, e, append_assoc indices (range start consumed) rest),
            omega
                (arith, n, length-append (range start consumed) rest, length-range start consumed),
            All-append hours (range start consumed) rest below b,
          )
    ]

eligible-fit :
    (hours block : ℕ) (starts : List ℕ)
    → block ≤ hours
    → All (λ s. s < hours - block + 1) starts
    → All (λ s. s + block ≤ hours) starts
eligible-fit hours block [] h a = tt
eligible-fit hours block (s ∷ starts) h a =
    (omega (arith, a.0), eligible-fit hours block starts h a.1)

enough_draws : (hours block : ℕ) → 0 < block → hours ≤ draw_count hours block * block
unfolding draw_count
enough_draws hours block positive =
    omega (arith, div-add-mod' (hours + block - 1) block, mod-lt (hours + block - 1) positive)

-- For a block that is no longer than the year, as many eligible starts as the source draws give one
-- hour to each position of the resampled year, all of them hours of the year.
pub materialize_resampled_indices-covers :
    (hours block_hours : ℕ) (starts : List ℕ)
    → 0 < block_hours
    → block_hours ≤ hours
    → length starts ≡ draw_count hours block_hours
    → All (λ s. s < hours - block_hours + 1) starts
    → (indices : List ℕ) × (materialize_resampled_indices starts hours block_hours ≡ ok indices)
      × (length indices ≡ hours)
      × All (λ i. i < hours) indices
unfolding materialize_resampled_indices validate_geometry
materialize_resampled_indices-covers hours block starts positive fits drawn eligible =
    let (indices, e, n, b) =
      materialize_loop-covers hours block hours [] starts
        (eligible-fit hours block starts fits eligible)
        (rw drawn (enough_draws hours block positive)) in
    (indices, ground (arith, e), n, b)
