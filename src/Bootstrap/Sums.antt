-- ===== src/Bootstrap/Sums.antt =====
-- _aggregate_prefixes of src/quantara/bootstrap_b4.py against sums hour by hour.
use Prim.Native.Nat.{min}
use quantara.Prelude.{
  ◌⊎◌, ℕ, zero, suc, ◌+◌, ◌-◌, ◌≤◌, ◌≡◌, refl, ap, ◌∙◌, true, false, Option, List, [], ◌∷◌, ◌++◌,
  length, arith, inl, inr, Bool-cases, ltb, ◌==◌,
}
use quantara.Prelude.Int.{ℤ, pos, ◌+ℤ◌, int_laws}
use quantara.Errors.{Error, Result, ok, err, value_error, ◌>>=◌}
use quantara.Bootstrap.{
  validate_geometry, validate_start, range, materialize_loop, materialize_resampled_indices,
  value_of, valid_of, prefix, item, block_difference, aggregate_loop, aggregate_prefixes,
  aggregate_from_starts,
}

-- What the value at an hour adds: nothing past the end.
abbrev pub at_hour : (Option ℤ → ℤ) → List (Option ℤ) → ℕ → ℤ
at_hour f [] i = pos 0
at_hour f (v ∷ values) zero = f v
at_hour f (v ∷ values) (suc i) = at_hour f values i

-- The sum over the hours of a list, one by one.
pub sum_over : (Option ℤ → ℤ) → List (Option ℤ) → List ℕ → ℤ
sum_over f values [] = pos 0
sum_over f values (i ∷ indices) = at_hour f values i +ℤ sum_over f values indices

-- The sum of the first values.
sum_before : (Option ℤ → ℤ) → List (Option ℤ) → ℕ → ℤ
sum_before f values zero = pos 0
sum_before f [] (suc k) = pos 0
sum_before f (v ∷ values) (suc k) = f v +ℤ sum_before f values k

sum_over-append :
    (f : Option ℤ → ℤ) (values : List (Option ℤ)) (is js : List ℕ)
    → sum_over f values (is ++ js) ≡ sum_over f values is +ℤ sum_over f values js
unfolding sum_over
sum_over-append f values [] js = omega int_laws
sum_over-append f values (i ∷ is) js = rw (sum_over-append f values is js) (omega int_laws)

sum_before-suc :
    (f : Option ℤ → ℤ) (values : List (Option ℤ)) (k : ℕ)
    → sum_before f values (suc k) ≡ sum_before f values k +ℤ at_hour f values k
unfolding sum_before
sum_before-suc f [] zero = omega int_laws
sum_before-suc f [] (suc k) = omega int_laws
sum_before-suc f (v ∷ values) zero = omega int_laws
sum_before-suc f (v ∷ values) (suc k) = rw (sum_before-suc f values k) (omega int_laws)

-- A block of hours has the difference of two such sums.
sum_over-range :
    (f : Option ℤ → ℤ) (values : List (Option ℤ)) (start count : ℕ)
    → sum_before f values (start + count)
      ≡ sum_before f values start +ℤ sum_over f values (range start count)
unfolding range sum_over
sum_over-range f values start zero =
    let none_added : start + 0 ≡ start = omega arith in rw none_added (omega int_laws)
sum_over-range f values start (suc count) =
    let next : start + suc count ≡ suc start + count = omega arith in
    rw (next, sum_over-range f values (suc start) count, sum_before-suc f values start)
      (omega int_laws)

item-prefix :
    (f : Option ℤ → ℤ) (running : ℤ) (values : List (Option ℤ)) (k : ℕ)
    → k ≤ length values
    → item (prefix f running values) k ≡ ok (running +ℤ sum_before f values k)
unfolding item prefix sum_before
item-prefix f running [] zero h = ap ok (omega int_laws)
item-prefix f running [] (suc k) h = absurd (omega arith)
item-prefix f running (v ∷ values) zero h = ap ok (omega int_laws)
item-prefix f running (v ∷ values) (suc k) h =
    item-prefix f (running +ℤ f v) values k (omega arith) ∙ ap ok (omega int_laws)

block_difference-prefix :
    (f : Option ℤ → ℤ) (values : List (Option ℤ)) (start count : ℕ)
    → start + count ≤ length values
    → block_difference (prefix f (pos 0) values) start (start + count)
      ≡ ok (sum_over f values (range start count))
unfolding block_difference
block_difference-prefix f values start count h =
    rw
      (
        item-prefix f (pos 0) values (start + count) h,
        item-prefix f (pos 0) values start (omega arith),
      )
      (ap ok (rw (sum_over-range f values start count) (omega int_laws)))

-- A check passes or raises.
Result-cases : (r : Result (Unit {0})) → ((e : Error) × (r ≡ err e)) ⊎ (r ≡ ok tt)
Result-cases (err e) = inl (e, refl)
Result-cases (ok tt) = inr refl

-- Both sums over a list of hours.
abbrev pub totals : List (Option ℤ) → List ℕ → Result (ℤ × ℤ)
totals values indices = ok (sum_over value_of values indices, sum_over valid_of values indices)

-- A start is taken if its block ends within the year.
validate_start-err :
    (start hours block : ℕ)
    → ltb hours (start + block) ≡ true
    → validate_start start hours block ≡ err value_error
unfolding validate_start
validate_start-err start hours block h = rw h refl

validate_start-ok :
    (start hours block : ℕ)
    → ltb hours (start + block) ≡ false
    → validate_start start hours block ≡ ok tt
unfolding validate_start
validate_start-ok start hours block h = rw h refl

module _ (values : List (Option ℤ)) (block : ℕ) where
  -- The loop over the starts, at any point: what is summed so far are the hours drawn so far.
  aggregate_loop-materialize_loop :
      (remaining : ℕ) (indices starts : List ℕ)
      → aggregate_loop
          (prefix value_of (pos 0) values)
          (prefix valid_of (pos 0) values)
          (length values)
          block
          remaining
          (sum_over value_of values indices)
          (sum_over valid_of values indices)
          starts
        ≡ (materialize_loop (length values) block remaining indices starts >>= totals values)
  unfolding aggregate_loop materialize_loop
  aggregate_loop-materialize_loop remaining indices [] = elim (Bool-cases (remaining == 0)) [
    | inl done ↦ rw done refl
    | inr short ↦ rw short refl
  ]
  aggregate_loop-materialize_loop remaining indices (start ∷ starts) =
      elim (Bool-cases (ltb (length values) (start + block))) [
        | inl beyond ↦ rw (validate_start-err start (length values) block beyond) refl
        | inr inside ↦
            let consumed : ℕ = min block remaining in
            let fits : start + consumed ≤ length values = ground arith in
            rw
              (
                validate_start-ok start (length values) block inside,
                block_difference-prefix value_of values start consumed fits,
                block_difference-prefix valid_of values start consumed fits,
              )
              (rw
                (
                  ← sum_over-append value_of values indices (range start consumed),
                  ← sum_over-append valid_of values indices (range start consumed),
                )
                (elim (Bool-cases (remaining - consumed == 0)) [
                  | inl last ↦ rw last refl
                  | inr more ↦ rw more (
                      aggregate_loop-materialize_loop (remaining - consumed)
                        (indices ++ range start consumed) starts)
                ]))
      ]

-- Whatever the values, the starts and the block length, the sums by prefix differences are those
-- over the materialized hours, one by one, and they raise where the materialization does.
pub aggregate_from_starts-materialize_resampled_indices :
    (values : List (Option ℤ)) (starts : List ℕ) (block_hours : ℕ)
    → aggregate_from_starts values starts block_hours
      ≡ (materialize_resampled_indices starts (length values) block_hours >>= totals values)
unfolding aggregate_from_starts aggregate_prefixes materialize_resampled_indices sum_over
aggregate_from_starts-materialize_resampled_indices values starts block =
    elim (Result-cases (validate_geometry (length values) block)) [
      | inl (e, refused) ↦ rw refused refl
      | inr accepted ↦
          rw accepted (aggregate_loop-materialize_loop values block (length values) [] starts)
    ]
