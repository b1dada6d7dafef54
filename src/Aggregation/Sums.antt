-- ===== src/Aggregation/Sums.antt =====
-- exact_volume_sum of src/quantara/aggregation.py.
use quantara.Prelude.{
  ◌+◌, ◌*◌, ◌^◌, ◌≤◌, ◌<◌, ◌≡◌, refl, ap, ◌∙◌, List, [], ◌∷◌, arith, length, ◌⊎◌, inl, inr,
  Bool-cases, leb, leb→le, some,
}
use quantara.Prelude.Int.{ℤ, pos, ◌+ℤ◌, int_laws}
use quantara.Decimal.{Decimal, times, magnitude, context_add, scaled_integer}
use quantara.Decimal.Value.{units, units-context_add, magnitude-+ℤ}
use quantara.Errors.{ok, err, decimal_precision_or_scale_overflow}
use quantara.Aggregation.{canonical_max_coefficient, decimal_zero, sum_volumes, exact_volume_sum}

-- The value fits decimal128(38, 18).
abbrev pub FitsColumn : Decimal → Type 0
FitsColumn d = (d.scale ≤ 18) × (magnitude (units d) < canonical_max_coefficient)

abbrev pub AllFit : List Decimal → Type 0
AllFit [] = Unit
AllFit (v ∷ vs) = FitsColumn v × AllFit vs

-- The sum as an integer number of units of 10 ^ -18.
unfoldable pub total_units : List Decimal → ℤ
total_units [] = pos 0
total_units (v ∷ vs) = units v +ℤ total_units vs

pub sum_volumes_exact :
    (acc : Decimal) (vs : List Decimal)
    → acc.scale ≤ 18
    → AllFit vs
    → magnitude (units acc) + length vs * canonical_max_coefficient < 10 ^ 80
    → (units (sum_volumes acc vs) ≡ units acc +ℤ total_units vs) × ((sum_volumes acc vs).scale ≤ 18)
unfolding sum_volumes total_units
sum_volumes_exact acc [] h f room = (omega int_laws, h)
sum_volumes_exact acc (v ∷ vs) h f room =
    let (e, s) = units-context_add 79 acc v h f.0.0 (omega arith) in
    let (e', s') =
      sum_volumes_exact (context_add 80 acc v) vs s f.1
        (omega (arith, ap magnitude e, magnitude-+ℤ (units acc) (units v))) in
    (e' ∙ rw e (omega int_laws), s')

pub scaled_integer-units : (d : Decimal) → d.scale ≤ 18 → scaled_integer 18 d ≡ some (units d)
unfolding scaled_integer
scaled_integer-units d h = ground arith

units-zero : units decimal_zero ≡ pos 0
unfolding times
units-zero = refl

-- Of at most 10 ^ 40 values that fit the column type, the sum is returned exactly if it fits too, and
-- refused with DecimalPrecisionOrScaleOverflow if it does not.
pub exact_volume_sum_lem :
    (vs : List Decimal)
    → AllFit vs
    → length vs ≤ 10 ^ 40
    → ((t : Decimal) × (exact_volume_sum vs ≡ ok t) × (units t ≡ total_units vs) × FitsColumn t)
      ⊎ ((exact_volume_sum vs ≡ err decimal_precision_or_scale_overflow)
          × (canonical_max_coefficient ≤ magnitude (total_units vs)))
unfolding exact_volume_sum
exact_volume_sum_lem vs f few =
    let (e, s) = sum_volumes_exact decimal_zero vs (omega arith) f (rw units-zero (omega arith)) in
    let t = sum_volumes decimal_zero vs in
    let total : units t ≡ total_units vs = e ∙ rw units-zero (omega int_laws) in
    elim (Bool-cases (leb canonical_max_coefficient (magnitude (units t)))) [
      | inl big ↦
          inr (rw (scaled_integer-units t s, big), rw total at (leb→le _ (magnitude (units t)) big))
      | inr fits ↦ inl (t, rw (scaled_integer-units t s, fits), total, (s, ground arith))
    ]
