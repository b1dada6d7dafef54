-- ===== src/Hashing/Units.antt =====
-- A decimal as an integer number of units of 10 ^ -18, for src/quantara/hashing.py.
use native.Mathlib.Nat.{div-add-mod', mul-mod_left, eq_of_mul-eq-mul_right, mul_assoc}
use quantara.Prelude.{
  ℕ, suc, ◌+◌, ◌-◌, ◌*◌, ◌/◌, ◌%◌, ◌^◌, ◌≡◌, sym, ap, ◌∙◌, arith, leb, leb→le, lt→ltb, Bool-cases,
  inl, inr, some,
}
use quantara.Prelude.Int.{ℤ, pos, negsuc, pos_part, neg_part, sub_ℕ, eq_of_parts}
use quantara.Decimal.{Decimal, magnitude, times, with_sign, scaled_integer}
use quantara.Decimal.Value.{times_parts, times-times, pow-add, magnitude-times}

-- The decimal is exactly `z` units of 10 ^ -18.
abbrev pub IsUnits : Decimal → ℤ → Type 0
IsUnits d z = times z (10 ^ d.scale) ≡ times d.coefficient (10 ^ 18)

sub_parts : (q : ℕ) → (pos_part (sub_ℕ 0 q) ≡ 0) × (neg_part (sub_ℕ 0 q) ≡ q)
sub_parts q = ground arith

-- A quotient without a remainder, multiplied again.
times-quotient : (c : ℤ) (u : ℕ) → magnitude c % u ≡ 0 → times (with_sign c (magnitude c / u)) u ≡ c
times-quotient (pos n) u h =
    let q = (n + 0) / u in
    let back : q * u ≡ n = omega (arith, div-add-mod' (n + 0) u) in
    omega (arith, times_parts (pos q) u, eq_of_parts (times (pos q) u) (pos n))
times-quotient (negsuc n) u h =
    let q = (0 + suc n) / u in
    let back : q * u ≡ suc n = omega (arith, div-add-mod' (0 + suc n) u) in
    let (e, f) = sub_parts q in
    rw (lt→ltb 0 (suc n) (omega arith)) (
      eq_of_parts (times (sub_ℕ 0 q) u) (negsuc n) (
        omega (arith, times_parts (sub_ℕ 0 q) u, ap (λ (k : ℕ). k * u) e, ap (λ (k : ℕ). k * u) f)))

pub scaled_integer-IsUnits : (d : Decimal) (z : ℤ) → scaled_integer 18 d ≡ some z → IsUnits d z
unfolding scaled_integer
scaled_integer-IsUnits d z h = elim (Bool-cases (leb d.scale 18)) [
  | inl small ↦
      let e : z ≡ times d.coefficient (10 ^ (18 - d.scale)) = ground arith in
      let joined : 18 - d.scale + d.scale ≡ 18 = omega (arith, leb→le d.scale 18 small) in
      rw e (
        times-times d.coefficient (10 ^ (18 - d.scale)) (10 ^ d.scale)
        ∙ ap (times d.coefficient)
            (sym (pow-add 10 (18 - d.scale) d.scale) ∙ ap (λ (k : ℕ). 10 ^ k) joined))
  | inr large ↦
      let u = 10 ^ (d.scale - 18) in
      let e : (z ≡ with_sign d.coefficient (magnitude d.coefficient / u))
          × (magnitude d.coefficient % u ≡ 0) =
        ground arith in
      let p : 10 ^ d.scale ≡ u * 10 ^ 18 =
        ap (λ (k : ℕ). 10 ^ k) (ground arith) ∙ pow-add 10 (d.scale - 18) 18 in
      rw p (
        sym (times-times z u (10 ^ 18))
        ∙ ap (λ (w : ℤ). times w (10 ^ 18)) (rw e.0 (times-quotient d.coefficient u e.1)))
]

-- A decimal that is some integer number of units is not refused.
pub scaled_integer-some :
    (d : Decimal) (z : ℤ) → IsUnits d z → (w : ℤ) × (scaled_integer 18 d ≡ some w)
unfolding scaled_integer
scaled_integer-some d z h = elim (Bool-cases (leb d.scale 18)) [
  | inl small ↦ (times d.coefficient (10 ^ (18 - d.scale)), ground arith)
  | inr large ↦
      let u = 10 ^ (d.scale - 18) in
      let p : 10 ^ d.scale ≡ u * 10 ^ 18 =
        ap (λ (k : ℕ). 10 ^ k) (ground arith) ∙ pow-add 10 (d.scale - 18) 18 in
      let q : magnitude z * (u * 10 ^ 18) ≡ magnitude d.coefficient * 10 ^ 18 =
        ap (λ (k : ℕ). magnitude z * k) (sym p)
        ∙ sym (magnitude-times z (10 ^ d.scale))
        ∙ ap magnitude h
        ∙ magnitude-times d.coefficient (10 ^ 18) in
      let r : magnitude z * u ≡ magnitude d.coefficient =
        eq_of_mul-eq-mul_right (10 ^ 18) (omega (arith)) (magnitude z * u) (magnitude d.coefficient)
          (mul_assoc (magnitude z) u (10 ^ 18) ∙ q) in
      let none_left : magnitude d.coefficient % u ≡ 0 =
        ap (λ (k : ℕ). k % u) (sym r) ∙ mul-mod_left (magnitude z) u in
      (with_sign d.coefficient (magnitude d.coefficient / u), ground arith)
]
