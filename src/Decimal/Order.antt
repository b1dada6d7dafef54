-- ===== src/Decimal/Order.antt =====
-- The comparison of decimals by value.
use native.Mathlib.Nat.{le_of_mul-le-mul_right, mul-le-mul_right, one-le-pow}
use quantara.Prelude.{ℕ, ◌+◌, ◌*◌, ◌^◌, ◌≤◌, ◌<◌, ◌≡◌, arith, true, false, ◌⊎◌}
use quantara.Prelude.Int.{pos_part, neg_part}
use quantara.Decimal.{Decimal, leb_decimal, ltb_decimal}
use quantara.Decimal.Value.{times_parts}

-- `a <= b`
abbrev pub ◌≤ᵈ◌ : Decimal → Decimal → Type 0
a ≤ᵈ b = leb_decimal a b ≡ true

infix 50 ◌≤ᵈ◌
pub ≤ᵈ_total : (a b : Decimal) → (a ≤ᵈ b) ⊎ (b ≤ᵈ a)
unfolding leb_decimal
≤ᵈ_total a b = ground arith

pub ≤ᵈ_refl : (a : Decimal) → a ≤ᵈ a
unfolding leb_decimal
≤ᵈ_refl a = ground arith

pub ltb_decimal-not : (a b : Decimal) → ltb_decimal a b ≡ false → b ≤ᵈ a
unfolding leb_decimal ltb_decimal
ltb_decimal-not a b h = ground arith

pub ltb_decimal-le : (a b : Decimal) → ltb_decimal a b ≡ true → a ≤ᵈ b
unfolding leb_decimal ltb_decimal
ltb_decimal-le a b h = ground arith

-- Transitivity of a comparison of fractions with positive denominators, over pairs of parts.
cross_trans :
    (ap₀ an bp bn cp cn A B C : ℕ)
    → 0 < B
    → ap₀ * B + bn * A ≤ bp * A + an * B
    → bp * C + cn * B ≤ cp * B + bn * C
    → ap₀ * C + cn * A ≤ cp * A + an * C
cross_trans ap₀ an bp bn cp cn A B C pos h k =
    le_of_mul-le-mul_right {k = B} (omega (arith, mul-le-mul_right C h, mul-le-mul_right A k)) pos

-- The comparison in natural numbers, cross-multiplied.
abbrev Crosses : Decimal → Decimal → Type 0
Crosses a b =
    pos_part a.coefficient * 10 ^ b.scale + neg_part b.coefficient * 10 ^ a.scale
    ≤ pos_part b.coefficient * 10 ^ a.scale + neg_part a.coefficient * 10 ^ b.scale

leb_decimal-Crosses : (a b : Decimal) → a ≤ᵈ b → Crosses a b
unfolding leb_decimal
leb_decimal-Crosses a b h =
    ground
      (arith, times_parts a.coefficient (10 ^ b.scale), times_parts b.coefficient (10 ^ a.scale))

Crosses-leb_decimal : (a b : Decimal) → Crosses a b → a ≤ᵈ b
unfolding leb_decimal
Crosses-leb_decimal a b h =
    ground
      (arith, times_parts a.coefficient (10 ^ b.scale), times_parts b.coefficient (10 ^ a.scale))

pub ≤ᵈ_trans : (a b c : Decimal) → a ≤ᵈ b → b ≤ᵈ c → a ≤ᵈ c
≤ᵈ_trans a b c h k = Crosses-leb_decimal a c (
    cross_trans (pos_part a.coefficient) (neg_part a.coefficient) (pos_part b.coefficient)
      (neg_part b.coefficient) (pos_part c.coefficient) (neg_part c.coefficient) (10 ^ a.scale)
      (10 ^ b.scale) (10 ^ c.scale) (one-le-pow b.scale 10 (omega arith))
      (leb_decimal-Crosses a b h) (leb_decimal-Crosses b c k))
