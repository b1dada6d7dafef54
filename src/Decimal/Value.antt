-- ===== src/Decimal/Value.antt =====
-- The value of a decimal in units of 10 ^ -18, and sums in a context.
use native.Mathlib.Nat.{
  pow-zero, pow-suc, mul_assoc, add-suc, add-zero, one-le-pow, le-mul_of_pos_right,
}
use Prim.Native.Nat.{max}
use mathlib.Core.Path.{ap₂}
use quantara.Prelude.{ℕ, zero, suc, ◌+◌, ◌-◌, ◌*◌, ◌/◌, ◌^◌, ◌≤◌, ◌<◌, ◌≡◌, sym, ap, ◌∙◌, arith}
use quantara.Prelude.Int.{ℤ, pos, negsuc, pos_part, neg_part, ◌+ℤ◌, +ℤ_parts, eq_of_parts, int_laws}
use quantara.Decimal.{
  Decimal, magnitude, times, at_scale, digits_from, round_coefficient, context_add,
}

pub pow-add : (n a b : ℕ) → n ^ (a + b) ≡ n ^ a * n ^ b
pow-add n a zero = rw (add-zero, pow-zero) (omega arith)
pow-add n a (suc b) =
    rw (add-suc, pow-suc, pow-suc)
      (ap (λ (t : ℕ). t * n) (pow-add n a b) ∙ mul_assoc (n ^ a) (n ^ b) n)

pub times_parts :
    (z : ℤ) (k : ℕ)
    → (pos_part (times z k) ≡ pos_part z * k) × (neg_part (times z k) ≡ neg_part z * k)
unfolding times
times_parts (pos n) k = ground arith
times_parts (negsuc n) k = ground arith

pub digits_from-le : (fuel n p : ℕ) → n < 10 ^ suc p → digits_from fuel n ≤ suc p
unfolding digits_from
digits_from-le zero n p h = omega arith
digits_from-le (suc fuel) n zero h = ground arith
digits_from-le (suc fuel) n (suc p) h =
    ground (arith, digits_from-le fuel (n / 10) p, pow-suc 10 (suc p))

-- No rounding happens to what has no more digits than the context.
pub round_coefficient_exact :
    (p : ℕ) (z : ℤ) → magnitude z < 10 ^ suc p → round_coefficient (suc p) z ≡ z
unfolding round_coefficient
round_coefficient_exact p z h = ground (arith, digits_from-le (magnitude z) (magnitude z) p h)

pub times-times : (z : ℤ) (k m : ℕ) → times (times z k) m ≡ times z (k * m)
times-times z k m = omega (
  arith,
  eq_of_parts (times (times z k) m) (times z (k * m)),
  times_parts (times z k) m,
  times_parts z k,
  times_parts z (k * m),
  ap (λ (t : ℕ). t * m) (times_parts z k).0,
  ap (λ (t : ℕ). t * m) (times_parts z k).1,
)

pub times-+ℤ : (a b : ℤ) (k : ℕ) → times (a +ℤ b) k ≡ times a k +ℤ times b k
times-+ℤ a b k = omega (
  int_laws,
  times_parts (a +ℤ b) k,
  times_parts a k,
  times_parts b k,
  ap (λ (t : ℕ). t * k) (+ℤ_parts a b),
)

pub magnitude-times : (z : ℤ) (k : ℕ) → magnitude (times z k) ≡ magnitude z * k
magnitude-times z k = omega (arith, times_parts z k)

pub magnitude-+ℤ : (a b : ℤ) → magnitude (a +ℤ b) ≤ magnitude a + magnitude b
unfolding ◌+ℤ◌
magnitude-+ℤ a b = ground arith

-- The coefficient at a larger scale, through a scale between.
pub at_scale_trans :
    (d : Decimal) (s t : ℕ)
    → d.scale ≤ s
    → s ≤ t
    → times (at_scale s d) (10 ^ (t - s)) ≡ at_scale t d
at_scale_trans d s t h k =
    times-times d.coefficient (10 ^ (s - d.scale)) (10 ^ (t - s))
    ∙ ap (times d.coefficient)
        (sym (pow-add 10 (s - d.scale) (t - s)) ∙ ap (λ (e : ℕ). 10 ^ e) (omega arith))

pub magnitude-at_scale_mono :
    (d : Decimal) (s t : ℕ)
    → d.scale ≤ s
    → s ≤ t
    → magnitude (at_scale s d) ≤ magnitude (at_scale t d)
magnitude-at_scale_mono d s t h k = omega (
  arith,
  ap magnitude (at_scale_trans d s t h k),
  magnitude-times (at_scale s d) (10 ^ (t - s)),
  le-mul_of_pos_right {m = 10 ^ (t - s)} (magnitude (at_scale s d))
      (one-le-pow (t - s) 10 (omega arith)),
)

-- The number of units of 10 ^ -18 that a decimal of scale 18 at most stands for.
abbrev pub units : Decimal → ℤ
units d = at_scale 18 d

-- Nothing is rounded in a sum that fits the precision.
context_add_exact :
    (p : ℕ) (a b : Decimal)
    → a.scale ≤ 18
    → b.scale ≤ 18
    → magnitude (units a) + magnitude (units b) < 10 ^ suc p
    → let s = max a.scale b.scale in
      context_add (suc p) a b ≡ record { coefficient = at_scale s a +ℤ at_scale s b; scale = s }
unfolding context_add
context_add_exact p a b ha hb fits =
    let s = max a.scale b.scale in
    rw (
      round_coefficient_exact p (at_scale s a +ℤ at_scale s b) (
        omega (
          arith,
          magnitude-+ℤ (at_scale s a) (at_scale s b),
          magnitude-at_scale_mono a s 18 (omega arith) (omega arith),
          magnitude-at_scale_mono b s 18 (omega arith) (omega arith),
        )))

pub units-context_add :
    (p : ℕ) (a b : Decimal)
    → a.scale ≤ 18
    → b.scale ≤ 18
    → magnitude (units a) + magnitude (units b) < 10 ^ suc p
    → (units (context_add (suc p) a b) ≡ units a +ℤ units b)
      × ((context_add (suc p) a b).scale ≤ 18)
units-context_add p a b ha hb fits =
    let s = max a.scale b.scale in
    rw (context_add_exact p a b ha hb fits) (
      times-+ℤ (at_scale s a) (at_scale s b) (10 ^ (18 - s))
          ∙ ap₂ ◌+ℤ◌ (at_scale_trans a s 18 (omega arith) (omega arith))
              (at_scale_trans b s 18 (omega arith) (omega arith)),
      omega arith,
    )
