-- ===== src/Decimal.antt =====
-- What the program uses of Python's `decimal.Decimal` and `decimal.Context` (standard library; used
-- by parsing.py, canonical.py, hashing.py and aggregation.py under src/quantara).
-- A decimal is coefficient * 10 ^ (- scale): the parser makes no positive exponent, and a sum has the
-- larger scale of its terms. Where a context rounds, Python may raise the exponent; the model puts
-- the zeros back, which is the same number, and the program looks at nothing else.
pub mod Value
pub mod Order
use quantara.Prelude.{
  ℕ, zero, suc, ◌+◌, ◌-◌, ◌*◌, ◌/◌, ◌%◌, ◌^◌, Bool, Option, none, some, ltb, leb, ◌==◌, ◌&&◌, ◌||◌,
  if◌then◌else◌,
}
use quantara.Prelude.Int.{ℤ, pos, negsuc, pos_part, neg_part, sub_ℕ, ◌+ℤ◌, leb_ℤ, ltb_ℤ}
use Prim.Native.Nat.{max}

pub record Decimal : Type 0 where
  pub coefficient : ℤ
  pub scale : ℕ

abbrev pub magnitude : ℤ → ℕ
magnitude z = pos_part z + neg_part z

-- The integer of the sign of `z` and the magnitude `n`.
abbrev pub with_sign : ℤ → ℕ → ℤ
with_sign z n = if ltb 0 (neg_part z) then sub_ℕ 0 n else pos n

unfoldable pub times : ℤ → ℕ → ℤ
times z k = sub_ℕ (pos_part z * k) (neg_part z * k)

-- The coefficient at a scale that is no smaller than the decimal's own.
abbrev pub at_scale : ℕ → Decimal → ℤ
at_scale s d = times d.coefficient (10 ^ (s - d.scale))

pub digits_from : ℕ → ℕ → ℕ
digits_from zero n = 1
digits_from (suc fuel) n = let rest = digits_from fuel (n / 10) in if ltb n 10 then 1 else suc rest

-- `len(str(n))`
unfoldable pub digit_count : ℕ → ℕ
unfolding digits_from
digit_count n = digits_from n n

-- `n / unit` rounded to the nearest, ties to the even neighbour.
unfoldable pub round_half_even : (n unit : ℕ) → ℕ
round_half_even n unit =
    let q = n / unit in
    let r = n % unit in if ltb (2 * r) unit || (2 * r == unit && q % 2 == 0) then q else q + 1

-- Rounding of a coefficient to `prec` digits, in the unit that it had.
unfoldable pub round_coefficient : (prec : ℕ) → ℤ → ℤ
unfolding digit_count round_half_even
round_coefficient prec z =
    let n = magnitude z in
    let digits = digit_count n in
    let unit = 10 ^ (digits - prec) in
    if leb digits prec then z else with_sign z (round_half_even n unit * unit)

-- `Context.add`
unfoldable pub context_add : (prec : ℕ) → Decimal → Decimal → Decimal
context_add prec a b =
    let s = max a.scale b.scale in
    record { coefficient = round_coefficient prec (at_scale s a +ℤ at_scale s b); scale = s }

-- `int(value.scaleb(places))`, if that is an integer.
unfoldable pub scaled_integer : (places : ℕ) → Decimal → Option ℤ
scaled_integer places d =
    let unit = 10 ^ (d.scale - places) in
    if leb d.scale places
    then some (at_scale places d)
    else if magnitude d.coefficient % unit == 0
    then some (with_sign d.coefficient (magnitude d.coefficient / unit))
    else none

-- `a <= b`, by value.
unfoldable pub leb_decimal : Decimal → Decimal → Bool
leb_decimal a b = leb_ℤ (times a.coefficient (10 ^ b.scale)) (times b.coefficient (10 ^ a.scale))

-- `a < b`, by value.
unfoldable pub ltb_decimal : Decimal → Decimal → Bool
ltb_decimal a b = ltb_ℤ (times a.coefficient (10 ^ b.scale)) (times b.coefficient (10 ^ a.scale))
