-- ===== src/Text/Numerals.antt =====
-- Decimal numerals, printed and read.
use native.Mathlib.Nat.{pow-suc, mul-le-mul_right}
use quantara.Prelude.{
  ℕ, zero, suc, ◌+◌, ◌-◌, ◌*◌, ◌/◌, ◌%◌, ◌^◌, ◌≤◌, ◌<◌, ◌≡◌, refl, ap, ◌∙◌, [], ◌∷◌, ◌++◌, arith,
  length, replicate, true, ltb, Bool-cases, inl, inr,
}
use quantara.Text.{Text, is_digit, all_digits, value_from, value, numeral_loop, numeral}

pub value_from-append :
    (acc : ℕ) (s t : Text) → value_from acc (s ++ t) ≡ value_from (value_from acc s) t
unfolding value_from
value_from-append acc [] t = refl
value_from-append acc (c ∷ s) t = value_from-append (acc * 10 + (c - 48)) s t

-- Reading on from `acc` is reading from 0, with `acc` in front.
pub value_from_lem : (acc : ℕ) (t : Text) → value_from acc t ≡ acc * 10 ^ length t + value_from 0 t
unfolding value_from
value_from_lem acc [] = omega arith
value_from_lem acc (c ∷ t) = omega (
  arith,
  value_from_lem (acc * 10 + (c - 48)) t,
  value_from_lem (0 + (c - 48)) t,
  pow-suc 10 (length t),
  ap (λ (p : ℕ). acc * p) (pow-suc 10 (length t)),
)

pub value-lt : (t : Text) → all_digits t ≡ true → value_from 0 t < 10 ^ length t
unfolding value_from all_digits
value-lt [] h = omega arith
value-lt (c ∷ t) h =
    let d = c - 48 in
    let digit : d ≤ 9 = ground arith in
    omega (
      arith,
      value-lt t (ground arith),
      value_from_lem (0 + d) t,
      pow-suc 10 (length t),
      mul-le-mul_right (10 ^ length t) digit,
    )

numeral_loop-value :
    (fuel n : ℕ) (rest : Text)
    → n < fuel
    → value_from 0 (numeral_loop fuel n rest) ≡ value_from n rest
unfolding numeral_loop value_from
numeral_loop-value zero n rest h = absurd (omega arith)
numeral_loop-value (suc fuel) n rest h = elim (Bool-cases (ltb n 10)) [
  | inl small ↦ rw small (ap (λ (k : ℕ). value_from k rest) (ground arith))
  | inr large ↦ rw large (
      numeral_loop-value fuel (n / 10) ((48 + n % 10) ∷ rest) (ground arith)
      ∙ ap (λ (k : ℕ). value_from k rest) (omega arith))
]

-- `int(str(n)) == n`
pub value-numeral : (n : ℕ) → value (numeral n) ≡ n
unfolding value numeral
value-numeral n = numeral_loop-value (suc n) n [] (omega arith)

numeral_loop-digits :
    (fuel n : ℕ) (rest : Text)
    → all_digits rest ≡ true
    → all_digits (numeral_loop fuel n rest) ≡ true
unfolding numeral_loop all_digits
numeral_loop-digits zero n rest h = h
numeral_loop-digits (suc fuel) n rest h =
    ground (arith, numeral_loop-digits fuel (n / 10) ((48 + n % 10) ∷ rest))

pub all_digits-numeral : (n : ℕ) → all_digits (numeral n) ≡ true
unfolding numeral
all_digits-numeral n = numeral_loop-digits (suc n) n [] (unfold all_digits in refl)

pub value-zeros : (k : ℕ) (t : Text) → value_from 0 (replicate k 48 ++ t) ≡ value_from 0 t
unfolding value_from
value-zeros zero t = refl
value-zeros (suc k) t = value-zeros k t

-- Zeros on the right multiply by ten.
pub value-append_zeros : (acc : ℕ) (k : ℕ) → value_from acc (replicate k 48) ≡ acc * 10 ^ k
unfolding value_from
value-append_zeros acc zero = omega arith
value-append_zeros acc (suc k) =
    omega (arith, value-append_zeros (acc * 10 + 0) k, ap (λ (p : ℕ). acc * p) (pow-suc 10 k))

-- The first character of a numeral is a digit.
numeral_loop-head :
    (fuel n : ℕ) (rest : Text)
    → n < fuel
    → (c : ℕ) × (t : Text) × (numeral_loop fuel n rest ≡ c ∷ t) × (is_digit c ≡ true)
unfolding numeral_loop
numeral_loop-head zero n rest h = absurd (omega arith)
numeral_loop-head (suc fuel) n rest h = elim (Bool-cases (ltb n 10)) [
  | inl small ↦ (48 + n % 10, rest, rw small refl, ground arith)
  | inr large ↦
      let (c, t, e, d) = numeral_loop-head fuel (n / 10) ((48 + n % 10) ∷ rest) (ground arith) in
      (c, t, rw large e, d)
]

pub numeral-head : (n : ℕ) → (c : ℕ) × (t : Text) × (numeral n ≡ c ∷ t) × (is_digit c ≡ true)
unfolding numeral
numeral-head n = numeral_loop-head (suc n) n [] (omega arith)
