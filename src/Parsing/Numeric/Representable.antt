-- ===== src/Parsing/Numeric/Representable.antt =====
-- parse_numeric of src/quantara/parsing.py against decimal128(38, 18).
use native.Mathlib.Nat.{
  mul_assoc, add-zero, mul-le-mul_right, mul-lt-mul_of_pos_right, mul-mod_left, mul-div_cancel,
  one-le-pow, pow-le-pow_right,
}
use native.Mathlib.Decide.{dec_le}
use quantara.Prelude.{
  ℕ, suc, ◌+◌, ◌-◌, ◌*◌, ◌/◌, ◌%◌, ◌^◌, ◌≤◌, ◌<◌, ◌≡◌, refl, sym, ap, subst, ◌∙◌, [], ◌∷◌, ◌++◌,
  arith, length, length-append, replicate, length-replicate, some, true, false, not, Bool-cases,
  inl, inr, ltb, ◌==◌, ==_iff,
}
use quantara.Prelude.Int.{pos}
use quantara.Decimal.{Decimal, scaled_integer, times}
use quantara.Decimal.Value.{pow-add}
use quantara.Text.{
  Text, all_digits, value_from, value, partition, lstrip_zeros, put_front, rstrip_zeros,
}
use quantara.Text.Numerals.{value_from-append, value_from_lem, value-lt, value-append_zeros}
use quantara.Errors.{ok, raise_if-eq-ok, ok_injective}
use quantara.Parsing.Numeric.{
  matches_numeric, is_integer_part, is_digits, expand_scientific, parse_fixed_point, parse_numeric,
  expanded_or,
}

put_front_lem :
    (c : ℕ) (r : Text) (k : ℕ)
    → (j : ℕ) × (c ∷ (r ++ replicate k 48) ≡ put_front c r ++ replicate j 48)
unfolding put_front
put_front_lem c [] k = elim (Bool-cases (c == 48)) [
  | inl zero_digit ↦
      (suc k, rw zero_digit (ap (λ (d : ℕ). d ∷ replicate k 48) ((==_iff c 48).0 zero_digit)))
  | inr other ↦ (k, rw other)
]
put_front_lem c (d ∷ ds) k = (k, refl)

-- A text is its trimmed part and zeros.
rstrip_zeros_lem : (t : Text) → (k : ℕ) × (t ≡ rstrip_zeros t ++ replicate k 48)
unfolding rstrip_zeros
rstrip_zeros_lem [] = (0, refl)
rstrip_zeros_lem (c ∷ t) =
    let (k, e) = rstrip_zeros_lem t in
    let (j, f) = put_front_lem c (rstrip_zeros t) k in (j, ap (λ (s : Text). c ∷ s) e ∙ f)

-- Leading zeros do not count.
value-lstrip_zeros : (t : Text) → value_from 0 (lstrip_zeros t) ≡ value_from 0 t
unfolding lstrip_zeros value_from
value-lstrip_zeros [] = refl
value-lstrip_zeros (c ∷ t) = ground (arith, value-lstrip_zeros t)

all_digits-lstrip_zeros : (t : Text) → all_digits t ≡ true → all_digits (lstrip_zeros t) ≡ true
unfolding lstrip_zeros all_digits
all_digits-lstrip_zeros [] h = refl
all_digits-lstrip_zeros (c ∷ t) h = ground (arith, all_digits-lstrip_zeros t)

all_digits-append :
    (s t : Text) → all_digits s ≡ true → all_digits t ≡ true → all_digits (s ++ t) ≡ true
unfolding all_digits
all_digits-append [] t h k = k
all_digits-append (c ∷ s) t h k = ground (arith, all_digits-append s t)

all_digits-prefix : (s t : Text) → all_digits (s ++ t) ≡ true → all_digits s ≡ true
unfolding all_digits
all_digits-prefix [] t h = refl
all_digits-prefix (c ∷ s) t h = ground (arith, all_digits-prefix s t)

is_integer_part-digits : (t : Text) → is_integer_part t ≡ true → all_digits t ≡ true
unfolding is_integer_part all_digits
is_integer_part-digits [] h = refl
is_integer_part-digits (c ∷ []) h = ground arith
is_integer_part-digits (c ∷ d ∷ t) h = ground arith

is_digits-digits : (t : Text) → is_digits t ≡ true → all_digits t ≡ true
unfolding is_digits all_digits
is_digits-digits [] h = refl
is_digits-digits (c ∷ t) h = h

partition-no_dot : (c : ℕ) (t : Text) → (partition c t).1 ≡ false → (partition c t).2 ≡ []
unfolding partition
partition-no_dot c [] h = refl
partition-no_dot c (d ∷ t) h = ground (arith, partition-no_dot c t)

-- The parts of a text that matches the pattern are digits.
matches_numeric-digits :
    (t : Text)
    → matches_numeric t ≡ true
    → (all_digits (partition b'.' t).0 ≡ true) × (all_digits (partition b'.' t).2 ≡ true)
unfolding matches_numeric
matches_numeric-digits t h = elim (Bool-cases (partition b'.' t).1) [
  | inl dot ↦
      ground
        (arith, is_integer_part-digits (partition b'.' t).0, is_digits-digits (partition b'.' t).2)
  | inr no_dot ↦ (
    is_integer_part-digits (partition b'.' t).0 (ground arith),
    rw (partition-no_dot b'.' t no_dot) (unfold all_digits in refl),
  )
]

-- At scale 18 a coefficient `w * 10 ^ k` of scale `m + k` is the integer `w * 10 ^ (18 - m)`.
scaled_integer-shift :
    (w m k : ℕ)
    → m ≤ 18
    → scaled_integer 18 (record { coefficient = pos (w * 10 ^ k); scale = m + k })
      ≡ some (pos (w * 10 ^ (18 - m)))
unfolding scaled_integer times
scaled_integer-shift w m k h = elim (dec_le (m + k) 18) [
  | yes fits ↦
      let e : 10 ^ (18 - m) ≡ 10 ^ k * 10 ^ (18 - (m + k)) =
        ap (λ (p : ℕ). 10 ^ p) (omega arith) ∙ pow-add 10 k (18 - (m + k)) in
      let g : w * 10 ^ k * 10 ^ (18 - (m + k)) ≡ w * 10 ^ (18 - m) =
        mul_assoc w (10 ^ k) (10 ^ (18 - (m + k))) ∙ ap (λ (p : ℕ). w * p) (sym e) in
      ground (arith, g)
  | no large ↦
      let e : 10 ^ k ≡ 10 ^ (18 - m) * 10 ^ (m + k - 18) =
        ap (λ (p : ℕ). 10 ^ p) (omega arith) ∙ pow-add 10 (18 - m) (m + k - 18) in
      let unit = 10 ^ (m + k - 18) in
      let g : w * 10 ^ k + 0 ≡ w * 10 ^ (18 - m) * unit =
        add-zero (w * 10 ^ k) ∙ ap (λ (p : ℕ). w * p) e ∙ sym (mul_assoc w (10 ^ (18 - m)) unit) in
      let q : (w * 10 ^ k + 0) % unit ≡ 0 =
        ap (λ (p : ℕ). p % unit) g ∙ mul-mod_left (w * 10 ^ (18 - m)) unit in
      let d : (w * 10 ^ k + 0) / unit ≡ w * 10 ^ (18 - m) =
        ap (λ (p : ℕ). p / unit) g
        ∙ mul-div_cancel (w * 10 ^ (18 - m)) (one-le-pow (m + k - 18) 10 (omega arith)) in
      ground (arith, q, d)
]

-- The coefficient of a fixed-point text in units of 10 ^ -18: an exact number below 10 ^ 38.
module _ (int frac : Text) (int_digits : all_digits int ≡ true)
    (frac_digits : all_digits frac ≡ true) (few_frac : length (rstrip_zeros frac) ≤ 18)
    (few_int : length (lstrip_zeros int) ≤ 20) where
  abbrev parsed : Decimal
  parsed = record { coefficient = pos (value (int ++ frac)); scale = length frac }

  abbrev trimmed : Text
  trimmed = rstrip_zeros frac

  -- The value without the zeros on the right.
  abbrev significant : ℕ
  significant = value_from 0 int * 10 ^ length trimmed + value_from 0 trimmed

  trimmed_zeros : ℕ
  trimmed_zeros = (rstrip_zeros_lem frac).0

  frac_split : frac ≡ trimmed ++ replicate trimmed_zeros 48
  unfolding trimmed_zeros
  frac_split = (rstrip_zeros_lem frac).1

  length-frac : length frac ≡ length trimmed + trimmed_zeros
  length-frac =
      ap length frac_split
      ∙ omega (
        arith,
        length-append trimmed (replicate trimmed_zeros 48),
        length-replicate {A = ℕ} trimmed_zeros 48,
      )

  coefficient_lem : value (int ++ frac) ≡ significant * 10 ^ trimmed_zeros
  unfolding value
  coefficient_lem =
      value_from-append 0 int frac
      ∙ ap (value_from (value_from 0 int)) frac_split
      ∙ value_from-append (value_from 0 int) trimmed (replicate trimmed_zeros 48)
      ∙ value-append_zeros (value_from (value_from 0 int) trimmed) trimmed_zeros
      ∙ ap (λ (p : ℕ). p * 10 ^ trimmed_zeros) (value_from_lem (value_from 0 int) trimmed)

  small : significant * 10 ^ (18 - length trimmed) < 10 ^ 38
  small =
      let m = length trimmed in
      let int_small : value_from 0 int < 10 ^ 20 = omega (
        arith,
        value-lstrip_zeros int,
        value-lt (lstrip_zeros int) (all_digits-lstrip_zeros int int_digits),
        pow-le-pow_right {n = 10} (omega arith) {j = 20} few_int,
      ) in
      let frac_small : value_from 0 trimmed < 10 ^ m =
        value-lt trimmed
          (all_digits-prefix trimmed (replicate trimmed_zeros 48) (rw frac_split at frac_digits)) in
      let bounded : significant < 10 ^ 20 * 10 ^ m =
        omega (arith, mul-le-mul_right (10 ^ m) int_small) in
      let top : 10 ^ 20 * 10 ^ m * 10 ^ (18 - m) ≡ 10 ^ 38 =
        mul_assoc (10 ^ 20) (10 ^ m) (10 ^ (18 - m))
        ∙ ap (λ (p : ℕ). 10 ^ 20 * p)
            (sym (pow-add 10 m (18 - m)) ∙ ap (λ (p : ℕ). 10 ^ p) {y = 18} (omega arith)) in
      omega (
        arith,
        top,
        mul-lt-mul_of_pos_right {k = 10 ^ (18 - m)} bounded (one-le-pow (18 - m) 10 (omega arith)),
      )

  parsed-representable : (z : ℕ) × (scaled_integer 18 parsed ≡ some (pos z)) × (z < 10 ^ 38)
  parsed-representable = (
    significant * 10 ^ (18 - length trimmed),
    rw (coefficient_lem, length-frac)
        (scaled_integer-shift significant (length trimmed) trimmed_zeros few_frac),
    small,
  )

-- Whatever the numeric policy takes is nonnegative and fits decimal128(38, 18) exactly: it is an
-- integer below 10 ^ 38 in units of 10 ^ -18, so nothing is rounded or cut off.
parse_fixed_point-representable :
    (t : Text) (d : Decimal)
    → parse_fixed_point t ≡ ok d
    → (z : ℕ) × (scaled_integer 18 d ≡ some (pos z)) × (z < 10 ^ 38)
unfolding parse_fixed_point
parse_fixed_point-representable t d h =
    let (int, dot, frac) = partition b'.' t in
    let (matches, h1) = raise_if-eq-ok (not (matches_numeric t)) _ _ h in
    let (few_frac, h2) = raise_if-eq-ok (ltb 18 (length (rstrip_zeros frac))) _ _ h1 in
    let (few_int, h3) = raise_if-eq-ok (ltb 20 (length (lstrip_zeros int))) _ _ h2 in
    let (few_digits, h4) =
      raise_if-eq-ok (ltb 38 (length (lstrip_zeros int) + length frac)) _ _ h3 in
    let (int_digits, frac_digits) = matches_numeric-digits t (ground arith) in
    subst (λ e. (z : ℕ) × (scaled_integer 18 e ≡ some (pos z)) × (z < 10 ^ 38)) (ok_injective h4)
      (parsed-representable int frac int_digits frac_digits (ground arith) (ground arith))

-- A number that is taken, in either notation, is a nonnegative count of units of 10 ^ -18 below
-- 10 ^ 38: it is stored exactly in a column of decimal128(38, 18).
pub parse_numeric-representable :
    (t : Text) (d : Decimal)
    → parse_numeric t ≡ ok d
    → (z : ℕ) × (scaled_integer 18 d ≡ some (pos z)) × (z < 10 ^ 38)
unfolding parse_numeric
parse_numeric-representable t d h =
    parse_fixed_point-representable (expanded_or t (expand_scientific t)) d h
