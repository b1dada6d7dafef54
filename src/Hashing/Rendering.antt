-- ===== src/Hashing/Rendering.antt =====
-- What render_decimal_18 makes: 18 places, the exact value, or an exception where places are missing.
use quantara.Prelude.{
  ℕ, zero, suc, ◌-◌, ◌≤◌, ◌≡◌, refl, sym, ap, ◌∙◌, subst, Bool, true, false, [], ◌∷◌, ◌++◌, arith,
  lt→ltb, Option-cases, ◌⊎◌, inl, inr, ◌==◌, take, drop, length, length-take, length-drop,
  take-append-drop, length-append, replicate, length-replicate, if◌then◌else◌,
}
use quantara.Prelude.Int.{ℤ, pos, negsuc, sub_ℕ}
use quantara.Text.{Text, is_digit, all_digits, numeral, rjust_zeros, partition, value}
use quantara.Text.Numerals.{value-numeral, all_digits-numeral, value-zeros}
use quantara.Decimal.{Decimal, scaled_integer}
use quantara.Hashing.{drop_last, take_last, place_digits, place_or_raise, render_decimal_18_python}
use quantara.Hashing.Content.{all_of, matches_q18, matches_unsigned_q18}
use quantara.Errors.{ok, err, hash_payload_error}
use quantara.Hashing.Units.{IsUnits, scaled_integer-IsUnits, scaled_integer-some}

-- A text of 18 places, read: the integer that it is of units of 10 ^ -18.
abbrev pub unsigned_units : Text → ℕ
unsigned_units t = let (before, found, after) = partition b'.' t in value (before ++ after)

abbrev pub read_units : Text → ℤ
read_units [] = pos 0
read_units (c ∷ cs) =
    if c == b'-' then sub_ℕ 0 (unsigned_units cs) else pos (unsigned_units (c ∷ cs))

all_digits-append :
    (s t : Text) → all_digits s ≡ true → all_digits t ≡ true → all_digits (s ++ t) ≡ true
unfolding all_digits
all_digits-append [] t a b = b
all_digits-append (c ∷ s) t a b = ground (arith, all_digits-append s t)

all_digits-zeros : (n : ℕ) → all_digits (replicate n 48) ≡ true
unfolding all_digits
all_digits-zeros zero = refl
all_digits-zeros (suc n) = ground (arith, all_digits-zeros n)

all_digits-take : (n : ℕ) (t : Text) → all_digits t ≡ true → all_digits (take n t) ≡ true
unfolding all_digits
all_digits-take zero t a = refl
all_digits-take (suc n) [] a = refl
all_digits-take (suc n) (c ∷ t) a = ground (arith, all_digits-take n t)

all_digits-drop : (n : ℕ) (t : Text) → all_digits t ≡ true → all_digits (drop n t) ≡ true
unfolding all_digits
all_digits-drop zero t a = a
all_digits-drop (suc n) [] a = refl
all_digits-drop (suc n) (c ∷ t) a = ground (arith, all_digits-drop n t)

-- The point is found behind digits.
partition-digits :
    (s t : Text) → all_digits s ≡ true → partition b'.' (s ++ b'.' ∷ t) ≡ (s, true, t)
unfolding partition all_digits
partition-digits [] t a = refl
partition-digits (c ∷ s) t a = rw (partition-digits s t (ground arith)) (ground arith)

all_of_digits :
    (is_decimal : ℕ → Bool)
    → ((c : ℕ) → is_digit c ≡ true → is_decimal c ≡ true)
    → (t : Text) → all_digits t ≡ true
    → all_of is_decimal t ≡ true
unfolding all_of all_digits
all_of_digits is_decimal k [] a = refl
all_of_digits is_decimal k (c ∷ t) a =
    rw (k c (ground arith)) (all_of_digits is_decimal k t (ground arith))

-- The digits that the rendering cuts, of any number.
digits_19 : ℕ → Text
digits_19 n = rjust_zeros 19 (numeral n)

digits_19-all_digits : (n : ℕ) → all_digits (digits_19 n) ≡ true
unfolding digits_19 rjust_zeros
digits_19-all_digits n =
    all_digits-append (replicate (19 - length (numeral n)) 48) (numeral n)
      (all_digits-zeros (19 - length (numeral n))) (all_digits-numeral n)

digits_19-value : (n : ℕ) → value (digits_19 n) ≡ n
unfolding digits_19 rjust_zeros value
digits_19-value n =
    value-zeros (19 - length (numeral n)) (numeral n) ∙ unfold value in value-numeral n

digits_19-length : (n : ℕ) → 19 ≤ length (digits_19 n)
unfolding digits_19 rjust_zeros
digits_19-length n = omega (
  arith,
  length-append (replicate (19 - length (numeral n)) 48) (numeral n),
  length-replicate {A = ℕ} (19 - length (numeral n)) 48,
)

-- The two parts that the point divides.
cut_lem :
    (t : Text)
    → all_digits t ≡ true
    → 19 ≤ length t
    → (partition b'.' (drop_last 18 t ++ b'.' ∷ take_last 18 t)
        ≡ (drop_last 18 t, true, take_last 18 t))
      × (drop_last 18 t ++ take_last 18 t ≡ t)
      × (length (take_last 18 t) ≡ 18)
      × (1 ≤ length (drop_last 18 t))
      × (all_digits (drop_last 18 t) ≡ true)
      × (all_digits (take_last 18 t) ≡ true)
cut_lem t a h =
    let k = length t - 18 in
    (
      partition-digits (drop_last 18 t) (take_last 18 t) (all_digits-take k t a),
      take-append-drop k t,
      omega (arith, length-drop k t),
      omega (arith, length-take k t),
      all_digits-take k t a,
      all_digits-drop k t a,
    )

unsigned : ℕ → Text
unsigned n = drop_last 18 (digits_19 n) ++ b'.' ∷ take_last 18 (digits_19 n)

unsigned-units : (n : ℕ) → unsigned_units (unsigned n) ≡ n
unfolding unsigned
unsigned-units n =
    let (p, j, l, m, a, b) = cut_lem (digits_19 n) (digits_19-all_digits n) (digits_19-length n) in
    rw p (rw j (digits_19-value n))

module _ (is_decimal : ℕ → Bool)
    (decimal_digits : (c : ℕ) → is_digit c ≡ true → is_decimal c ≡ true) where
  unsigned-matches : (n : ℕ) → matches_unsigned_q18 is_decimal (unsigned n) ≡ true
  unfolding unsigned matches_unsigned_q18
  unsigned-matches n =
      let (p, j, l, m, a, b) =
        cut_lem (digits_19 n) (digits_19-all_digits n) (digits_19-length n) in
      let before = all_of_digits is_decimal decimal_digits (drop_last 18 (digits_19 n)) a in
      let after = all_of_digits is_decimal decimal_digits (take_last 18 (digits_19 n)) b in
      rw p (ground arith)

first_digit :
    (t rest : Text)
    → all_digits t ≡ true
    → 1 ≤ length t
    → (c : ℕ) × (u : Text) × (t ++ rest ≡ c ∷ u) × ((c == b'-') ≡ false)
unfolding all_digits
first_digit [] rest a h = absurd (omega arith)
first_digit (c ∷ t) rest a h = (c, t ++ rest, refl, ground arith)

-- No digit is a sign.
unsigned-head : (n : ℕ) → (c : ℕ) × (t : Text) × (unsigned n ≡ c ∷ t) × ((c == b'-') ≡ false)
unfolding unsigned
unsigned-head n =
    let (p, j, l, m, a, b) = cut_lem (digits_19 n) (digits_19-all_digits n) (digits_19-length n) in
    first_digit (drop_last 18 (digits_19 n)) (b'.' ∷ take_last 18 (digits_19 n)) a m

place_digits_neg : (n : ℕ) → place_digits (negsuc n) ≡ b'-' ∷ unsigned (suc n)
unfolding place_digits unsigned digits_19
place_digits_neg n = rw (lt→ltb 0 (suc n) (omega arith)) (
    ap
      (λ (k : ℕ).
        b'-'
        ∷ (drop_last 18 (rjust_zeros 19 (numeral k))
            ++ b'.' ∷ take_last 18 (rjust_zeros 19 (numeral k))))
      (omega arith))

place_digits_pos : (n : ℕ) → place_digits (pos n) ≡ unsigned n
unfolding place_digits unsigned digits_19
place_digits_pos n =
    ap
      (λ (k : ℕ).
        drop_last 18 (rjust_zeros 19 (numeral k))
        ++ b'.' ∷ take_last 18 (rjust_zeros 19 (numeral k)))
      (omega arith)

read_units-place_digits : (z : ℤ) → read_units (place_digits z) ≡ z
read_units-place_digits (pos n) =
    let (c, t, e, d) = unsigned-head n in
    let units : unsigned_units (c ∷ t) ≡ n = sym (ap unsigned_units e) ∙ unsigned-units n in
    rw (place_digits_pos n, e, d) (ap pos units)
read_units-place_digits (negsuc n) = rw (place_digits_neg n, unsigned-units (suc n)) (ground arith)

module _ (is_decimal : ℕ → Bool)
    (decimal_digits : (c : ℕ) → is_digit c ≡ true → is_decimal c ≡ true) where
  matches_q18-place_digits : (z : ℤ) → matches_q18 is_decimal (place_digits z) ≡ true
  unfolding matches_q18
  matches_q18-place_digits (pos n) =
      let (c, t, e, d) = unsigned-head n in
      rw (place_digits_pos n, e, d)
        (ap (matches_unsigned_q18 is_decimal) (sym e)
          ∙ unsigned-matches is_decimal decimal_digits n)
  matches_q18-place_digits (negsuc n) =
      rw (place_digits_neg n) (unsigned-matches is_decimal decimal_digits (suc n))

  -- A decimal is rendered if it is an integer number of units of 10 ^ -18, in the form that a
  -- research row demands and so that the text reads as that number; else it is refused.
  pub render_decimal_18_python-IsExact :
      (d : Decimal)
      → ((t : Text) × (render_decimal_18_python d ≡ ok t)
          × IsUnits d (read_units t)
          × (matches_q18 is_decimal t ≡ true))
        ⊎ ((render_decimal_18_python d ≡ err hash_payload_error) × ((z : ℤ) → ¬ IsUnits d z))
  unfolding render_decimal_18_python place_or_raise
  render_decimal_18_python-IsExact d = elim (Option-cases (scaled_integer 18 d)) [
    | inl refused ↦ inr (rw refused refl, λ z u. let (w, e) = scaled_integer-some d z u in cc)
    | inr (z, e) ↦ inl (
      place_digits z,
      rw e refl,
      subst (IsUnits d) (sym (read_units-place_digits z)) (scaled_integer-IsUnits d z e),
      matches_q18-place_digits z,
    )
  ]
