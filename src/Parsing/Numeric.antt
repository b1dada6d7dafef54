-- ===== src/Parsing/Numeric.antt =====
-- src/quantara/parsing.py, the numeric policy: fixed-point and scientific texts to exact decimals.
-- A regular expression is a recogniser; the text is split where the expression can only split it.
pub mod Representable
use quantara.Prelude.{
  ℕ, zero, suc, ◌+◌, ◌-◌, Bool, true, false, not, ◌&&◌, ◌||◌, Option, none, some, List, [], ◌∷◌,
  ◌++◌, length, take, drop, replicate, ltb, leb, ◌==◌, if◌then◌else◌,
}
use quantara.Prelude.Int.{ℤ, pos, negsuc, sub_ℕ, ◌+ℤ◌}
use quantara.Decimal.{Decimal}
use quantara.Text.{Text, is_digit, all_digits, value, partition, lstrip_zeros, rstrip_zeros}
use quantara.Errors.{
  Error, Result, ok, err, malformed_numeric, decimal_overflow, ◌>>=◌, ◌>>◌, raise_if,
}

abbrev pub max_integer_places : ℕ
max_integer_places = 20

abbrev pub max_fractional_places : ℕ
max_fractional_places = 18

abbrev pub max_total_fixed_point_digits : ℕ
max_total_fixed_point_digits = 38

-- `[0-9]+`
pub is_digits : Text → Bool
is_digits [] = false
is_digits (c ∷ cs) = all_digits (c ∷ cs)

-- `0|[1-9][0-9]*`
pub is_integer_part : Text → Bool
is_integer_part [] = false
is_integer_part (c ∷ []) = is_digit c
is_integer_part (c ∷ d ∷ cs) = leb 49 c && leb c 57 && all_digits (d ∷ cs)

-- `(0|[1-9][0-9]*)(\.[0-9]+)?`, also NUMERIC_PATTERN
unfoldable pub matches_numeric : Text → Bool
unfolding is_integer_part is_digits
matches_numeric t =
    let (integer_part, dot, fractional_part) = partition b'.' t in
    is_integer_part integer_part && (if dot then is_digits fractional_part else true)

is_sign : ℕ → Bool
is_sign c = c == b'+' || c == b'-'

-- `text[1:] if text[0] in '+-' else text`
pub strip_sign : Text → Text
unfolding is_sign
strip_sign [] = []
strip_sign (c ∷ cs) = if is_sign c then cs else c ∷ cs

pub starts_with_minus : Text → Bool
starts_with_minus [] = false
starts_with_minus (c ∷ cs) = c == b'-'

-- The first `e` or `E` of a text: neither half of _SCIENTIFIC_PATTERN can hold one.
pub split_exponent : Text → Option (Text × Text)
split_exponent [] = none
split_exponent (c ∷ cs) =
    let rest = split_exponent cs in
    if c == b'e' || c == b'E'
    then some ([], cs)
    else elim rest [ none ↦ none | some (m, x) ↦ some (c ∷ m, x) ]

-- `int(exp_str)`
pub exponent_value : Text → ℤ
unfolding starts_with_minus strip_sign
exponent_value t =
    if starts_with_minus t then sub_ℕ 0 (value (strip_sign t)) else pos (value (strip_sign t))

-- The three branches on `point_pos`.
pub place_point : Text → ℤ → Text
place_point digits (pos p) =
    if leb (length digits) p
    then digits ++ replicate (p - length digits) b'0'
    else if p == 0
    then b'0' ∷ b'.' ∷ digits
    else take p digits ++ b'.' ∷ drop p digits
place_point digits (negsuc p) = b'0' ∷ b'.' ∷ (replicate (suc p) b'0' ++ digits)

pub expand_mantissa : (mantissa exp_str : Text) → Text
unfolding strip_sign starts_with_minus exponent_value place_point
expand_mantissa mantissa exp_str =
    let (int_part, dot, frac_part) = partition b'.' (strip_sign mantissa) in
    let result =
      place_point (int_part ++ frac_part) (pos (length int_part) +ℤ exponent_value exp_str) in
    if starts_with_minus mantissa then b'-' ∷ result else result

-- `_expand_scientific`
unfoldable pub expand_scientific : Text → Option Text
unfolding split_exponent matches_numeric strip_sign is_digits expand_mantissa
expand_scientific t = elim (split_exponent t) [
  | none ↦ none
  | some (mantissa, exp_str) ↦
      if matches_numeric (strip_sign mantissa) && is_digits (strip_sign exp_str)
      then some (expand_mantissa mantissa exp_str)
      else none
]

-- What `parse_numeric` does with the fixed-point text.
unfoldable pub parse_fixed_point : Text → Result Decimal
parse_fixed_point t = do
  raise_if (not (matches_numeric t)) malformed_numeric
  let (integer_part, dot, fractional_part) = partition b'.' t
  let integer_places = length (lstrip_zeros integer_part)
  let trimmed_fraction = rstrip_zeros fractional_part
  raise_if (ltb max_fractional_places (length trimmed_fraction)) decimal_overflow
  raise_if (ltb max_integer_places integer_places) decimal_overflow
  raise_if (ltb max_total_fixed_point_digits (integer_places + length fractional_part))
      decimal_overflow
  ok (record {
    coefficient = pos (value (integer_part ++ fractional_part));
    scale = length fractional_part;
  })

-- `if expanded is not None: text = expanded`
abbrev pub expanded_or : Text → Option Text → Text
expanded_or t none = t
expanded_or t (some expanded) = expanded

unfoldable pub parse_numeric : Text → Result Decimal
parse_numeric t = parse_fixed_point (expanded_or t (expand_scientific t))
