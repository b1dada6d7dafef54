-- ===== src/Jcs/RoundTrip.antt =====
-- src/quantara/jcs.py against the reader: strings and integers.
pub mod Values
pub mod Sorted
pub mod Whole
pub mod Canonical
use mathlib.Core.List.{append_assoc}
use quantara.Prelude.{
  ℕ, zero, suc, ◌+◌, ◌-◌, ◌*◌, ◌/◌, ◌%◌, ◌≤◌, ◌<◌, ◌≡◌, refl, sym, ap, ◌∙◌, Bool, true, false, not,
  ◌&&◌, ◌||◌, Option, none, some, List, [], ◌∷◌, ◌++◌, length, length-append, arith, ltb, leb, ◌==◌,
  Bool-cases, inl, inr, if◌then◌else◌,
}
use quantara.Prelude.Int.{ℤ, pos, negsuc, sub_ℕ}
use quantara.Text.{Text, codes, is_digit, all_digits, value, numeral}
use quantara.Text.Numerals.{numeral-head, value-numeral, all_digits-numeral}
use quantara.Json.{Json, int}
use quantara.Jcs.{hex_digit, escape, escape_all, serialize_string, serialize_int}
use quantara.Jcs.Reader.{
  ◌▷◌, expect, hex_value, unescape, read_hex, read_escape, read_char, read_more, read_chars,
  span_digits, read_number,
}

-- An escape reads back as its character.
read_char-escape : (c : ℕ) (s : Text) → read_char (escape c ++ s) ≡ some (some c, s)
unfolding read_char read_escape unescape read_hex hex_value escape hex_digit
read_char-escape c s = ground arith

escape-length : (c : ℕ) → 1 ≤ length (escape c)
unfolding escape
escape-length c = ground arith

pub escape_all-length : (cs : Text) → length cs ≤ length (escape_all cs)
unfolding escape_all
escape_all-length [] = omega arith
escape_all-length (c ∷ cs) =
    omega (arith, length-append (escape c) (escape_all cs), escape-length c, escape_all-length cs)

pub read_chars-escape_all :
    (fuel : ℕ) (cs s : Text)
    → length cs < fuel
    → read_chars fuel (escape_all cs ++ b'"' ∷ s) ≡ some (cs, s)
unfolding read_chars escape_all
read_chars-escape_all zero cs s h = absurd (omega arith)
read_chars-escape_all (suc fuel) [] s h = unfold read_char in refl
read_chars-escape_all (suc fuel) (c ∷ cs) s h =
    rw
      (
        append_assoc (escape c) (escape_all cs) (b'"' ∷ s),
        read_char-escape c (escape_all cs ++ b'"' ∷ s),
        read_chars-escape_all fuel cs s (omega arith),
      )
      refl

-- No digit is next.
abbrev pub ends_number : Text → Bool
ends_number [] = true
ends_number (c ∷ t) = not (is_digit c)

span_digits-append :
    (d s : Text) → all_digits d ≡ true → ends_number s ≡ true → span_digits (d ++ s) ≡ (d, s)
unfolding span_digits all_digits
span_digits-append [] [] h e = refl
span_digits-append [] (c ∷ s) h e = ground arith
span_digits-append (c ∷ d) s h e = rw (span_digits-append d s (ground arith) e) (ground arith)

-- A number that begins with a digit.
number-digits :
    (c : ℕ) (t s : Text) (n : ℕ)
    → is_digit c ≡ true
    → span_digits (c ∷ (t ++ s)) ≡ (c ∷ t, s)
    → value (c ∷ t) ≡ n
    → read_number (c ∷ (t ++ s)) ≡ (int (pos n), s)
unfolding read_number
number-digits c t s n d whole v =
    let plain : (c == b'-') ≡ false = ground arith in rw (plain, whole, v) refl

pub read_number-pos :
    (n : ℕ) (s : Text) → ends_number s ≡ true → read_number (numeral n ++ s) ≡ (int (pos n), s)
read_number-pos n s e =
    let (c, t, h, d) = numeral-head n in
    let whole = span_digits-append (numeral n) s (all_digits-numeral n) e in
    rw h (
      number-digits c t s n d (sym (ap (λ v. span_digits (v ++ s)) h) ∙ whole ∙ ap (λ v. (v, s)) h)
        (sym (ap value h) ∙ value-numeral n))

pub read_number-neg :
    (n : ℕ) (s : Text)
    → ends_number s ≡ true
    → read_number (b'-' ∷ (numeral (suc n) ++ s)) ≡ (int (negsuc n), s)
unfolding read_number
read_number-neg n s e =
    rw
      (span_digits-append (numeral (suc n)) s (all_digits-numeral (suc n)) e, value-numeral (suc n))
      (ap (λ (z : ℤ). (int z, s)) {x = sub_ℕ 0 (suc n)} {y = negsuc n} (ground arith))
