-- ===== src/Text.antt =====
-- Texts as lists of code points, with the string operations that parsing.py, hashing.py and jcs.py
-- (under src/quantara) use: partition, strip, rjust, slices, and decimal numerals both ways.
pub mod Numerals
use Prim.Native.Char.{code}
use quantara.Prelude.{
  ℕ, zero, suc, ◌+◌, ◌-◌, ◌*◌, ◌/◌, ◌%◌, String, Bool, true, false, ◌≡◌, ◌↔◌, refl, arith, ◌&&◌,
  List, [], ◌∷◌, ◌++◌, length, replicate, ltb, leb, ◌==◌, if◌then◌else◌,
}

abbrev pub Text : Type 0
Text = List ℕ

-- The code points of a string literal.
abbrev pub codes : String → Text
codes String.[] = []
codes (String.◌∷◌ c s) = code c ∷ codes s

-- Equality of texts.
unfoldable pub text_eq : Text → Text → Bool
text_eq [] [] = true
text_eq [] (d ∷ ds) = false
text_eq (c ∷ cs) [] = false
text_eq (c ∷ cs) (d ∷ ds) = c == d && text_eq cs ds

pub text_eq_iff : (s t : Text) → (text_eq s t ≡ true) ↔ (s ≡ t)
unfolding text_eq
text_eq_iff [] [] = (λ h. refl, λ h. refl)
text_eq_iff [] (d ∷ ds) = ground arith
text_eq_iff (c ∷ cs) [] = ground arith
text_eq_iff (c ∷ cs) (d ∷ ds) =
    (λ h. ground (arith, (text_eq_iff cs ds).0), λ h. ground (arith, (text_eq_iff cs ds).1))

pub text_eq_refl : (t : Text) → text_eq t t ≡ true
text_eq_refl t = (text_eq_iff t t).1 refl

-- `[0-9]`
abbrev pub is_digit : ℕ → Bool
is_digit c = leb 48 c && leb c 57

-- `[0-9]*`
unfoldable pub all_digits : Text → Bool
all_digits [] = true
all_digits (c ∷ cs) = is_digit c && all_digits cs

-- `int(text)` of a text of digits.
unfoldable pub value_from : ℕ → Text → ℕ
value_from acc [] = acc
value_from acc (c ∷ cs) = value_from (acc * 10 + (c - 48)) cs

unfoldable pub value : Text → ℕ
unfolding value_from
value t = value_from 0 t

-- `str(n)`: the last digit is found first. The fuel n + 1 is more than the digits of n.
unfoldable pub numeral_loop : (fuel n : ℕ) → Text → Text
numeral_loop zero n rest = rest
numeral_loop (suc fuel) n rest =
    let more = numeral_loop fuel (n / 10) ((48 + n % 10) ∷ rest) in
    if ltb n 10 then (48 + n % 10) ∷ rest else more

unfoldable pub numeral : ℕ → Text
unfolding numeral_loop
numeral n = numeral_loop (suc n) n []

-- `text.partition(c)`: what stands before the first `c`, whether there is one, and what follows it.
unfoldable pub partition : ℕ → Text → Text × Bool × Text
partition c [] = ([], false, [])
partition c (d ∷ ds) =
    let (before, found, after) = partition c ds in
    if d == c then ([], true, ds) else (d ∷ before, found, after)

-- `text.lstrip("0")`
unfoldable pub lstrip_zeros : Text → Text
lstrip_zeros [] = []
lstrip_zeros (c ∷ cs) = let rest = lstrip_zeros cs in if c == 48 then rest else c ∷ cs

-- A character in front of a text whose zeros on the right are gone.
unfoldable pub put_front : ℕ → Text → Text
put_front c [] = if c == 48 then [] else c ∷ []
put_front c (d ∷ ds) = c ∷ d ∷ ds

-- `text.rstrip("0")`
unfoldable pub rstrip_zeros : Text → Text
unfolding put_front
rstrip_zeros [] = []
rstrip_zeros (c ∷ cs) = put_front c (rstrip_zeros cs)

-- `text.rjust(width, "0")`
unfoldable pub rjust_zeros : ℕ → Text → Text
rjust_zeros width t = replicate (width - length t) 48 ++ t
