-- ===== src/Approval/Shapes.antt =====
-- What the patterns of src/quantara/quality_approval.py say of a text, character by character.
use quantara.Prelude.{
  ℕ, zero, suc, ◌≡◌, ◌≢◌, ◌≤◌, ◌⊎◌, inl, inr, refl, ap, subst, Bool, true, false, ◌&&◌, Option,
  none, some, List, [], ◌∷◌, ◌++◌, All, drop, replicate, arith, Bool-cases, ◌==◌,
}
use quantara.Text.{Text, text_eq, text_eq_iff}
use quantara.Hashing.Content.{all_of}
use quantara.Approval.Patterns.{
  contains, is_lower_hex, at_end, repeats, matches_sha256_hex, matches_groups,
  matches_utc_timestamp,
}

-- Nothing, or a line feed, which `$` lets stand at the end.
abbrev pub IsEnd : Text → Type 0
IsEnd t = (t ≡ []) ⊎ (t ≡ 10 ∷ [])

-- A digit or a letter from a to f.
abbrev pub IsLowerHex : ℕ → Type 0
IsLowerHex c = ((48 ≤ c) × (c ≤ 57)) ⊎ ((97 ≤ c) × (c ≤ 102))

-- As many characters of a kind, and the end.
abbrev pub IsRun : (ℕ → Type 0) → ℕ → Text → Type 0
IsRun P zero t = IsEnd t
IsRun P (suc n) [] = ⊥
IsRun P (suc n) (c ∷ cs) = P c × IsRun P n cs

abbrev pub IsDigest : Text → Type 0
IsDigest = IsRun IsLowerHex 64

-- A digit for each `none`, and the character itself for each `some`.
abbrev pub Fits : (is_decimal : ℕ → Bool) → List (Option ℕ) → Text → Type 0
Fits is_decimal [] t = IsEnd t
Fits is_decimal (mark ∷ marks) [] = ⊥
Fits is_decimal (none ∷ marks) (c ∷ cs) = (is_decimal c ≡ true) × Fits is_decimal marks cs
Fits is_decimal (some d ∷ marks) (c ∷ cs) = (c ≡ d) × Fits is_decimal marks cs

-- YYYY-MM-DDTHH:MM:SSZ
abbrev pub IsTimestamp : (is_decimal : ℕ → Bool) → Text → Type 0
IsTimestamp is_decimal = Fits is_decimal (
    none
    ∷ none
    ∷ none
    ∷ none
    ∷ some b'-'
    ∷ none
    ∷ none
    ∷ some b'-'
    ∷ none
    ∷ none
    ∷ some b'T'
    ∷ none
    ∷ none
    ∷ some b':'
    ∷ none
    ∷ none
    ∷ some b':'
    ∷ none
    ∷ none
    ∷ some b'Z'
    ∷ [])

abbrev pub IsOneOf : Text → List Text → Type 0
IsOneOf t [] = ⊥
IsOneOf t (s ∷ ss) = (t ≡ s) ⊎ IsOneOf t ss

at_end-IsEnd : (t : Text) → at_end t ≡ true → IsEnd t
unfolding at_end
at_end-IsEnd [] h = inl refl
at_end-IsEnd (c ∷ []) h = let same : c ≡ 10 = ground arith in inr (ap (λ x. x ∷ []) same)
at_end-IsEnd (c ∷ d ∷ cs) h = cc

is_lower_hex-IsLowerHex : (c : ℕ) → is_lower_hex c ≡ true → IsLowerHex c
unfolding is_lower_hex
is_lower_hex-IsLowerHex c h = ground arith

-- The first character of a run, and the rest.
repeats-cons :
    (test : ℕ → Bool) (n : ℕ) (c : ℕ) (cs : Text)
    → repeats test (suc n) (c ∷ cs) ≡ true
    → (test c ≡ true) × (repeats test n cs ≡ true)
unfolding repeats all_of
repeats-cons test n c cs h = (ground arith, ground arith)

repeats-nil : (test : ℕ → Bool) (n : ℕ) → repeats test (suc n) [] ≢ true
unfolding repeats
repeats-nil test n h = ground arith

repeats-IsRun :
    (n : ℕ) (t : Text)
    → repeats is_lower_hex n t ≡ true
    → at_end (drop n t) ≡ true
    → IsRun IsLowerHex n t
repeats-IsRun zero t h e = at_end-IsEnd t e
repeats-IsRun (suc n) [] h e = absurd (repeats-nil is_lower_hex n h)
repeats-IsRun (suc n) (c ∷ cs) h e =
    let (first, more) = repeats-cons is_lower_hex n c cs h in
    (is_lower_hex-IsLowerHex c first, repeats-IsRun n cs more e)

both_true : (a b : Bool) → (a && b) ≡ true → (a ≡ true) × (b ≡ true)
both_true true b h = (refl, h)
both_true false b h = cc

pub matches_sha256_hex-IsDigest : (t : Text) → matches_sha256_hex t ≡ true → IsDigest t
unfolding matches_sha256_hex
matches_sha256_hex-IsDigest t h =
    let (run, end) = both_true (repeats is_lower_hex 64 t) (at_end (drop 64 t)) h in
    repeats-IsRun 64 t run end

repeats-Fits :
    (is_decimal : ℕ → Bool) (n : ℕ) (marks : List (Option ℕ)) (t : Text)
    → repeats is_decimal n t ≡ true
    → Fits is_decimal marks (drop n t)
    → Fits is_decimal (replicate n none ++ marks) t
repeats-Fits is_decimal zero marks t h f = f
repeats-Fits is_decimal (suc n) marks [] h f = absurd (repeats-nil is_decimal n h)
repeats-Fits is_decimal (suc n) marks (c ∷ cs) h f =
    let (first, more) = repeats-cons is_decimal n c cs h in
    (first, repeats-Fits is_decimal n marks cs more f)

abbrev marks_of : List (ℕ × ℕ) → List (Option ℕ)
marks_of [] = []
marks_of ((digits, separator) ∷ groups) =
    replicate digits none ++ (some separator ∷ marks_of groups)

separator-Fits :
    (is_decimal : ℕ → Bool) (separator : ℕ) (marks : List (Option ℕ)) (t : Text)
    → repeats (λ c. c == separator) 1 t ≡ true
    → Fits is_decimal marks (drop 1 t)
    → Fits is_decimal (some separator ∷ marks) t
separator-Fits is_decimal separator marks [] h f = absurd (repeats-nil _ 0 h)
separator-Fits is_decimal separator marks (c ∷ cs) h f =
    let (same, more) = repeats-cons (λ x. x == separator) 0 c cs h in (ground arith, f)

drop-suc : (n : ℕ) (t : Text) → drop (suc n) t ≡ drop 1 (drop n t)
drop-suc zero t = refl
drop-suc (suc n) [] = refl
drop-suc (suc n) (c ∷ cs) = drop-suc n cs

matches_groups-Fits :
    (is_decimal : ℕ → Bool) (groups : List (ℕ × ℕ)) (t : Text)
    → matches_groups is_decimal groups t ≡ true
    → Fits is_decimal (marks_of groups) t
unfolding matches_groups
matches_groups-Fits is_decimal [] t h = at_end-IsEnd t h
matches_groups-Fits is_decimal ((digits, separator) ∷ groups) t h =
    let rest : Fits is_decimal (marks_of groups) (drop (suc digits) t) =
      matches_groups-Fits is_decimal groups (drop (suc digits) t) (ground arith) in
    repeats-Fits is_decimal digits (some separator ∷ marks_of groups) t (ground arith) (
      separator-Fits is_decimal separator (marks_of groups) (drop digits t) (ground arith)
        (subst (Fits is_decimal (marks_of groups)) (drop-suc digits t) rest))

pub matches_utc_timestamp-IsTimestamp :
    (is_decimal : ℕ → Bool) (t : Text)
    → matches_utc_timestamp is_decimal t ≡ true
    → IsTimestamp is_decimal t
unfolding matches_utc_timestamp
matches_utc_timestamp-IsTimestamp is_decimal t h = matches_groups-Fits is_decimal _ t h

pub contains-IsOneOf : (t : Text) (ss : List Text) → contains t ss ≡ true → IsOneOf t ss
unfolding contains
contains-IsOneOf t [] h = cc
contains-IsOneOf t (s ∷ ss) h = elim (Bool-cases (text_eq t s)) [
  | inl same ↦ inl ((text_eq_iff t s).0 same)
  | inr differ ↦ inr (contains-IsOneOf t ss (ground arith))
]

pub contains-absent : (t : Text) (ss : List Text) → contains t ss ≡ false → All (λ s. t ≢ s) ss
unfolding contains
contains-absent t [] h = tt
contains-absent t (s ∷ ss) h =
    (λ e. let same = (text_eq_iff t s).1 e in ground arith, contains-absent t ss (ground arith))
