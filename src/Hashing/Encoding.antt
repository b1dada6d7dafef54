-- ===== src/Hashing/Encoding.antt =====
-- The bytes of a text tell the text, and where a line ends.
use quantara.Prelude.{ℕ, ◌≤◌, ◌≡◌, ◌≢◌, refl, sym, ap, List, [], ◌∷◌, ◌++◌, All, arith}
use quantara.Text.{Text}
use quantara.Hashing.{utf_8_char, utf_8}

utf_8_char_nonempty : (c : ℕ) (s : List ℕ) → utf_8_char c ++ s ≢ []
unfolding utf_8_char
utf_8_char_nonempty c s h = grind arith

-- A character is read off its first bytes.
utf_8_char_prefix :
    (c d : ℕ) (s t : List ℕ) → utf_8_char c ++ s ≡ utf_8_char d ++ t → (c ≡ d) × (s ≡ t)
unfolding utf_8_char
utf_8_char_prefix c d s t h = grind arith

pub utf_8_injective : (s t : Text) → utf_8 s ≡ utf_8 t → s ≡ t
unfolding utf_8
utf_8_injective [] [] h = refl
utf_8_injective [] (d ∷ t) h = absurd (utf_8_char_nonempty d (utf_8 t) (sym h))
utf_8_injective (c ∷ s) [] h = absurd (utf_8_char_nonempty c (utf_8 s) h)
utf_8_injective (c ∷ s) (d ∷ t) h =
    let (e, f) = utf_8_char_prefix c d (utf_8 s) (utf_8 t) h in
    rw e (ap (λ (z : Text). d ∷ z) (utf_8_injective s t f))

-- No control byte comes of a text without control characters.
utf_8_char-All :
    (c : ℕ) (s : List ℕ) → 32 ≤ c → All (λ b. 32 ≤ b) s → All (λ b. 32 ≤ b) (utf_8_char c ++ s)
unfolding utf_8_char
utf_8_char-All c s h a = ground arith

pub utf_8-All : (t : Text) → All (λ c. 32 ≤ c) t → All (λ b. 32 ≤ b) (utf_8 t)
unfolding utf_8
utf_8-All [] a = tt
utf_8-All (c ∷ t) a = utf_8_char-All c (utf_8 t) a.0 (utf_8-All t a.1)

-- Lines end at the first line feed.
pub line_unique :
    (s t u v : List ℕ)
    → All (λ b. 32 ≤ b) s
    → All (λ b. 32 ≤ b) t
    → s ++ 10 ∷ u ≡ t ++ 10 ∷ v
    → (s ≡ t) × (u ≡ v)
line_unique [] [] u v a b h = (refl, cc)
line_unique [] (y ∷ t) u v a b h = absurd (grind arith)
line_unique (x ∷ s) [] u v a b h = absurd (grind arith)
line_unique (x ∷ s) (y ∷ t) u v a b h = let (e, f) = line_unique s t u v a.1 b.1 cc in (cc, f)
