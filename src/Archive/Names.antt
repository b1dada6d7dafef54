-- ===== src/Archive/Names.antt =====
-- The names that src/quantara/archive.py holds safe, by a scan of their characters.
use quantara.Prelude.{
  ℕ, ◌≡◌, ◌≢◌, ◌↔◌, refl, sym, ap, ◌∙◌, Bool, true, false, not, ◌&&◌, ◌||◌, List, [], ◌∷◌, arith,
  ◌==◌, leb, Bool-cases, inl, inr, if_true, if_false, if◌then◌else◌,
}
use quantara.Text.{Text, codes, text_eq}
use quantara.Archive.{put_first, segments, has_drive, has_traversal, name_is_safe}

-- A slash or a backslash.
abbrev is_slash : ℕ → Bool
is_slash c = c == b'\\' || c == b'/'

abbrev is_ascii_letter : ℕ → Bool
is_ascii_letter c = (leb b'A' c && leb c b'Z') || (leb b'a' c && leb c b'z')

-- The text begins with the segment `s`, up to a separator or the end.
abbrev begins_segment : (s name : Text) → Bool
begins_segment [] [] = true
begins_segment [] (c ∷ cs) = is_slash c
begins_segment (d ∷ s) [] = false
begins_segment (d ∷ s) (c ∷ cs) = not (is_slash c) && c == d && begins_segment s cs

-- The segment `..` stands behind a separator.
abbrev steps_up_later : (name : Text) → Bool
steps_up_later [] = false
steps_up_later (c ∷ cs) = is_slash c && begins_segment (codes "..") cs || steps_up_later cs

-- No letter and colon in front.
abbrev HasNoDrive : Text → Type 0
HasNoDrive (c ∷ d ∷ cs) = is_ascii_letter c ≡ true → d ≢ b':'
HasNoDrive _ = Unit

-- A relative name: not empty, with no separator and no drive in front, and no segment `..`.
abbrev pub IsRelative : Text → Type 0
IsRelative [] = ⊥
IsRelative (c ∷ cs) =
    (is_slash c ≡ false)
    × HasNoDrive (c ∷ cs)
    × (begins_segment (codes "..") (c ∷ cs) ≡ false)
    × (steps_up_later (c ∷ cs) ≡ false)

empty-begins : (c : ℕ) (cs t : Text) → is_slash c ≡ true → text_eq [] t ≡ begins_segment t (c ∷ cs)
unfolding text_eq
empty-begins c cs [] h = sym h
empty-begins c cs (d ∷ t) h = rw h refl

cons-begins :
    (c : ℕ) (s cs : Text)
    → is_slash c ≡ false
    → ((t : Text) → text_eq s t ≡ begins_segment t cs)
    → (t : Text) → text_eq (c ∷ s) t ≡ begins_segment t (c ∷ cs)
unfolding text_eq
cons-begins c s cs h first [] = sym h
cons-begins c s cs h first (d ∷ t) = rw (h, first t) refl

nothing-begins : (t : Text) → text_eq [] t ≡ begins_segment t []
unfolding text_eq
nothing-begins [] = refl
nothing-begins (d ∷ t) = refl

first_segment :
    (cs : Text)
    → (s : Text) × (ss : List Text) × (segments cs ≡ s ∷ ss)
      × ((t : Text) → text_eq s t ≡ begins_segment t cs)
      × (has_traversal ss ≡ steps_up_later cs)
unfolding segments put_first has_traversal
first_segment [] = ([], [], refl, nothing-begins, refl)
first_segment (c ∷ cs) =
    let (s, ss, e, first, later) = first_segment cs in
    elim (Bool-cases (is_slash c)) [
      | inl divides ↦ (
        [],
        segments cs,
        if_true _ _ _ divides,
        λ t. empty-begins c cs t divides,
        rw (divides, e, first (codes ".."), later) refl,
      )
      | inr inside ↦ (
        c ∷ s,
        ss,
        if_false _ _ _ inside ∙ ap (put_first c) e,
        cons-begins c s cs inside first,
        rw inside later,
      )
    ]

has_drive-HasNoDrive : (name : Text) → (has_drive name ≡ false) ↔ HasNoDrive name
unfolding has_drive
has_drive-HasNoDrive [] = (λ h. tt, λ h. refl)
has_drive-HasNoDrive (c ∷ []) = (λ h. tt, λ h. refl)
has_drive-HasNoDrive (c ∷ d ∷ cs) = elim (Bool-cases (is_ascii_letter c)) [
  | inl letter ↦ rw letter (λ h. λ l. ground arith, λ h. let apart = h refl in ground arith)
  | inr other ↦ rw other (λ h. λ l. cc, λ h. refl)
]

passes_three :
    (a d u : Bool)
    → ((if a then false else if d then false else not u) ≡ true)
      ↔ ((a ≡ false) × (d ≡ false) × (u ≡ false))
passes_three true d u = (λ h. cc, λ w. let (x, y, z) = w in cc)
passes_three false true u = (λ h. cc, λ w. let (x, y, z) = w in cc)
passes_three false false true = (λ h. cc, λ w. let (x, y, z) = w in cc)
passes_three false false false = (λ h. (refl, refl, refl), λ w. refl)

neither : (a b : Bool) → ((a || b) ≡ false) ↔ ((a ≡ false) × (b ≡ false))
neither true b = (λ h. cc, λ w. let (x, y) = w in cc)
neither false b = (λ h. (refl, h), λ w. w.1)

swapped : (c : ℕ) → ((c == b'/' || c == b'\\') ≡ false) ↔ (is_slash c ≡ false)
swapped c = (λ h. ground arith, λ h. ground arith)

-- The names that are taken for safe are the relative ones.
pub name_is_safe-IsRelative : (name : Text) → (name_is_safe name ≡ true) ↔ IsRelative name
unfolding name_is_safe
name_is_safe-IsRelative [] = (λ h. cc, λ h. absurd h)
name_is_safe-IsRelative (c ∷ cs) =
    let (s, ss, e, first, later) = first_segment (c ∷ cs) in
    let up : has_traversal (segments (c ∷ cs))
        ≡ (begins_segment (codes "..") (c ∷ cs) || steps_up_later (c ∷ cs)) =
      unfold has_traversal in rw (e, first (codes ".."), later) refl in
    let (to, back) = has_drive-HasNoDrive (c ∷ cs) in
    let (there, here) =
      passes_three (c == b'/' || c == b'\\') (has_drive (c ∷ cs))
        (has_traversal (segments (c ∷ cs))) in
    let (split, join) = neither (begins_segment (codes "..") (c ∷ cs)) (steps_up_later (c ∷ cs)) in
    (
      λ h.
          let (a, d, u) = there h in
          let (x, y) = split (sym up ∙ u) in ((swapped c).0 a, to d, x, y),
      λ (a, d, x, y). here ((swapped c).1 a, back d, up ∙ join (x, y)),
    )
