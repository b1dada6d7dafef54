-- ===== src/Hashing/Identity.antt =====
-- What a content hash of src/quantara/hashing.py identifies.
use quantara.Prelude.{
  ℕ, ◌≤◌, ◌≡◌, ◌≢◌, ◌⊎◌, inl, inr, sym, ◌∙◌, subst, Bool, List, [], ◌∷◌, ◌++◌, All, arith,
  Bool-cases,
}
use quantara.Text.{Text, text_eq, text_eq_iff}
use quantara.Json.{Items}
use quantara.Hashing.Encoding.{line_unique}
use quantara.Hashing.Framing.{
  IsRowCheck, canonical_row_array-IsRowCheck, frame_rows_injective, framed_lem,
}
use quantara.Hashing.Content.{
  canonical_row_array, research_row_array, frame_rows, framed, content_hash_domain,
  research_content_hash_domain, canonical_content_hash_python, research_content_hash_python,
}
use quantara.Errors.{Result, ok, >>=-eq-ok, ok_injective}

-- Two byte strings of one digest.
abbrev pub HasCollision : (List ℕ → Text) → Type 0
HasCollision sha256_hex = (x : List ℕ) × (y : List ℕ) × (x ≢ y) × (sha256_hex x ≡ sha256_hex y)

pub equal-or-collision :
    (sha256_hex : List ℕ → Text) (x y : List ℕ)
    → sha256_hex x ≡ sha256_hex y
    → (x ≡ y) ⊎ HasCollision sha256_hex
equal-or-collision sha256_hex x y h = elim (Bool-cases (text_eq x y)) [
  | inl same ↦ inl ((text_eq_iff x y).0 same)
  | inr other ↦ inr (x, y, (λ e. cc ((text_eq_iff x y).1 e)), h)
]

-- No character below a space, as of a digest in hexadecimal.
abbrev pub IsLine : Text → Type 0
IsLine = All (λ c. 32 ≤ c)

pub prefix_cancel : (domain s t : List ℕ) → domain ++ s ≡ domain ++ t → s ≡ t
prefix_cancel [] s t h = h
prefix_cancel (c ∷ domain) s t h = prefix_cancel domain s t cc

pub tail_injective : (c : ℕ) {s t : List ℕ} → c ∷ s ≡ c ∷ t → s ≡ t
tail_injective c h = cc

framed_injective :
    (row_array : Items → Result Items) (lower : Text → Text) (domain f g : Text)
    (rows others : List Items) (bytes : List ℕ)
    → IsRowCheck row_array
    → IsLine (lower f)
    → IsLine (lower g)
    → framed row_array lower domain f rows ≡ ok bytes
    → framed row_array lower domain g others ≡ ok bytes
    → (lower f ≡ lower g) × (rows ≡ others)
framed_injective row_array lower domain f g rows others bytes check a b h k =
    let (u, r, e) = framed_lem row_array lower domain f rows bytes h in
    let (v, o, q) = framed_lem row_array lower domain g others bytes k in
    let (same, rest) = line_unique (lower f) (lower g) u v a b (
      tail_injective 0
        (prefix_cancel domain (0 ∷ (lower f ++ 10 ∷ u)) (0 ∷ (lower g ++ 10 ∷ v)) (sym e ∙ q))) in
    (
      same,
      frame_rows_injective row_array rows others u check r
          (subst (λ z. frame_rows row_array others ≡ ok z) (sym rest) o),
    )

-- If two tables have one canonical content hash, they have the same rows, and fingerprints that are the
-- same when lowered, unless two byte strings of one SHA-256 digest have been found. The lowered
-- fingerprints have no character below a space.
pub canonical_content_hash_python-identifies :
    (sha256_hex : List ℕ → Text) (lower : Text → Text) (f g : Text) (rows others : List Items)
    (digest : Text)
    → IsLine (lower f)
    → IsLine (lower g)
    → canonical_content_hash_python sha256_hex lower f rows ≡ ok digest
    → canonical_content_hash_python sha256_hex lower g others ≡ ok digest
    → ((lower f ≡ lower g) × (rows ≡ others)) ⊎ HasCollision sha256_hex
unfolding canonical_content_hash_python
canonical_content_hash_python-identifies sha256_hex lower f g rows others digest a b h k =
    let (x, e, p) = >>=-eq-ok (framed canonical_row_array lower content_hash_domain f rows) _ h in
    let (y, q, r) = >>=-eq-ok (framed canonical_row_array lower content_hash_domain g others) _ k in
    elim (equal-or-collision sha256_hex x y (ok_injective p ∙ sym (ok_injective r))) [
      | inl same ↦ inl (
          framed_injective canonical_row_array lower content_hash_domain f g rows others x
            canonical_row_array-IsRowCheck a b e
            (subst (λ z. framed canonical_row_array lower content_hash_domain g others ≡ ok z)
              (sym same) q))
      | inr found ↦ inr found
    ]

-- A research table never has the hash of a canonical one, unless two byte strings of one SHA-256
-- digest have been found.
pub research_content_hash_python-separated :
    (sha256_hex : List ℕ → Text) (lower : Text → Text) (is_decimal : ℕ → Bool) (f g : Text)
    (rows others : List Items) (digest : Text)
    → canonical_content_hash_python sha256_hex lower f rows ≡ ok digest
    → research_content_hash_python sha256_hex lower is_decimal g others ≡ ok digest
    → HasCollision sha256_hex
unfolding canonical_content_hash_python research_content_hash_python
research_content_hash_python-separated sha256_hex lower is_decimal f g rows others digest h k =
    let (x, e, p) = >>=-eq-ok (framed canonical_row_array lower content_hash_domain f rows) _ h in
    let (y, q, r) =
      >>=-eq-ok (framed (research_row_array is_decimal) lower research_content_hash_domain g others)
        _ k in
    let (u, _, b) = framed_lem canonical_row_array lower content_hash_domain f rows x e in
    let (v, _, c) =
      framed_lem (research_row_array is_decimal) lower research_content_hash_domain g others y q in
    (
      x,
      y,
      (λ same. let clash = sym b ∙ same ∙ c in grind arith),
      ok_injective p ∙ sym (ok_injective r),
    )
