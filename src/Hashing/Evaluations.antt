-- ===== src/Hashing/Evaluations.antt =====
-- What the content hash of a feature evaluation (src/quantara/hashing.py) identifies.
use quantara.Prelude.{
  ℕ, ◌≡◌, ◌⊎◌, inl, inr, refl, sym, ap, ◌∙◌, subst, true, ◌&&◌, List, [], ◌∷◌, ◌++◌, arith, length,
  ◌==◌, Bool-cases, if_true,
}
use quantara.Text.{Text}
use quantara.Json.{Json, null, float, foreign, bool, int, string, array, object}
use quantara.Errors.{ok, >>=-eq-ok, ok_injective}
use quantara.Hashing.{ascii}
use quantara.Hashing.Encoding.{line_unique}
use quantara.Hashing.Framing.{ascii_lem}
use quantara.Hashing.Identity.{
  HasCollision, equal-or-collision, IsLine, prefix_cancel, tail_injective,
}
use quantara.Hashing.Artifacts.{
  bytes, is_hex, all_hex, check_digest, evaluation_content_hash, evaluation_content_hash_domain,
  join_parts, bytes_of,
}

-- The bytes of a text that ends in a line feed of its own.
last_cancel : (s t : List ℕ) → s ++ 10 ∷ [] ≡ t ++ 10 ∷ [] → s ≡ t
last_cancel [] [] h = refl
last_cancel [] (y ∷ []) h = cc
last_cancel [] (y ∷ z ∷ t) h = cc
last_cancel (x ∷ []) [] h = cc
last_cancel (x ∷ z ∷ s) [] h = cc
last_cancel (x ∷ s) (y ∷ t) h = let rest = last_cancel s t cc in cc

all_hex-IsLine : (t : Text) → all_hex t ≡ true → IsLine t
unfolding all_hex is_hex
all_hex-IsLine [] h = tt
all_hex-IsLine (c ∷ t) h = (ground arith, all_hex-IsLine t (ground arith))

check_digest-IsLine : (v : Json) (t : Text) → check_digest v ≡ ok t → (v ≡ string t) × IsLine t
unfolding check_digest
check_digest-IsLine (string s) t h = elim (Bool-cases (length s == 64 && all_hex s)) [
  | inl good ↦
      let e : s ≡ t = ok_injective (sym (if_true _ _ _ good) ∙ h) in
      (ap string e, subst IsLine e (all_hex-IsLine s (ground arith)))
  | inr bad ↦ cc
]
check_digest-IsLine null t h = cc
check_digest-IsLine float t h = cc
check_digest-IsLine foreign t h = cc
check_digest-IsLine (bool b) t h = cc
check_digest-IsLine (int n) t h = cc
check_digest-IsLine (array items) t h = cc
check_digest-IsLine (object entries) t h = cc

-- An evaluation hash that is given tells the fingerprint and every byte of the artifact, unless two
-- byte strings of one SHA-256 digest have been found.
pub evaluation_content_hash-identifies :
    (sha256_hex : List ℕ → Text) (f g : Json) (s t : List ℕ) (digest : Text)
    → evaluation_content_hash sha256_hex f (bytes s) ≡ ok digest
    → evaluation_content_hash sha256_hex g (bytes t) ≡ ok digest
    → ((f ≡ g) × (s ≡ t)) ⊎ HasCollision sha256_hex
unfolding evaluation_content_hash join_parts bytes_of
evaluation_content_hash-identifies sha256_hex f g s t digest h k =
    let (x, e, p) = >>=-eq-ok (check_digest f) _ h in
    let (xs, e', p') = >>=-eq-ok (ascii x) _ p in
    let (y, q, r) = >>=-eq-ok (check_digest g) _ k in
    let (ys, q', r') = >>=-eq-ok (ascii y) _ r in
    let (fx, a) = check_digest-IsLine f x e in
    let (gy, b) = check_digest-IsLine g y q in
    elim (equal-or-collision sha256_hex (join_parts evaluation_content_hash_domain xs s)
      (join_parts evaluation_content_hash_domain ys t) (ok_injective p' ∙ sym (ok_injective r'))) [
        | inl same ↦
            let named : (xs ≡ x) × (ys ≡ y) = (ascii_lem x xs e', ascii_lem y ys q') in
            let (l, rest) =
              line_unique xs ys (s ++ 10 ∷ []) (t ++ 10 ∷ []) (subst IsLine (sym named.0) a)
                (subst IsLine (sym named.1) b)
                (tail_injective 0 (
                  prefix_cancel evaluation_content_hash_domain (0 ∷ (xs ++ 10 ∷ (s ++ 10 ∷ [])))
                    (0 ∷ (ys ++ 10 ∷ (t ++ 10 ∷ []))) same)) in
            inl (fx ∙ ap string (sym named.0 ∙ l ∙ named.1) ∙ sym gy, last_cancel s t rest)
        | inr found ↦ inr found
      ]
