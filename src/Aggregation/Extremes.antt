-- ===== src/Aggregation/Extremes.antt =====
-- `max` and `min` over the highs and lows of a group in src/quantara/aggregation.py.
use quantara.Prelude.{
  All, ◌≡◌, refl, sym, ap, subst, List, [], ◌∷◌, Bool-cases, inl, inr, ◌⊎◌, if◌then◌else◌,
}
use quantara.Decimal.{Decimal, ltb_decimal}
use quantara.Decimal.Order.{◌≤ᵈ◌, ≤ᵈ_refl, ≤ᵈ_trans, ltb_decimal-le, ltb_decimal-not}
use quantara.Aggregation.{max_decimal, min_decimal}

-- `d` is one of the list.
abbrev pub OneOf : Decimal → List Decimal → Type 0
OneOf d [] = ⊥
OneOf d (x ∷ xs) = (d ≡ x) ⊎ OneOf d xs

-- `d` is the largest of the list, or the smallest, by value.
abbrev pub IsMaximum : Decimal → List Decimal → Type 0
IsMaximum d xs = All (λ v. v ≤ᵈ d) xs × OneOf d xs

abbrev pub IsMinimum : Decimal → List Decimal → Type 0
IsMinimum d xs = All (λ v. d ≤ᵈ v) xs × OneOf d xs

skip_second : (d x y : Decimal) (vs : List Decimal) → OneOf d (x ∷ vs) → OneOf d (x ∷ y ∷ vs)
skip_second d x y vs (inl e) = inl e
skip_second d x y vs (inr o) = inr (inr o)

pub max_decimal-IsMaximum :
    (best : Decimal) (vs : List Decimal) → IsMaximum (max_decimal best vs) (best ∷ vs)
unfolding max_decimal
max_decimal-IsMaximum best [] = ((≤ᵈ_refl best, tt), inl refl)
max_decimal-IsMaximum best (v ∷ vs) = elim (Bool-cases (ltb_decimal best v)) [
  | inl larger ↦
      subst (λ d. IsMaximum d (best ∷ v ∷ vs))
        (ap (λ c. max_decimal (if c then v else best) vs) (sym larger))
        (let (a, o) = max_decimal-IsMaximum v vs in
          ((≤ᵈ_trans best v _ (ltb_decimal-le best v larger) a.0, a), inr o))
  | inr smaller ↦
      subst (λ d. IsMaximum d (best ∷ v ∷ vs))
        (ap (λ c. max_decimal (if c then v else best) vs) (sym smaller))
        (let (a, o) = max_decimal-IsMaximum best vs in
          (
            (a.0, (≤ᵈ_trans v best _ (ltb_decimal-not best v smaller) a.0, a.1)),
            skip_second (max_decimal best vs) best v vs o,
          ))
]

pub min_decimal-IsMinimum :
    (best : Decimal) (vs : List Decimal) → IsMinimum (min_decimal best vs) (best ∷ vs)
unfolding min_decimal
min_decimal-IsMinimum best [] = ((≤ᵈ_refl best, tt), inl refl)
min_decimal-IsMinimum best (v ∷ vs) = elim (Bool-cases (ltb_decimal v best)) [
  | inl smaller ↦
      subst (λ d. IsMinimum d (best ∷ v ∷ vs))
        (ap (λ c. min_decimal (if c then v else best) vs) (sym smaller))
        (let (a, o) = min_decimal-IsMinimum v vs in
          ((≤ᵈ_trans _ v best a.0 (ltb_decimal-le v best smaller), a), inr o))
  | inr larger ↦
      subst (λ d. IsMinimum d (best ∷ v ∷ vs))
        (ap (λ c. min_decimal (if c then v else best) vs) (sym larger))
        (let (a, o) = min_decimal-IsMinimum best vs in
          (
            (a.0, (≤ᵈ_trans _ best v a.0 (ltb_decimal-not v best larger), a.1)),
            skip_second (min_decimal best vs) best v vs o,
          ))
]
