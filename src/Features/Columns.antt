-- ===== src/Features/Columns.antt =====
-- The columns of src/quantara/features.py: what a loop over `range(start, n)` leaves in each place.
use mathlib.Core.Option.{some-injective}
use quantara.Prelude.{
  ℕ, zero, suc, ◌+◌, ◌-◌, ◌≤◌, ◌<◌, ◌≡◌, refl, sym, ap, ◌∙◌, ◌⊎◌, inl, inr, Option, none, some,
  List, [], ◌∷◌, ◌++◌, length, get_elem?, set, take, drop, replicate, length-set,
  get_elem?-set_self, get_elem?-set_ne, length-replicate, arith,
}
use quantara.Errors.{Result, ok, >>=-eq-ok, ok_injective}
use quantara.Features.{fill, column_from, at_index, or_index_error, slice}

eq_or_lt : (s i : ℕ) → s ≤ i → (i ≡ s) ⊎ (suc s ≤ i)
eq_or_lt s i h = omega arith

le_or_lt : (a b : ℕ) → (a ≤ b) ⊎ (b < a)
le_or_lt a b = omega arith

module _ {ℓ} {V : Type ℓ} where
  -- A column whose `count` places from `start` on hold what was computed for them.
  pub record Filled (compute : ℕ → Result V) (start count : ℕ) (before after : List (Option V))
      : Type ℓ where
    pub same_length : length after ≡ length before
    pub head : (i : ℕ) → i < start → get_elem? after i ≡ get_elem? before i
    pub tail : (i : ℕ) → start + count ≤ i → get_elem? after i ≡ get_elem? before i
    pub computed :
        (i : ℕ)
        → start ≤ i
        → i < start + count
        → (v : V) × (compute i ≡ ok v) × (get_elem? after i ≡ some (some v))

  pub fill-Filled :
      (compute : ℕ → Result V) (start count : ℕ) (before after : List (Option V))
      → start + count ≤ length before
      → fill compute start count before ≡ ok after
      → Filled compute start count before after
  unfolding fill
  fill-Filled compute start zero before after fits h =
      let e : before ≡ after = ok_injective h in
      record {
        same_length = sym (ap length e);
        head = λ i a. sym (ap (λ c. get_elem? c i) e);
        tail = λ i a. sym (ap (λ c. get_elem? c i) e);
        computed = λ i a b. absurd (omega arith);
      }
  fill-Filled compute start (suc count) before after fits h =
      let (value, e, k) =
        >>=-eq-ok (compute start) (λ v. fill compute (suc start) count (set before start (some v)))
          h in
      let written = set before start (some value) in
      let size = length-set before start (some value) in
      let rest = fill-Filled compute (suc start) count written after (omega (arith, size)) k in
      record {
        same_length = rest.same_length ∙ size;
        head =
            λ i a. rest.head i (omega arith) ∙ get_elem?-set_ne before (some value) (omega arith);
        tail =
            λ i a. rest.tail i (omega arith) ∙ get_elem?-set_ne before (some value) (omega arith);
        computed = λ i a b. elim (eq_or_lt start i a) [
          | inl here ↦ (
            value,
            ap compute here ∙ e,
            ap (get_elem? after) here
                ∙ rest.head start (omega arith)
                ∙ get_elem?-set_self before start (some value) (omega arith),
          )
          | inr later ↦ rest.computed i later (omega arith)
        ];
      }

  pub get_elem?-replicate : (n i : ℕ) (a : V) → i < n → get_elem? (replicate n a) i ≡ some a
  get_elem?-replicate zero i a h = absurd (omega arith)
  get_elem?-replicate (suc n) zero a h = refl
  get_elem?-replicate (suc n) (suc i) a h = get_elem?-replicate n i a (omega arith)

  get_elem?-none : (xs : List V) (i : ℕ) → length xs ≤ i → get_elem? xs i ≡ none
  get_elem?-none [] i h = refl
  get_elem?-none (x ∷ xs) zero h = absurd (omega arith)
  get_elem?-none (x ∷ xs) (suc i) h = get_elem?-none xs i (omega arith)

  -- Lists that agree in their first `m` places.
  abbrev pub Agree : ℕ → (xs ys : List V) → Type ℓ
  Agree m xs ys = (i : ℕ) → i < m → get_elem? xs i ≡ get_elem? ys i

  pub Agree-append : (xs ys zs : List V) → Agree (length xs) (xs ++ ys) (xs ++ zs)
  Agree-append [] ys zs i h = absurd (omega arith)
  Agree-append (x ∷ xs) ys zs zero h = refl
  Agree-append (x ∷ xs) ys zs (suc i) h = Agree-append xs ys zs i (omega arith)

  pub take-Agree : (m : ℕ) (xs ys : List V) → Agree m xs ys → take m xs ≡ take m ys
  take-Agree zero xs ys a = refl
  take-Agree (suc m) [] [] a = refl
  take-Agree (suc m) [] (y ∷ ys) a = let e = a 0 (omega arith) in cc
  take-Agree (suc m) (x ∷ xs) [] a = let e = a 0 (omega arith) in cc
  take-Agree (suc m) (x ∷ xs) (y ∷ ys) a =
      let e : x ≡ y = some-injective _ _ (a 0 (omega arith)) in
      rw (e, take-Agree m xs ys (λ i h. a (suc i) (omega arith))) refl

  pub slice-Agree :
      (a b m : ℕ) (xs ys : List V) → b ≤ m → Agree m xs ys → slice a b xs ≡ slice a b ys
  slice-Agree a b m xs ys h k = ap (drop a) (take-Agree b xs ys (λ i l. k i (omega arith)))

  pub at_index-Agree :
      (m i : ℕ) (xs ys : List V) → i < m → Agree m xs ys → at_index xs i ≡ at_index ys i
  at_index-Agree m i xs ys h k = ap or_index_error (k i h)

module _ {ℓ} {V : Type ℓ} where
  -- Nulls below `start`, and what was computed from there on.
  pub record HeadNull (compute : ℕ → Result V) (start n : ℕ) (column : List (Option V))
      : Type ℓ where
    pub size : length column ≡ n
    pub null : (i : ℕ) → i < start → i < n → get_elem? column i ≡ some none
    pub computed :
        (i : ℕ)
        → start ≤ i
        → i < n
        → (v : V) × (compute i ≡ ok v) × (get_elem? column i ≡ some (some v))

  column_from_short :
      (compute : ℕ → Result V) (start n : ℕ) (column : List (Option V))
      → n ≤ start
      → column_from compute start n ≡ ok column
      → replicate n none ≡ column
  unfolding column_from fill
  column_from_short compute start n column small h =
      let zero_rounds : n - start ≡ 0 = omega arith in
      ok_injective (sym (ap (λ c. fill compute start c (replicate n none)) zero_rounds) ∙ h)

  pub column_from-HeadNull :
      (compute : ℕ → Result V) (start n : ℕ) (column : List (Option V))
      → column_from compute start n ≡ ok column
      → HeadNull compute start n column
  unfolding column_from
  column_from-HeadNull compute start n column h = elim (le_or_lt n start) [
    | inl small ↦
        let e : replicate n none ≡ column = column_from_short compute start n column small h in
        record {
          size = ap length (sym e) ∙ length-replicate n none;
          null = λ i a b. ap (λ c. get_elem? c i) (sym e) ∙ get_elem?-replicate n i none b;
          computed = λ i a b. absurd (omega arith);
        }
    | inr large ↦
        let size = length-replicate n none in
        let fits : start + (n - start) ≤ length (replicate {A = Option V} n none) =
          omega (arith, size) in
        let f = fill-Filled compute start (n - start) (replicate n none) column fits h in
        record {
          size = f.same_length ∙ size;
          null = λ i a b. f.head i a ∙ get_elem?-replicate n i none b;
          computed = λ i a b. f.computed i a (omega arith);
        }
  ]

  -- Two columns agree as far as what is computed for them does, whatever their lengths.
  pub HeadNull-Agree :
      (m start n k : ℕ) (compute other : ℕ → Result V) (column second : List (Option V))
      → m ≤ n
      → m ≤ k
      → ((i : ℕ) → start ≤ i → i < m → compute i ≡ other i)
      → HeadNull compute start n column
      → HeadNull other start k second
      → Agree m column second
  HeadNull-Agree m start n k compute other column second a b same h g i l =
      elim (le_or_lt start i) [
        | inl inside ↦
            let (v, e, p) = h.computed i inside (omega arith) in
            let (w, f, q) = g.computed i inside (omega arith) in
            let equal : v ≡ w = ok_injective (sym e ∙ same i inside l ∙ f) in
            p ∙ ap (λ x. some (some x)) equal ∙ sym q
        | inr before ↦ h.null i before (omega arith) ∙ sym (g.null i before (omega arith))
      ]
