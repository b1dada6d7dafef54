-- ===== src/Bootstrap/Unbiased.antt =====
-- The draws of src/quantara/bootstrap_b4.py: eligible, unbiased, and enough for a resampled year.
use native.Mathlib.Nat.{
  div-add-mod', mod-lt, mul-le-mul_right, div-lt_iff_lt-mul, suc-mul, mul-add-mod_self_right,
  mul-add-div_right, mod-eq_of_lt, div-eq_of_lt,
}
use quantara.Prelude.{
  ℕ, zero, suc, ◌+◌, ◌-◌, ◌*◌, ◌/◌, ◌%◌, ◌≤◌, ◌<◌, ◌≡◌, ◌⊎◌, inl, inr, refl, sym, subst, ap, ◌∙◌,
  if_true, if_false, false, List, [], ◌∷◌, All, length, arith, ltb, ◌==◌, ==_iff, Bool-cases,
}
use quantara.Errors.{ok, err, diverged, ok_injective, raise_if-eq-ok}
use quantara.Bootstrap.{validate_geometry, draw_count, materialize_resampled_indices}
use quantara.Bootstrap.Coverage.{materialize_resampled_indices-covers}
use quantara.Bootstrap.Draws.{
  two_to_64, next_u64, limit_of, below_loop, below, draw_loop, sample_block_starts,
}

-- As many draws as the fuel allows are refused, from some state of the stream.
abbrev pub AllRefused : (fuel bound state : ℕ) → Type 0
AllRefused zero bound state = Unit
AllRefused (suc fuel) bound state =
    (limit_of bound ≤ (next_u64 state).0) × AllRefused fuel bound (next_u64 state).1

below_loop-cases :
    (fuel bound state : ℕ)
    → 0 < bound
    → ((v : ℕ) × (after : ℕ) × (below_loop fuel bound state ≡ ok (v, after)) × (v < bound))
      ⊎ ((below_loop fuel bound state ≡ err diverged) × AllRefused fuel bound state)
unfolding below_loop
below_loop-cases zero bound state h = inr (refl, tt)
below_loop-cases (suc fuel) bound state h =
    elim (Bool-cases (ltb (next_u64 state).0 (limit_of bound))) [
      | inl taken ↦ inl (
        (next_u64 state).0 % bound,
        (next_u64 state).1,
        rw taken refl,
        mod-lt (next_u64 state).0 h,
      )
      | inr refused ↦ elim (below_loop-cases fuel bound (next_u64 state).1 h) [
        | inl (v, after, e, small) ↦ inl (v, after, rw refused e, small)
        | inr (e, all_refused) ↦ inr (rw refused e, (ground arith, all_refused))
      ]
    ]

-- The same of a run of draws.
draw_loop-cases :
    (fuel bound count state : ℕ)
    → 0 < bound
    → bound ≤ two_to_64
    → ((starts : List ℕ) × (last : ℕ) × (draw_loop fuel bound count state ≡ ok (starts, last))
        × (length starts ≡ count)
        × All (λ s. s < bound) starts)
      ⊎ ((draw_loop fuel bound count state ≡ err diverged) × ((at : ℕ) × AllRefused fuel bound at))
unfolding draw_loop below
draw_loop-cases fuel bound zero state h k = inl ([], state, refl, refl, tt)
draw_loop-cases fuel bound (suc count) state h k =
    let positive : (bound == 0) ≡ false = ground arith in
    let small : ltb two_to_64 bound ≡ false = ground arith in
    elim (below_loop-cases fuel bound state h) [
      | inr (e, refused) ↦ inr (rw (positive, small, e) refl, (state, refused))
      | inl (v, after, e, below_bound) ↦ elim (draw_loop-cases fuel bound count after h k) [
        | inr (f, refused) ↦ inr (rw (positive, small, e, f) refl, refused)
        | inl (starts, last, f, n, a) ↦
            inl (v ∷ starts, last, rw (positive, small, e, f) refl, ap suc n, (below_bound, a))
      ]
    ]

-- For a positive block that is no longer than the year, and a year of 2 ^ 64 hours at most, the starts that are sampled give one hour of the year to
-- each position of the resampled year; sampling fails only if, from some state of the stream, as
-- many draws in a row as the fuel allows are refused.
pub sample_block_starts-covers :
    (fuel state hours block_hours : ℕ)
    → 0 < block_hours
    → block_hours ≤ hours
    → hours ≤ two_to_64
    → ((starts : List ℕ) × (last : ℕ) × (sample_block_starts fuel state hours block_hours
          ≡ ok (starts, last))
        × ((indices : List ℕ) × (materialize_resampled_indices starts hours block_hours
              ≡ ok indices)
            × (length indices ≡ hours)
            × All (λ i. i < hours) indices))
      ⊎ ((sample_block_starts fuel state hours block_hours ≡ err diverged)
          × ((at : ℕ) × AllRefused fuel (hours - block_hours + 1) at))
unfolding sample_block_starts validate_geometry
sample_block_starts-covers fuel state hours block positive fits small =
    elim (draw_loop-cases fuel (hours - block + 1) (draw_count hours block) state (omega arith)
      (omega arith)) [
        | inl (starts, last, e, n, eligible) ↦ inl (
          starts,
          last,
          ground (arith, e),
          materialize_resampled_indices-covers hours block starts positive fits n eligible,
        )
        | inr (e, refused) ↦ inr (ground (arith, e), refused)
      ]

one_quotient : (bound : ℕ) → 0 < bound → bound ≤ two_to_64 → 0 < two_to_64 / bound
one_quotient bound positive small = elim (Bool-cases (two_to_64 / bound == 0)) [
  | inl none_fits ↦
      let q : two_to_64 / bound ≡ 0 = (==_iff (two_to_64 / bound) 0).0 none_fits in
      absurd (
        omega (
          arith,
          div-add-mod' two_to_64 bound,
          mod-lt two_to_64 positive,
          ap (λ (z : ℕ). z * bound) q,
        ))
  | inr fits ↦ ground arith
]

-- Below the limit each residue has the same number of values: they correspond, one to one, to the pairs of
-- a residue and a quotient.
limit_of-balanced :
    (bound : ℕ)
    → 0 < bound
    → bound ≤ two_to_64
    → (quotients : ℕ) × (limit_of bound ≡ quotients * bound)
      × (0 < quotients)
      × ((value : ℕ)
          → value < limit_of bound
          → (value / bound < quotients) × (value % bound < bound))
      × ((q r : ℕ)
          → q < quotients
          → r < bound
          → (q * bound + r < limit_of bound)
            × ((q * bound + r) % bound ≡ r)
            × ((q * bound + r) / bound ≡ q))
unfolding limit_of
limit_of-balanced bound positive small =
    let quotients = two_to_64 / bound in
    let whole : two_to_64 - two_to_64 % bound ≡ quotients * bound =
      omega (arith, div-add-mod' two_to_64 bound) in
    let room : 0 < quotients = one_quotient bound positive small in
    (
      quotients,
      whole,
      room,
      (λ value h. ((div-lt_iff_lt-mul positive).1 (omega (arith, whole)), mod-lt value positive)),
      λ q r h k.
          let step : suc q * bound ≤ quotients * bound = mul-le-mul_right bound h in
          (
            omega (arith, whole, suc-mul q bound),
            mul-add-mod_self_right q bound r ∙ mod-eq_of_lt k,
            mul-add-div_right positive q r ∙ ap (λ (z : ℕ). q + z) (div-eq_of_lt k) ∙ omega arith,
          ),
    )

-- The word that a stream gives behind `n` others, and the stream behind it.
abbrev pub word_at : (n state : ℕ) → ℕ × ℕ
word_at zero state = next_u64 state
word_at (suc n) state = word_at n (next_u64 state).1

-- A draw is the residue of the first word below `limit`: the words in front of it are not.
abbrev pub IsFirstBelow : (limit bound state v after : ℕ) → Type 0
IsFirstBelow limit bound state v after =
    (n : ℕ) × ((i : ℕ) → i < n → limit ≤ (word_at i state).0)
    × ((word_at n state).0 < limit)
    × (v ≡ (word_at n state).0 % bound)
    × (after ≡ (word_at n state).1)

later_words :
    (limit n state : ℕ)
    → limit ≤ (next_u64 state).0
    → ((i : ℕ) → i < n → limit ≤ (word_at i (next_u64 state).1).0)
    → (i : ℕ) → i < suc n
    → limit ≤ (word_at i state).0
later_words limit n state first later zero h = first
later_words limit n state first later (suc i) h = later i (omega arith)

below_loop-IsFirstBelow :
    (fuel bound state v after : ℕ)
    → below_loop fuel bound state ≡ ok (v, after)
    → IsFirstBelow (limit_of bound) bound state v after
unfolding below_loop
below_loop-IsFirstBelow zero bound state v after h = cc
below_loop-IsFirstBelow (suc fuel) bound state v after h =
    elim (Bool-cases (ltb (next_u64 state).0 (limit_of bound))) [
      | inl taken ↦
          let e = ok_injective (sym (if_true _ _ _ taken) ∙ h) in
          (
            0,
            λ i l. absurd (omega arith),
            ground arith,
            sym (ap (λ (r : ℕ × ℕ). r.0) e),
            sym (ap (λ (r : ℕ × ℕ). r.1) e),
          )
      | inr refused ↦
          let (n, before, small, value, rest) =
            below_loop-IsFirstBelow fuel bound (next_u64 state).1 v after
              (sym (if_false _ _ _ refused) ∙ h) in
          (suc n, later_words (limit_of bound) n state (ground arith) before, small, value, rest)
    ]

-- What the words below `quotients * bound` are: pairs of a quotient and a residue, one to one.
abbrev pub IsBalanced : (quotients bound : ℕ) → Type 0
IsBalanced quotients bound =
    ((value : ℕ)
      → value < quotients * bound
      → (value / bound < quotients) × (value % bound < bound))
    × ((q r : ℕ)
        → q < quotients
        → r < bound
        → (q * bound + r < quotients * bound)
          × ((q * bound + r) % bound ≡ r)
          × ((q * bound + r) / bound ≡ q))

-- A bounded draw that is given, for a positive bound of 2 ^ 64 at most, is the residue of the first
-- word of the stream below a limit, the words in front of it being passed over. The limit is a
-- positive multiple of the bound within 2 ^ 64, so that each residue has the same number of words.
pub below-unbiased :
    (fuel bound state v after : ℕ)
    → 0 < bound
    → bound ≤ two_to_64
    → below fuel bound state ≡ ok (v, after)
    → (quotients : ℕ) × (0 < quotients)
      × (quotients * bound ≤ two_to_64)
      × IsFirstBelow (quotients * bound) bound state v after
      × IsBalanced quotients bound
unfolding below
below-unbiased fuel bound state v after positive small h =
    let (quotients, whole, room, parts, pairs) = limit_of-balanced bound positive small in
    let (a, h1) = raise_if-eq-ok (bound == 0) _ _ h in
    let (b, h2) = raise_if-eq-ok (ltb two_to_64 bound) _ _ h1 in
    let first = below_loop-IsFirstBelow fuel bound state v after h2 in
    (
      quotients,
      room,
      unfold limit_of in omega (arith, whole),
      subst (λ limit. IsFirstBelow limit bound state v after) whole first,
      (
        λ value l. parts value (omega (arith, whole)),
        λ q r l k. let (x, y, z) = pairs q r l k in (omega (arith, whole), y, z),
      ),
    )
