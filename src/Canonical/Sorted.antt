-- ===== src/Canonical/Sorted.antt =====
-- The order and the rows of what assemble_canonical_rows (src/quantara/canonical.py) returns.
use mathlib.Core.List.{Perm}
use mathlib.Core.List.Perm
use quantara.Prelude.{
  ℕ, ◌≤◌, ◌<◌, ◌≡◌, ◌≢◌, ◌⊎◌, inl, inr, refl, true, false, List, [], ◌∷◌, All, arith, Bool,
  Bool-cases, leb, sym, ◌∙◌,
}
use quantara.Rows.{SourceRow, CanonicalRow, Ascends, AscendsFrom}
use mathlib.Core.Bool.{true≢false}
use quantara.Errors.{Result, ok, err, duplicate_open_time}
use quantara.Canonical.{
  DatasetDescriptor, build_rows, ascending_from, order_ok, has_time, has_duplicates, insert_row,
  sort_rows, assemble_canonical_rows,
}

ne_le_lt : (a b : ℕ) → a ≢ b → a ≤ b → a < b
ne_le_lt a b d h = ground arith

-- No two rows have one open time.
abbrev pub HaveDistinctTimes : List CanonicalRow → Type 0
HaveDistinctTimes [] = Unit
HaveDistinctTimes (r ∷ rows) =
    All (λ s. r.open_time_ms ≢ s.open_time_ms) rows × HaveDistinctTimes rows

ascending_from-AscendsFrom :
    (t : ℕ) (rows : List CanonicalRow) → ascending_from t rows ≡ true → AscendsFrom t rows
unfolding ascending_from
ascending_from-AscendsFrom t [] h = tt
ascending_from-AscendsFrom t (r ∷ rows) h =
    ground (arith, ascending_from-AscendsFrom r.open_time_ms rows)

AscendsFrom-ascending_from :
    (t : ℕ) (rows : List CanonicalRow) → AscendsFrom t rows → ascending_from t rows ≡ true
unfolding ascending_from
AscendsFrom-ascending_from t [] h = refl
AscendsFrom-ascending_from t (r ∷ rows) h =
    ground (arith, AscendsFrom-ascending_from r.open_time_ms rows)

order_ok-Ascends : (rows : List CanonicalRow) → order_ok rows ≡ true → Ascends rows
unfolding order_ok
order_ok-Ascends [] h = tt
order_ok-Ascends (r ∷ rows) h = ascending_from-AscendsFrom r.open_time_ms rows h

Ascends-order_ok : (rows : List CanonicalRow) → Ascends rows → order_ok rows ≡ true
unfolding order_ok
Ascends-order_ok [] h = refl
Ascends-order_ok (r ∷ rows) h = AscendsFrom-ascending_from r.open_time_ms rows h

-- All rows come after `t`.
AscendsFrom-All :
    (t u : ℕ) (rows : List CanonicalRow)
    → t ≤ u
    → AscendsFrom u rows
    → All (λ s. t ≢ s.open_time_ms) rows
AscendsFrom-All t u [] h a = tt
AscendsFrom-All t u (r ∷ rows) h a =
    (λ e. omega arith, AscendsFrom-All t r.open_time_ms rows (omega arith) a.1)

has_time_lem :
    (t : ℕ) (rows : List CanonicalRow)
    → has_time t rows ≡ false
    → All (λ s. t ≢ s.open_time_ms) rows
unfolding has_time
has_time_lem t [] h = tt
has_time_lem t (r ∷ rows) h = (ground arith, has_time_lem t rows (ground arith))

lem_has_time :
    (t : ℕ) (rows : List CanonicalRow)
    → All (λ s. t ≢ s.open_time_ms) rows
    → has_time t rows ≡ false
unfolding has_time
lem_has_time t [] h = refl
lem_has_time t (r ∷ rows) h = ground (arith, lem_has_time t rows h.1)

has_duplicates-HaveDistinctTimes :
    (rows : List CanonicalRow) → has_duplicates rows ≡ false → HaveDistinctTimes rows
unfolding has_duplicates
has_duplicates-HaveDistinctTimes [] h = tt
has_duplicates-HaveDistinctTimes (r ∷ rows) h = (
  has_time_lem r.open_time_ms rows (ground arith),
  has_duplicates-HaveDistinctTimes rows (ground arith),
)

HaveDistinctTimes-has_duplicates :
    (rows : List CanonicalRow) → HaveDistinctTimes rows → has_duplicates rows ≡ false
unfolding has_duplicates
HaveDistinctTimes-has_duplicates [] h = refl
HaveDistinctTimes-has_duplicates (r ∷ rows) h =
    ground (arith, lem_has_time r.open_time_ms rows h.0, HaveDistinctTimes-has_duplicates rows h.1)

-- Insertion keeps the order where no time is met twice.
insert_row-AscendsFrom :
    (t : ℕ) (r : CanonicalRow) (rows : List CanonicalRow)
    → t < r.open_time_ms
    → AscendsFrom t rows
    → All (λ s. r.open_time_ms ≢ s.open_time_ms) rows
    → AscendsFrom t (insert_row r rows)
unfolding insert_row
insert_row-AscendsFrom t r [] h a d = (h, tt)
insert_row-AscendsFrom t r (s ∷ rows) h a d =
    elim (Bool-cases (leb r.open_time_ms s.open_time_ms)) [
      | inl before ↦ rw before (h, (ne_le_lt _ _ d.0 (ground arith), a.1))
      | inr after ↦
          rw after (a.0, insert_row-AscendsFrom s.open_time_ms r rows (ground arith) a.1 d.1)
    ]

insert_row-Ascends :
    (r : CanonicalRow) (rows : List CanonicalRow)
    → Ascends rows
    → All (λ s. r.open_time_ms ≢ s.open_time_ms) rows
    → Ascends (insert_row r rows)
unfolding insert_row
insert_row-Ascends r [] a d = tt
insert_row-Ascends r (s ∷ rows) a d = elim (Bool-cases (leb r.open_time_ms s.open_time_ms)) [
  | inl before ↦ rw before (ne_le_lt _ _ d.0 (ground arith), a)
  | inr after ↦ rw after (insert_row-AscendsFrom s.open_time_ms r rows (ground arith) a d.1)
]

insert_row-All :
    (P : CanonicalRow → Type 0) (r : CanonicalRow) (rows : List CanonicalRow)
    → P r
    → All P rows
    → All P (insert_row r rows)
unfolding insert_row
insert_row-All P r [] p a = (p, tt)
insert_row-All P r (s ∷ rows) p a = elim (Bool-cases (leb r.open_time_ms s.open_time_ms)) [
  | inl before ↦ rw before (p, (a.0, a.1))
  | inr after ↦ rw after (a.0, insert_row-All P r rows p a.1)
]

sort_rows-All :
    (P : CanonicalRow → Type 0) (rows : List CanonicalRow) → All P rows → All P (sort_rows rows)
unfolding sort_rows
sort_rows-All P [] a = tt
sort_rows-All P (r ∷ rows) a = insert_row-All P r (sort_rows rows) a.0 (sort_rows-All P rows a.1)

sort_rows-Ascends : (rows : List CanonicalRow) → HaveDistinctTimes rows → Ascends (sort_rows rows)
unfolding sort_rows
sort_rows-Ascends [] d = tt
sort_rows-Ascends (r ∷ rows) d =
    insert_row-Ascends r (sort_rows rows) (sort_rows-Ascends rows d.1)
      (sort_rows-All (λ s. r.open_time_ms ≢ s.open_time_ms) rows d.0)

insert_row-Perm :
    (r : CanonicalRow) (rows : List CanonicalRow) → Perm (insert_row r rows) (r ∷ rows)
unfolding insert_row
insert_row-Perm r [] = Perm.refl (r ∷ [])
insert_row-Perm r (s ∷ rows) = elim (Bool-cases (leb r.open_time_ms s.open_time_ms)) [
  | inl before ↦ rw before (Perm.refl (r ∷ s ∷ rows))
  | inr after ↦ rw after (Perm.trans (Perm.cons s (insert_row-Perm r rows)) (Perm.swap r s rows))
]

sort_rows-Perm : (rows : List CanonicalRow) → Perm (sort_rows rows) rows
unfolding sort_rows
sort_rows-Perm [] = Perm.refl []
sort_rows-Perm (r ∷ rows) =
    Perm.trans (insert_row-Perm r (sort_rows rows)) (Perm.cons r (sort_rows-Perm rows))

-- What a result says of the rows that were built.
abbrev pub IsAssembled : List CanonicalRow → Result (List CanonicalRow × Bool) → Type 0
IsAssembled built result =
    (Ascends built × (result ≡ ok (built, true)))
    ⊎ (((¬ Ascends built)
          × ((sorted : List CanonicalRow) × (result ≡ ok (sorted, false))
              × Ascends sorted
              × Perm sorted built))
        ⊎ ((¬ HaveDistinctTimes built) × (result ≡ err duplicate_open_time)))

-- The canonical rows come in strictly ascending order: as they were given if they were so, and the
-- flag tells; else reordered, with no row lost or made, unless two have one open time, which is
-- DuplicateOpenTime.
pub assemble_canonical_rows-IsAssembled :
    (rows : List SourceRow) (descriptor : DatasetDescriptor)
    → IsAssembled (build_rows rows descriptor) (assemble_canonical_rows rows descriptor)
unfolding assemble_canonical_rows
assemble_canonical_rows-IsAssembled rows descriptor =
    let built = build_rows rows descriptor in
    elim (Bool-cases (order_ok built)) [
      | inl ordered ↦ inl (order_ok-Ascends built ordered, rw ordered refl)
      | inr unordered ↦ elim (Bool-cases (has_duplicates built)) [
        | inl twice ↦ inr (
            inr (
              λ d. true≢false (sym twice ∙ HaveDistinctTimes-has_duplicates built d),
              rw (unordered, twice) refl,
            ))
        | inr once ↦ inr (
            inl (
              λ a. true≢false (sym (Ascends-order_ok built a) ∙ unordered),
              (
                sort_rows built,
                rw (unordered, once) refl,
                sort_rows-Ascends built (has_duplicates-HaveDistinctTimes built once),
                sort_rows-Perm built,
              ),
            ))
      ]
    ]
