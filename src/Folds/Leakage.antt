-- ===== src/Folds/Leakage.antt =====
-- build_walkforward_folds of src/quantara/folds.py: the roles of the rows in each fold.
use native.Mathlib.Decide.{dec_lt}
use native.Mathlib.Nat.{add-zero}
use mathlib.Core.Option.{some-injective}
use quantara.Prelude.{
  ℕ, zero, suc, ◌+◌, ◌-◌, ◌*◌, ◌≤◌, ◌<◌, ◌≡◌, refl, List, [], ◌∷◌, length, some, get_elem?, arith,
  ap, ◌∙◌,
}
use quantara.Errors.{ok}
use quantara.Folds.{
  Range, Fold, FoldPartition, make_fold, make_folds, total_test_rows, assemble_partition,
  build_walkforward_folds,
}
use quantara.Folds.Ranges.{
  Tiles, compute_test_ranges-Tiles, length-Tiles, Tiles-get_elem?, Tiles-get_elem?_lt, Tiles-HasRow,
}

pub length-make_folds :
    (mt emb id : ℕ) (rs : List Range) → length (make_folds mt emb id rs) ≡ length rs
unfolding make_folds
length-make_folds mt emb id [] = refl
length-make_folds mt emb id (r ∷ rs) = omega (arith, length-make_folds mt emb (suc id) rs)

pub total_test_rows-make_folds :
    (n ts mt emb id current : ℕ) (rs : List Range)
    → Tiles n ts current rs
    → current + total_test_rows (make_folds mt emb id rs) ≡ n
unfolding make_folds total_test_rows
total_test_rows-make_folds n ts mt emb id current [] t = absurd t
total_test_rows-make_folds n ts mt emb id current (r ∷ []) t = ground arith
total_test_rows-make_folds n ts mt emb id current (r ∷ q ∷ rs) t =
    ground (arith, total_test_rows-make_folds n ts mt emb (suc id) r.1 (q ∷ rs) t.2)

-- The fold at a position is the fold of the range at that position, and the other way round.
get_elem?-make_folds :
    (mt emb id : ℕ) (rs : List Range) (i : ℕ) (f : Fold)
    → get_elem? (make_folds mt emb id rs) i ≡ some f
    → (a : ℕ) × (b : ℕ) × (get_elem? rs i ≡ some (a, b)) × (f ≡ make_fold mt emb (id + i) (a, b))
unfolding make_folds
get_elem?-make_folds mt emb id [] i f e = cc
get_elem?-make_folds mt emb id (r ∷ rs) zero f e = (r.0, r.1, refl, rw add-zero (cc))
get_elem?-make_folds mt emb id (r ∷ rs) (suc i) f e =
    let (a, b, p, q) = get_elem?-make_folds mt emb (suc id) rs i f e in
    (a, b, p, q ∙ ap (λ k. make_fold mt emb k (a, b)) (omega arith))

make_folds-get_elem? :
    (mt emb id : ℕ) (rs : List Range) (i a b : ℕ)
    → get_elem? rs i ≡ some (a, b)
    → get_elem? (make_folds mt emb id rs) i ≡ some (make_fold mt emb (id + i) (a, b))
unfolding make_folds
make_folds-get_elem? mt emb id [] i a b e = cc
make_folds-get_elem? mt emb id (r ∷ rs) zero a b e =
    rw add-zero (ap (λ q. some (make_fold mt emb id q)) (some-injective _ _ e))
make_folds-get_elem? mt emb id (r ∷ rs) (suc i) a b e =
    make_folds-get_elem? mt emb (suc id) rs i a b e
    ∙ ap (λ k. some (make_fold mt emb k (a, b))) (omega arith)

-- A large enough table gives a partition over ranges that tile it.
pub build_parts :
    (n ts mt emb : ℕ)
    → 0 < ts
    → mt + emb + ts ≤ n
    → (rs : List Range) × Tiles n ts (mt + emb) rs
      × (build_walkforward_folds n ts mt emb ≡ ok (assemble_partition n mt emb rs))
unfolding build_walkforward_folds
build_parts n ts mt emb pos fits =
    let (rs, c, t) = compute_test_ranges-Tiles n ts (mt + emb) pos fits in (rs, t, ground arith)

-- The roles of the fold at position `i`: its test rows begin at `start`, its training rows are all
-- rows before the embargo, and the embargo rows lie between the two.
abbrev pub HasRoles : (ts mt emb i : ℕ) → Fold → Type 0
HasRoles ts mt emb i f =
    let start = mt + emb + i * ts in
    (f.fold_id ≡ i)
    × (f.test_range.0 ≡ start)
    × (start + ts ≤ f.test_range.1)
    × (f.test_range.1 < start + ts + ts)
    × (f.train_range ≡ some (0, start - emb))
    × (f.embargo_range ≡ some (start - emb, start))
    × (mt ≤ start - emb)

make_fold-HasRoles :
    (ts mt emb i a b : ℕ)
    → (a ≡ mt + emb + i * ts)
    → a + ts ≤ b
    → b < a + ts + ts
    → HasRoles ts mt emb i (make_fold mt emb i (a, b))
unfolding make_fold
make_fold-HasRoles ts mt emb i a b e lo hi = ground arith

abbrev pub AllHaveRoles : (n ts mt emb : ℕ) → FoldPartition → Type 0
AllHaveRoles n ts mt emb p =
    (i : ℕ) (f : Fold)
    → get_elem? p.folds i ≡ some f
    → HasRoles ts mt emb i f × (f.test_range.1 ≤ n)

-- With a positive test size and rows for one fold at least the build succeeds, and each fold has
-- its role ranges: train rows end a whole embargo before the test rows begin.
pub build-AllHaveRoles :
    (n ts mt emb : ℕ)
    → 0 < ts
    → mt + emb + ts ≤ n
    → (p : FoldPartition) × (build_walkforward_folds n ts mt emb ≡ ok p)
      × AllHaveRoles n ts mt emb p
unfolding assemble_partition
build-AllHaveRoles n ts mt emb pos fits =
    let (rs, t, e) = build_parts n ts mt emb pos fits in
    (
      assemble_partition n mt emb rs,
      e,
      λ i f g.
          let (a, b, at, q) = get_elem?-make_folds mt emb 0 rs i f g in
          let (s, lo, end, hi) = Tiles-get_elem? n ts (mt + emb) rs i a b pos t at in
          let q' : f ≡ make_fold mt emb i (a, b) =
            q ∙ ap (λ k. make_fold mt emb k (a, b)) (omega arith) in
          rw q' (make_fold-HasRoles ts mt emb i a b s lo hi, unfold make_fold in end),
    )

-- The row is in the test range of the fold at position `i`.
abbrev pub TestsRow : FoldPartition → ℕ → ℕ → Type 0
TestsRow p row i =
    (f : Fold) × (get_elem? p.folds i ≡ some f) × (f.test_range.0 ≤ row) × (row < f.test_range.1)

-- The row is in no test range if it is in the excluded head, and in that of exactly one fold if not.
abbrev pub IsPartition : (n : ℕ) → FoldPartition → Type 0
IsPartition n p =
    ((row : ℕ) → p.excluded_head_rows ≤ row → row < n → (i : ℕ) × TestsRow p row i)
    × ((row i : ℕ) → TestsRow p row i → (p.excluded_head_rows ≤ row) × (row < n))
    × ((row i j : ℕ) → TestsRow p row i → TestsRow p row j → i ≡ j)

module _ (n ts mt emb : ℕ) (pos : 0 < ts) (rs : List Range) (t : Tiles n ts (mt + emb) rs) where
  -- The range of a fold that tests a row.
  TestsRow-range :
      (row i : ℕ)
      → TestsRow (assemble_partition n mt emb rs) row i
      → (a : ℕ) × (b : ℕ) × (get_elem? rs i ≡ some (a, b)) × (a ≤ row) × (row < b)
  unfolding assemble_partition make_fold
  TestsRow-range row i (f, g, lo, hi) =
      let (a, b, at, q) = get_elem?-make_folds mt emb 0 rs i f g in
      (a, b, at, ground arith, ground arith)

  some_fold :
      (row : ℕ)
      → mt + emb ≤ row
      → row < n
      → (i : ℕ) × TestsRow (assemble_partition n mt emb rs) row i
  unfolding assemble_partition make_fold
  some_fold row lo hi =
      let (i, a, b, at, l, h) = Tiles-HasRow n ts (mt + emb) rs row t lo hi in
      (i, (make_fold mt emb (0 + i) (a, b), make_folds-get_elem? mt emb 0 rs i a b at, l, h))

  within :
      (row i : ℕ) → TestsRow (assemble_partition n mt emb rs) row i → (mt + emb ≤ row) × (row < n)
  within row i w =
      let (a, b, at, lo, hi) = TestsRow-range row i w in
      omega (arith, Tiles-get_elem? n ts (mt + emb) rs i a b pos t at)

  one_fold :
      (row i j : ℕ)
      → TestsRow (assemble_partition n mt emb rs) row i
      → TestsRow (assemble_partition n mt emb rs) row j
      → i ≡ j
  one_fold row i j v w =
      let (a, b, at, lo, hi) = TestsRow-range row i v in
      let (c, d, at', lo', hi') = TestsRow-range row j w in
      elim (dec_lt i j) [
        | yes before ↦
            absurd
              (omega (arith, Tiles-get_elem?_lt n ts (mt + emb) rs i j a b c d pos t at at' before))
        | no after ↦ elim (dec_lt j i) [
          | yes before ↦
              absurd (
                omega
                  (arith, Tiles-get_elem?_lt n ts (mt + emb) rs j i c d a b pos t at' at before))
          | no neither ↦ omega arith
        ]
      ]

-- With a positive test size and rows for one fold at least the build succeeds, and the test ranges
-- and the excluded head partition the rows of the parent table: each row behind the head is in
-- exactly one test range, and no row of the head or beyond the table in any.
pub build-IsPartition :
    (n ts mt emb : ℕ)
    → 0 < ts
    → mt + emb + ts ≤ n
    → (p : FoldPartition) × (build_walkforward_folds n ts mt emb ≡ ok p) × IsPartition n p
build-IsPartition n ts mt emb pos fits =
    let (rs, t, e) = build_parts n ts mt emb pos fits in
    (
      assemble_partition n mt emb rs,
      e,
      unfold assemble_partition in
          (
            some_fold n ts mt emb pos rs t,
            within n ts mt emb pos rs t,
            one_fold n ts mt emb pos rs t,
          ),
    )

-- With a positive test size and rows for one fold at least the build succeeds, and the published
-- coverage counts the folds and the rows of their test ranges, which with the excluded head are all
-- rows; there are as many folds as whole test blocks fit behind the head.
pub build_coverage :
    (n ts mt emb : ℕ)
    → 0 < ts
    → mt + emb + ts ≤ n
    → (p : FoldPartition) × (build_walkforward_folds n ts mt emb ≡ ok p)
      × (p.coverage.fold_count ≡ length p.folds)
      × (p.coverage.test_rows ≡ total_test_rows p.folds)
      × (p.coverage.total_rows ≡ n)
      × (p.excluded_head_rows + p.coverage.test_rows ≡ p.parent_rows)
      × (p.coverage.fold_count * ts ≤ p.coverage.test_rows)
      × (p.coverage.test_rows < p.coverage.fold_count * ts + ts)
unfolding assemble_partition
build_coverage n ts mt emb pos fits =
    let (rs, t, e) = build_parts n ts mt emb pos fits in
    let s = total_test_rows-make_folds n ts mt emb 0 (mt + emb) rs t in
    let k = length-make_folds mt emb 0 rs in
    let l = length-Tiles n ts (mt + emb) rs t in
    (
      assemble_partition n mt emb rs,
      e,
      refl,
      refl,
      refl,
      s,
      rw k (omega (arith, l)),
      rw k (omega (arith, l)),
    )
