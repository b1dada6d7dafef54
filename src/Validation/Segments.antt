-- ===== src/Validation/Segments.antt =====
-- The folds of src/quantara/folds.py against the first three checks of src/quantara/validation_quality.py.
use quantara.Prelude.{
  ℕ, zero, suc, ◌+◌, ◌-◌, ◌≤◌, ◌<◌, ◌≡◌, refl, ◌∙◌, true, false, List, [], ◌∷◌, ◌++◌, length,
  length-append, All, arith, leb, if_false,
}
use quantara.Folds.{Range, Fold, make_fold, make_folds, assemble_partition}
use quantara.Folds.Ranges.{Tiles}
use quantara.Folds.Leakage.{total_test_rows-make_folds}
use quantara.Validation.{
  row_range, member, overlaps, segments_loop, coverage_ok, leaks_between, leaks,
}
use quantara.Validation.Statistics.{count_if}

member-row_range : (i start count : ℕ) → i < start → member i (row_range start count) ≡ false
unfolding member row_range
member-row_range i start zero h = refl
member-row_range i start (suc count) h = ground (arith, member-row_range i (suc start) count)

overlaps-row_range :
    (is_ : List ℕ) (start count : ℕ)
    → All (λ i. i < start) is_
    → overlaps is_ (row_range start count) ≡ false
unfolding overlaps
overlaps-row_range [] start count a = refl
overlaps-row_range (i ∷ is_) start count a =
    ground (arith, member-row_range i start count a.0, overlaps-row_range is_ start count a.1)

length-row_range : (start count : ℕ) → length (row_range start count) ≡ count
unfolding row_range
length-row_range start zero = refl
length-row_range start (suc count) = omega (arith, length-row_range (suc start) count)

AllBelow-row_range :
    (start count b : ℕ) (is_ : List ℕ)
    → start + count ≤ b
    → All (λ i. i < b) is_
    → All (λ i. i < b) (row_range start count ++ is_)
unfolding row_range
AllBelow-row_range start zero b is_ h a = a
AllBelow-row_range start (suc count) b is_ h a =
    (omega arith, AllBelow-row_range (suc start) count b is_ (omega arith) a)

AllBelow_mono : (a b : ℕ) (is_ : List ℕ) → a ≤ b → All (λ i. i < a) is_ → All (λ i. i < b) is_
AllBelow_mono a b [] h p = tt
AllBelow_mono a b (i ∷ is_) h p = (omega arith, AllBelow_mono a b is_ h p.1)

-- One round of the loop, over a segment behind all rows that are in the set.
segments_loop-step :
    (is_ : List ℕ) (f : Fold) (folds : List Fold)
    → All (λ i. i < f.test_range.0) is_
    → segments_loop is_ (f ∷ folds)
      ≡ segments_loop (row_range f.test_range.0 (f.test_range.1 - f.test_range.0) ++ is_) folds
unfolding segments_loop
segments_loop-step is_ f folds a =
    if_false _ _ _ (overlaps-row_range is_ f.test_range.0 (f.test_range.1 - f.test_range.0) a)

-- Test segments that tile the rows are disjoint, and hold as many rows as they span.
pub segments_loop-Tiles :
    (n ts mt emb id current : ℕ) (rs : List Range) (is_ : List ℕ)
    → Tiles n ts current rs
    → All (λ i. i < current) is_
    → (count : ℕ) × (segments_loop is_ (make_folds mt emb id rs) ≡ (true, count))
      × (count + current ≡ length is_ + n)
unfolding make_folds make_fold
segments_loop-Tiles n ts mt emb id current [] is_ t a = absurd t
segments_loop-Tiles n ts mt emb id current (r ∷ []) is_ t a =
    let f = make_fold mt emb id r in
    let below : All (λ i. i < r.0) is_ = AllBelow_mono current r.0 is_ (omega arith) a in
    (
      length (row_range r.0 (r.1 - r.0) ++ is_),
      segments_loop-step is_ f [] below ∙ unfold segments_loop in refl,
      omega
          (arith, length-append (row_range r.0 (r.1 - r.0)) is_, length-row_range r.0 (r.1 - r.0)),
    )
segments_loop-Tiles n ts mt emb id current (r ∷ q ∷ rs) is_ t a =
    let f = make_fold mt emb id r in
    let below : All (λ i. i < r.0) is_ = AllBelow_mono current r.0 is_ (omega arith) a in
    let more : All (λ i. i < r.1) (row_range r.0 (r.1 - r.0) ++ is_) =
      AllBelow-row_range r.0 (r.1 - r.0) r.1 is_ (omega arith)
        (AllBelow_mono current r.1 is_ (omega arith) a) in
    let (count, e, s) =
      segments_loop-Tiles n ts mt emb (suc id) r.1 (q ∷ rs) (row_range r.0 (r.1 - r.0) ++ is_) t.2
        more in
    (
      count,
      segments_loop-step is_ f (make_folds mt emb (suc id) (q ∷ rs)) below ∙ e,
      omega
          (arith, length-append (row_range r.0 (r.1 - r.0)) is_, length-row_range r.0 (r.1 - r.0)),
    )

-- The partition that the build assembles passes the coverage check.
pub coverage_ok-Tiles :
    (n ts mt emb : ℕ) (rs : List Range)
    → Tiles n ts (mt + emb) rs
    → coverage_ok (assemble_partition n mt emb rs) n ≡ true
unfolding coverage_ok assemble_partition
coverage_ok-Tiles n ts mt emb rs t =
    let (count, e, s) = segments_loop-Tiles n ts mt emb 0 (mt + emb) rs [] t tt in
    let total = total_test_rows-make_folds n ts mt emb 0 (mt + emb) rs t in rw e (ground arith)

make_fold-leaks :
    (mt emb id a b : ℕ) → mt + emb ≤ a → leaks mt emb (make_fold mt emb id (a, b)) ≡ false
unfolding leaks leaks_between make_fold
make_fold-leaks mt emb id a b h =
    let trained : leb (mt + emb) a ≡ true = ground arith in rw trained (ground arith)

-- No fold of the partition leaks.
pub leaks-Tiles :
    (n ts mt emb id current : ℕ) (rs : List Range)
    → mt + emb ≤ current
    → Tiles n ts current rs
    → count_if (leaks mt emb) (make_folds mt emb id rs) ≡ 0
unfolding count_if make_folds
leaks-Tiles n ts mt emb id current [] h t = refl
leaks-Tiles n ts mt emb id current (r ∷ []) h t =
    rw (make_fold-leaks mt emb id r.0 r.1 (omega arith)) (omega arith)
leaks-Tiles n ts mt emb id current (r ∷ q ∷ rs) h t =
    rw (make_fold-leaks mt emb id r.0 r.1 (omega arith))
      (omega (arith, leaks-Tiles n ts mt emb (suc id) r.1 (q ∷ rs) (omega arith) t.2))
