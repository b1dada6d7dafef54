-- ===== src/SegmentStats/Counts.antt =====
-- The counts of src/quantara/fold_stats.py as numbers of rows with a property, and how many rows of a
-- segment stand before or behind a given row.
use Prim.Native.Nat.{min, max}
use mathlib.Core.Path.{ap₂}
use quantara.Prelude.{
  ℕ, zero, suc, ◌+◌, ◌-◌, ◌≤◌, ◌<◌, ◌≡◌, refl, ap, ◌∙◌, Bool, Option, none, some, List, [], ◌∷◌,
  length, get_elem?, All, arith, ltb, leb, inl, inr, if◌then◌else◌,
}
use quantara.Prelude.Int.{ℤ}
use quantara.Features.{slice}
use quantara.Features.Table.{ResearchRow}
use quantara.Features.Nulls.{is_null, IsSign}
use quantara.SegmentStats.{Tally, count_row, tally_rows, raise_null, count_nulls, count_sign}
use quantara.Validation.Statistics.{count_if}
use quantara.Validation.{row_range}
use quantara.Validation.Statistics.{SignDistribution, NullCounts}

module _ {ℓ} {A : Type ℓ} where
  -- A test that goes by the number of the row, in a list whose first row has the number k.
  abbrev pub Follows : (ℕ → Bool) → (k : ℕ) → (A → Bool) → List A → Type ℓ
  Follows f k test rows =
      (i : ℕ) (x : A) → i < length rows → get_elem? rows i ≡ some x → test x ≡ f (k + i)

  tail-Follows :
      (f : ℕ → Bool) (k : ℕ) (test : A → Bool) (x : A) (rows : List A)
      → Follows f k test (x ∷ rows)
      → Follows f (suc k) test rows
  tail-Follows f k test x rows t i y l p =
      let same : k + suc i ≡ suc k + i = omega arith in t (suc i) y (omega arith) p ∙ ap f same

  head-Follows :
      (f : ℕ → Bool) (k : ℕ) (test : A → Bool) (x : A) (rows : List A)
      → Follows f k test (x ∷ rows)
      → test x ≡ f k
  head-Follows f k test x rows t =
      let same : k + 0 ≡ k = omega arith in t 0 x (omega arith) refl ∙ ap f same

  -- The count over a segment is a count over the numbers of its rows.
  pub count_if-slice :
      (f : ℕ → Bool) (test : A → Bool) (rows : List A) (k s e : ℕ)
      → Follows f k test rows
      → s ≤ e
      → e ≤ length rows
      → count_if test (slice s e rows) ≡ count_if f (row_range (k + s) (e - s))
  unfolding count_if row_range
  count_if-slice f test rows k zero zero t h l = refl
  count_if-slice f test [] k s (suc e) t h l = absurd (omega arith)
  count_if-slice f test rows k (suc s) zero t h l = absurd (omega arith)
  count_if-slice f test (x ∷ rows) k zero (suc e) t h l =
      let rest =
        count_if-slice f test rows (suc k) zero e (tail-Follows f k test x rows t) (omega arith)
          (omega arith) in
      let first : test x ≡ f k = head-Follows f k test x rows t in
      let here : k + 0 ≡ k = omega arith in
      let next : suc k + 0 ≡ suc k = omega arith in
      let whole : suc e - 0 ≡ suc e = omega arith in
      let less : e - 0 ≡ e = omega arith in
      rw (here, whole, first)
        (ap (λ n. (if f k then 1 else 0) + n)
          (rest ∙ ap₂ (λ a b. count_if f (row_range a b)) next less))
  count_if-slice f test (x ∷ rows) k (suc s) (suc e) t h l =
      let rest =
        count_if-slice f test rows (suc k) s e (tail-Follows f k test x rows t) (omega arith)
          (omega arith) in
      rest ∙ ap₂ (λ a b. count_if f (row_range a b)) (omega arith) (omega arith)

-- How many numbers of a range are below a bound, or not below it.
pub count_if-below : (a s n : ℕ) → count_if (λ i. ltb i a) (row_range s n) ≡ min (s + n) a - max s 0
unfolding count_if row_range
count_if-below a s zero = omega arith
count_if-below a s (suc n) = let rest = count_if-below a (suc s) n in ground arith

pub count_if-behind :
    (c s n total : ℕ)
    → s + n ≤ total
    → count_if (λ i. leb c i) (row_range s n) ≡ min (s + n) total - max s c
unfolding count_if row_range
count_if-behind c s zero total h = omega arith
count_if-behind c s (suc n) total h =
    let rest = count_if-behind c (suc s) n total (omega arith) in ground arith

-- The tally of a list of rows: each column's nulls, counted.
abbrev Counted : Tally → List ResearchRow → NullCounts → Type 0
Counted tally rows counts =
    (counts.f_ret_1 ≡ tally.null_counts.f_ret_1 + count_if (λ r. is_null r.f_ret_1) rows)
    × (counts.f_roc_60 ≡ tally.null_counts.f_roc_60 + count_if (λ r. is_null r.f_roc_60) rows)
    × (counts.f_rvol_20 ≡ tally.null_counts.f_rvol_20 + count_if (λ r. is_null r.f_rvol_20) rows)
    × (counts.f_volratio_20
        ≡ tally.null_counts.f_volratio_20 + count_if (λ r. is_null r.f_volratio_20) rows)
    × (counts.l_fwdret_24
        ≡ tally.null_counts.l_fwdret_24 + count_if (λ r. is_null r.l_fwdret_24) rows)
    × (counts.l_fwddir_24
        ≡ tally.null_counts.l_fwddir_24 + count_if (λ r. is_null r.l_fwddir_24) rows)

raise_null-is_null {ℓ} :
    {A : Type ℓ} (o : Option A) (n : ℕ) → raise_null o n ≡ (if is_null o then 1 else 0) + n
raise_null-is_null none n = omega arith
raise_null-is_null (some a) n = omega arith

pub tally_rows-Counted :
    (rows : List ResearchRow) (tally : Tally)
    → Counted tally rows (tally_rows rows tally).null_counts
unfolding tally_rows count_row count_nulls count_if
tally_rows-Counted [] tally =
    (omega arith, omega arith, omega arith, omega arith, omega arith, omega arith)
tally_rows-Counted (row ∷ rows) tally =
    let (a, b, c, d, e, f) = tally_rows-Counted rows (count_row row tally) in
    (
      omega (arith, a, raise_null-is_null row.f_ret_1 tally.null_counts.f_ret_1),
      omega (arith, b, raise_null-is_null row.f_roc_60 tally.null_counts.f_roc_60),
      omega (arith, c, raise_null-is_null row.f_rvol_20 tally.null_counts.f_rvol_20),
      omega (arith, d, raise_null-is_null row.f_volratio_20 tally.null_counts.f_volratio_20),
      omega (arith, e, raise_null-is_null row.l_fwdret_24 tally.null_counts.l_fwdret_24),
      omega (arith, f, raise_null-is_null row.l_fwddir_24 tally.null_counts.l_fwddir_24),
    )

abbrev pub signs_total : SignDistribution → ℕ
signs_total signs = signs.down + signs.flat + signs.up

count_sign-total :
    (o : Option ℤ) (signs : SignDistribution)
    → IsSign o
    → signs_total (count_sign o signs) + (if is_null o then 1 else 0) ≡ suc (signs_total signs)
unfolding count_sign
count_sign-total none signs k = omega arith
count_sign-total (some z) signs (inl e) = rw e (omega arith)
count_sign-total (some z) signs (inr (inl e)) = rw e (omega arith)
count_sign-total (some z) signs (inr (inr e)) = rw e (omega arith)

-- Each row of a table is counted once, by its direction or as a null.
pub tally_rows-signs :
    (rows : List ResearchRow) (tally : Tally)
    → All (λ r. IsSign r.l_fwddir_24) rows
    → signs_total (tally_rows rows tally).sign_counts
        + (tally_rows rows tally).null_counts.l_fwddir_24
      ≡ signs_total tally.sign_counts + tally.null_counts.l_fwddir_24 + length rows
unfolding tally_rows count_row count_nulls
tally_rows-signs [] tally a = omega arith
tally_rows-signs (row ∷ rows) tally a = omega (
  arith,
  tally_rows-signs rows (count_row row tally) a.1,
  count_sign-total row.l_fwddir_24 tally.sign_counts a.0,
  raise_null-is_null row.l_fwddir_24 tally.null_counts.l_fwddir_24,
)
