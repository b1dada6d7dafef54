-- ===== src/Validation/Demands.antt =====
-- What the last four checks of src/quantara/validation_quality.py demand of the statistics.
use mathlib.Core.Option.{some-injective}
use quantara.Prelude.{
  ℕ, ◌+◌, ◌≤◌, ◌<◌, ◌≡◌, ◌↔◌, ◌⊎◌, inl, inr, refl, sym, subst, Bool, true, false, Option, none,
  some, List, [], ◌∷◌, length, All, arith,
}
use quantara.Text.{Text}
use quantara.Decimal.{Decimal, leb_decimal}
use quantara.Folds.{FoldPartition}
use quantara.Validation.Statistics.{
  count_if, differ, null_mismatches, null_failures, signs_fail, decimal_or_raise, out_of_bounds,
  mean_fails, returns_fail, time_failures_from, time_failures,
}
use quantara.Validation.Statistics.{FoldStats}

-- The nulls of a segment are those that the structure of the table demands.
abbrev pub HasExpectedNulls : FoldStats → Type 0
HasExpectedNulls s =
    let a = s.null_counts in
    let e = s.expected_null_counts in
    (a.f_ret_1 ≡ e.f_ret_1)
    × (a.f_roc_60 ≡ e.f_roc_60)
    × (a.f_rvol_20 ≡ e.f_rvol_20)
    × (a.f_volratio_20 ≡ e.f_volratio_20)
    × (a.l_fwdret_24 ≡ e.l_fwdret_24)
    × (a.l_fwddir_24 ≡ e.l_fwddir_24)

-- Each row of the segment has a sign or a null.
abbrev pub SignsAddUp : FoldStats → Type 0
SignsAddUp s =
    let signs = s.sign_distribution in
    signs.down + signs.flat + signs.up + s.null_counts.l_fwddir_24 ≡ s.row_count

-- A segment's times are in order, and behind those of the segment before.
abbrev pub TimesAscendFrom : FoldStats → List FoldStats → Type 0
TimesAscendFrom previous [] = Unit
TimesAscendFrom previous (s ∷ stats) =
    (s.open_time_ms_first ≤ s.open_time_ms_last)
    × (previous.open_time_ms_last < s.open_time_ms_first)
    × TimesAscendFrom s stats

abbrev pub TimesAscend : List FoldStats → Type 0
TimesAscend [] = Unit
TimesAscend (s ∷ stats) = (s.open_time_ms_first ≤ s.open_time_ms_last) × TimesAscendFrom s stats

-- Three numbers in order: the minimum, the mean and the maximum.
abbrev pub Bounded : (m l h : Option Decimal) → Type 0
Bounded m l h =
    (mean : Decimal) × (low : Decimal) × (high : Decimal) × (m ≡ some mean)
    × (l ≡ some low)
    × (h ≡ some high)
    × (leb_decimal low mean ≡ true)
    × (leb_decimal mean high ≡ true)

-- The mean, if there is one, is within the bounds.
abbrev pub MeanBounded :
    (Text → Option Decimal) → (low high : Option Decimal) → Option Text → Type 0
MeanBounded decimal_of low high mean =
    (mean ≡ none) ⊎ ((m : Text) × (mean ≡ some m) × Bounded (decimal_of m) low high)

abbrev pub ReturnsBounded : (Text → Option Decimal) → FoldStats → Type 0
ReturnsBounded decimal_of s =
    MeanBounded decimal_of (decimal_or_raise decimal_of s.fwdret_min)
      (decimal_or_raise decimal_of s.fwdret_max) s.fwdret_mean

differ-zero : (a b : ℕ) → (differ a b ≡ 0) ↔ (a ≡ b)
differ-zero a b = ground arith

null_mismatches-zero :
    (s : FoldStats)
    → (null_mismatches s.null_counts s.expected_null_counts ≡ 0) ↔ HasExpectedNulls s
unfolding null_mismatches
null_mismatches-zero s =
    let a = s.null_counts in
    let e = s.expected_null_counts in
    let d1 = differ-zero a.f_ret_1 e.f_ret_1 in
    let d2 = differ-zero a.f_roc_60 e.f_roc_60 in
    let d3 = differ-zero a.f_rvol_20 e.f_rvol_20 in
    let d4 = differ-zero a.f_volratio_20 e.f_volratio_20 in
    let d5 = differ-zero a.l_fwdret_24 e.l_fwdret_24 in
    let d6 = differ-zero a.l_fwddir_24 e.l_fwddir_24 in
    (
      λ h. (
        d1.0 (omega arith),
        d2.0 (omega arith),
        d3.0 (omega arith),
        d4.0 (omega arith),
        d5.0 (omega arith),
        d6.0 (omega arith),
      ),
      λ (p1, p2, p3, p4, p5, p6).
          omega (arith, d1.1 p1, d2.1 p2, d3.1 p3, d4.1 p4, d5.1 p5, d6.1 p6),
    )

pub signs_fail-false : (s : FoldStats) → (signs_fail s ≡ false) ↔ SignsAddUp s
unfolding signs_fail
signs_fail-false s = ground arith

out_of_bounds-false : (m l h : Option Decimal) → (out_of_bounds m l h ≡ false) ↔ Bounded m l h
unfolding out_of_bounds
out_of_bounds-false (some m) (some l) (some h) = (
  λ e. (m, l, h, refl, refl, refl, ground arith, ground arith),
  λ w.
      let (mean, low, high, p, q, r, s, t) = w in
      let above : leb_decimal l m ≡ true = cc in
      let below : leb_decimal m h ≡ true = cc in ground arith,
)
out_of_bounds-false (some m) (some l) none = (λ e. cc, λ w. let (a, b, c, p, q, r, s, t) = w in cc)
out_of_bounds-false (some m) none h = (λ e. cc, λ w. let (a, b, c, p, q, r, s, t) = w in cc)
out_of_bounds-false none l h = (λ e. cc, λ w. let (a, b, c, p, q, r, s, t) = w in cc)

mean_fails-false :
    (decimal_of : Text → Option Decimal) (low high : Option Decimal) (mean : Option Text)
    → (mean_fails decimal_of low high mean ≡ false) ↔ MeanBounded decimal_of low high mean
unfolding mean_fails
mean_fails-false decimal_of low high none = (λ h. inl refl, λ h. refl)
mean_fails-false decimal_of low high (some m) =
    let (to, back) = out_of_bounds-false (decimal_of m) low high in
    (
      λ h. inr (m, refl, to h),
      λ w. elim w [
        | inl clash ↦ cc
        | inr (k, e, x) ↦
            back (subst (λ z. Bounded (decimal_of z) low high) (sym (some-injective _ _ e)) x)
      ],
    )

pub returns_fail-false :
    (decimal_of : Text → Option Decimal) (s : FoldStats)
    → (returns_fail decimal_of s ≡ false) ↔ ReturnsBounded decimal_of s
unfolding returns_fail
returns_fail-false decimal_of s =
    mean_fails-false decimal_of (decimal_or_raise decimal_of s.fwdret_min)
      (decimal_or_raise decimal_of s.fwdret_max) s.fwdret_mean

time_failures_from-zero :
    (previous : FoldStats) (stats : List FoldStats)
    → (time_failures_from previous stats ≡ 0) ↔ TimesAscendFrom previous stats
unfolding time_failures_from
time_failures_from-zero previous [] = (λ h. tt, λ h. refl)
time_failures_from-zero previous (s ∷ stats) =
    let (to, back) = time_failures_from-zero s stats in
    (
      λ h. (ground arith, ground arith, to (ground arith)),
      λ (a, b, c). let e = back c in ground arith,
    )

pub time_failures-zero : (stats : List FoldStats) → (time_failures stats ≡ 0) ↔ TimesAscend stats
unfolding time_failures
time_failures-zero [] = (λ h. tt, λ h. refl)
time_failures-zero (s ∷ stats) =
    let (to, back) = time_failures_from-zero s stats in
    (λ h. (ground arith, to (ground arith)), λ (a, c). let e = back c in ground arith)

pub count_if-zero :
    {P : FoldStats → Type 0} (test : FoldStats → Bool)
    → ((s : FoldStats) → (test s ≡ false) ↔ P s)
    → (stats : List FoldStats) → (count_if test stats ≡ 0) ↔ All P stats
unfolding count_if
count_if-zero test k [] = (λ h. tt, λ h. refl)
count_if-zero test k (s ∷ stats) =
    let (to, back) = count_if-zero test k stats in
    (
      λ h. ((k s).0 (ground arith), to (ground arith)),
      λ (a, b). let e = (k s).1 a in let f = back b in ground arith,
    )

pub null_failures-zero :
    (stats : List FoldStats) → (null_failures stats ≡ 0) ↔ All HasExpectedNulls stats
unfolding null_failures
null_failures-zero [] = (λ h. tt, λ h. refl)
null_failures-zero (s ∷ stats) =
    let (to, back) = null_failures-zero stats in
    let here = null_mismatches-zero s in
    (λ h. (here.0 (omega arith), to (omega arith)), λ (a, b). omega (arith, here.1 a, back b))

-- The statistics pass: one to each of the folds, each sound, and in the order of time.
abbrev pub StatsPass : (Text → Option Decimal) → FoldPartition → List FoldStats → Type 0
StatsPass decimal_of p stats =
    (length p.folds ≡ length stats)
    × All HasExpectedNulls stats
    × All SignsAddUp stats
    × All (ReturnsBounded decimal_of) stats
    × TimesAscend stats
