-- ===== src/SegmentStats/Total.antt =====
-- When the statistics of the folds can be computed: a segment has rows, so that only its mean, minimum
-- and maximum can raise.
use quantara.Prelude.{
  ◌⊎◌, inl, inr, length-take, length-drop, take, ℕ, suc, ◌+◌, ◌≤◌, ◌<◌, ◌≡◌, refl, Option, some,
  List, [], ◌∷◌, length, arith,
}
use quantara.Errors.{◌>>=◌, Error, err, Result, ok}
use quantara.Folds.{Range, Fold, make_fold, make_folds}
use quantara.Folds.Ranges.{Tiles}
use quantara.Features.{Context}
use quantara.Features.Table.{ResearchRow}
use quantara.Features.{slice}
use quantara.SegmentStats.{
  compute_expected_segment_nulls, parent_total, segment_stats, bounds_of, tally_rows, empty_tally,
  Parameters, compute_fold_stats,
}
use quantara.SegmentStats.Stage.{fold_stats_list}
use quantara.Validation.Statistics.{NullCounts, FoldStats}

-- The mean, the minimum or the maximum of a segment of the table raises.
abbrev pub Raises : Context → List ResearchRow → Error → Type 0
Raises context rows raised =
    (s : ℕ) × (e : ℕ) × (s < e)
    × (e ≤ length rows)
    × (bounds_of context (tally_rows (slice s e rows) empty_tally).fwdret_values ≡ err raised)

-- What a call gives: a value, or the exception that such a segment raises.
abbrev pub Settled {ℓ} : {A : Type ℓ} → Context → List ResearchRow → Result A → Type ℓ
Settled {A = A} context rows result =
    ((value : A) × (result ≡ ok value))
    ⊎ ((raised : Error) × (result ≡ err raised) × Raises context rows raised)

-- A step whose value is used with no further exception.
last_step {ℓ κ} :
    {A : Type ℓ} {B : Type κ} (m : Result A) (f : A → B)
    → ((value : B) × ((m >>= λ a. ok (f a)) ≡ ok value))
      ⊎ ((raised : Error) × ((m >>= λ a. ok (f a)) ≡ err raised) × (m ≡ err raised))
last_step (ok a) f = inl (f a, refl)
last_step (err raised) f = inr (raised, refl, refl)

segment_stats_cases :
    (context : Context) (expected : NullCounts) (segment : List ResearchRow)
    → 0 < length segment
    → ((stats : FoldStats) × (segment_stats context expected segment ≡ ok stats))
      ⊎ ((raised : Error) × (segment_stats context expected segment ≡ err raised)
          × (bounds_of context (tally_rows segment empty_tally).fwdret_values ≡ err raised))
unfolding segment_stats
segment_stats_cases context expected [] h = absurd (omega arith)
segment_stats_cases context expected (row ∷ rows) h =
    last_step (bounds_of context (tally_rows (row ∷ rows) empty_tally).fwdret_values) _

compute_fold_stats-Settled :
    (context : Context) (rows : List ResearchRow) (s e : ℕ) (total : Option ℕ)
    (parameters : Parameters)
    → s < e
    → e ≤ length rows
    → Settled context rows (compute_fold_stats context rows (s, e) total parameters)
unfolding compute_fold_stats
compute_fold_stats-Settled context rows s e total parameters l fits =
    let size : 0 < length (slice s e rows) =
      omega (arith, length-drop s (take e rows), length-take e rows) in
    elim (segment_stats_cases context
      (compute_expected_segment_nulls s e (parent_total total rows) parameters) (slice s e rows)
      size) [ inl done ↦ inl done | inr (raised, h, b) ↦ inr (raised, h, (s, e, l, fits, b)) ]

fold_stats_list-cons :
    (context : Context) (rows : List ResearchRow) (parameters : Parameters) (fold : Fold)
    (folds : List Fold)
    → Settled context rows
        (compute_fold_stats context rows fold.test_range (some (length rows)) parameters)
    → Settled context rows (fold_stats_list context rows parameters folds)
    → Settled context rows (fold_stats_list context rows parameters (fold ∷ folds))
unfolding fold_stats_list
fold_stats_list-cons context rows parameters fold folds (inr (raised, h, b)) rest =
    inr (raised, rw h refl, b)
fold_stats_list-cons context rows parameters fold folds (inl (stats, h)) (inl (more, g)) =
    inl (stats ∷ more, rw (h, g) refl)
fold_stats_list-cons context rows parameters fold folds (inl (stats, h)) (inr (raised, g, b)) =
    inr (raised, rw (h, g) refl, b)

pub Tiles-fits : (n ts current : ℕ) (rs : List Range) → Tiles n ts current rs → current + ts ≤ n
Tiles-fits n ts current [] t = absurd t
Tiles-fits n ts current (r ∷ []) t = omega arith
Tiles-fits n ts current (r ∷ q ∷ rs) t = let later = Tiles-fits n ts r.1 (q ∷ rs) t.2 in omega arith

pub fold_stats_list-Settled :
    (context : Context) (rows : List ResearchRow) (parameters : Parameters)
    (ts mt emb id current : ℕ) (rs : List Range)
    → 0 < ts
    → Tiles (length rows) ts current rs
    → Settled context rows (fold_stats_list context rows parameters (make_folds mt emb id rs))
unfolding make_folds make_fold
fold_stats_list-Settled context rows parameters ts mt emb id current [] pos t = absurd t
fold_stats_list-Settled context rows parameters ts mt emb id current (r ∷ []) pos t =
    fold_stats_list-cons context rows parameters (make_fold mt emb id r) []
      (compute_fold_stats-Settled context rows r.0 r.1 _ parameters (omega arith) (omega arith))
      (inl ([], unfold fold_stats_list in refl))
fold_stats_list-Settled context rows parameters ts mt emb id current (r ∷ q ∷ rs) pos t =
    let fits = Tiles-fits (length rows) ts r.1 (q ∷ rs) t.2 in
    fold_stats_list-cons context rows parameters (make_fold mt emb id r)
      (make_folds mt emb (suc id) (q ∷ rs))
      (compute_fold_stats-Settled context rows r.0 r.1 _ parameters (omega arith) (omega arith))
      (fold_stats_list-Settled context rows parameters ts mt emb (suc id) r.1 (q ∷ rs) pos t.2)
