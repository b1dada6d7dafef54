-- ===== src/SegmentStats/Stage.antt =====
-- The heart of run_validation_pipeline of src/quantara/validation_pipeline.py: the folds of the rows of
-- the parent, the statistics of each fold, and the report that decides on the publication.
use quantara.Prelude.{ℕ, Option, some, List, [], ◌∷◌, length}
use quantara.Text.{Text}
use quantara.Decimal.{Decimal}
use quantara.Errors.{Result, ok, ◌>>=◌}
use quantara.Folds.{Fold, FoldPartition, build_walkforward_folds}
use quantara.Features.{Context}
use quantara.Features.Table.{ResearchRow}
use quantara.SegmentStats.{Parameters, compute_fold_stats}
use quantara.Validation.{ValidationQualityReport, evaluate_validation_quality}
use quantara.Validation.Statistics.{FoldStats}

-- The comprehension over `partition.folds`.
unfoldable pub fold_stats_list :
    Context → (parent_rows : List ResearchRow) → Parameters → List Fold → Result (List FoldStats)
fold_stats_list context parent_rows parameters [] = ok []
fold_stats_list context parent_rows parameters (fold ∷ folds) =
    compute_fold_stats context parent_rows fold.test_range (some (length parent_rows)) parameters
    >>= λ stats. fold_stats_list context parent_rows parameters folds >>= λ rest. ok (stats ∷ rest)

unfoldable pub validation_report :
    (context : Context) (decimal_of : Text → Option Decimal) (parent_rows : List ResearchRow)
    (test_size min_train_size embargo : ℕ)
    → Parameters
    → Result (FoldPartition × List FoldStats × ValidationQualityReport)
unfolding fold_stats_list
validation_report context decimal_of parent_rows test_size min_train_size embargo parameters =
    build_walkforward_folds (length parent_rows) test_size min_train_size embargo >>= λ partition.
    fold_stats_list context parent_rows parameters partition.folds >>= λ stats. ok (
      partition,
      stats,
      evaluate_validation_quality decimal_of partition stats (length parent_rows) min_train_size
          embargo,
    )
