-- ===== src/Folds/Tests.antt =====
-- src/quantara/folds.py on concrete tables.
use quantara.Prelude.{◌+◌, ◌*◌, ◌≤◌, ◌<◌, ◌≡◌, refl, some, [], ◌∷◌, length, arith}
use quantara.Errors.{ok}
use quantara.Folds.{
  FoldPartition, default_test_size, default_min_train_size, default_embargo, make_fold,
  total_test_rows, build_walkforward_folds,
}
use quantara.Folds.Leakage.{
  AllHaveRoles, IsPartition, build-AllHaveRoles, build-IsPartition, build_coverage,
}

-- The remainder of 16 rows goes to the last fold.
two_folds :
    build_walkforward_folds 520 default_test_size default_min_train_size default_embargo
    ≡ ok (record {
      parent_rows = 520;
      excluded_head_rows = 360;
      folds =
          record {
            fold_id = 0;
            train_range = some (0, 336);
            embargo_range = some (336, 360);
            test_range = (360, 432);
          }
          ∷ record {
            fold_id = 1;
            train_range = some (0, 408);
            embargo_range = some (408, 432);
            test_range = (432, 520);
          }
          ∷ [];
      coverage = record { total_rows = 520; fold_count = 2; test_rows = 160 };
    })
unfolding build_walkforward_folds make_fold
two_folds = refl

build-AllHaveRoles_example :
    (p : FoldPartition) × (build_walkforward_folds 520 72 336 24 ≡ ok p)
    × AllHaveRoles 520 72 336 24 p
build-AllHaveRoles_example = build-AllHaveRoles 520 72 336 24 (omega arith) (omega arith)

build-IsPartition_example :
    (p : FoldPartition) × (build_walkforward_folds 520 72 336 24 ≡ ok p) × IsPartition 520 p
build-IsPartition_example = build-IsPartition 520 72 336 24 (omega arith) (omega arith)

build_coverage_example :
    (p : FoldPartition) × (build_walkforward_folds 520 72 336 24 ≡ ok p)
    × (p.coverage.fold_count ≡ length p.folds)
    × (p.coverage.test_rows ≡ total_test_rows p.folds)
    × (p.coverage.total_rows ≡ 520)
    × (p.excluded_head_rows + p.coverage.test_rows ≡ p.parent_rows)
    × (p.coverage.fold_count * 72 ≤ p.coverage.test_rows)
    × (p.coverage.test_rows < p.coverage.fold_count * 72 + 72)
build_coverage_example = build_coverage 520 72 336 24 (omega arith) (omega arith)
