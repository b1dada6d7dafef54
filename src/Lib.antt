-- ===== src/Lib.antt =====
-- Quantara (src/quantara): a data pipeline that ingests exchange files, checks them, aggregates
-- them, cuts them into folds and publishes immutable artifacts whose bytes must be reproducible.
--
-- How the parts interact: parsing.py turns the records of a CSV into source rows; canonical.py
-- makes canonical rows of them, which Parquet persists; aggregation.py reads them back and makes
-- bars of a longer timeframe; quality.py reports on the canonical rows, and only a state of PASS
-- lets the pipeline go on without approval; derive_quality.py does so for the bars;
-- quality_approval.py lets a report with warnings pass for a record that covers each of them;
-- publication.py stores the files and moves the pointer that readers follow. Identities are hashes:
-- hashing.py frames rows that jcs.py has made canonical, and decimals with 18 places. archive.py
-- inspects the ZIP files that come in. Of the stages behind, features.py makes the rows of a
-- research table from the bars, folds.py cuts them into walk-forward folds, fold_stats.py describes
-- each fold, validation_quality.py lets them through, and bootstrap_b4.py resamples hourly values
-- in blocks.
-- A function that may raise returns a `Result` with the class of the exception.
--
-- Modules and the code they model:
--   Prelude, Text   natural numbers, integers, lists and strings, as the code uses them
--   Errors          src/quantara/errors.py: the exception classes, and blocks that may raise
--   Decimal         the part of Python's decimal module that the code uses: exact sums in a
--                   context of bounded precision, scaling, comparison
--   Rows            SourceRow of parsing.py and CanonicalRow of canonical.py
--   Json, Jcs       src/quantara/jcs.py: canonicalize, and an independent reader of JSON
--   Hashing         src/quantara/hashing.py: render_decimal_18, the checks of rows, the fingerprints
--                   and the content hashes, with the choice of the kernel; where a row or a statistic
--                   is rendered, the choice is an argument too
--   Archive         src/quantara/archive.py: inspect_zip, stream_member, read_member_bytes
--   Approval        src/quantara/quality_approval.py: parse_approval_dict, verify_self_hash,
--                   canonical_finding_sha256, evaluate_effective_quality
--   Parsing         src/quantara/parsing.py: parse_rows, parse_numeric, parse_timestamp_ms
--   Aggregation     src/quantara/aggregation.py: aggregate_timeframe, exact_volume_sum,
--                   exact_trade_count, rows_from_persisted
--   Canonical       src/quantara/canonical.py: build_canonical_row, assemble_canonical_rows,
--                   to_content_array, reconcile_rows
--   Quality         src/quantara/quality.py: evaluate_quality
--   DerivedQuality  src/quantara/derive_quality.py: evaluate_derived_quality
--   Bootstrap       src/quantara/bootstrap_b4.py: SplitMix64, sample_block_starts,
--                   materialize_resampled_indices, aggregate_from_starts
--   Publication     src/quantara/publication.py: store_object, stage_commit, publish_commit,
--                   write_current, verify_commit_graph, read_and_verify_current
--   Folds           src/quantara/folds.py: compute_test_ranges, build_walkforward_folds
--   Features        src/quantara/features.py: compute_features, compute_labels, build_research_rows
--   SegmentStats    src/quantara/fold_stats.py: compute_fold_stats, compute_expected_segment_nulls;
--                   Stage is the part of run_validation_pipeline of
--                   src/quantara/validation_pipeline.py from the folds to the report
--   Validation      src/quantara/validation_quality.py: evaluate_validation_quality, over the folds
--                   and the FoldStats of src/quantara/fold_stats.py
--
-- Bounds and fuel: the loop of compute_test_ranges runs on one more step than the table has rows,
-- and a round of it moves by the test size, which is positive; the count of decimal digits of a number
-- runs on the number itself, which is no less; the reader of JSON runs on more than twice the length of
-- its text. The loop of SplitMix64.below redraws on any fuel given: how often its generator is refused is
-- not decided, and the theorem on it names the draws that are. Every other loop is structural
-- recursion on its list.
--
-- hashlib.sha256 and json.loads are parameters of the publication, as are SHA-256, str.lower, the
-- digits of Unicode and the Rust kernel of the hash contract; strings have no lone surrogates. What
-- zipfile finds in an archive is an argument too. A commit is named by a hash, so no name of a commit
-- is that of a staging directory; a file name with a separator in it cannot be staged, since a staging
-- directory has no directories, and a path that leaves it is taken to lead nowhere.
--
-- Not modelled: locks, HTTP, YAML, Parquet and the command line, which are calls of libraries;
-- messages of exceptions; the orchestration of the pipelines, but for the part named above; the
-- other stages behind the folds (training, evaluation, replication) and their reports; the series
-- of scalars; the limit of Python's int() on the length of a numeral. Of the decimal context of 50
-- digits the sum is modelled; its other operations are arguments, each of which may raise.
pub mod Prelude
pub mod Errors
pub mod Decimal
pub mod Text
pub mod Rows
pub mod Json
pub mod Jcs
pub mod Hashing
pub mod Approval
pub mod Archive
pub mod Parsing
pub mod Aggregation
pub mod Features
pub mod Folds
pub mod SegmentStats
pub mod Validation
pub mod Canonical
pub mod Quality
pub mod DerivedQuality
pub mod Bootstrap
pub mod Publication
