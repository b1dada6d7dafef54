-- ===== src/Aggregation/Rejections.antt =====
-- The order check of aggregate_timeframe (src/quantara/aggregation.py).
use quantara.Prelude.{ℕ, ◌<◌, ◌≡◌, List, [], ◌∷◌, ◌++◌, arith, ◌⊎◌}
use quantara.Text.{Text}
use quantara.Rows.{Ascends, AscendsFrom, CanonicalRow}
use quantara.Errors.{Error, err, unordered_minute_input, duplicate_open_time}
use quantara.Aggregation.{check_order, check_ascending, aggregate_timeframe}

-- What the second of two neighbouring rows raises.
abbrev pub Breaks : (a b : CanonicalRow) → Error → Type 0
Breaks a b e =
    ((b.open_time_ms < a.open_time_ms) × (e ≡ unordered_minute_input))
    ⊎ ((b.open_time_ms ≡ a.open_time_ms) × (e ≡ duplicate_open_time))

check_ascending-Breaks :
    (t : ℕ) (xs : List CanonicalRow) (a b : CanonicalRow) (ys : List CanonicalRow) (e : Error)
    → AscendsFrom t (xs ++ a ∷ [])
    → Breaks a b e
    → check_ascending t (xs ++ a ∷ b ∷ ys) ≡ err e
unfolding check_ascending
check_ascending-Breaks t [] a b ys e asc br = ground arith
check_ascending-Breaks t (x ∷ xs) a b ys e asc br =
    ground (arith, check_ascending-Breaks x.open_time_ms xs a b ys e asc.1 br)

check_order-Breaks :
    (xs : List CanonicalRow) (a b : CanonicalRow) (ys : List CanonicalRow) (e : Error)
    → Ascends (xs ++ a ∷ [])
    → Breaks a b e
    → check_order (xs ++ a ∷ b ∷ ys) ≡ err e
unfolding check_order check_ascending
check_order-Breaks [] a b ys e asc br = ground arith
check_order-Breaks (x ∷ xs) a b ys e asc br =
    check_ascending-Breaks x.open_time_ms xs a b ys e asc br

-- If the minutes rise strictly up to `a` and the next one, `b`, is earlier or at the same time, then
-- the call raises UnorderedMinuteInput or DuplicateOpenTime, whatever follows: nothing is sorted.
pub aggregate_timeframe-Breaks :
    (xs : List CanonicalRow) (a b : CanonicalRow) (ys : List CanonicalRow) (identity : List Text)
    (tf : ℕ) (e : Error)
    → Ascends (xs ++ a ∷ [])
    → Breaks a b e
    → aggregate_timeframe (xs ++ a ∷ b ∷ ys) identity tf ≡ err e
unfolding aggregate_timeframe
aggregate_timeframe-Breaks xs a b ys identity tf e asc br =
    rw (check_order-Breaks xs a b ys e asc br)
