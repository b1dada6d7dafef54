-- ===== src/Aggregation/Results.antt =====
-- The whole of aggregate_timeframe (src/quantara/aggregation.py).
use quantara.Prelude.{
  ℕ, ◌*◌, ◌/◌, ◌^◌, ◌≤◌, ◌<◌, ◌≡◌, refl, sym, ap, ◌∙◌, subst, length-map, List, [], ◌∷◌, ◌++◌, map,
  arith, length, length-append, inl, inr, ◌&&◌, ◌==◌,
}
use mathlib.Core.List.{map-append}
use mathlib.Core.Path.{ap₂}
use quantara.Prelude.Int.{◌+ℤ◌, int_laws}
use quantara.Decimal.{Decimal}
use quantara.Decimal.Value.{units}
use quantara.Text.{Text}
use quantara.Rows.{Ascends, CanonicalRow}
use quantara.Errors.{ok, >>=-eq-ok, ok_injective, raise_if-eq-ok}
use quantara.Aggregation.{
  Groups, check_order, group_rows, sort_groups, is_nonempty, exact_volume_sum, aggregate_timeframe,
}
use quantara.Aggregation.Sums.{AllFit, total_units, exact_volume_sum_lem}
use quantara.Aggregation.Buckets.{Grouped, members_of, check_order-ok, groups_of_ascending}
use quantara.Aggregation.Bars.{AreBars, aggregate_groups-AreBars}

-- For a positive timeframe, whatever is returned was made from strictly ascending minutes, cut into
-- consecutive runs, one to a bucket, each of which is complete and has its exact bar, in order.
pub aggregate_timeframe-AreBars :
    (minutes : List CanonicalRow) (identity : List Text) (tf : ℕ) (bars : List CanonicalRow)
    → 0 < tf
    → aggregate_timeframe minutes identity tf ≡ ok bars
    → Ascends minutes
      × ((groups : Groups) × Grouped tf 0 groups
          × (members_of groups ≡ minutes)
          × AreBars identity tf groups bars)
unfolding aggregate_timeframe
aggregate_timeframe-AreBars minutes identity tf bars positive h =
    let (u, ordered, h1) = >>=-eq-ok (check_order minutes) _ h in
    let (nonzero, h2) = raise_if-eq-ok (tf == 0 && is_nonempty minutes) _ _ h1 in
    let a = check_order-ok minutes ordered in
    let (k, e) = groups_of_ascending tf minutes positive a in
    (
      a,
      (
        sort_groups (group_rows tf [] minutes),
        k,
        e,
        aggregate_groups-AreBars identity tf (sort_groups (group_rows tf [] minutes)) bars h2,
      ),
    )

length-AreBars :
    (identity : List Text) (tf : ℕ) (groups : Groups) (bars : List CanonicalRow)
    → AreBars identity tf groups bars
    → length (members_of groups) ≡ length bars * (tf / 60000)
length-AreBars identity tf [] [] b = omega arith
length-AreBars identity tf [] (bar ∷ bars) b = absurd b
length-AreBars identity tf ((k, ms) ∷ groups) [] b = absurd b
length-AreBars identity tf ((k, ms) ∷ groups) (bar ∷ bars) b = omega (
  arith,
  length-append ms (members_of groups),
  length-AreBars identity tf groups bars b.1,
  b.0.size,
)

total_units-append :
    (xs ys : List Decimal) → total_units (xs ++ ys) ≡ total_units xs +ℤ total_units ys
unfolding total_units
total_units-append [] ys = omega int_laws
total_units-append (x ∷ xs) ys = rw (total_units-append xs ys) (omega int_laws)

AllFit-append : (xs ys : List Decimal) → AllFit (xs ++ ys) → AllFit xs × AllFit ys
AllFit-append [] ys f = (tt, f)
AllFit-append (x ∷ xs) ys f = let (a, b) = AllFit-append xs ys f.1 in ((f.0, a), b)

-- A volume column: its sum in every bar is that of the bar's group.
abbrev SumsUp : (field : CanonicalRow → Decimal) → Groups → List CanonicalRow → Type 0
SumsUp field [] [] = Unit
SumsUp field ((b, ms) ∷ groups) (bar ∷ bars) =
    (exact_volume_sum (map field ms) ≡ ok (field bar)) × SumsUp field groups bars
SumsUp field _ _ = ⊥

group_conserves :
    (field : CanonicalRow → Decimal) (ms : List CanonicalRow) (bar : CanonicalRow)
    → AllFit (map field ms)
    → length (map field ms) ≤ 10 ^ 40
    → exact_volume_sum (map field ms) ≡ ok (field bar)
    → units (field bar) ≡ total_units (map field ms)
group_conserves field ms bar f few e = elim (exact_volume_sum_lem (map field ms) f few) [
  | inl (t, e', u, fits) ↦ ap units (ok_injective (sym e ∙ e')) ∙ u
  | inr (e', big) ↦ cc
]

groups_conserve :
    (field : CanonicalRow → Decimal) (groups : Groups) (bars : List CanonicalRow)
    → SumsUp field groups bars
    → AllFit (map field (members_of groups))
    → length (map field (members_of groups)) ≤ 10 ^ 40
    → total_units (map field bars) ≡ total_units (map field (members_of groups))
unfolding total_units
groups_conserve field [] [] s f few = refl
groups_conserve field [] (bar ∷ bars) s f few = absurd s
groups_conserve field ((b, ms) ∷ groups) [] s f few = absurd s
groups_conserve field ((b, ms) ∷ groups) (bar ∷ bars) s f few =
    let split = map-append field ms (members_of groups) in
    let (f1, f2) = AllFit-append (map field ms) (map field (members_of groups)) (rw split at f) in
    let n = length-append (map field ms) (map field (members_of groups)) in
    let m = ap length split in
    rw (split, total_units-append (map field ms) (map field (members_of groups)))
      (ap₂ ◌+ℤ◌ (group_conserves field ms bar f1 (omega (arith, n, m)) s.0)
        (groups_conserve field groups bars s.1 f2 (omega (arith, n, m))))

-- Every minute's volume of the column fits the column type.
abbrev pub ColumnFits : (CanonicalRow → Decimal) → List CanonicalRow → Type 0
ColumnFits field minutes = AllFit (map field minutes)

AreBars-SumsUp :
    (identity : List Text) (tf : ℕ) (groups : Groups) (bars : List CanonicalRow)
    → AreBars identity tf groups bars
    → SumsUp (λ r. r.base_asset_volume) groups bars
      × SumsUp (λ r. r.quote_asset_volume) groups bars
      × SumsUp (λ r. r.taker_buy_base_volume) groups bars
      × SumsUp (λ r. r.taker_buy_quote_volume) groups bars
AreBars-SumsUp identity tf [] [] b = (tt, tt, tt, tt)
AreBars-SumsUp identity tf [] (bar ∷ bars) b = absurd b
AreBars-SumsUp identity tf ((k, ms) ∷ groups) [] b = absurd b
AreBars-SumsUp identity tf ((k, ms) ∷ groups) (bar ∷ bars) b =
    let (s1, s2, s3, s4) = AreBars-SumsUp identity tf groups bars b.1 in
    ((b.0.base_sum, s1), (b.0.quote_sum, s2), (b.0.taker_base_sum, s3), (b.0.taker_quote_sum, s4))

-- The column has the same exact total in the bars as in the minutes.
abbrev pub Conserves : (CanonicalRow → Decimal) → (minutes bars : List CanonicalRow) → Type 0
Conserves field minutes bars = total_units (map field bars) ≡ total_units (map field minutes)

-- For a positive timeframe and at most 10 ^ 40 minutes whose volumes fit the column type, bars that
-- are returned use every minute, timeframe / 60000 to a bar, and each volume column has the same
-- exact total in the bars as in the minutes.
pub aggregate_timeframe-Conserves :
    (minutes : List CanonicalRow) (identity : List Text) (tf : ℕ) (bars : List CanonicalRow)
    → 0 < tf
    → aggregate_timeframe minutes identity tf ≡ ok bars
    → ColumnFits (λ r. r.base_asset_volume) minutes
    → ColumnFits (λ r. r.quote_asset_volume) minutes
    → ColumnFits (λ r. r.taker_buy_base_volume) minutes
    → ColumnFits (λ r. r.taker_buy_quote_volume) minutes
    → length minutes ≤ 10 ^ 40
    → (length minutes ≡ length bars * (tf / 60000))
      × Conserves (λ r. r.base_asset_volume) minutes bars
      × Conserves (λ r. r.quote_asset_volume) minutes bars
      × Conserves (λ r. r.taker_buy_base_volume) minutes bars
      × Conserves (λ r. r.taker_buy_quote_volume) minutes bars
aggregate_timeframe-Conserves minutes identity tf bars positive h f1 f2 f3 f4 few =
    let (a, (groups, k, e, b)) = aggregate_timeframe-AreBars minutes identity tf bars positive h in
    let (s1, s2, s3, s4) = AreBars-SumsUp identity tf groups bars b in
    let column =
      λ (field : CanonicalRow → Decimal) (s : SumsUp field groups bars)
          (f : ColumnFits field minutes).
        subst (λ ms. Conserves field ms bars) e
          (groups_conserve field groups bars s (rw (← e) at f)
            (rw length-map (omega (arith, ap length e)))) in
    (
      rw (← e) (length-AreBars identity tf groups bars b),
      column _ s1 f1,
      column _ s2 f2,
      column _ s3 f3,
      column _ s4 f4,
    )
