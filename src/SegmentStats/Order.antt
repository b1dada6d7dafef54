-- ===== src/SegmentStats/Order.antt =====
-- The times of the segments of a research table, whose open times rise.
use mathlib.Core.Option.{some-injective}
use quantara.Prelude.{
  ℕ, zero, suc, ◌+◌, ◌-◌, ◌≤◌, ◌<◌, ◌≡◌, refl, sym, ap, ◌∙◌, Option, some, List, [], ◌∷◌, length,
  get_elem?, take, drop, length-take, length-drop, ◌⊎◌, inl, inr, arith,
}
use quantara.Decimal.{Decimal}
use quantara.Errors.{Result, ok, ◌>>=◌, ok_injective}
use quantara.Rows.{Cell}
use quantara.Folds.{Range}
use quantara.Features.{Context, slice, at_index}
use quantara.Features.Table.{ResearchRow, open_time_of, build_research_rows}
use quantara.Features.Rows.{research_rows_at, row_at_lem}
use quantara.Features.Causal.{build_research_rows_parts}
use quantara.SegmentStats.{Parameters, compute_fold_stats, last_open_time}
use quantara.SegmentStats.Structure.{segment_stats_lem}
use quantara.Validation.Statistics.{FoldStats}

-- The open times rise from row to row.
abbrev pub Rises : List ResearchRow → Type 0
Rises rows =
    (i j : ℕ) (x y : ResearchRow)
    → i < j
    → get_elem? rows i ≡ some x
    → get_elem? rows j ≡ some y
    → x.open_time_ms < y.open_time_ms

eq_or_less : (a b : ℕ) → a ≤ b → (a ≡ b) ⊎ (a < b)
eq_or_less a b h = omega arith

-- The times of the statistics are those of the first and the last row of the segment.
abbrev pub Spans : List ResearchRow → Range → FoldStats → Type 0
Spans rows (s, e) stats =
    (x : ResearchRow) × (y : ResearchRow) × (get_elem? rows s ≡ some x)
    × (get_elem? rows (e - 1) ≡ some y)
    × (stats.open_time_ms_first ≡ x.open_time_ms)
    × (stats.open_time_ms_last ≡ y.open_time_ms)

module _ {ℓ} {A : Type ℓ} where
  get_elem?-take : (n : ℕ) (xs : List A) (i : ℕ) → i < n → get_elem? (take n xs) i ≡ get_elem? xs i
  get_elem?-take zero xs i h = absurd (omega arith)
  get_elem?-take (suc n) [] i h = refl
  get_elem?-take (suc n) (x ∷ xs) zero h = refl
  get_elem?-take (suc n) (x ∷ xs) (suc i) h = get_elem?-take n xs i (omega arith)

  get_elem?-drop : (n : ℕ) (xs : List A) (i : ℕ) → get_elem? (drop n xs) i ≡ get_elem? xs (n + i)
  get_elem?-drop zero xs i = ap (get_elem? xs) (omega arith)
  get_elem?-drop (suc n) [] i = refl
  get_elem?-drop (suc n) (x ∷ xs) i =
      let shifted : suc (n + i) ≡ suc n + i = omega arith in
      get_elem?-drop n xs i ∙ ap (get_elem? (x ∷ xs)) shifted

  -- A segment's rows are rows of the table.
  get_elem?-slice :
      (s e : ℕ) (xs : List A) (i : ℕ)
      → s + i < e
      → get_elem? (slice s e xs) i ≡ get_elem? xs (s + i)
  get_elem?-slice s e xs i h = get_elem?-drop s (take e xs) i ∙ get_elem?-take e xs (s + i) h

get_elem?-bound {ℓ} :
    {A : Type ℓ} (xs : List A) (i : ℕ) (x : A) → get_elem? xs i ≡ some x → i < length xs
get_elem?-bound [] i x e = cc
get_elem?-bound (y ∷ xs) zero x e = omega arith
get_elem?-bound (y ∷ xs) (suc i) x e = let inside = get_elem?-bound xs i x e in omega arith

last_open_time_lem :
    (row : ResearchRow) (more : List ResearchRow)
    → (y : ResearchRow) × (get_elem? (row ∷ more) (length more) ≡ some y)
      × (last_open_time row more ≡ y.open_time_ms)
unfolding last_open_time
last_open_time_lem row [] = (row, refl, refl)
last_open_time_lem row (next ∷ more) = last_open_time_lem next more

pub compute_fold_stats-Spans :
    (context : Context) (rows : List ResearchRow) (s e : ℕ) (total : Option ℕ)
    (parameters : Parameters) (stats : FoldStats)
    → s < e
    → e ≤ length rows
    → compute_fold_stats context rows (s, e) total parameters ≡ ok stats
    → Spans rows (s, e) stats
unfolding compute_fold_stats
compute_fold_stats-Spans context rows s e total parameters stats l fits h =
    let (row, more, shape, nulls, signs, expected, count, first, last) =
      segment_stats_lem context _ (slice s e rows) stats h in
    let (y, at_last, time) = last_open_time_lem row more in
    let size : length (slice s e rows) ≡ e - s =
      omega (arith, length-drop s (take e rows), length-take e rows) in
    let more_size : suc (length more) ≡ e - s = sym (ap length shape) ∙ size in
    let first_at : get_elem? rows s ≡ some row =
      ap (get_elem? rows) (omega arith)
      ∙ sym (get_elem?-slice s e rows 0 (omega arith))
      ∙ ap (λ xs. get_elem? xs 0) shape in
    let last_at : get_elem? rows (e - 1) ≡ some y =
      ap (get_elem? rows) (omega arith)
      ∙ sym (get_elem?-slice s e rows (length more) (omega arith))
      ∙ ap (λ xs. get_elem? xs (length more)) shape
      ∙ at_last in
    (row, y, first_at, last_at, first, last ∙ time)

-- Within a segment, and from one segment to the next, the times are in order.
pub Spans-order :
    (rows : List ResearchRow) (s e : ℕ) (stats : FoldStats)
    → Rises rows
    → s < e
    → Spans rows (s, e) stats
    → stats.open_time_ms_first ≤ stats.open_time_ms_last
Spans-order rows s e stats r l (x, y, a, b, f, g) = elim (eq_or_less s (e - 1) (omega arith)) [
  | inl one ↦
      let same : x ≡ y = some-injective _ _ (sym a ∙ ap (get_elem? rows) one ∙ b) in
      let times = ap (λ (z : ResearchRow). z.open_time_ms) same in omega arith
  | inr less ↦ let rise = r s (e - 1) x y less a b in omega arith
]

pub Spans-next :
    (rows : List ResearchRow) (s e t u : ℕ) (stats next : FoldStats)
    → Rises rows
    → s < e
    → e ≤ t
    → Spans rows (s, e) stats
    → Spans rows (t, u) next
    → stats.open_time_ms_last < next.open_time_ms_first
Spans-next rows s e t u stats next r l k (x, y, a, b, f, g) (x2, y2, a2, b2, f2, g2) =
    let rise = r (e - 1) t y x2 (omega arith) b a2 in omega arith

-- The open time of a row of the parent.
abbrev pub parent_time : List Cell → Result ℕ
parent_time parent = at_index parent 10 >>= λ cell. open_time_of cell

-- Every row of the parent has an open time, and they rise strictly.
abbrev pub RisesFrom : (bound : ℕ) → List (List Cell) → Type 0
RisesFrom bound [] = Unit
RisesFrom bound (parent ∷ parents) =
    (t : ℕ) × (parent_time parent ≡ ok t) × (bound ≤ t) × RisesFrom (suc t) parents

abbrev pub ParentsRise : List (List Cell) → Type 0
ParentsRise parents = RisesFrom 0 parents

RisesFrom-bound :
    (bound : ℕ) (parents : List (List Cell)) (i : ℕ) (p : List Cell) (a : ℕ)
    → RisesFrom bound parents
    → get_elem? parents i ≡ some p
    → parent_time p ≡ ok a
    → bound ≤ a
RisesFrom-bound bound [] i p a r e h = cc
RisesFrom-bound bound (q ∷ parents) zero p a (t, f, l, r) e h =
    let same : t ≡ a = ok_injective (sym f ∙ ap parent_time (some-injective _ _ e) ∙ h) in
    omega arith
RisesFrom-bound bound (q ∷ parents) (suc i) p a (t, f, l, r) e h =
    let later = RisesFrom-bound (suc t) parents i p a r e h in omega arith

RisesFrom_lem :
    (bound : ℕ) (parents : List (List Cell)) (i j : ℕ) (p q : List Cell) (a b : ℕ)
    → RisesFrom bound parents
    → i < j
    → get_elem? parents i ≡ some p
    → get_elem? parents j ≡ some q
    → parent_time p ≡ ok a
    → parent_time q ≡ ok b
    → a < b
RisesFrom_lem bound [] i j p q a b r l e f g h = cc
RisesFrom_lem bound (x ∷ parents) i zero p q a b r l e f g h = absurd (omega arith)
RisesFrom_lem bound (x ∷ parents) zero (suc j) p q a b (t, u, v, r) l e f g h =
    let same : t ≡ a = ok_injective (sym u ∙ ap parent_time (some-injective _ _ e) ∙ g) in
    let later = RisesFrom-bound (suc t) parents j q b r f h in omega arith
RisesFrom_lem bound (x ∷ parents) (suc i) (suc j) p q a b (t, u, v, r) l e f g h =
    RisesFrom_lem (suc t) parents i j p q a b r (omega arith) e f g h

build_research_rows-times :
    (context : Context) (decimal_of_str : Cell → Result Decimal) (parents : List (List Cell))
    (horizon : ℕ) (rows : List ResearchRow)
    → build_research_rows context decimal_of_str parents horizon ≡ ok rows
    → (i : ℕ) (row : ResearchRow) → get_elem? rows i ≡ some row
    → (p : List Cell) × (get_elem? parents i ≡ some p) × (parent_time p ≡ ok row.open_time_ms)
build_research_rows-times context decimal_of_str parents horizon rows h i row e =
    let (closes, volumes, features, labels, a, b, c, d, f) =
      build_research_rows_parts context decimal_of_str parents horizon rows h in
    let (size, each) = research_rows_at context features labels 0 parents rows f in
    let inside = get_elem?-bound rows i row e in
    let (p, made, x, y, w) = each i (omega arith) in
    let same : made ≡ row = some-injective _ _ (sym y ∙ e) in
    (
      p,
      x,
      (row_at_lem context features labels (0 + i) p made w).0
          ∙ ap (λ (r : ResearchRow). ok r.open_time_ms) same,
    )

pub build_research_rows-Rises :
    (context : Context) (decimal_of_str : Cell → Result Decimal) (parents : List (List Cell))
    (horizon : ℕ) (rows : List ResearchRow)
    → ParentsRise parents
    → build_research_rows context decimal_of_str parents horizon ≡ ok rows
    → Rises rows
build_research_rows-Rises context decimal_of_str parents horizon rows rise h i j x y l e f =
    let (p, a, b) = build_research_rows-times context decimal_of_str parents horizon rows h i x e in
    let (q, c, d) = build_research_rows-times context decimal_of_str parents horizon rows h j y f in
    RisesFrom_lem 0 parents i j p q x.open_time_ms y.open_time_ms rise l a c b d
