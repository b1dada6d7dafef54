-- ===== src/Features/Forward.antt =====
-- The labels of src/quantara/features.py: each of the two columns as a loop of its own.
use quantara.Prelude.{
  ℕ, zero, suc, ◌+◌, ◌-◌, ◌≤◌, ◌<◌, ◌≡◌, refl, sym, ap, ◌∙◌, Option, none, some, List, length,
  replicate, length-replicate, arith,
}
use quantara.Prelude.Int.{ℤ}
use quantara.Decimal.{Decimal}
use quantara.Errors.{Result, ok, ◌>>=◌, >>=-eq-ok, ok_injective}
use quantara.Features.{
  Context, Labels, fill, at_index, relative_change, direction, labels_loop, compute_labels,
}
use quantara.Features.Columns.{fill-Filled, Agree, at_index-Agree}
use quantara.Features.Columns.{Filled}

-- What the loop writes for row t, a column at a time.
abbrev pub fwdret_at : Context → List Decimal → (horizon t : ℕ) → Result Decimal
fwdret_at context closes horizon t = at_index closes (t + horizon) >>= λ future.
    at_index closes t >>= λ base. relative_change context future base

abbrev pub fwddir_at : List Decimal → (horizon t : ℕ) → Result ℤ
fwddir_at closes horizon t = at_index closes (t + horizon) >>= λ future.
    at_index closes t >>= λ base. ok (direction future base)

labels_loop-fill :
    (context : Context) (closes : List Decimal) (horizon t count : ℕ) (labels out : Labels)
    → labels_loop context closes horizon t count labels ≡ ok out
    → (fill (fwdret_at context closes horizon) t count labels.l_fwdret_24 ≡ ok out.l_fwdret_24)
      × (fill (fwddir_at closes horizon) t count labels.l_fwddir_24 ≡ ok out.l_fwddir_24)
unfolding labels_loop fill
labels_loop-fill context closes horizon t zero labels out h =
    let e = ok_injective h in (rw e refl, rw e refl)
labels_loop-fill context closes horizon t (suc count) labels out h =
    let (future, e, h1) = >>=-eq-ok (at_index closes (t + horizon)) _ h in
    let (base, f, h2) = >>=-eq-ok (at_index closes t) _ h1 in
    let (change, g, h3) = >>=-eq-ok (relative_change context future base) _ h2 in
    let (a, b) = labels_loop-fill context closes horizon (suc t) count _ out h3 in
    (rw (e, f, g) a, rw (e, f) b)

-- The columns of the labels: filled for the rows whose horizon lies in the table, null behind them.
pub compute_labels-Filled :
    (context : Context) (closes : List Decimal) (horizon : ℕ) (labels : Labels)
    → compute_labels context closes horizon ≡ ok labels
    → Filled
        (fwdret_at context closes horizon)
        0
        (length closes - horizon)
        (replicate (length closes) none)
        labels.l_fwdret_24
      × Filled
          (fwddir_at closes horizon)
          0
          (length closes - horizon)
          (replicate (length closes) none)
          labels.l_fwddir_24
unfolding compute_labels
compute_labels-Filled context closes horizon labels h =
    let (a, b) = labels_loop-fill context closes horizon 0 (length closes - horizon) _ labels h in
    (
      fill-Filled _ 0 (length closes - horizon) (replicate (length closes) none) _
          (omega (arith, length-replicate {A = Option Decimal} (length closes) none)) a,
      fill-Filled _ 0 (length closes - horizon) (replicate (length closes) none) _
          (omega (arith, length-replicate {A = Option ℤ} (length closes) none)) b,
    )

-- Two such columns agree where what is computed for them does.
pub Filled-Agree {ℓ} :
    {V : Type ℓ} (m n k : ℕ) (compute other : ℕ → Result V)
    (before after second behind : List (Option V))
    → m ≤ n
    → m ≤ k
    → ((i : ℕ) → i < m → compute i ≡ other i)
    → Filled compute 0 n before after
    → Filled other 0 k second behind
    → Agree m after behind
Filled-Agree m n k compute other before after second behind a b same h g i l =
    let (v, e, p) = h.computed i (omega arith) (omega arith) in
    let (w, f, q) = g.computed i (omega arith) (omega arith) in
    let equal : v ≡ w = ok_injective (sym e ∙ same i l ∙ f) in
    p ∙ ap (λ x. some (some x)) equal ∙ sym q

-- The labels of the rows whose horizon lies within the common part are the same.
pub compute_labels-Agree :
    (context : Context) (m horizon : ℕ) (closes other : List Decimal) (labels second : Labels)
    → m ≤ length closes
    → m ≤ length other
    → Agree m closes other
    → compute_labels context closes horizon ≡ ok labels
    → compute_labels context other horizon ≡ ok second
    → Agree (m - horizon) labels.l_fwdret_24 second.l_fwdret_24
      × Agree (m - horizon) labels.l_fwddir_24 second.l_fwddir_24
compute_labels-Agree context m horizon closes other labels second a b same h g =
    let (r1, d1) = compute_labels-Filled context closes horizon labels h in
    let (r2, d2) = compute_labels-Filled context other horizon second g in
    (
      Filled-Agree (m - horizon) _ _ _ _ _ _ _ _ (omega arith) (omega arith)
          (λ i l. rw (future_same i l, base_same i l) refl) r1 r2,
      Filled-Agree (m - horizon) _ _ _ _ _ _ _ _ (omega arith) (omega arith)
          (λ i l. rw (future_same i l, base_same i l) refl) d1 d2,
    )
  where
    future_same :
        (i : ℕ) → i < m - horizon → at_index closes (i + horizon) ≡ at_index other (i + horizon)
    future_same i l = at_index-Agree m (i + horizon) closes other (omega arith) same

    base_same : (i : ℕ) → i < m - horizon → at_index closes i ≡ at_index other i
    base_same i l = at_index-Agree m i closes other (omega arith) same
