-- ===== src/Aggregation/Buckets.antt =====
-- The grouping in aggregate_timeframe (src/quantara/aggregation.py), of ascending minutes.
use native.Mathlib.Nat.{div-mul-le_self, le-div_iff_mul-le, mul-le-mul_right, div-add-mod'}
use mathlib.Core.List.{append_assoc, append-nil}
use quantara.Prelude.{
  ==_iff, ℕ, suc, ◌-◌, ◌/◌, ◌%◌, ◌≤◌, ◌<◌, ◌≡◌, refl, sym, ap, ◌∙◌, List, [], ◌∷◌, ◌++◌, All, arith,
  true, Bool-cases, inl, inr, ◌==◌,
}
use quantara.Rows.{CanonicalRow, Ascends, AscendsFrom}
use quantara.Errors.{ok}
use quantara.Aggregation.{
  Groups, bucket_of, append_to, group_rows, sort_groups, check_ascending, check_order,
}

check_ascending-ok :
    (t : ℕ) (rs : List CanonicalRow) → check_ascending t rs ≡ ok tt → AscendsFrom t rs
unfolding check_ascending
check_ascending-ok t [] h = tt
check_ascending-ok t (r ∷ rs) h = ground (arith, check_ascending-ok r.open_time_ms rs)

ok-check_ascending :
    (t : ℕ) (rs : List CanonicalRow) → AscendsFrom t rs → check_ascending t rs ≡ ok tt
unfolding check_ascending
ok-check_ascending t [] h = refl
ok-check_ascending t (r ∷ rs) h = ground (arith, ok-check_ascending r.open_time_ms rs)

pub check_order-ok : (rs : List CanonicalRow) → check_order rs ≡ ok tt → Ascends rs
unfolding check_order
check_order-ok [] h = tt
check_order-ok (r ∷ rs) h = check_ascending-ok r.open_time_ms rs h

pub ok-check_order : (rs : List CanonicalRow) → Ascends rs → check_order rs ≡ ok tt
unfolding check_order
ok-check_order [] h = refl
ok-check_order (r ∷ rs) h = ok-check_ascending r.open_time_ms rs h

-- Rounding down to a multiple is monotone.
floor_mono : (tf t u : ℕ) → 0 < tf → t ≤ u → t - t % tf ≤ u - u % tf
floor_mono tf t u pos h = omega (
  arith,
  div-add-mod' t tf,
  div-add-mod' u tf,
  mul-le-mul_right {m = t / tf} tf
      ((le-div_iff_mul-le {y = u} pos).1 (omega (arith, div-mul-le_self t tf))),
)

pub bucket_of_mono :
    (tf : ℕ) (a b : CanonicalRow)
    → 0 < tf
    → a.open_time_ms ≤ b.open_time_ms
    → bucket_of tf a ≤ bucket_of tf b
unfolding bucket_of
bucket_of_mono tf a b pos h = floor_mono tf a.open_time_ms b.open_time_ms pos h

-- Every group is a run of rows of its bucket, and the buckets rise from `lo` on.
abbrev pub Grouped : (tf lo : ℕ) → Groups → Type 0
Grouped tf lo [] = Unit
Grouped tf lo ((b, ms) ∷ rest) =
    (lo ≤ b) × All (λ m. bucket_of tf m ≡ b) ms × Grouped tf (suc b) rest

-- No bucket is past `hi`.
abbrev Below : ℕ → Groups → Type 0
Below hi [] = Unit
Below hi ((b, ms) ∷ rest) = (b ≤ hi) × Below hi rest

abbrev pub members_of : Groups → List CanonicalRow
members_of [] = []
members_of ((b, ms) ∷ rest) = ms ++ members_of rest

All-snoc {ℓ κ} :
    {A : Type ℓ} (P : A → Type κ) (xs : List A) (x : A) → All P xs → P x → All P (xs ++ x ∷ [])
All-snoc P [] x h p = (p, tt)
All-snoc P (y ∷ xs) x h p = (h.0, All-snoc P xs x h.1 p)

Grouped-append_to :
    (tf lo : ℕ) (r : CanonicalRow) (g : Groups)
    → lo ≤ bucket_of tf r
    → Grouped tf lo g
    → Below (bucket_of tf r) g
    → Grouped tf lo (append_to (bucket_of tf r) r g)
unfolding append_to
Grouped-append_to tf lo r [] h k b = (h, (refl, tt), tt)
Grouped-append_to tf lo r ((j, ms) ∷ rest) h k b = elim (Bool-cases (j == bucket_of tf r)) [
  | inl same ↦ rw same (k.0, All-snoc _ ms r k.1 (ground arith), k.2)
  | inr other ↦ rw other (k.0, k.1, Grouped-append_to tf (suc j) r rest (ground arith) k.2 b.1)
]

Below-append_to : (k : ℕ) (r : CanonicalRow) (g : Groups) → Below k g → Below k (append_to k r g)
unfolding append_to
Below-append_to k r [] b = (omega arith, tt)
Below-append_to k r ((j, ms) ∷ rest) b = ground (arith, Below-append_to k r rest b.1)

-- Nothing is above the last bucket, so an equal bucket stands last.
Grouped-last : (tf lo : ℕ) (g : Groups) → Grouped tf (suc lo) g → Below lo g → g ≡ []
Grouped-last tf lo [] k b = refl
Grouped-last tf lo (e ∷ rest) k b = absurd (omega arith)

Below-eq : (j k : ℕ) (g : Groups) → (j == k) ≡ true → Below k g → Below j g
Below-eq j k g e b = rw ((==_iff j k).0 e) b

members_of-append_to :
    (tf lo : ℕ) (r : CanonicalRow) (g : Groups)
    → Grouped tf lo g
    → Below (bucket_of tf r) g
    → members_of (append_to (bucket_of tf r) r g) ≡ members_of g ++ r ∷ []
unfolding append_to
members_of-append_to tf lo r [] k b = refl
members_of-append_to tf lo r ((j, ms) ∷ rest) k b = elim (Bool-cases (j == bucket_of tf r)) [
  | inl same ↦
      rw (same, Grouped-last tf j rest k.2 (Below-eq j (bucket_of tf r) rest same b.1), append-nil)
        (rw append-nil)
  | inr other ↦ rw other (
      ap (◌++◌ ms) (members_of-append_to tf (suc j) r rest k.2 b.1)
      ∙ sym (append_assoc ms (members_of rest) (r ∷ [])))
]

Below-mono : (j k : ℕ) (g : Groups) → j ≤ k → Below j g → Below k g
Below-mono j k [] h b = tt
Below-mono j k (e ∷ rest) h b = (omega arith, Below-mono j k rest h b.1)

-- The whole loop: what has been grouped before keeps its place, and the new rows follow it.
group_rows_lem :
    (tf t : ℕ) (g : Groups) (rs : List CanonicalRow)
    → 0 < tf
    → Grouped tf 0 g
    → Below (t - t % tf) g
    → AscendsFrom t rs
    → Grouped tf 0 (group_rows tf g rs) × (members_of (group_rows tf g rs) ≡ members_of g ++ rs)
unfolding group_rows
group_rows_lem tf t g [] pos k b a = (k, sym (append-nil (members_of g)))
group_rows_lem tf t g (r ∷ rs) pos k b a =
    let below =
      Below-mono (t - t % tf) (bucket_of tf r) g (floor_mono tf t r.open_time_ms pos (omega arith))
        b in
    let (k', e) =
      group_rows_lem tf r.open_time_ms (append_to (bucket_of tf r) r g) rs pos
        (Grouped-append_to tf 0 r g (omega arith) k below)
        (Below-append_to (bucket_of tf r) r g below) a.1 in
    (
      k',
      e
          ∙ ap (λ l. l ++ rs) (members_of-append_to tf 0 r g k below)
          ∙ append_assoc (members_of g) (r ∷ []) rs,
    )

-- Groups that rise are sorted already.
sort_groups_ascending : (tf lo : ℕ) (g : Groups) → Grouped tf lo g → sort_groups g ≡ g
unfolding sort_groups
sort_groups_ascending tf lo [] k = refl
sort_groups_ascending tf lo (e ∷ []) k = refl
sort_groups_ascending tf lo (e ∷ f ∷ rest) k =
    rw (sort_groups_ascending tf (suc e.0) (f ∷ rest) k.2) (ground arith)

-- Of ascending minutes the sorted groups are consecutive runs, which together are the input.
pub groups_of_ascending :
    (tf : ℕ) (minutes : List CanonicalRow)
    → 0 < tf
    → Ascends minutes
    → let g = sort_groups (group_rows tf [] minutes) in Grouped tf 0 g × (members_of g ≡ minutes)
unfolding group_rows sort_groups
groups_of_ascending tf [] pos a = (tt, refl)
groups_of_ascending tf (r ∷ rs) pos a =
    let (k, e) =
      group_rows_lem tf r.open_time_ms ((bucket_of tf r, r ∷ []) ∷ []) rs pos
        (omega arith, (refl, tt), tt) (omega arith, tt) a in
    let sorted = sort_groups_ascending tf 0 (group_rows tf [] (r ∷ rs)) k in
    (rw sorted k, ap members_of sorted ∙ e)
