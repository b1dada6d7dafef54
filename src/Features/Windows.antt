-- ===== src/Features/Windows.antt =====
-- The columns of the features of src/quantara/features.py, and what their windows reach.
use quantara.Prelude.{ℕ, ◌+◌, ◌-◌, ◌≤◌, ◌≡◌, refl, sym, List, length, arith}
use quantara.Decimal.{Decimal}
use quantara.Errors.{ok, >>=-eq-ok, ok_injective}
use quantara.Features.{
  Context, Features, one_bar_return, roc_at, rvol_at, volratio_at, compute_features, ret_warmup,
  roc_window, vol_window, volume_window, column_from, change_between,
}
use quantara.Features.Columns.{
  Agree, slice-Agree, at_index-Agree, column_from-HeadNull, HeadNull-Agree, HeadNull,
}

-- The four columns of the features, each filled from its warm-up on.
pub compute_features-HeadNull :
    (context : Context) (closes volumes : List Decimal) (features : Features)
    → compute_features context closes volumes ≡ ok features
    → HeadNull (one_bar_return context closes) ret_warmup (length closes) features.f_ret_1
      × HeadNull (roc_at context closes) roc_window (length closes) features.f_roc_60
      × HeadNull (rvol_at context features.f_ret_1) vol_window (length closes) features.f_rvol_20
      × HeadNull
          (volratio_at context volumes)
          (volume_window - 1)
          (length closes)
          features.f_volratio_20
unfolding compute_features
compute_features-HeadNull context closes volumes features h =
    let n = length closes in
    let (ret, a, h1) = >>=-eq-ok (column_from (one_bar_return context closes) ret_warmup n) _ h in
    let (roc, b, h2) = >>=-eq-ok (column_from (roc_at context closes) roc_window n) _ h1 in
    let (rvol, c, h3) = >>=-eq-ok (column_from (rvol_at context ret) vol_window n) _ h2 in
    let (volratio, d, h4) =
      >>=-eq-ok (column_from (volratio_at context volumes) (volume_window - 1) n) _ h3 in
    rw (sym (ok_injective h4)) (
      column_from-HeadNull _ ret_warmup n ret a,
      column_from-HeadNull _ roc_window n roc b,
      column_from-HeadNull _ vol_window n rvol c,
      column_from-HeadNull _ (volume_window - 1) n volratio d,
    )

-- The columns of the features agree as far as the series do.
pub compute_features-Agree :
    (context : Context) (m : ℕ) (closes volumes other others : List Decimal)
    (features second : Features)
    → m ≤ length closes
    → m ≤ length other
    → Agree m closes other
    → Agree m volumes others
    → compute_features context closes volumes ≡ ok features
    → compute_features context other others ≡ ok second
    → Agree m features.f_ret_1 second.f_ret_1
      × Agree m features.f_roc_60 second.f_roc_60
      × Agree m features.f_rvol_20 second.f_rvol_20
      × Agree m features.f_volratio_20 second.f_volratio_20
unfolding one_bar_return roc_at rvol_at volratio_at change_between
compute_features-Agree context m closes volumes other others features second a b c d h g =
    let (r1, o1, v1, x1) = compute_features-HeadNull context closes volumes features h in
    let (r2, o2, v2, x2) = compute_features-HeadNull context other others second g in
    let rets : Agree m features.f_ret_1 second.f_ret_1 =
      HeadNull-Agree m ret_warmup _ _ _ _ _ _ a b
        (λ i s l.
          rw
            (
              at_index-Agree m i closes other l c,
              at_index-Agree m (i - 1) closes other (omega arith) c,
            )
            refl)
        r1 r2 in
    (
      rets,
      HeadNull-Agree m roc_window _ _ _ _ _ _ a b
          (λ i s l.
            rw
              (
                at_index-Agree m i closes other l c,
                at_index-Agree m (i - roc_window) closes other (omega arith) c,
              )
              refl)
          o1 o2,
      HeadNull-Agree m vol_window _ _ _ _ _ _ a b
          (λ i s l. rw (slice-Agree (i + 1 - vol_window) (i + 1) m _ _ (omega arith) rets) refl) v1
          v2,
      HeadNull-Agree m (volume_window - 1) _ _ _ _ _ _ a b
          (λ i s l.
            rw
              (
                slice-Agree (i + 1 - volume_window) (i + 1) m volumes others (omega arith) d,
                at_index-Agree m i volumes others l d,
              )
              refl)
          x1 x2,
    )
