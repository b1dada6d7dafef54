-- ===== src/Features/Table.antt =====
-- src/quantara/features.py, the storage boundary: the rows of the research table. Of the parameters
-- it reads the horizon of the labels alone, which is given.
use quantara.Prelude.{ℕ, suc, Option, none, some, List, [], ◌∷◌}
use quantara.Prelude.Int.{ℤ}
use quantara.Decimal.{Decimal}
use quantara.Errors.{Result, ok, err, ◌>>=◌, value_error, ill_typed}
use quantara.Rows.{Cell, time}
use quantara.Features.{
  Context, Column, Features, Labels, at_index, extract_series, compute_features, compute_labels,
}

pub record ResearchRow : Type 0 where
  pub open_time_ms : ℕ
  pub f_ret_1 : Option Decimal
  pub f_roc_60 : Option Decimal
  pub f_rvol_20 : Option Decimal
  pub f_volratio_20 : Option Decimal
  pub l_fwdret_24 : Option Decimal
  pub l_fwddir_24 : Option ℤ

-- `row[10]`, which has to be an int; an int that is no time does not stand there.
unfoldable pub open_time_of : Cell → Result ℕ
open_time_of (time t) = ok t
open_time_of (Cell.count z) = err ill_typed
open_time_of _ = err value_error

module _ (context : Context) where
  unfoldable pub storage : Option Decimal → Result (Option Decimal)
  storage none = ok none
  storage (some value) = context.quantize value >>= λ quantized. ok (some quantized)

  unfoldable pub stored_at : Column → (t : ℕ) → Result (Option Decimal)
  unfolding storage
  stored_at column t = at_index column t >>= λ value. storage value

  unfoldable pub row_at : Features → Labels → (t : ℕ) → (parent : List Cell) → Result ResearchRow
  unfolding stored_at open_time_of
  row_at features labels t parent = at_index parent 10 >>= λ cell.
      open_time_of cell >>= λ open_time_ms. stored_at features.f_ret_1 t >>= λ ret.
      stored_at features.f_roc_60 t >>= λ roc. stored_at features.f_rvol_20 t >>= λ rvol.
      stored_at features.f_volratio_20 t >>= λ volratio.
      stored_at labels.l_fwdret_24 t >>= λ fwdret. at_index labels.l_fwddir_24 t >>= λ fwddir.
      ok (record {
        open_time_ms = open_time_ms;
        f_ret_1 = ret;
        f_roc_60 = roc;
        f_rvol_20 = rvol;
        f_volratio_20 = volratio;
        l_fwdret_24 = fwdret;
        l_fwddir_24 = fwddir;
      })

  unfoldable pub research_rows :
      Features → Labels → (t : ℕ) → List (List Cell) → Result (List ResearchRow)
  unfolding row_at
  research_rows features labels t [] = ok []
  research_rows features labels t (parent ∷ parents) = row_at features labels t parent >>= λ row.
      research_rows features labels (suc t) parents >>= λ rows. ok (row ∷ rows)

  unfoldable pub build_research_rows :
      (decimal_of_str : Cell → Result Decimal) (parent_rows : List (List Cell)) (label_horizon : ℕ)
      → Result (List ResearchRow)
  unfolding extract_series compute_features compute_labels research_rows
  build_research_rows decimal_of_str parent_rows label_horizon =
      extract_series decimal_of_str parent_rows >>= λ (closes, volumes).
      compute_features context closes volumes >>= λ features.
      compute_labels context closes label_horizon >>= λ labels.
      research_rows features labels 0 parent_rows
