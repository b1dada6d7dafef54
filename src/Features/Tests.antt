-- ===== src/Features/Tests.antt =====
-- Research tables of three rows.
use quantara.Prelude.{
  ℕ, ◌+◌, ◌-◌, ◌*◌, ◌^◌, ◌<◌, ◌≡◌, refl, none, some, List, [], ◌∷◌, ◌++◌, map, length, get_elem?,
  take, replicate,
}
use quantara.Prelude.Int.{pos, negsuc, ◌-ℤ◌, ◌+ℤ◌}
use quantara.Decimal.{Decimal, times, ltb_decimal, context_add, round_coefficient}
use quantara.Errors.{ok}
use quantara.Rows.{Cell}
use quantara.Features.{
  extract_series, series, as_decimal, compute_features, column_from, fill, one_bar_return,
  change_between, relative_change, volratio_at, volume_total, compute_labels, labels_loop,
  direction,
}
use quantara.Features.Table.{
  ResearchRow, build_research_rows, research_rows, row_at, stored_at, storage, open_time_of,
}
use quantara.Features.Fixtures.{context_18, no_text, parent_row, warm_row, doubled}
use quantara.Features.Causal.{features_of, labels_of, build_research_rows-causal}
use quantara.Features.Nulls.{TableRow, build_research_rows-TableRow}

abbrev two_rows : List (List Cell)
two_rows = parent_row 100 2 7 ∷ parent_row 200 4 7 ∷ []

abbrev falls : List (List Cell)
falls = parent_row 300 3 7 ∷ []

abbrev doubles : List (List Cell)
doubles = parent_row 300 8 7 ∷ []

abbrev quarter_off : Decimal
quarter_off = record { coefficient = negsuc (25 * 10 ^ 16 - 1); scale = 18 }

abbrev falling : List ResearchRow
falling =
    warm_row 100 none (some doubled) (some (pos 1))
    ∷ warm_row 200 (some doubled) (some quarter_off) (some (negsuc 0))
    ∷ warm_row 300 (some quarter_off) none none
    ∷ []

abbrev doubling : List ResearchRow
doubling =
    warm_row 100 none (some doubled) (some (pos 1))
    ∷ warm_row 200 (some doubled) (some doubled) (some (pos 1))
    ∷ warm_row 300 (some doubled) none none
    ∷ []

build_falling : build_research_rows context_18 no_text (two_rows ++ falls) 1 ≡ ok falling
unfolding build_research_rows extract_series series as_decimal compute_features column_from fill
    one_bar_return change_between relative_change compute_labels labels_loop direction research_rows
    row_at stored_at storage open_time_of times ltb_decimal ◌-ℤ◌
build_falling = refl

build_doubling : build_research_rows context_18 no_text (two_rows ++ doubles) 1 ≡ ok doubling
unfolding build_research_rows extract_series series as_decimal compute_features column_from fill
    one_bar_return change_between relative_change compute_labels labels_loop direction research_rows
    row_at stored_at storage open_time_of times ltb_decimal ◌-ℤ◌
build_doubling = refl

build_research_rows-causal_example :
    (length falling ≡ length two_rows + length falls)
    × (take (length two_rows) (map features_of falling)
        ≡ take (length two_rows) (map features_of doubling))
    × (take (length two_rows - 1) (map labels_of falling)
        ≡ take (length two_rows - 1) (map labels_of doubling))
build_research_rows-causal_example =
    build_research_rows-causal context_18 no_text 1 two_rows falls doubles falling doubling
      build_falling build_doubling

build_research_rows-TableRow_example :
    (length falling ≡ length (two_rows ++ falls))
    × ((i : ℕ) (row : ResearchRow)
        → i < length falling
        → get_elem? falling i ≡ some row
        → TableRow 1 (length falling) i row)
build_research_rows-TableRow_example =
    build_research_rows-TableRow context_18 no_text (two_rows ++ falls) 1 falling build_falling

abbrev seven : Decimal
seven = record { coefficient = pos 7; scale = 0 }

-- A window that is full: of twenty equal volumes the last is the mean.
level_volumes : volratio_at context_18 (replicate 20 seven) 19 ≡ ok doubled
unfolding volratio_at volume_total context_add round_coefficient times ◌+ℤ◌
level_volumes = refl
