-- ===== src/Bootstrap/Tests.antt =====
-- src/quantara/bootstrap_b4.py on a year of three hours, the second of them missing.
use quantara.Prelude.{
  ℕ, ◌≡◌, ◌<◌, ◌≤◌, refl, All, Option, none, some, List, [], ◌∷◌, length, arith, ◌+◌, ◌-◌, ◌*◌, ◌%◌,
  ◌⊎◌,
}
use quantara.Prelude.Int.{ℤ, pos, negsuc, ◌+ℤ◌, ◌-ℤ◌}
use quantara.Errors.{ok, err, value_error, ◌>>=◌, diverged}
use quantara.Bootstrap.{
  value_of, valid_of, aggregate_from_starts, materialize_resampled_indices, draw_count,
  validate_start, block_difference,
}
use quantara.Bootstrap.Draws.{
  mix, next_state, next_u64, limit_of, below, below_loop, two_to_64, sample_block_starts,
}
use quantara.Bootstrap.Unbiased.{
  AllRefused, sample_block_starts-covers, IsFirstBelow, IsBalanced, below-unbiased,
}
use quantara.Bootstrap.Sums.{totals, aggregate_from_starts-materialize_resampled_indices}
use quantara.Bootstrap.Coverage.{materialize_resampled_indices-covers}

abbrev three_hours : List (Option ℤ)
three_hours = some (pos 5) ∷ none ∷ some (negsuc 1) ∷ []

abbrev starts : List ℕ
starts = 1 ∷ 0 ∷ []

-- Hours 1 and 2, then hour 0: the second block is cut to what remains.
indices_drawn : materialize_resampled_indices starts 3 2 ≡ ok (1 ∷ 2 ∷ 0 ∷ [])
unfolding materialize_resampled_indices validate_start
indices_drawn = refl

sums_drawn : aggregate_from_starts three_hours starts 2 ≡ ok (pos 3, pos 2)
unfolding aggregate_from_starts validate_start block_difference value_of valid_of ◌+ℤ◌ ◌-ℤ◌
sums_drawn = refl

start_refused : aggregate_from_starts three_hours (2 ∷ []) 2 ≡ err value_error
unfolding aggregate_from_starts validate_start
start_refused = refl

aggregate_from_starts-materialize_resampled_indices_example :
    aggregate_from_starts three_hours starts 2
    ≡ (materialize_resampled_indices starts 3 2 >>= totals three_hours)
aggregate_from_starts-materialize_resampled_indices_example =
    aggregate_from_starts-materialize_resampled_indices three_hours starts 2

materialize_resampled_indices-covers_example :
    (indices : List ℕ) × (materialize_resampled_indices starts 3 2 ≡ ok indices)
    × (length indices ≡ 3)
    × All (λ i. i < 3) indices
materialize_resampled_indices-covers_example =
    materialize_resampled_indices-covers 3 2 starts (omega arith) (omega arith)
      (unfold draw_count in refl) (omega arith, (omega arith, tt))

-- Two weeks in blocks of one.
sample_block_starts-covers_example :
    ((starts : List ℕ) × (last : ℕ) × (sample_block_starts 8 0 336 168 ≡ ok (starts, last))
      × ((indices : List ℕ) × (materialize_resampled_indices starts 336 168 ≡ ok indices)
          × (length indices ≡ 336)
          × All (λ i. i < 336) indices))
    ⊎ ((sample_block_starts 8 0 336 168 ≡ err diverged)
        × ((at : ℕ) × AllRefused 8 (336 - 168 + 1) at))
sample_block_starts-covers_example =
    sample_block_starts-covers 8 0 336 168 (omega arith) (omega arith) (omega arith)

-- The draw of the first word.
first_draw : below 1 169 0 ≡ ok ((next_u64 0).0 % 169, (next_u64 0).1)
unfolding below below_loop limit_of next_u64 next_state mix
first_draw = refl

below-unbiased_example :
    (quotients : ℕ) × (0 < quotients)
    × (quotients * 169 ≤ two_to_64)
    × IsFirstBelow (quotients * 169) 169 0 ((next_u64 0).0 % 169) (next_u64 0).1
    × IsBalanced quotients 169
below-unbiased_example =
    below-unbiased 1 169 0 ((next_u64 0).0 % 169) (next_u64 0).1 (omega arith) (omega arith)
      first_draw

-- The first word of the stream of seed 0.
first_word : (next_u64 0).0 ≡ 16294208416658607535
unfolding next_u64 next_state mix
first_word = refl
