-- ===== src/Features/Fixtures.antt =====
-- A context that divides positive numbers to 18 places, and rows, for the tests of the research tables.
use quantara.Prelude.{
  false, ℕ, ◌+◌, ◌*◌, ◌/◌, ◌^◌, Option, none, List, [], ◌∷◌, ◌++◌, replicate, leb, if◌then◌else◌,
  ◌==◌,
}
use quantara.Prelude.Int.{ℤ, pos, pos_part, ◌-ℤ◌}
use quantara.Decimal.{Decimal, magnitude, at_scale}
use quantara.Errors.{runtime_error, Result, ok, err, zero_division_error, value_error}
use quantara.Rows.{Cell, time, decimal, float}
use quantara.Features.{Context}
use quantara.Hashing.Content.{python}
use quantara.Features.Table.{ResearchRow}

abbrev divide_18 : Decimal → Decimal → Result Decimal
divide_18 a b =
    if magnitude b.coefficient == 0
    then err zero_division_error
    else ok (record {
      coefficient =
          pos (
            pos_part a.coefficient
            * 10 ^ (18 + b.scale)
            / (magnitude b.coefficient * 10 ^ a.scale));
      scale = 18;
    })

abbrev to_18 : Decimal → Result Decimal
to_18 a =
    if leb a.scale 18
    then ok (record { coefficient = at_scale 18 a; scale = 18 })
    else err value_error

abbrev pub context_18 : Context
context_18 = record {
  divide = divide_18;
  subtract = λ a b. ok (record { coefficient = at_scale 18 a -ℤ at_scale 18 b; scale = 18 });
  multiply = λ a b. ok (record {
    coefficient = pos (magnitude a.coefficient * magnitude b.coefficient);
    scale = a.scale + b.scale;
  });
  sqrt = λ a. ok a;
  quantize = to_18;
  renderer = record { available = false; mode = python; kernel = λ d. err runtime_error };
}

abbrev pub no_text : Cell → Result Decimal
no_text cell = err value_error

-- A row of the parent: its open time, close and volume; nothing else is read.
abbrev pub parent_row : (open_time close volume : ℕ) → List Cell
parent_row open_time close volume =
    replicate 10 float
    ++ (time open_time ∷ replicate 5 float
        ++ (decimal (record { coefficient = pos close; scale = 0 })
            ∷ decimal (record { coefficient = pos volume; scale = 0 })
            ∷ []))

abbrev pub warm_row :
    (open_time : ℕ) (ret fwdret : Option Decimal) (fwddir : Option ℤ) → ResearchRow
warm_row open_time ret fwdret fwddir = record {
  open_time_ms = open_time;
  f_ret_1 = ret;
  f_roc_60 = none;
  f_rvol_20 = none;
  f_volratio_20 = none;
  l_fwdret_24 = fwdret;
  l_fwddir_24 = fwddir;
}

abbrev pub doubled : Decimal
doubled = record { coefficient = pos (10 ^ 18); scale = 18 }
