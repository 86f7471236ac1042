-- ===== src/Plots/Scorecard/Tests.antt =====
-- A scorecard of two files with one row each.
use driftless.Prelude.{false, ℕ, String, some, [], ◌∷◌, ◌≡◌, refl, string_eq, get_elem?}
use driftless.Prelude.Dict.{Dict, lookup}
use driftless.Prelude.Int.{parse_int, pos}
use driftless.Prelude.Text.{ends_with, decimal, concat, prefix}
use driftless.Prelude.Round.{round_half_even}
use driftless.Bench.Result.{Result, ok, raise, value_error, ◌>>=◌}
use driftless.Plots.Scorecard.{
  get, gets, cell_of, fmt, int_cell, rate_cell, has_three, cell_color, five_valid, rows_data, row,
}

-- Whole numbers only.
abbrev parse_float : String → Result ℕ
parse_float s = elim (parse_int s) [ some (pos n) ↦ ok n | _ ↦ raise value_error ]

abbrev line : Dict String String
line =
    ("label", "5node_100tpm")
    ∷ ("p50_ms", "6000000")
    ∷ ("p95_ms", "150000")
    ∷ ("p99_ms", "49")
    ∷ ("max_ms", "0")
    ∷ ("submitted", "300")
    ∷ ("failed", "100")
    ∷ ("actual_rate_tpm", "9950")
    ∷ []

program : Unit {0}
unfolding get gets lookup parse_int ends_with decimal concat prefix round_half_even cell_of fmt
    int_cell rate_cell has_three cell_color rows_data row five_valid
program = tt

shown_150000 : fmt 150000 ≡ "2,000 ms"
unfolding program
shown_150000 = refl

rate_shown : rate_cell 9950 ≡ "99.5"
unfolding program
rate_shown = refl

storm_colored : cell_color (fmt 6000000) ≡ "#fef9e7"
unfolding program
storm_colored = refl

-- One task failed, and the failure rate is shown as none.
failure_row :
    (rows_data parse_float (line ∷ []) [] >>= λ rows. ok (get_elem? rows 3))
    ≡ ok (some ("Failure rate" ∷ "0%" ∷ "0%" ∷ "0%" ∷ "0%" ∷ "0%" ∷ "0%" ∷ []))
unfolding program
failure_row = refl

five_100 : get parse_float (line ∷ []) 100 "p50_ms" ≡ ok 6000000
unfolding program
five_100 = refl

five_500 : get parse_float (line ∷ []) 500 "p50_ms" ≡ ok 0
unfolding program
five_500 = refl

five_1000 : get parse_float (line ∷ []) 1000 "p50_ms" ≡ ok 0
unfolding program
five_1000 = refl

storm_excluded : five_valid parse_float (line ∷ []) ≡ ok false
unfolding program
storm_excluded = refl
