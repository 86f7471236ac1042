-- ===== src/Plots/Scorecard.antt =====
-- The scorecard of experiments/exp2/plot_exp2.py, from the rows of two CSV files. Reading a float is a
-- parameter, in hundredths, since the collector rounds to two decimals.
pub mod Shown
mod Tests
use driftless.Prelude.{
  ℕ, ◌*◌, ◌/◌, ◌%◌, ◌<◌, String, Bool, true, false, ◌||◌, Option, none, some, List, [], ◌∷◌, ◌++◌,
  ltb, leb, nat_beq, string_eq, ◌==◌, if◌then◌else◌,
}
use driftless.Prelude.Dict.{Dict, lookup}
use driftless.Prelude.Round.{round_half_even}
use driftless.Prelude.Text.{concat, decimal, ends_with, prefix}
use driftless.Bench.Result.{Result, ok, raise, ◌>>=◌}
use driftless.Bench.Analysis.{required, largest}
use mathlib.Core.List.{map}
use Prim.Native.String as NativeString

abbrev pub rates : List ℕ
rates = 100 ∷ 500 ∷ 1000 ∷ []

-- `f"_{rate}tpm"`
abbrev pub suffix_of : ℕ → String
suffix_of rate = concat ("_" ∷ decimal rate ∷ "tpm" ∷ [])

module _ (parse_float : String → Result ℕ) where
  unfoldable pub get : List (Dict String String) → ℕ → String → Result ℕ
  get [] rate field = ok 0
  get (r ∷ rows) rate field =
      let rest = get rows rate field in
      required (lookup "label" r) >>= λ label.
      if ends_with label (suffix_of rate) then required (lookup field r) >>= parse_float else rest

  -- The values of a field, for each cluster and each rate.
  unfoldable pub gets : List (List (Dict String String) × ℕ) → String → Result (List ℕ)
  unfolding get
  gets [] field = ok []
  gets ((rows, rate) ∷ more) field =
      get rows rate field >>= λ v. gets more field >>= λ vs. ok (v ∷ vs)

-- What the text of a latency stands for.
pub data Cell : Type 0 where
  zero_ms : Cell
  not_valid : Cell
  thousands : ℕ → Cell
  seconds : ℕ → Cell
  millis : ℕ → Cell

-- The tests of `_fmt`, on hundredths of a millisecond.
unfoldable pub cell_of : ℕ → Cell
cell_of v =
    if nat_beq v 0
    then zero_ms
    else if leb 6000000 v
    then not_valid
    else if leb 100000 v
    then (if ltb v 1000000
        then thousands (round_half_even v 100000)
        else seconds (round_half_even v 100000))
    else millis (round_half_even v 100)

unfoldable pub cell_text : Cell → String
cell_text zero_ms = "0 ms"
cell_text not_valid = "N/A †"
cell_text (thousands n) = concat (decimal n ∷ ",000 ms" ∷ [])
cell_text (seconds n) = concat (decimal n ∷ " s" ∷ [])
cell_text (millis n) = concat (decimal n ∷ " ms" ∷ [])

-- `_fmt`
unfoldable pub fmt : ℕ → String
unfolding cell_of cell_text
fmt v = cell_text (cell_of v)

-- `str(int(v))`, and `f"{v:.1f}"`
unfoldable pub int_cell : ℕ → String
int_cell v = decimal (v / 100)

unfoldable pub rate_cell : ℕ → String
rate_cell v =
    let tenths = round_half_even v 10 in
    concat (decimal (tenths / 10) ∷ "." ∷ decimal (tenths % 10) ∷ [])

-- `needle in s`, for a needle of three characters.
unfoldable pub has_three : String → String → Bool
has_three needle NativeString.[] = false
has_three needle (NativeString.◌∷◌ c s) =
    prefix 3 (NativeString.◌∷◌ c s) == needle || has_three needle s

unfoldable pub cell_color : String → String
unfolding has_three
cell_color val =
    if val == "0" || (val == "0%" || val == "0 ms")
    then "#d5f5e3"
    else if has_three "N/A" val
    then "#fef9e7"
    else "#fdfefe"

abbrev pub zero_percent : List String
zero_percent = "0%" ∷ "0%" ∷ "0%" ∷ "0%" ∷ "0%" ∷ "0%" ∷ []

module _ (parse_float : String → Result ℕ) (three_node five_node : List (Dict String String)) where
  abbrev pub columns : List (List (Dict String String) × ℕ)
  columns = map (λ r. (three_node, r)) rates ++ map (λ r. (five_node, r)) rates

  unfoldable pub row : String → String → (ℕ → String) → Result (List String)
  unfolding gets
  row metric field show = gets parse_float columns field >>= λ vs. ok (metric ∷ map show vs)

  unfoldable pub rows_data : Result (List (List String))
  unfolding row
  rows_data = row "Submitted" "submitted" int_cell >>= λ submitted.
      row "Failed" "failed" int_cell >>= λ failed.
      row "Actual rate tpm" "actual_rate_tpm" rate_cell >>= λ rate.
      row "p50 latency" "p50_ms" fmt >>= λ p50. row "p95 latency" "p95_ms" fmt >>= λ p95.
      row "p99 latency" "p99_ms" fmt >>= λ p99. row "max latency" "max_ms" fmt >>= λ worst.
      ok
        (submitted ∷ failed ∷ rate ∷ ("Failure rate" ∷ zero_percent) ∷ p50 ∷ p95 ∷ p99 ∷ worst ∷ [])

-- `FIVE_VALID`: no median of the five nodes is a minute or more.
unfoldable pub five_valid : (String → Result ℕ) → List (Dict String String) → Result Bool
unfolding get
five_valid parse_float five_node = get parse_float five_node 100 "p50_ms" >>= λ a.
    get parse_float five_node 500 "p50_ms" >>= λ b.
    get parse_float five_node 1000 "p50_ms" >>= λ c. ok (ltb (largest (a ∷ b ∷ c ∷ [])) 6000000)
