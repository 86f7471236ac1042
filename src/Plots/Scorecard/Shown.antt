-- ===== src/Plots/Scorecard/Shown.antt =====
-- How far the latencies of the scorecard are from those of the file.
use driftless.Prelude.{
  ℕ, ◌+◌, ◌*◌, ◌<◌, ◌≤◌, Option, none, some, ◌≡◌, refl, arith, nat_beq, leb, ltb, Bool-cases, inl,
  inr, true, false, ◌&&◌, List, [], ◌∷◌, String, ap, ◌∙◌, Bool,
}
use driftless.Prelude.Dict.{Dict}
use driftless.Prelude.Round.{round_half_even}
use driftless.Bench.Result.{Result, ok, ◌>>=◌}
use driftless.Bench.Analysis.{largest}
use driftless.Plots.Scorecard.{
  Cell, zero_ms, not_valid, thousands, seconds, millis, cell_of, fmt, cell_text, get, five_valid,
}

-- The milliseconds that a cell stands for.
abbrev pub ms_of : Cell → Option ℕ
ms_of zero_ms = some 0
ms_of not_valid = none
ms_of (thousands n) = some (1000 * n)
ms_of (seconds n) = some (1000 * n)
ms_of (millis n) = some n

-- At most `d` apart.
abbrev pub Near : ℕ → ℕ → ℕ → Type 0
Near d a b = (a ≤ b + d) × (b ≤ a + d)

-- In hundredths of a millisecond: half a millisecond apart under a second, and half a second above.
abbrev pub IsShown : ℕ → Option ℕ → Type 0
IsShown v none = 6000000 ≤ v
IsShown v (some ms) = (v < 6000000) × Near 50000 (100 * ms) v × (v < 100000 → Near 50 (100 * ms) v)

round-Near : (v : ℕ) → Near 50 (100 * round_half_even v 100) v
unfolding round_half_even
round-Near v = ground arith

round-Near_seconds : (v : ℕ) → Near 50000 (100000 * round_half_even v 100000) v
unfolding round_half_even
round-Near_seconds v = ground arith

seconds-IsShown :
    (v : ℕ) → 100000 ≤ v → v < 6000000 → IsShown v (some (1000 * round_half_even v 100000))
seconds-IsShown v low high = (high, omega (arith, round-Near_seconds v), λ h. absurd (omega arith))

-- A latency is shown as not valid exactly from 60 s on; below, what is shown is at most half a second
-- from the latency, and under a second at most half a millisecond.
pub fmt-IsShown : (v : ℕ) → (c : Cell) × (fmt v ≡ cell_text c) × IsShown v (ms_of c)
unfolding fmt cell_of
fmt-IsShown v = (cell_of v, refl, shown)
  where
    shown : IsShown v (ms_of (cell_of v))
    shown = elim (Bool-cases (nat_beq v 0)) [
      | inl nothing ↦ rw nothing (ground arith)
      | inr some_ms ↦ elim (Bool-cases (leb 6000000 v)) [
        | inl long ↦ rw (some_ms, long) (ground arith)
        | inr short ↦ elim (Bool-cases (leb 100000 v)) [
          | inl above ↦ elim (Bool-cases (ltb v 1000000)) [
            | inl few ↦
                rw (some_ms, short, above, few) (seconds-IsShown v (ground arith) (ground arith))
            | inr many ↦
                rw (some_ms, short, above, many) (seconds-IsShown v (ground arith) (ground arith))
          ]
          | inr below ↦
              rw (some_ms, short, below)
                (ground arith, omega (arith, round-Near v), λ h. round-Near v)
        ]
      ]
    ]

abbrev pub is_valid : Cell → Bool
is_valid zero_ms = true
is_valid not_valid = false
is_valid (thousands n) = true
is_valid (seconds n) = true
is_valid (millis n) = true

is_valid-cell_of : (v : ℕ) → is_valid (cell_of v) ≡ ltb v 6000000
unfolding cell_of
is_valid-cell_of v = ground arith

largest-below :
    (a b c : ℕ)
    → ltb (largest (a ∷ b ∷ c ∷ [])) 6000000 ≡ (ltb a 6000000 && (ltb b 6000000 && ltb c 6000000))
largest-below a b c = ground arith

-- Where the medians of the five nodes can be read, the plots count that cluster's latencies as valid
-- exactly if the scorecard shows none of these medians as not valid.
pub five_valid-agrees :
    (parse_float : String → Result ℕ) (five_node : List (Dict String String)) (a b c : ℕ)
    → get parse_float five_node 100 "p50_ms" ≡ ok a
    → get parse_float five_node 500 "p50_ms" ≡ ok b
    → get parse_float five_node 1000 "p50_ms" ≡ ok c
    → five_valid parse_float five_node
      ≡ ok (is_valid (cell_of a) && (is_valid (cell_of b) && is_valid (cell_of c)))
unfolding five_valid
five_valid-agrees parse_float five_node a b c ea eb ec =
    rw (ea, ◌>>=◌)
      (rw (eb, ◌>>=◌)
        (rw (ec, ◌>>=◌)
          (ap ok (
            largest-below a b c
            ∙ rw (is_valid-cell_of a, is_valid-cell_of b, is_valid-cell_of c) refl))))
