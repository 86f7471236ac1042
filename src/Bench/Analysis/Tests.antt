-- ===== src/Bench/Analysis/Tests.antt =====
-- The analysis of a small run.
use driftless.Prelude.{ℕ, String, some, List, [], ◌∷◌, ◌≡◌, refl, arith, nat_eq, string_eq}
use driftless.Prelude.Dict.{insert}
use driftless.Prelude.Round.{round_half_even}
use driftless.Bench.Result.{ok}
use driftless.Bench.Samples.{history}
use driftless.Bench.Analysis.{
  first_after, pct, convergence, note, set_add, tally, summary, analyze, Analysis,
}
use driftless.Bench.Analysis.Gaps.{IsGap, first_after-IsGap}

program : Unit {0}
unfolding first_after pct convergence note set_add tally summary analyze insert round_half_even
program = tt

abbrev leaders : List (ℕ × String)
leaders = (100, "a") ∷ (250, "b") ∷ (400, "c") ∷ []

gap : first_after 120 leaders ≡ some 130
unfolding program
gap = refl

first_after-IsGap_example : IsGap 120 leaders (first_after 120 leaders)
first_after-IsGap_example =
    first_after-IsGap 120 leaders ((omega arith, (omega arith, tt)), ((omega arith, tt), (tt, tt)))

abbrev samples : List ℕ
samples = 130 ∷ 40 ∷ 90 ∷ 60 ∷ []

p50 : pct samples 50 ≡ ok 90
unfolding program
p50 = refl

p95 : pct samples 95 ≡ ok 130
unfolding program
p95 = refl

abbrev analysed : Analysis
analysed = record {
  kill_count = 0;
  convergence_samples = 0;
  convergence_p50 = 0;
  convergence_p95 = 0;
  convergence_mean = (0, 0);
  convergence_max = 0;
  submitted = 3;
  completed = 0;
  timed_out = 0;
  lost = 3;
  leader_change_count = 0;
}

history-analysed : analyze history ≡ ok analysed
unfolding program
history-analysed = refl
