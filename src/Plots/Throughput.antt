-- ===== src/Plots/Throughput.antt =====
-- `analyze` of chaos-bench/plot.py: the counts of the outcomes, the latencies and the completions per
-- second of a history. The percentiles and the mean, which NumPy computes, are left out. Times are in
-- nanoseconds, and a latency is given as such.
pub mod Counts
mod Tests
use driftless.Prelude.{
  ℕ, ◌+◌, ◌/◌, suc, String, Bool, true, false, Option, none, some, List, [], ◌∷◌, ◌++◌, ◌==◌,
  string_eq, if◌then◌else◌, get_or, Eq,
}
use driftless.Prelude.Dict.{Dict, lookup, insert}
use driftless.Prelude.Int.{ℤ, pos, negsuc, negate, sub_ℕ, ℤ_eq}
use driftless.Bench.Result.{Result, ok, raise, key_error, ◌>>=◌}
use driftless.Bench.History.{Event, is_op}

-- What the loop keeps.
pub record Stats : Type 0 where
  pub run_start_ns : Option ℕ
  pub status_counts : Dict String ℕ
  pub latencies_ns : List ℤ
  pub completions_by_sec : Dict ℤ ℕ

-- `d[k] += 1` on a `defaultdict(int)`
unfoldable pub bump {κ} : {K : Type κ} → ⦃e : Eq K⦄ → K → Dict K ℕ → Dict K ℕ
bump k d = insert k (get_or (lookup k d) 0 + 1) d

-- `int(d / 1_000_000_000)`, which cuts towards zero.
unfoldable pub whole_seconds : ℤ → ℤ
whole_seconds (pos n) = pos (n / 1000000000)
whole_seconds (negsuc n) = negate (suc n / 1000000000)

-- The part of the loop for a completion.
unfoldable pub note_complete : Event → Stats → Result Stats
unfolding bump whole_seconds
note_complete e s = elim e.completed_ns [
  | none ↦ raise key_error
  | some completed ↦ elim e.submitted_ns [
    | none ↦ raise key_error
    | some submitted ↦ ok (record {
      run_start_ns = s.run_start_ns;
      status_counts = s.status_counts;
      latencies_ns = s.latencies_ns ++ sub_ℕ completed submitted ∷ [];
      completions_by_sec = elim s.run_start_ns [
        | none ↦ s.completions_by_sec
        | some start ↦ bump (whole_seconds (sub_ℕ completed start)) s.completions_by_sec
      ];
    })
  ]
]

-- The body of the loop.
unfoldable pub note : Event → Stats → Result Stats
unfolding note_complete bump
note e s =
    let counted = record s { status_counts = bump (get_or e.status "?") s.status_counts } in
    if is_op "run_start" e
    then ok (record s { run_start_ns = e.wall_ns })
    else if is_op "complete" e
    then note_complete e counted
    else if is_op "timeout" e
    then ok counted
    else ok s

unfoldable pub note_all : List Event → Stats → Result Stats
unfolding note
note_all [] s = ok s
note_all (e ∷ events) s = note e s >>= note_all events

pub record Outcomes : Type 0 where
  pub completed_count : ℕ
  pub failed_count : ℕ
  pub timeout_count : ℕ
  pub completions_by_sec : Dict ℤ ℕ
  pub latencies_ns : List ℤ

unfoldable pub outcomes : Stats → Outcomes
outcomes s = record {
  completed_count = get_or (lookup "COMPLETED" s.status_counts) 0;
  failed_count = get_or (lookup "FAILED" s.status_counts) 0;
  timeout_count = get_or (lookup "TIMEOUT" s.status_counts) 0;
  completions_by_sec = s.completions_by_sec;
  latencies_ns = s.latencies_ns;
}

unfoldable pub analyze : List Event → Result Outcomes
unfolding note_all outcomes
analyze events =
    note_all events (record {
      run_start_ns = none;
      status_counts = [];
      latencies_ns = [];
      completions_by_sec = [];
    })
    >>= λ s. ok (outcomes s)
