-- ===== src/Collector/Report.antt =====
-- `main` of experiments/metrics-collector/collect.py: the row of a run. The table's rows, the answers of
-- the coordinators, the clock's text and `datetime.fromisoformat` are parameters. Latencies are
-- microseconds, and the row has hundredths of a millisecond; so are the hundredths of the actual rate.
-- `round(ms, 2)` of a float is a parameter, from the one to the other.
pub mod Ordered
use driftless.Prelude.{
  ℕ, ◌/◌, ◌%◌, ◌+◌, String, Bool, Option, none, some, List, [], ◌∷◌, ◌++◌, ◌==◌, string_eq, nat_beq,
  leb, if◌then◌else◌, length, sort,
}
use driftless.Prelude.Dict.{Dict}
use driftless.Prelude.Int.{ℤ, int_text}
use driftless.Prelude.Names.{names_of}
use driftless.Prelude.Round.{round_half_even}
use driftless.Prelude.Text.{concat, decimal, str_leb}
use driftless.Bench.Result.{Result, ok, raise, ◌>>=◌}
use driftless.Bench.Table.{Item}
use driftless.Bench.Analysis.{largest}
use driftless.Bench.Repeat.{smallest}
use driftless.Observer.Cluster.{StateDoc}
use driftless.Collector.Timestamp.{parse_ts}
use driftless.Collector.{collect_latencies, pct, find_leader_lag}
use mathlib.Core.List.{map}

-- What the command line gives, as far as the row depends on it.
pub record Args : Type 0 where
  pub label : String
  pub coordinator : String
  pub submitted : ℤ
  pub failed : ℤ
  pub actual_rate : ℕ
  pub since : Option String
  pub until : Option String

pub record Row : Type 0 where
  pub label : String
  pub n : ℕ
  pub p50_ms : ℕ
  pub p95_ms : ℕ
  pub p99_ms : ℕ
  pub max_ms : ℕ
  pub min_ms : ℕ
  pub submitted : ℤ
  pub failed : ℤ
  pub actual_rate_tpm : ℕ
  pub collected_at : String
  pub rep_lags : Dict String ℤ

abbrev pub by_peer : String × ℤ → String × ℤ → Bool
by_peer a b = str_leb a.0 b.0

abbrev pub row_with :
    (round_ms : ℕ → ℕ) → Args → String → Dict String ℤ → List ℕ → (p50 p95 p99 : ℕ) → Row
row_with round_ms args collected_at lag_map latencies p50 p95 p99 = record {
  label = args.label;
  n = length latencies;
  p50_ms = round_ms p50;
  p95_ms = round_ms p95;
  p99_ms = round_ms p99;
  max_ms = round_ms (largest latencies);
  min_ms = round_ms (smallest latencies);
  submitted = args.submitted;
  failed = args.failed;
  actual_rate_tpm = args.actual_rate;
  collected_at = collected_at;
  rep_lags = sort by_peer lag_map;
}

-- The row of some latencies; there is none without latencies, and the program exits.
unfoldable pub row_of :
    (round_ms : ℕ → ℕ) → Args → String → Dict String ℤ → List ℕ → Result (Option Row)
row_of round_ms args collected_at lag_map [] = ok none
row_of round_ms args collected_at lag_map (ms ∷ more) = pct (ms ∷ more) 50 >>= λ p50.
    pct (ms ∷ more) 95 >>= λ p95. pct (ms ∷ more) 99 >>= λ p99.
    ok (some (row_with round_ms args collected_at lag_map (ms ∷ more) p50 p95 p99))

module _ (fromisoformat : List ℕ → Result ℕ) where
  -- `parse_ts(args.since) if args.since else None`
  unfoldable pub when_given : Option String → Result (Option ℕ)
  when_given none = ok none
  when_given (some s) = if s == "" then ok none else (parse_ts fromisoformat s >>= λ t. ok (some t))

  unfoldable pub collect_row :
      (round_ms : ℕ → ℕ) (collected_at : String) (first second : String → Option StateDoc)
      → Args
      → List Item
      → Result (Option Row)
  unfolding when_given row_of
  collect_row round_ms collected_at first second args items = when_given args.since >>= λ since.
      when_given args.until >>= λ limit.
      collect_latencies (parse_ts fromisoformat) since limit items >>= λ latencies.
      row_of round_ms args collected_at (find_leader_lag first second (names_of args.coordinator))
        latencies

-- `str` of a float with two decimals at most.
unfoldable pub float_text : ℕ → String
float_text v =
    let whole = decimal (v / 100) in
    let cents = v % 100 in
    if nat_beq (cents % 10) 0
    then concat (whole ∷ "." ∷ decimal (cents / 10) ∷ [])
    else concat (whole ∷ "." ∷ decimal (cents / 10) ∷ decimal (cents % 10) ∷ [])

-- `row[f"rep_lag_{peer}"] = lag`
abbrev pub lag_field : String × ℤ → String × String
lag_field (peer, lag) = (concat ("rep_lag_" ∷ peer ∷ []), int_text lag)

-- The row as a dict of what the CSV file shows.
unfoldable pub fields : Row → Dict String String
unfolding float_text int_text
fields r =
    ("label", r.label)
    ∷ ("n", decimal r.n)
    ∷ ("p50_ms", float_text r.p50_ms)
    ∷ ("p95_ms", float_text r.p95_ms)
    ∷ ("p99_ms", float_text r.p99_ms)
    ∷ ("max_ms", float_text r.max_ms)
    ∷ ("min_ms", float_text r.min_ms)
    ∷ ("submitted", int_text r.submitted)
    ∷ ("failed", int_text r.failed)
    ∷ ("actual_rate_tpm", float_text r.actual_rate_tpm)
    ∷ ("collected_at", r.collected_at)
    ∷ map lag_field r.rep_lags
