-- ===== src/Collector/Tests.antt =====
-- The collector on a few rows and answers.
use driftless.Prelude.{
  arith, ◌+◌, ◌/◌, ℕ, ◌++◌, length, String, none, some, List, [], ◌∷◌, ◌≡◌, refl, string_eq,
}
use driftless.Prelude.Dict.{lookup}
use driftless.Prelude.Int.{parse_int, pos}
use driftless.Bench.Result.{Result, ok, raise, value_error, index_error}
use driftless.Bench.Table.{Item, text, get_s}
use driftless.Observer.Cluster.{from_dict, replication_lags}
use driftless.Observer.Cluster.Samples.{doc_a}
use driftless.Collector.{latency_of, gather, collect_latencies, pct, collect_replication_lag}
use driftless.Collector.Timestamp.{codes, normalise, parse_ts as timestamps}
use driftless.Collector.Timestamp.Zones.{absent, written, normalise-expected}
use driftless.Collector.Report.{Args, Row, row_with, fields, when_given, collect_row}
use driftless.Collector.Report.Ordered.{IsMonotone, Reported, collect_row-Reported}
use driftless.Collector.Csv.{append_rows, load_csv}
use driftless.Collector.Csv.Columns.{load_csv-rows}
use mathlib.Core.List.{map}
use driftless.Collector.Lags.{floored, collect_replication_lag_lem}

program : Unit {0}
unfolding lookup get_s parse_int latency_of gather collect_latencies pct
program = tt

-- The samples' timestamps are whole numbers.
abbrev parse_ts : String → Result ℕ
parse_ts s = elim (parse_int s) [ some (pos n) ↦ ok n | _ ↦ raise value_error ]

abbrev row : String → String → Item
row created dispatched = ("created_at", text created) ∷ ("dispatched_at", text dispatched) ∷ []

abbrev rows : List Item
rows = row "100" "190" ∷ row "110" "120" ∷ row "x" "130" ∷ row "130" "120" ∷ row "140" "170" ∷ []

collected : collect_latencies parse_ts (some 100) none rows ≡ ok (10 ∷ 30 ∷ 90 ∷ [])
unfolding program
collected = refl

collect_replication_lag_lem_example :
    floored (collect_replication_lag "http://a" (some doc_a))
    ≡ replication_lags (from_dict doc_a "a" 7)
collect_replication_lag_lem_example = collect_replication_lag_lem "http://a" "a" 7 doc_a refl

-- Timestamps as the coordinator writes them.
nanoseconds_cut :
    normalise (codes "2026-04-21T00:15:13.123456789Z")
    ≡ ok (codes "2026-04-21T00:15:13.123456+00:00")
unfolding normalise
nanoseconds_cut = refl

short_padded : normalise (codes "00:15:13.5+02:00") ≡ ok (codes "00:15:13.500000+02:00")
unfolding normalise
short_padded = refl

normalise-expected_example :
    normalise (codes "13" ++ (b'.' ∷ (codes "5" ++ written absent))) ≡ raise index_error
normalise-expected_example =
    normalise-expected (codes "13") (codes "5") absent ((refl, refl), ((refl, refl), tt))
      (((refl, refl), refl), tt) tt

abbrev args : Args
args = record {
  label = "3node_100tpm";
  coordinator = "";
  submitted = pos 3;
  failed = pos 0;
  actual_rate = 9950;
  since = none;
  until = none;
}

-- The number of characters stands for the time.
abbrev counted : List ℕ → Result ℕ
counted s = ok (length s)

abbrev two_rows : List Item
two_rows = row "a" "abcd" ∷ row "b" "bb" ∷ []

two_latencies : collect_latencies (timestamps counted) none none two_rows ≡ ok (1 ∷ 3 ∷ [])
unfolding program timestamps normalise
two_latencies = refl

none_given : when_given counted none ≡ ok none
unfolding when_given
none_given = refl

-- Rounding to the nearest.
abbrev tenth : ℕ → ℕ
tenth micros = (micros + 5) / 10

tenth-IsMonotone : IsMonotone tenth
tenth-IsMonotone a c h = omega arith

collect_row-Reported_example :
    Reported tenth
      (1 ∷ 3 ∷ [])
      (collect_row counted tenth "now" (λ a. none) (λ a. none) args two_rows)
collect_row-Reported_example =
    collect_row-Reported tenth tenth-IsMonotone counted "now" (λ a. none) (λ a. none) args two_rows
      none none (1 ∷ 3 ∷ []) none_given none_given two_latencies

abbrev a_row : Row
a_row = row_with tenth args "now" (("b", pos 2) ∷ []) (1000 ∷ 3000 ∷ []) 1000 3000 3000

load_csv-rows_example :
    load_csv (append_rows [] (map fields (a_row ∷ a_row ∷ []))) ≡ map fields (a_row ∷ a_row ∷ [])
load_csv-rows_example = load_csv-rows ("b" ∷ []) a_row (a_row ∷ []) (refl, (refl, tt))
