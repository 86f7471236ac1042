-- ===== src/Collector/Report/Ordered.antt =====
-- The figures of a collected row.
use driftless.Prelude.{
  ℕ, ◌≤◌, String, Option, none, some, List, [], ◌∷◌, ◌≡◌, refl, arith, length, nat_eq, get_elem?,
}
use driftless.Prelude.Dict.{Dict}
use driftless.Prelude.Int.{ℤ}
use driftless.Prelude.Names.{names_of}
use driftless.Prelude.Sorted.{Rising, get_elem_mono, contains-get_elem}
use driftless.Bench.Result.{Result, ok, ◌>>=◌}
use driftless.Bench.Table.{Item}
use driftless.Bench.Analysis.{largest}
use driftless.Bench.Repeat.{smallest}
use driftless.Bench.Repeat.Spread.{
  IsLeast, IsGreatest, smallest-IsLeast, largest-IsGreatest, largest-bound, smallest-bound,
}
use driftless.Observer.Cluster.{StateDoc}
use driftless.Collector.{collect_latencies, find_leader_lag}
use driftless.Collector.Timestamp.{parse_ts}
use driftless.Collector.Latencies.{collect_latencies-Rising, pct_at, place, place_mono}
use driftless.Collector.Report.{Args, Row, row_with, row_of, when_given, collect_row}

-- The figures are the roundings of the least latency, of the latencies at the places of the three
-- percentiles, and of the greatest; they rise, and the row tells how many latencies there are.
pub record IsOrdered (round_ms : ℕ → ℕ) (latencies : List ℕ) (r : Row) : Type 0 where
  pub counted : r.n ≡ length latencies
  pub least : (v : ℕ) × IsLeast latencies v × (r.min_ms ≡ round_ms v)
  pub median :
      (v : ℕ) × (get_elem? latencies (place (length latencies) 50) ≡ some v)
      × (r.p50_ms ≡ round_ms v)
  pub p95 :
      (v : ℕ) × (get_elem? latencies (place (length latencies) 95) ≡ some v)
      × (r.p95_ms ≡ round_ms v)
  pub p99 :
      (v : ℕ) × (get_elem? latencies (place (length latencies) 99) ≡ some v)
      × (r.p99_ms ≡ round_ms v)
  pub greatest : (v : ℕ) × IsGreatest latencies v × (r.max_ms ≡ round_ms v)
  pub low : r.min_ms ≤ r.p50_ms
  pub middle : r.p50_ms ≤ r.p95_ms
  pub upper : r.p95_ms ≤ r.p99_ms
  pub high : r.p99_ms ≤ r.max_ms

-- Rounding keeps the order.
abbrev pub IsMonotone : (ℕ → ℕ) → Type 0
IsMonotone round_ms = (a c : ℕ) → a ≤ c → round_ms a ≤ round_ms c

abbrev pub Reported : (ℕ → ℕ) → List ℕ → Result (Option Row) → Type 0
Reported round_ms [] r = r ≡ ok none
Reported round_ms (x ∷ xs) r = (row : Row) × (r ≡ ok (some row)) × IsOrdered round_ms (x ∷ xs) row

row_of-Reported :
    (round_ms : ℕ → ℕ)
    → IsMonotone round_ms
    → (args : Args) (collected_at : String) (lag_map : Dict String ℤ) (latencies : List ℕ)
    → Rising latencies
    → Reported round_ms latencies (row_of round_ms args collected_at lag_map latencies)
unfolding row_of
row_of-Reported round_ms mono args collected_at lag_map [] h = refl
row_of-Reported round_ms mono args collected_at lag_map (x ∷ xs) h =
    let n = length (x ∷ xs) in
    let (p50, e50, at50) = pct_at x xs 50 in
    let (p95, e95, at95) = pct_at x xs 95 in
    let (p99, e99, at99) = pct_at x xs 99 in
    (
      row_with round_ms args collected_at lag_map (x ∷ xs) p50 p95 p99,
      rw (e50, ◌>>=◌) (rw (e95, ◌>>=◌) (rw (e99, ◌>>=◌) refl)),
      record {
        counted = refl;
        least = (smallest (x ∷ xs), smallest-IsLeast x xs, refl);
        median = (p50, at50, refl);
        p95 = (p95, at95, refl);
        p99 = (p99, at99, refl);
        greatest = (largest (x ∷ xs), largest-IsGreatest x xs, refl);
        low =
            mono (smallest (x ∷ xs)) p50
              (smallest-bound (x ∷ xs) p50 (contains-get_elem (x ∷ xs) (place n 50) at50));
        middle = mono p50 p95 (
            get_elem_mono (x ∷ xs) (place n 50) (place n 95) h (place_mono n 50 95 (omega arith))
              at50 at95);
        upper = mono p95 p99 (
            get_elem_mono (x ∷ xs) (place n 95) (place n 99) h (place_mono n 95 99 (omega arith))
              at95 at99);
        high =
            mono p99 (largest (x ∷ xs))
              (largest-bound (x ∷ xs) p99 (contains-get_elem (x ∷ xs) (place n 99) at99));
      },
    )

-- Where the bounds of the window can be read and the latencies are collected, and with a rounding that
-- keeps the order, the collector reports no row if there are none, and otherwise a row with their count
-- and with the roundings of the least latency, of the latencies at the places of the three percentiles
-- in their order, and of the greatest, which rise.
pub collect_row-Reported :
    (round_ms : ℕ → ℕ)
    → IsMonotone round_ms
    → (fromisoformat : List ℕ → Result ℕ) (collected_at : String)
      (first second : String → Option StateDoc) (args : Args) (items : List Item)
      (since limit : Option ℕ) (latencies : List ℕ)
    → when_given fromisoformat args.since ≡ ok since
    → when_given fromisoformat args.until ≡ ok limit
    → collect_latencies (parse_ts fromisoformat) since limit items ≡ ok latencies
    → Reported round_ms latencies
        (collect_row fromisoformat round_ms collected_at first second args items)
unfolding collect_row
collect_row-Reported round_ms mono fromisoformat collected_at first second args items since limit
      latencies s u c =
    rw (s, ◌>>=◌)
      (rw (u, ◌>>=◌)
        (rw (c, ◌>>=◌)
          (row_of-Reported round_ms mono args collected_at
            (find_leader_lag first second (names_of args.coordinator)) latencies
            (collect_latencies-Rising (parse_ts fromisoformat) since limit items c))))
