-- ===== src/Collector.antt =====
-- experiments/metrics-collector/collect.py: the assignment latencies and the replication lags of an
-- experiment. The parsing of a timestamp, into microseconds, is a parameter, as are the table's rows
-- and the HTTP library.
pub mod Timestamp
pub mod Latencies
pub mod Lags
pub mod Report
pub mod Csv
mod Tests
use driftless.Prelude.{
  ℕ, ◌-◌, ◌*◌, ◌/◌, leb, ltb, String, Bool, true, false, ◌||◌, Option, none, some, List, [], ◌∷◌,
  ◌==◌, string_eq, if◌then◌else◌, get_or, sort, length, get_elem?,
}
use driftless.Prelude.Dict.{Dict}
use driftless.Prelude.Int.{ℤ, sub_ℕ}
use driftless.Bench.Result.{Result, ok, raise, Error, key_error, value_error, index_error, ◌>>=◌}
use driftless.Bench.Table.{Item, get_s}
use driftless.Bench.Analysis.{smaller, required}
use driftless.Observer.Cluster.{StateDoc}
use mathlib.Core.List.{map}

-- `except (KeyError, ValueError): continue`
abbrev pub caught : Result (Option ℕ) → Result (Option ℕ)
caught (ok o) = ok o
caught (raise key_error) = ok none
caught (raise value_error) = ok none
caught (raise e) = raise e

-- `since and t0 < since`, and `until and t0 > until`
abbrev pub is_before : ℕ → Option ℕ → Bool
is_before t none = false
is_before t (some since) = ltb t since

abbrev pub is_past : ℕ → Option ℕ → Bool
is_past t none = false
is_past t (some limit) = ltb limit t

module _ (parse_ts : String → Result ℕ) (since limit : Option ℕ) where
  -- The latency of a row, if it is in the window and not negative.
  unfoldable pub latency_of : Item → Result (Option ℕ)
  latency_of item = caught (
      (required (get_s "created_at" item) >>= parse_ts) >>= λ t₀.
      (required (get_s "dispatched_at" item) >>= parse_ts) >>= λ t₁.
      if is_before t₀ since || is_past t₀ limit
      then ok none
      else if leb t₀ t₁
      then ok (some (t₁ - t₀))
      else ok none)

  unfoldable pub gather : List Item → Result (List ℕ)
  unfolding latency_of
  gather [] = ok []
  gather (item ∷ items) = elim (latency_of item) [
    | raise e ↦ raise e
    | ok none ↦ gather items
    | ok (some ms) ↦ gather items >>= λ rest. ok (ms ∷ rest)
  ]

  unfoldable pub collect_latencies : List Item → Result (List ℕ)
  unfolding gather
  collect_latencies items = gather items >>= λ latencies. ok (sort leb latencies)

-- `data[min(int(len(data) * p / 100.0), len(data) - 1)]`
unfoldable pub pct : List ℕ → ℕ → Result ℕ
pct [] p = ok 0
pct (x ∷ xs) p =
    let n = length (x ∷ xs) in
    elim (get_elem? (x ∷ xs) (smaller (n * p / 100) (n - 1))) [
      | none ↦ raise index_error
      | some v ↦ ok v
    ]

abbrev pub is_leading : StateDoc → Bool
is_leading doc = elim doc.state [ none ↦ false | some s ↦ s == "leader" ]

abbrev pub lag_from : ℕ → String × ℕ → String × ℤ
lag_from commit (peer, matched) = (peer, sub_ℕ commit matched)

-- `collect_replication_lag` at an address; `none` is an exception of the GET.
unfoldable pub collect_replication_lag : String → Option StateDoc → Dict String ℤ
collect_replication_lag url none = []
collect_replication_lag url (some doc) =
    if url == ""
    then []
    else if is_leading doc
    then map (lag_from (get_or doc.commit_index 0)) (get_or doc.match_index [])
    else []

-- `find_leader_lag`: each address is asked for its lags, and then once more whether it leads.
unfoldable pub find_leader_lag :
    (first second : String → Option StateDoc) → List String → Dict String ℤ
unfolding collect_replication_lag
find_leader_lag first second [] = []
find_leader_lag first second (addr ∷ addrs) = elim (collect_replication_lag addr (first addr)) [
  | lag ∷ lags ↦ lag ∷ lags
  | [] ↦ elim (second addr) [
    | none ↦ find_leader_lag first second addrs
    | some doc ↦ if is_leading doc then [] else find_leader_lag first second addrs
  ]
]
