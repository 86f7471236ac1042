-- ===== src/Observer/Metrics/Tests.antt =====
-- Runs of the metrics publisher, and its theorems at concrete inputs.
use driftless.Prelude.{
  ℕ, ◌*◌, ◌≡◌, refl, String, Bool, false, none, some, List, [], ◌∷◌, length, contains, chunks,
  texts_eq, string_eq,
}
use driftless.Prelude.Dict.{lookup, insert}
use driftless.Observer.Cluster.{
  ClusterSnapshot, is_leader, leader, reachable_count, replication_lags, append_leader,
  leaders_by_term, first_conflict, conflict_text, split_brain_message, unreachable,
}
use driftless.Observer.Cluster.Samples.{node, healthy, split, snapshot}
use driftless.Observer.Metrics.{
  Datum, MetricsPublisher, accepted, Registry, init, set_lags, set_node, set_nodes,
  update_prometheus, cw_datum, node_data, nodes_data, cluster_data, buffer_cloudwatch,
  flush_cloudwatch, flush_if_due, update, update_all,
}
use driftless.Observer.Metrics.Gauges.{node_series}
use mathlib.Core.List.{map}

program : Unit {0}
unfolding leader is_leader replication_lags append_leader leaders_by_term first_conflict
    conflict_text split_brain_message reachable_count lookup insert init set_lags set_node set_nodes
    update_prometheus cw_datum node_data nodes_data cluster_data buffer_cloudwatch flush_cloudwatch
    accepted flush_if_due update update_all chunks unreachable
program = tt

abbrev clock : ℕ → ℕ
clock i = 100 * i

abbrev stamps : ℕ → String
stamps i = "2026-04-21T00:15:13Z"

-- CloudWatch refuses each put.
abbrev takes_none : ℕ → List Datum → Bool
takes_none k batch = false

abbrev fresh : MetricsPublisher
fresh = record {
  cw = takes_none;
  namespace = "Driftless/Raft";
  cw_interval = 60;
  disable_cw = false;
  last_cw_publish = 0;
  pending = [];
  gauges = [];
  reads = 0;
  stamped = 0;
  puts = [];
  published = [];
}

abbrev snaps : List ClusterSnapshot
snaps = healthy ∷ split ∷ []

-- The first update buffers 3 · 5 + 2 + 4 data; the second adds as many and flushes.
flushes_second :
    (length (update clock stamps healthy fresh).pending ≡ 21)
    × (map length (update_all clock stamps snaps fresh).puts ≡ 42 ∷ [])
unfolding program
flushes_second = (refl, refl)

abbrev seen : Registry
seen = update_prometheus healthy []

-- The coordinator a stops answering: its gauges stay, and its address gets gauges of its own.
abbrev after : ClusterSnapshot
after = snapshot (unreachable "h:1" "connect timeout" 9 ∷ node "b" "candidate" 4 17 none ∷ [])

a_gone : contains (map (λ n. n.node_id) after.nodes) "a" ≡ false
unfolding program
a_gone = refl

still_up :
    lookup (node_series "raft_node_up" "a") (update_prometheus after (update_prometheus healthy []))
    ≡ some 1
unfolding program
still_up = refl

-- The batch that was refused is gone.
lost_second :
    ((update_all clock stamps snaps fresh).pending ≡ [])
    × ((update_all clock stamps snaps fresh).published ≡ [])
unfolding program
lost_second = (refl, refl)
