-- ===== src/Observer/Metrics.antt =====
-- state-observer/metrics.py: the Prometheus gauges and the CloudWatch buffer of `MetricsPublisher`.
-- Times are in nanoseconds. The CloudWatch client, which accepts a batch or refuses it with an
-- exception that is caught and logged, is a field of the publisher.
pub mod Gauges
pub mod Flush
pub mod Batches
mod Tests
use driftless.Prelude.{
  ℕ, ◌+◌, ◌-◌, String, Bool, true, false, Option, none, some, List, [], ◌∷◌, ◌++◌, ◌==◌, nat_eq,
  texts_eq, if◌then◌else◌, leb, get_or, is_some, length, chunks,
}
use driftless.Prelude.Dict.{Dict, lookup, insert}
use driftless.Observer.Cluster.{
  NodeState, ClusterSnapshot, is_leader, replication_lags, leader, split_brain_message,
  reachable_count,
}
use mathlib.Core.List.{map}

-- A time series is the gauge's name with the values of its labels.
abbrev pub Series : Type 0
Series = List String

abbrev pub Registry : Type 0
Registry = Dict Series ℕ

-- The dict that `_cw_datum` builds; "Dimensions" is left out if there are none.
pub record Datum : Type 0 where
  pub metric_name : String
  pub value : ℕ
  pub unit : String
  pub dimensions : Option (List (String × String))
  pub timestamp : String

-- The fields of the publisher; then the process's gauges, how many readings of the monotonic clock
-- were taken and how many buffers were stamped, the batches of the calls of `put_metric_data` so far,
-- the earliest first, and those of them that CloudWatch accepted. The client tells by the number of
-- the call and its batch whether it is accepted.
pub record MetricsPublisher : Type 0 where
  pub cw : ℕ → List Datum → Bool
  pub namespace : String
  pub cw_interval : ℕ
  pub disable_cw : Bool
  pub last_cw_publish : ℕ
  pub pending : List Datum
  pub gauges : Registry
  pub reads : ℕ
  pub stamped : ℕ
  pub puts : List (List Datum)
  pub published : List (List Datum)

unfoldable pub init : (ℕ → List Datum → Bool) → String → ℕ → Bool → MetricsPublisher
init cw namespace cw_interval disable_cw = record {
  cw = cw;
  namespace = namespace;
  cw_interval = cw_interval;
  disable_cw = disable_cw;
  last_cw_publish = 0;
  pending = [];
  gauges = [];
  reads = 0;
  stamped = 0;
  puts = [];
  published = [];
}

abbrev pub bit : Bool → ℕ
bit b = if b then 1 else 0

-- `gauge.labels(…).set(v)`
unfoldable pub set_lags : String → Dict String ℕ → Registry → Registry
set_lags nid [] r = r
set_lags nid ((peer, lag) ∷ d) r =
    set_lags nid d (insert ("raft_replication_lag" ∷ nid ∷ peer ∷ []) lag r)

-- The body of the loop over the nodes.
unfoldable pub set_node : NodeState → Registry → Registry
set_node n r =
    let nid = n.node_id in
    let r₁ = insert ("raft_current_term" ∷ nid ∷ []) n.current_term r in
    let r₂ = insert ("raft_commit_index" ∷ nid ∷ []) n.commit_index r₁ in
    let r₃ = insert ("raft_log_length" ∷ nid ∷ []) n.log_length r₂ in
    let r₄ = insert ("raft_is_leader" ∷ nid ∷ []) (bit (is_leader n)) r₃ in
    let r₅ = insert ("raft_node_up" ∷ nid ∷ []) (bit n.reachable) r₄ in
    set_lags nid (replication_lags n) r₅

unfoldable pub set_nodes : List NodeState → Registry → Registry
set_nodes [] r = r
set_nodes (n ∷ ns) r = set_nodes ns (set_node n r)

abbrev pub term_of : Option NodeState → ℕ
term_of none = 0
term_of (some n) = n.current_term

unfoldable pub update_prometheus : ClusterSnapshot → Registry → Registry
update_prometheus snap r =
    let r₁ = set_nodes snap.nodes r in
    let r₂ = insert ("raft_has_leader" ∷ []) (bit (is_some (leader snap))) r₁ in
    let r₃ = insert ("raft_split_brain" ∷ []) (bit (is_some (split_brain_message snap))) r₂ in
    let r₄ = insert ("raft_leader_term" ∷ []) (term_of (leader snap)) r₃ in
    insert ("raft_nodes_up" ∷ []) (reachable_count snap) r₄

unfoldable pub cw_datum : String → ℕ → List (String × String) → String → Datum
cw_datum name value dims ts = record {
  metric_name = name;
  value = value;
  unit = "Count";
  dimensions = elim dims [ [] ↦ none | x ∷ xs ↦ some (x ∷ xs) ];
  timestamp = ts;
}

lag_datum : String → String → String × ℕ → Datum
lag_datum nid ts (peer, lag) =
    cw_datum "ReplicationLag" lag (("LeaderId", nid) ∷ ("PeerId", peer) ∷ []) ts

unfoldable pub node_data : String → NodeState → List Datum
unfolding lag_datum
node_data ts n =
    let dim = ("NodeId", n.node_id) ∷ [] in
    cw_datum "CurrentTerm" n.current_term dim ts
    ∷ cw_datum "CommitIndex" n.commit_index dim ts
    ∷ cw_datum "LogLength" n.log_length dim ts
    ∷ cw_datum "IsLeader" (bit (is_leader n)) dim ts
    ∷ cw_datum "NodeUp" (bit n.reachable) dim ts
    ∷ map (lag_datum n.node_id ts) (replication_lags n)

unfoldable pub nodes_data : String → List NodeState → List Datum
nodes_data ts [] = []
nodes_data ts (n ∷ ns) = node_data ts n ++ nodes_data ts ns

unfoldable pub cluster_data : String → ClusterSnapshot → List Datum
cluster_data ts snap =
    cw_datum "HasLeader" (bit (is_some (leader snap))) [] ts
    ∷ cw_datum "SplitBrain" (bit (is_some (split_brain_message snap))) [] ts
    ∷ cw_datum "LeaderTerm" (term_of (leader snap)) [] ts
    ∷ cw_datum "NodesUp" (reachable_count snap) [] ts
    ∷ []

-- The loop over the batches, from the number of calls so far on: what CloudWatch accepts of them.
unfoldable pub accepted : (ℕ → List Datum → Bool) → ℕ → List (List Datum) → List (List Datum)
accepted cw k [] = []
accepted cw k (batch ∷ batches) =
    let rest = accepted cw (k + 1) batches in if cw k batch then batch ∷ rest else rest

module _ (clock : ℕ → ℕ) (stamps : ℕ → String) where
  unfoldable pub buffer_cloudwatch : ClusterSnapshot → MetricsPublisher → MetricsPublisher
  buffer_cloudwatch snap s =
      let ts = stamps s.stamped in
      record s {
        pending = s.pending ++ (nodes_data ts snap.nodes ++ cluster_data ts snap);
        stamped = s.stamped + 1;
      }

  unfoldable pub flush_cloudwatch : MetricsPublisher → MetricsPublisher
  unfolding accepted
  flush_cloudwatch s = if length s.pending == 0 then s else record s {
    pending = [];
    last_cw_publish = clock s.reads;
    reads = s.reads + 1;
    puts = s.puts ++ chunks 1000 s.pending;
    published = s.published ++ accepted s.cw (length s.puts) (chunks 1000 s.pending);
  }

  -- `time.monotonic() - last >= interval` is written as a sum.
  unfoldable pub flush_if_due : MetricsPublisher → MetricsPublisher
  flush_if_due s =
      let read = record s { reads = s.reads + 1 } in
      if leb (s.last_cw_publish + s.cw_interval) (clock s.reads)
      then flush_cloudwatch read
      else read

  unfoldable pub update : ClusterSnapshot → MetricsPublisher → MetricsPublisher
  update snap s =
      let s₁ = record s { gauges = update_prometheus snap s.gauges } in
      if s.disable_cw then s₁ else flush_if_due (buffer_cloudwatch snap s₁)

  unfoldable pub update_all : List ClusterSnapshot → MetricsPublisher → MetricsPublisher
  update_all [] s = s
  update_all (snap ∷ snaps) s = update_all snaps (update snap s)
