-- ===== src/Observer/Metrics/Gauges.antt =====
-- What the Prometheus gauges show after an update.
use driftless.Prelude.{
  ℕ, String, false, some, List, [], ◌∷◌, ◌++◌, ◌≡◌, refl, ap, ◌∙◌, arith, ◌==◌, string_eq, texts_eq,
  is_some, contains, beq_self,
}
use driftless.Prelude.Dict.{Dict, lookup, insert, lookup-insert}
use driftless.Observer.Cluster.{
  NodeState, ClusterSnapshot, is_leader, replication_lags, leader, split_brain_message,
  reachable_count,
}
use driftless.Observer.Metrics.{
  Series, Registry, bit, term_of, set_lags, set_node, set_nodes, update_prometheus,
}
use mathlib.Core.List.{map}

-- After an update the four gauges of the cluster show the snapshot: whether it has exactly one
-- leader, whether it is a split brain, the leader's term or 0, and how many nodes are reachable.
pub update_prometheus_cluster :
    (snap : ClusterSnapshot) (r : Registry)
    → (lookup ("raft_has_leader" ∷ []) (update_prometheus snap r)
        ≡ some (bit (is_some (leader snap))))
      × (lookup ("raft_split_brain" ∷ []) (update_prometheus snap r)
          ≡ some (bit (is_some (split_brain_message snap))))
      × (lookup ("raft_leader_term" ∷ []) (update_prometheus snap r) ≡ some (term_of (leader snap)))
      × (lookup ("raft_nodes_up" ∷ []) (update_prometheus snap r) ≡ some (reachable_count snap))
unfolding update_prometheus
update_prometheus_cluster snap r =
    (simp (lookup-insert), simp (lookup-insert), simp (lookup-insert), simp (lookup-insert))

-- A series of one node's own gauge.
abbrev pub node_series : String → String → Series
node_series gauge nid = gauge ∷ nid ∷ []

lookup-set_lags :
    (gauge nid id : String) (d : Dict String ℕ) (r : Registry)
    → lookup (node_series gauge nid) (set_lags id d r) ≡ lookup (node_series gauge nid) r
unfolding set_lags
lookup-set_lags gauge nid id [] r = refl
lookup-set_lags gauge nid id ((peer, lag) ∷ d) r =
    lookup-set_lags gauge nid id d _
    ∙ ground (
      arith,
      lookup-insert ("raft_replication_lag" ∷ id ∷ peer ∷ []) (node_series gauge nid) lag r,
    )

skip :
    (gauge nid gauge' id : String) (v : ℕ) (r : Registry)
    → (nid == id) ≡ false
    → lookup (node_series gauge nid) (insert (node_series gauge' id) v r)
      ≡ lookup (node_series gauge nid) r
skip gauge nid gauge' id v r other =
    ground (arith, lookup-insert (node_series gauge' id) (node_series gauge nid) v r)

-- A node with another id sets no series of this one.
lookup-set_node_ne :
    (gauge nid : String) (n : NodeState) (r : Registry)
    → (nid == n.node_id) ≡ false
    → lookup (node_series gauge nid) (set_node n r) ≡ lookup (node_series gauge nid) r
unfolding set_node
lookup-set_node_ne gauge nid n r other =
    lookup-set_lags gauge nid n.node_id (replication_lags n) _
    ∙ skip gauge nid _ _ _ _ other
    ∙ skip gauge nid _ _ _ _ other
    ∙ skip gauge nid _ _ _ _ other
    ∙ skip gauge nid _ _ _ _ other
    ∙ skip gauge nid _ _ _ _ other

lookup-set_nodes :
    (gauge nid : String) (ns : List NodeState) (r : Registry)
    → contains (map (λ n. n.node_id) ns) nid ≡ false
    → lookup (node_series gauge nid) (set_nodes ns r) ≡ lookup (node_series gauge nid) r
unfolding set_nodes
lookup-set_nodes gauge nid [] r absent = refl
lookup-set_nodes gauge nid (n ∷ ns) r absent =
    lookup-set_nodes gauge nid ns _ (ground arith) ∙ lookup-set_node_ne gauge nid n r (ground arith)

skip_cluster :
    (gauge nid name : String) (v : ℕ) (r : Registry)
    → lookup (node_series gauge nid) (insert (name ∷ []) v r) ≡ lookup (node_series gauge nid) r
skip_cluster gauge nid name v r =
    ground (arith, lookup-insert (name ∷ []) (node_series gauge nid) v r)

past_cluster :
    (gauge nid : String) (snap : ClusterSnapshot) (r : Registry)
    → lookup (node_series gauge nid) (update_prometheus snap r)
      ≡ lookup (node_series gauge nid) (set_nodes snap.nodes r)
unfolding update_prometheus
past_cluster gauge nid snap r =
    skip_cluster gauge nid _ _ _
    ∙ skip_cluster gauge nid _ _ _
    ∙ skip_cluster gauge nid _ _ _
    ∙ skip_cluster gauge nid _ _ _

-- No gauge of a node changes as long as no node of the snapshot has its id. A node that does not
-- answer appears under its address, so the gauges of its id keep the last values that it reported.
pub update_prometheus_stale :
    (gauge nid : String) (snap : ClusterSnapshot) (r : Registry)
    → contains (map (λ n. n.node_id) snap.nodes) nid ≡ false
    → lookup (node_series gauge nid) (update_prometheus snap r) ≡ lookup (node_series gauge nid) r
update_prometheus_stale gauge nid snap r absent =
    past_cluster gauge nid snap r ∙ lookup-set_nodes gauge nid snap.nodes r absent

-- What the gauges of a node show of it.
abbrev pub IsShown : NodeState → Registry → Type 0
IsShown n r =
    (lookup (node_series "raft_current_term" n.node_id) r ≡ some n.current_term)
    × (lookup (node_series "raft_commit_index" n.node_id) r ≡ some n.commit_index)
    × (lookup (node_series "raft_log_length" n.node_id) r ≡ some n.log_length)
    × (lookup (node_series "raft_is_leader" n.node_id) r ≡ some (bit (is_leader n)))
    × (lookup (node_series "raft_node_up" n.node_id) r ≡ some (bit n.reachable))

set_node-IsShown : (n : NodeState) (r : Registry) → IsShown n (set_node n r)
unfolding set_node
set_node-IsShown n r = (
  lookup-set_lags _ _ _ _ _ ∙ simp (lookup-insert, beq_self),
  lookup-set_lags _ _ _ _ _ ∙ simp (lookup-insert, beq_self),
  lookup-set_lags _ _ _ _ _ ∙ simp (lookup-insert, beq_self),
  lookup-set_lags _ _ _ _ _ ∙ simp (lookup-insert, beq_self),
  lookup-set_lags _ _ _ _ _ ∙ simp (lookup-insert, beq_self),
)

set_nodes-append :
    (ms ns : List NodeState) (r : Registry) → set_nodes (ms ++ ns) r ≡ set_nodes ns (set_nodes ms r)
unfolding set_nodes
set_nodes-append [] ns r = refl
set_nodes-append (m ∷ ms) ns r = set_nodes-append ms ns (set_node m r)

seen_last :
    (gauge : String) (ms ns : List NodeState) (n : NodeState) (snap : ClusterSnapshot)
    (r : Registry)
    → snap.nodes ≡ ms ++ n ∷ ns
    → contains (map (λ m. m.node_id) ns) n.node_id ≡ false
    → lookup (node_series gauge n.node_id) (update_prometheus snap r)
      ≡ lookup (node_series gauge n.node_id) (set_node n (set_nodes ms r))
unfolding set_nodes
seen_last gauge ms ns n snap r split last =
    past_cluster gauge n.node_id snap r
    ∙ ap (λ l. lookup (node_series gauge n.node_id) (set_nodes l r)) split
    ∙ ap (lookup (node_series gauge n.node_id)) (set_nodes-append ms (n ∷ ns) r)
    ∙ lookup-set_nodes gauge n.node_id ns _ last

-- After an update the five gauges of each node show its term, commit index, log length, whether it
-- leads and whether it is up, if no later node of the snapshot has the same id.
pub update_prometheus-IsShown :
    (ms ns : List NodeState) (n : NodeState) (snap : ClusterSnapshot) (r : Registry)
    → snap.nodes ≡ ms ++ n ∷ ns
    → contains (map (λ m. m.node_id) ns) n.node_id ≡ false
    → IsShown n (update_prometheus snap r)
update_prometheus-IsShown ms ns n snap r split last =
    let (term, commit, len, leads, up) = set_node-IsShown n (set_nodes ms r) in
    (
      seen_last _ ms ns n snap r split last ∙ term,
      seen_last _ ms ns n snap r split last ∙ commit,
      seen_last _ ms ns n snap r split last ∙ len,
      seen_last _ ms ns n snap r split last ∙ leads,
      seen_last _ ms ns n snap r split last ∙ up,
    )
