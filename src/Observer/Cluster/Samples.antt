-- ===== src/Observer/Cluster/Samples.antt =====
-- Small clusters for the tests of the observer.
use driftless.Prelude.{
  ℕ, String, true, Option, none, some, List, [], ◌∷◌, ◌==◌, string_eq, if◌then◌else◌,
}
use driftless.Prelude.Dict.{Dict}
use driftless.Observer.Cluster.{NodeState, StateDoc, ClusterSnapshot}
use driftless.Observer.Cluster.Poll.{Fetch, answered, raised}

abbrev pub node : String → String → ℕ → ℕ → Option (Dict String ℕ) → NodeState
node id state term commit matched = record {
  node_id = id;
  state = state;
  current_term = term;
  voted_for = "";
  commit_index = commit;
  last_applied = commit;
  log_length = commit;
  match_index = matched;
  next_index = none;
  addr = id;
  reachable = true;
  error = none;
  polled_at = 0;
}

abbrev pub snapshot : List NodeState → ClusterSnapshot
snapshot ns = record { nodes = ns; polled_at = 0 }

abbrev pub leader_a : NodeState
leader_a = node "a" "leader" 3 17 (some (("b", 17) ∷ ("c", 12) ∷ []))

abbrev pub healthy : ClusterSnapshot
healthy = snapshot (leader_a ∷ node "b" "follower" 3 17 none ∷ node "c" "follower" 3 12 none ∷ [])

-- Two leaders in term 3, reported in the order b, a.
abbrev pub split : ClusterSnapshot
split = snapshot (node "b" "leader" 3 9 none ∷ leader_a ∷ node "c" "follower" 3 12 none ∷ [])

abbrev pub leaderless : ClusterSnapshot
leaderless = snapshot (node "b" "candidate" 4 17 none ∷ node "c" "follower" 4 12 none ∷ [])

abbrev pub doc_a : StateDoc
doc_a = record {
  node_id = some "a";
  state = some "leader";
  current_term = some 3;
  voted_for = some "a";
  commit_index = some 17;
  last_applied = some 17;
  log_length = some 18;
  match_index = some (("b", 17) ∷ []);
  next_index = none;
}

-- Only the coordinator at h:1 answers.
abbrev pub network : String → Fetch
network url = if url == "http://h:1/state" then answered doc_a else raised "connect timeout"
