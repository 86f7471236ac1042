-- ===== src/Observer/Cluster.antt =====
-- state-observer/raft_client.py: the parsed state of one coordinator, the snapshot of a poll round,
-- and the poll itself. Terms and log indices are natural numbers: `max(0, a - b)` is `a - b` on ℕ.
pub mod Brain
pub mod Poll
pub mod Samples
mod Tests
use driftless.Prelude.{
  ℕ, ◌+◌, ◌-◌, suc, String, Bool, true, false, not, ◌&&◌, Option, none, some, List, [], ◌∷◌, ◌++◌,
  ◌==◌, nat_eq, string_eq, if◌then◌else◌, ltb, leb, get_or, is_some, length, filter_by, count_by,
  sort,
}
use driftless.Prelude.Dict.{Dict, lookup, insert}
use driftless.Prelude.Text.{decimal, concat, join, str_leb}
use mathlib.Core.List.{map}

pub record NodeState : Type 0 where
  pub node_id : String
  pub state : String
  pub current_term : ℕ
  pub voted_for : String
  pub commit_index : ℕ
  pub last_applied : ℕ
  pub log_length : ℕ
  pub match_index : Option (Dict String ℕ)
  pub next_index : Option (Dict String ℕ)
  pub addr : String
  pub reachable : Bool
  pub error : Option String
  pub polled_at : ℕ

-- The JSON object of GET /state: each key may be missing.
pub record StateDoc : Type 0 where
  pub node_id : Option String
  pub state : Option String
  pub current_term : Option ℕ
  pub voted_for : Option String
  pub commit_index : Option ℕ
  pub last_applied : Option ℕ
  pub log_length : Option ℕ
  pub match_index : Option (Dict String ℕ)
  pub next_index : Option (Dict String ℕ)

-- `now` is the reading of the clock that the field `polled_at` takes by default.
unfoldable pub from_dict : StateDoc → String → ℕ → NodeState
from_dict d addr now = record {
  node_id = get_or d.node_id addr;
  state = get_or d.state "unknown";
  current_term = get_or d.current_term 0;
  voted_for = get_or d.voted_for "";
  commit_index = get_or d.commit_index 0;
  last_applied = get_or d.last_applied 0;
  log_length = get_or d.log_length 0;
  match_index = d.match_index;
  next_index = d.next_index;
  addr = addr;
  reachable = true;
  error = none;
  polled_at = now;
}

unfoldable pub unreachable : String → String → ℕ → NodeState
unreachable addr error now = record {
  node_id = addr;
  state = "unreachable";
  current_term = 0;
  voted_for = "";
  commit_index = 0;
  last_applied = 0;
  log_length = 0;
  match_index = none;
  next_index = none;
  addr = addr;
  reachable = false;
  error = some error;
  polled_at = now;
}

unfoldable pub is_leader : NodeState → Bool
is_leader n = n.state == "leader"

unfoldable pub lag_of : ℕ → String × ℕ → String × ℕ
lag_of commit (peer, matched) = (peer, commit - matched)

-- An empty dict is falsy, and gives the empty dict either way.
unfoldable pub replication_lags : NodeState → Dict String ℕ
unfolding is_leader lag_of
replication_lags n =
    if is_leader n then map (lag_of n.commit_index) (get_or n.match_index []) else []

pub record ClusterSnapshot : Type 0 where
  pub nodes : List NodeState
  pub polled_at : ℕ

unfoldable pub leaders : ClusterSnapshot → List NodeState
leaders snap = filter_by is_leader snap.nodes

unfoldable pub reachable_count : ClusterSnapshot → ℕ
reachable_count snap = count_by (λ n. n.reachable) snap.nodes

-- `ls[0] if len(ls) == 1 else None`
unfoldable pub single : List NodeState → Option NodeState
single (n ∷ []) = some n
single _ = none

unfoldable pub leader : ClusterSnapshot → Option NodeState
unfolding leaders single
leader snap = single (leaders snap)

-- `max(terms) if terms else 0`
unfoldable pub max_term : List ℕ → ℕ
max_term [] = 0
max_term (t ∷ ts) = let m = max_term ts in if ltb m t then t else m

unfoldable pub current_term : ClusterSnapshot → ℕ
unfolding max_term
current_term snap = max_term (map (λ n. n.current_term) (filter_by (λ n. n.reachable) snap.nodes))

-- `leaders_by_term.setdefault(term, []).append(node_id)`
unfoldable pub append_leader : ℕ → String → Dict ℕ (List String) → Dict ℕ (List String)
append_leader term id d = insert term (get_or (lookup term d) [] ++ id ∷ []) d

-- The loop that builds `leaders_by_term`.
unfoldable pub leaders_by_term : List NodeState → Dict ℕ (List String) → Dict ℕ (List String)
leaders_by_term [] d = d
leaders_by_term (n ∷ ns) d =
    leaders_by_term ns (if is_leader n then append_leader n.current_term n.node_id d else d)

-- The first term with more than one leader, in the order of the dict.
unfoldable pub first_conflict : Dict ℕ (List String) → Option (ℕ × List String)
first_conflict [] = none
first_conflict ((term, ids) ∷ d) = if ltb 1 (length ids) then some (term, ids) else first_conflict d

unfoldable pub conflict_text : ℕ × List String → String
conflict_text (term, ids) = concat (
    "SPLIT-BRAIN DETECTED: term="
    ∷ decimal term
    ∷ " multiple leaders: "
    ∷ join ", " (sort str_leb ids)
    ∷ [])

unfoldable pub split_brain_message : ClusterSnapshot → Option String
split_brain_message snap = elim (first_conflict (leaders_by_term snap.nodes [])) [
  | none ↦ none
  | some c ↦ some (conflict_text c)
]
