-- ===== src/Observer/Cluster/Poll.antt =====
-- `RaftClusterClient` of state-observer/raft_client.py: one GET per address, gathered in the order
-- of the addresses. The HTTP library is a parameter, and so are the clock's readings.
use driftless.Prelude.{
  ℕ, ◌-◌, ◌≤◌, String, Bool, true, false, none, some, List, [], ◌∷◌, ◌≡◌, refl, arith, inl, inr,
  string_eq, if◌then◌else◌, get_or, filter_by, count_by, All, Bool-cases,
}
use driftless.Prelude.Dict.{Dict, lookup}
use driftless.Prelude.Text.{concat}
use driftless.Observer.Cluster.{
  NodeState, StateDoc, from_dict, unreachable, is_leader, lag_of, replication_lags, ClusterSnapshot,
  leaders, leader, reachable_count, max_term, current_term,
}
use driftless.Observer.Cluster.Brain.{leader-no_split_brain}
use mathlib.Core.List.{map}
use mathlib.Core.Option as Option

-- What `get`, `raise_for_status` and `json` come to: the JSON object, or the text of the exception
-- that one of them raised.
pub data Fetch : Type 0 where
  answered : StateDoc → Fetch
  raised : String → Fetch

unfoldable pub state_of : String → ℕ → Fetch → NodeState
state_of addr now (answered d) = from_dict d addr now
state_of addr now (raised exc) = unreachable addr exc now

module _ (http_get : String → Fetch) (clock : String → ℕ) where
  unfoldable pub poll_one : String → NodeState
  unfolding state_of
  poll_one addr = state_of addr (clock addr) (http_get (concat ("http://" ∷ addr ∷ "/state" ∷ [])))

  unfoldable pub poll : List String → ℕ → ClusterSnapshot
  poll addrs now = record { nodes = map poll_one addrs; polled_at = now }

abbrev pub is_answered : Fetch → Bool
is_answered (answered d) = true
is_answered (raised exc) = false

abbrev pub LeadersUp : NodeState → Type 0
LeadersUp n = is_leader n ≡ true → n.reachable ≡ true

state_of-LeadersUp : (addr : String) (now : ℕ) (f : Fetch) → LeadersUp (state_of addr now f)
unfolding state_of from_dict unreachable is_leader
state_of-LeadersUp addr now (answered d) = λ h. refl
state_of-LeadersUp addr now (raised exc) = λ h. h

state_of-addr : (addr : String) (now : ℕ) (f : Fetch) → (state_of addr now f).addr ≡ addr
unfolding state_of from_dict unreachable
state_of-addr addr now (answered d) = refl
state_of-addr addr now (raised exc) = refl

state_of-reachable :
    (addr : String) (now : ℕ) (f : Fetch) → (state_of addr now f).reachable ≡ is_answered f
unfolding state_of from_dict unreachable
state_of-reachable addr now (answered d) = refl
state_of-reachable addr now (raised exc) = refl

-- A node that leads alone is up, and its term counts among those of the reachable nodes.
leader_up :
    (ns : List NodeState) (n : NodeState)
    → All LeadersUp ns
    → filter_by is_leader ns ≡ n ∷ []
    → (n.reachable ≡ true)
      × (n.current_term ≤ max_term (map (λ m. m.current_term) (filter_by (λ m. m.reachable) ns)))
unfolding max_term
leader_up [] n up h = absurd (cc)
leader_up (x ∷ ns) n up h = elim (Bool-cases (is_leader x)) [
  | inl leading ↦
      let e : x ≡ n = head_eq (filter_by is_leader ns) (rw leading at h) in
      let u : x.reachable ≡ true = up.0 leading in (rw (← e) u, rw (← e) (rw u (ground arith)))
  | inr not_leading ↦
      let rest = leader_up ns n up.1 (rw not_leading at h) in (rest.0, ground (arith, rest.1))
]
  where
    head_eq : (l : List NodeState) → x ∷ l ≡ n ∷ [] → x ≡ n
    head_eq l h = cc

module _ (http_get : String → Fetch) (clock : String → ℕ) where
  abbrev fetch : String → Fetch
  fetch addr = http_get (concat ("http://" ∷ addr ∷ "/state" ∷ []))

  addrs_of_poll :
      (addrs : List String) (now : ℕ)
      → map (λ n. n.addr) (poll http_get clock addrs now).nodes ≡ addrs
  unfolding poll poll_one
  addrs_of_poll [] now = refl
  addrs_of_poll (a ∷ addrs) now =
      ground (arith, state_of-addr a (clock a) (fetch a), addrs_of_poll addrs now)

  up_of_poll :
      (addrs : List String) (now : ℕ)
      → reachable_count (poll http_get clock addrs now)
        ≡ count_by (λ a. is_answered (fetch a)) addrs
  unfolding poll poll_one reachable_count
  up_of_poll [] now = refl
  up_of_poll (a ∷ addrs) now =
      ground (arith, state_of-reachable a (clock a) (fetch a), up_of_poll addrs now)

  poll-LeadersUp :
      (addrs : List String) (now : ℕ) → All LeadersUp (poll http_get clock addrs now).nodes
  unfolding poll poll_one
  poll-LeadersUp [] now = tt
  poll-LeadersUp (a ∷ addrs) now =
      (state_of-LeadersUp a (clock a) (fetch a), poll-LeadersUp addrs now)

  -- A poll gives one node for each address, in the order of the addresses, and counts as reachable
  -- exactly the addresses whose request, status check and JSON decoding all succeeded.
  pub poll_nodes :
      (addrs : List String) (now : ℕ)
      → (map (λ n. n.addr) (poll http_get clock addrs now).nodes ≡ addrs)
        × (reachable_count (poll http_get clock addrs now)
            ≡ count_by (λ a. is_answered (http_get (concat ("http://" ∷ a ∷ "/state" ∷ [])))) addrs)
  poll_nodes addrs now = (addrs_of_poll addrs now, up_of_poll addrs now)

  -- The leader of a polled snapshot was reached, and its term is at most the snapshot's term.
  pub poll-leader_up :
      (addrs : List String) (now : ℕ) {n : NodeState}
      → leader (poll http_get clock addrs now) ≡ some n
      → (n.reachable ≡ true) × (n.current_term ≤ current_term (poll http_get clock addrs now))
  unfolding leaders current_term
  poll-leader_up addrs now {n} h =
      let snap = poll http_get clock addrs now in
      leader_up snap.nodes n (poll-LeadersUp addrs now) (leader-no_split_brain snap h).0

lookup-lags :
    (commit : ℕ) (peer : String) (d : Dict String ℕ)
    → lookup peer (map (lag_of commit) d) ≡ Option.map (λ m. commit - m) (lookup peer d)
unfolding lookup lag_of
lookup-lags commit peer [] = refl
lookup-lags commit peer ((p, m) ∷ d) = ground (arith, lookup-lags commit peer d)

-- On a leader the lag of a peer is how far its match index is behind the commit index, 0 if it is
-- not behind, and there is one for exactly the peers of the match index; on any other node there
-- is no lag.
pub lookup-replication_lags :
    (n : NodeState) (peer : String)
    → lookup peer (replication_lags n) ≡ (
        if is_leader n
        then Option.map (λ m. n.commit_index - m) (lookup peer (get_or n.match_index []))
        else none)
unfolding replication_lags lookup
lookup-replication_lags n peer =
    ground (arith, lookup-lags n.commit_index peer (get_or n.match_index []))
