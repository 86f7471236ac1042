-- ===== src/Observer/Panels/Lags.antt =====
-- The rows of the table of lags.
use driftless.Prelude.{
  ℕ, ◌+◌, ◌≤◌, String, true, none, some, List, [], ◌∷◌, ◌≡◌, refl, sym, ap, filter_by, All-sort,
  ◌∙◌, ◌-◌, ◌==◌, arith, beq_self, All, get_or, sort, Bool-cases, Option-cases, inl, inr, string_eq,
}
use driftless.Prelude.Dict.{Dict, lookup, keys}
use driftless.Prelude.Text.{str_leb}
use driftless.Observer.Cluster.{
  NodeState, ClusterSnapshot, is_leader, leader, leaders, single, lag_of, replication_lags,
}
use driftless.Observer.Cluster.Poll.{lookup-replication_lags}
use driftless.Observer.Panels.{
  LagRow, table_of, Replication, no_leader, no_peers, lag_table, lag_row, lag_rows,
  replication_table,
}
use mathlib.Core.List.{map}
use mathlib.Core.Path.{subst}
use mathlib.Core.Option as Option

-- What a row shows of a peer: its match index; its lag makes up what its match index lacks to the leader's commit
-- index, the bar is as long as the lag, up to 20 blocks, and it is green exactly if there is no lag.
pub record IsShown (n : NodeState) (r : LagRow) : Type 0 where
  pub held : lookup r.peer (get_or n.match_index []) ≡ some r.matched
  pub behind : r.matched ≤ n.commit_index → r.matched + r.lag ≡ n.commit_index
  pub ahead : n.commit_index ≤ r.matched → r.lag ≡ 0
  pub short : r.blocks ≤ r.lag
  pub full : r.lag ≤ 20 → r.blocks ≡ r.lag
  pub bounded : r.blocks ≤ 20

lag_of_peer :
    (n : NodeState) (peer : String) {m : ℕ}
    → is_leader n ≡ true
    → lookup peer (get_or n.match_index []) ≡ some m
    → lookup peer (replication_lags n) ≡ some (n.commit_index - m)
lag_of_peer n peer leads held =
    lookup-replication_lags n peer ∙ rw leads (ap (Option.map (λ k. n.commit_index - k)) held)

lag_row-IsShown :
    (n : NodeState) (peer : String)
    → is_leader n ≡ true
    → (m : ℕ) × (lookup peer (get_or n.match_index []) ≡ some m)
    → IsShown n (lag_row n (replication_lags n) peer)
unfolding lag_row
lag_row-IsShown n peer leads (m, held) =
    rw (lag_of_peer n peer leads held, held, lag_row)
      (record {
        held = held;
        behind = λ h. omega arith;
        ahead = λ h. omega arith;
        short = ground arith;
        full = λ h. ground arith;
        bounded = ground arith;
      })

abbrev IsHeld : Dict String ℕ → String → Type 0
IsHeld d p = (m : ℕ) × (lookup p d ≡ some m)

IsHeld-cons :
    (k : String) (v : ℕ) (d : Dict String ℕ) (p : String) → IsHeld d p → IsHeld ((k, v) ∷ d) p
unfolding lookup
IsHeld-cons k v d p (m, held) = elim (Bool-cases (p == k)) [
  | inl same ↦ (v, ground (arith))
  | inr other ↦ (m, ground (arith))
]

All-IsHeld-cons :
    (k : String) (v : ℕ) (d : Dict String ℕ) (ps : List String)
    → All (IsHeld d) ps
    → All (IsHeld ((k, v) ∷ d)) ps
All-IsHeld-cons k v d [] all = tt
All-IsHeld-cons k v d (p ∷ ps) all = (IsHeld-cons k v d p all.0, All-IsHeld-cons k v d ps all.1)

-- Every key of a dict has a value.
keys-IsHeld : (d : Dict String ℕ) → All (IsHeld d) (keys d)
unfolding lookup
keys-IsHeld [] = tt
keys-IsHeld ((k, v) ∷ d) =
    ((v, ground (arith, beq_self {K = String} k)), All-IsHeld-cons k v d (keys d) (keys-IsHeld d))

lag_rows-IsShown :
    (n : NodeState) (peers : List String)
    → is_leader n ≡ true
    → All (IsHeld (get_or n.match_index [])) peers
    → All (IsShown n) (map (lag_row n (replication_lags n)) peers)
lag_rows-IsShown n [] leads held = tt
lag_rows-IsShown n (p ∷ peers) leads held =
    (lag_row-IsShown n p leads held.0, lag_rows-IsShown n peers leads held.1)

keys-lag_of : (commit : ℕ) (d : Dict String ℕ) → keys (map (lag_of commit) d) ≡ keys d
unfolding lag_of
keys-lag_of commit [] = refl
keys-lag_of commit ((p, m) ∷ d) = ap (◌∷◌ p) (keys-lag_of commit d)

keys-replication_lags :
    (n : NodeState)
    → is_leader n ≡ true
    → keys (replication_lags n) ≡ keys (get_or n.match_index [])
unfolding replication_lags
keys-replication_lags n leads = rw leads (keys-lag_of n.commit_index (get_or n.match_index []))

peers-lag_row :
    (n : NodeState) (lags : Dict String ℕ) (ps : List String)
    → map (λ r. r.peer) (map (lag_row n lags) ps) ≡ ps
unfolding lag_row
peers-lag_row n lags [] = refl
peers-lag_row n lags (p ∷ ps) = ap (◌∷◌ p) (peers-lag_row n lags ps)

all_lead : (ns : List NodeState) → All (λ n. is_leader n ≡ true) (filter_by is_leader ns)
all_lead [] = tt
all_lead (n ∷ ns) = elim (Bool-cases (is_leader n)) [
  | inl leads ↦ rw leads (leads, all_lead ns)
  | inr follows ↦ rw follows (all_lead ns)
]

single_leads :
    (ns : List NodeState) {n : NodeState}
    → All (λ m. is_leader m ≡ true) ns
    → single ns ≡ some n
    → is_leader n ≡ true
unfolding single
single_leads [] all h = absurd (cc)
single_leads (m ∷ []) {n} all h = let same : m ≡ n = cc in rw (← same) all.0
single_leads (m ∷ m' ∷ ns) all h = absurd (cc)

leader_leads : (snap : ClusterSnapshot) {n : NodeState} → leader snap ≡ some n → is_leader n ≡ true
unfolding leader leaders
leader_leads snap h = single_leads (filter_by is_leader snap.nodes) (all_lead snap.nodes) h

no_keys : (d : Dict String ℕ) → keys d ≡ [] → d ≡ []
no_keys [] h = refl
no_keys (x ∷ d) h = absurd (cc)

-- What the table shows: one row for each peer of the leader, sorted, with the peer's lag.
pub data IsTable (snap : ClusterSnapshot) : Replication → Type 0 where
  leaderless : leader snap ≡ none → IsTable snap no_leader
  peerless :
      (n : NodeState)
      → leader snap ≡ some n
      → get_or n.match_index [] ≡ []
      → IsTable snap (no_peers n.node_id)
  shown :
      (n : NodeState) (rows : List LagRow)
      → leader snap ≡ some n
      → map (λ r. r.peer) rows ≡ sort str_leb (keys (get_or n.match_index []))
      → All (IsShown n) rows
      → IsTable snap (lag_table n.node_id rows)

-- The table of a snapshot has one row for each peer in the leader's match index, in their order,
-- with the peer's match index and a lag that makes up what the match index lacks to the leader's commit index, with a bar of the lag's
-- length up to 20; there is none without a leader or without peers.
pub replication_table-IsTable :
    (snap : ClusterSnapshot) → IsTable snap (replication_table (some snap))
unfolding replication_table lag_rows
replication_table-IsTable snap = elim (Option-cases (leader snap)) [
  | inl absent ↦ rw (absent, replication_table) (leaderless absent)
  | inr (n, leading) ↦ rw (leading, replication_table) (of_leader n leading _ refl)
]
  where
    of_rows :
        (n : NodeState)
        → leader snap ≡ some n
        → IsTable snap (lag_table n.node_id (lag_rows n (replication_lags n)))
    of_rows n leading =
        let leads = leader_leads snap leading in
        let peers = sort str_leb (keys (replication_lags n)) in
        shown n (map (lag_row n (replication_lags n)) peers) leading
          (peers-lag_row n (replication_lags n) peers
            ∙ ap (sort str_leb) (keys-replication_lags n leads))
          (lag_rows-IsShown n peers leads (
            All-sort (IsHeld (get_or n.match_index [])) str_leb (keys (replication_lags n))
              (rw (keys-replication_lags n leads) (keys-IsHeld (get_or n.match_index [])))))

    of_leader :
        (n : NodeState)
        → leader snap ≡ some n
        → (d : Dict String ℕ) → replication_lags n ≡ d
        → IsTable snap (table_of n d)
    of_leader n leading [] e =
        peerless n leading
          (no_keys _ (sym (keys-replication_lags n (leader_leads snap leading)) ∙ ap keys e))
    of_leader n leading (p ∷ d) e =
        subst (λ l. IsTable snap (lag_table n.node_id (lag_rows n l))) e (of_rows n leading)
