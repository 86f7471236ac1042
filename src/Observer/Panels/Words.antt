-- ===== src/Observer/Panels/Words.antt =====
-- What the summary says of the leader, and how it goes with the alerts.
use driftless.Prelude.{
  ℕ, ◌≤◌, ◌<◌, ltb, String, Option, none, some, List, [], ◌∷◌, ◌≡◌, refl, ap, arith, length,
  count_by, Bool-cases, Option-cases, inl, inr,
}
use driftless.Prelude.Text.{decimal}
use driftless.Observer.Cluster.{
  NodeState, ClusterSnapshot, leader, leaders, single, split_brain_message,
}
use driftless.Observer.Cluster.Brain.{leads, Verdict, split_brain_message-Verdict, count-leads-le}
use driftless.Observer.Panels.{Span, span, leader_text}

-- What the summary says: it names the one node that leads and its term, or warns of several leaders,
-- or of none.
pub data IsSaid (snap : ClusterSnapshot) : List Span → Type 0 where
  one :
      (n : NodeState)
      → leaders snap ≡ n ∷ []
      → IsSaid snap (
          span "Leader: " "dim"
          ∷ span n.node_id "bold green"
          ∷ span "  ·  Term: " "dim"
          ∷ span (decimal n.current_term) "bold white"
          ∷ [])
  several :
      1 < length (leaders snap)
      → IsSaid snap (span "⚠  SPLIT-BRAIN — multiple leaders" "bold red" ∷ [])
  nobody : leaders snap ≡ [] → IsSaid snap (span "⚠  No leader elected" "bold yellow" ∷ [])

single-none : (ns : List NodeState) → single ns ≡ none → length ns ≤ 1 → ns ≡ []
unfolding single
single-none [] h few = refl
single-none (n ∷ []) h few = absurd (cc)
single-none (m ∷ n ∷ ns) h few = absurd (omega arith)

single-some : (ns : List NodeState) (n : NodeState) → single ns ≡ some n → ns ≡ n ∷ []
unfolding single
single-some [] n h = cc
single-some (m ∷ []) n h = cc
single-some (m ∷ m' ∷ ns) n h = cc

-- The start of the summary names the leader and its term exactly if one node leads, warns of a split
-- brain exactly if several do, and else says that none does.
pub leader_text-IsSaid : (snap : ClusterSnapshot) → IsSaid snap (leader_text snap)
unfolding leader_text leader
leader_text-IsSaid snap = elim (Option-cases (leader snap)) [
  | inr (n, leading) ↦ rw (leading, leader_text) (one n (single-some (leaders snap) n leading))
  | inl absent ↦ elim (Bool-cases (ltb 1 (length (leaders snap)))) [
    | inl many ↦ rw (absent, leader_text) (rw many (several (ground arith)))
    | inr few ↦
        rw (absent, leader_text)
          (rw few (nobody (single-none (leaders snap) absent (ground arith))))
  ]
]

leaders-le :
    (snap : ClusterSnapshot) (t : ℕ) → count_by (leads t) snap.nodes ≤ length (leaders snap)
unfolding leaders
leaders-le snap t = count-leads-le t snap.nodes

-- Whenever a snapshot counts as a split brain for the alerts, the dashboard warns of several leaders.
pub split_brain-leader_text :
    (snap : ClusterSnapshot) {m : String}
    → split_brain_message snap ≡ some m
    → leader_text snap ≡ span "⚠  SPLIT-BRAIN — multiple leaders" "bold red" ∷ []
split_brain-leader_text snap {m} h =
    warned (leader_text snap) (leader_text-IsSaid snap)
      (several_lead (split_brain_message snap) h (split_brain_message-Verdict snap))
  where
    several_lead :
        (o : Option String) → o ≡ some m → Verdict snap.nodes o → 1 < length (leaders snap)
    several_lead none e v = absurd (cc)
    several_lead (some _) e (t, _, many) = omega (arith, many, leaders-le snap t)

    warned :
        (spans : List Span)
        → IsSaid snap spans
        → 1 < length (leaders snap)
        → spans ≡ span "⚠  SPLIT-BRAIN — multiple leaders" "bold red" ∷ []
    warned _ (one n e) many = absurd (omega (arith, ap length e))
    warned _ (several more) many = refl
    warned _ (nobody e) many = absurd (omega (arith, ap length e))
