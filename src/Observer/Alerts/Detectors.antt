-- ===== src/Observer/Alerts/Detectors.antt =====
-- When each detector of `AlertManager.check` raises an alert, in terms of the nodes of the snapshot
-- and of the clock.
use driftless.Prelude.{
  ℕ, ◌+◌, ◌*◌, ◌≤◌, ◌<◌, String, Bool, Option, none, some, List, [], ◌∷◌, ◌≡◌, refl, ◌≢◌, ◌↔◌, inl,
  inr, arith, nat_eq, ltb, length, Bool-cases, Option-cases, count_by,
}
use driftless.Prelude.Dict.{Dict}
use driftless.Observer.Cluster.{
  NodeState, ClusterSnapshot, split_brain_message, leader, leaders_by_term, first_conflict,
  conflict_text, reachable_count,
}
use driftless.Observer.Cluster.Brain.{leads, Verdict, split_brain_message-Verdict}
use driftless.Observer.Alerts.{
  AlertManager, Publish, no_leader_timeout, raise_alert, alert_conflicts, check_split_brain,
  check_no_leader, leaderless_at, check_quorum_loss,
}

module _ (clock : ℕ → ℕ) (accepts : Publish → Bool) where
  -- A quorum alert is raised exactly if there are nodes and at most half of them are reachable.
  pub check_quorum_loss_iff :
      (snap : ClusterSnapshot) (s : AlertManager)
      → ((check_quorum_loss clock accepts snap s).1 ≢ [])
        ↔ ((0 < length snap.nodes) × (2 * reachable_count snap ≤ length snap.nodes))
  unfolding check_quorum_loss raise_alert
  check_quorum_loss_iff snap s = (λ h. ground arith, λ h. ground arith)

  -- A no-leader alert is raised exactly if the snapshot has no single leader and the timer was
  -- started at least 10 s before the reading of the clock.
  pub check_no_leader_iff :
      (snap : ClusterSnapshot) (s : AlertManager)
      → ((check_no_leader clock accepts snap s).1 ≢ []) ↔ (
          (leader snap ≡ none)
          × ((since : ℕ) × (s.leaderless_since ≡ some since)
              × (since + no_leader_timeout ≤ clock s.reads)))
  unfolding check_no_leader leaderless_at raise_alert
  check_no_leader_iff snap s = (λ h. ground arith, λ h. ground arith)

  conflicts_raised :
      (msg : String) (snap : ClusterSnapshot) (d : Dict ℕ (List String)) (s : AlertManager)
      → ((alert_conflicts clock accepts msg snap d s).1 ≡ []) ↔ (first_conflict d ≡ none)
  unfolding alert_conflicts first_conflict raise_alert
  conflicts_raised msg snap [] s = (λ h. refl, λ h. refl)
  conflicts_raised msg snap ((t, ids) ∷ d) s = elim (Bool-cases (ltb 1 (length ids))) [
    | inl many ↦ rw many (λ h. absurd (cc), λ h. absurd (cc))
    | inr one ↦ rw one (conflicts_raised msg snap d s)
  ]

  Verdict-silent :
      (ns : List NodeState) (o : Option String)
      → Verdict ns o
      → (o ≡ none) ↔ ((t : ℕ) → count_by (leads t) ns ≤ 1)
  Verdict-silent ns none v = (λ h. v, λ h. refl)
  Verdict-silent ns (some m) (t, _, many) =
      (λ h. absurd (cc), λ h. absurd (omega (arith, h t, many)))

  message_raised :
      (snap : ClusterSnapshot) (s : AlertManager)
      → ((check_split_brain clock accepts snap s).1 ≡ []) ↔ (split_brain_message snap ≡ none)
  unfolding check_split_brain split_brain_message
  message_raised snap s =
      let d = leaders_by_term snap.nodes [] in
      elim (Option-cases (first_conflict d)) [
        | inl quiet ↦ rw (quiet, check_split_brain, split_brain_message) ((λ h. refl), (λ h. refl))
        | inr (c, found) ↦
            let raised = conflicts_raised (conflict_text c) snap d s in
            rw (found, check_split_brain, split_brain_message)
              ((λ h. absurd (ground (arith, raised.0 h))), (λ h. absurd (cc)))
      ]

  -- No split-brain alert is raised exactly if no term has two nodes that report to lead it.
  pub check_split_brain_silent_iff :
      (snap : ClusterSnapshot) (s : AlertManager)
      → ((check_split_brain clock accepts snap s).1 ≡ [])
        ↔ ((t : ℕ) → count_by (leads t) snap.nodes ≤ 1)
  check_split_brain_silent_iff snap s =
      let raised = message_raised snap s in
      let said = Verdict-silent snap.nodes _ (split_brain_message-Verdict snap) in
      ((λ h. said.0 (raised.0 h)), (λ h. raised.1 (said.1 h)))
