-- ===== src/Observer/Alerts/Timer.antt =====
-- The timer of `_check_no_leader` over a run of checks: which detectors leave it alone, and how long
-- it keeps its start.
use driftless.Prelude.{
  ℕ, String, Bool, none, some, List, [], ◌∷◌, ◌≡◌, refl, ◌∙◌, arith, inl, inr, ltb, leb, length,
  ◌==◌, nat_eq, All, Bool-cases, Option-cases,
}
use driftless.Prelude.Dict.{Dict}
use driftless.Observer.Cluster.{
  NodeState, ClusterSnapshot, split_brain_message, leader, reachable_count,
}
use driftless.Observer.Alerts.{
  AlertManager, Publish, quorum_of, maybe_send, raise_alert, alert_conflicts, check_split_brain,
  check_no_leader, leaderless_at, check_quorum_loss, check, check_all,
}

module _ (clock : ℕ → ℕ) (accepts : Publish → Bool) where
  -- A step leaves the timer alone.
  abbrev Frames : {A : Type 0} → (AlertManager → AlertManager × A) → Type 0
  Frames f = (s : AlertManager) → (f s).0.leaderless_since ≡ s.leaderless_since

  raise_alert-Frames :
      (key subject body msg : String) → Frames (raise_alert clock accepts key subject body msg)
  unfolding raise_alert maybe_send
  raise_alert-Frames key subject body msg s = ground arith

  alert_conflicts-Frames :
      (msg : String) (snap : ClusterSnapshot) (d : Dict ℕ (List String))
      → Frames (alert_conflicts clock accepts msg snap d)
  unfolding alert_conflicts
  alert_conflicts-Frames msg snap [] s = refl
  alert_conflicts-Frames msg snap ((term, ids) ∷ d) s = elim (Bool-cases (ltb 1 (length ids))) [
    | inl many ↦ rw many (alert_conflicts-Frames msg snap d _ ∙ raise_alert-Frames _ _ _ msg s)
    | inr one ↦ rw one (alert_conflicts-Frames msg snap d s)
  ]

  check_split_brain-Frames :
      (snap : ClusterSnapshot) → Frames (check_split_brain clock accepts snap)
  unfolding check_split_brain
  check_split_brain-Frames snap s = elim (Option-cases (split_brain_message snap)) [
    | inl quiet ↦ rw (quiet, check_split_brain) refl
    | inr (msg, found) ↦ rw (found, check_split_brain) (alert_conflicts-Frames msg snap _ s)
  ]

  check_quorum_loss-Frames :
      (snap : ClusterSnapshot) → Frames (check_quorum_loss clock accepts snap)
  unfolding check_quorum_loss
  check_quorum_loss-Frames snap s = elim (Bool-cases (length snap.nodes == 0)) [
    | inl empty ↦ rw empty refl
    | inr some_nodes ↦
        elim (Bool-cases (leb (quorum_of (length snap.nodes)) (reachable_count snap))) [
          | inl quorum ↦ rw some_nodes (rw quorum refl)
          | inr lost ↦ rw some_nodes (rw lost (raise_alert-Frames _ _ _ _ s))
        ]
  ]

  -- One check with no leader: the timer keeps its start, or takes the reading of this check.
  timer_kept :
      (snap : ClusterSnapshot) (s : AlertManager) (since : ℕ)
      → leader snap ≡ none
      → s.leaderless_since ≡ some since
      → (check_no_leader clock accepts snap s).0.leaderless_since ≡ some since
  unfolding check_no_leader leaderless_at raise_alert maybe_send
  timer_kept snap s since absent running = ground arith

  timer_started :
      (snap : ClusterSnapshot) (s : AlertManager)
      → leader snap ≡ none
      → s.leaderless_since ≡ none
      → (check_no_leader clock accepts snap s).0.leaderless_since ≡ some (clock s.reads)
  unfolding check_no_leader leaderless_at
  timer_started snap s absent idle = ground arith

  check_all-kept :
      (snaps : List ClusterSnapshot) (s : AlertManager) (since : ℕ)
      → All (λ snap. leader snap ≡ none) snaps
      → s.leaderless_since ≡ some since
      → (check_all clock accepts snaps s).leaderless_since ≡ some since
  unfolding check_all check
  check_all-kept [] s since absent running = running
  check_all-kept (snap ∷ snaps) s since absent running = check_all-kept snaps _ since absent.1 (
      check_quorum_loss-Frames snap _
      ∙ timer_kept snap _ since absent.0 (check_split_brain-Frames snap s ∙ running))

  check-reset :
      (snap : ClusterSnapshot) (s : AlertManager) {n : NodeState}
      → leader snap ≡ some n
      → (check clock accepts snap s).0.leaderless_since ≡ none
  unfolding check check_no_leader
  check-reset snap s present =
      check_quorum_loss-Frames snap _ ∙ (rw (present, check_no_leader) refl)

  check-started :
      (snap : ClusterSnapshot) (s : AlertManager)
      → leader snap ≡ none
      → s.leaderless_since ≡ none
      → (check clock accepts snap s).0.leaderless_since
        ≡ some (clock (check_split_brain clock accepts snap s).0.reads)
  unfolding check
  check-started snap s absent idle =
      check_quorum_loss-Frames snap _
      ∙ timer_started snap _ absent (check_split_brain-Frames snap s ∙ idle)

  -- After a snapshot with a leader, the timer takes the clock's reading at the first snapshot
  -- without one, and keeps it over all further snapshots as long as none of them has a leader.
  pub check_all-leaderless_since :
      (led first : ClusterSnapshot) (snaps : List ClusterSnapshot) (s : AlertManager)
      {n : NodeState}
      → leader led ≡ some n
      → leader first ≡ none
      → All (λ snap. leader snap ≡ none) snaps
      → (check_all clock accepts (led ∷ first ∷ snaps) s).leaderless_since
        ≡ some (clock (check_split_brain clock accepts first (check clock accepts led s).0).0.reads)
  unfolding check_all
  check_all-leaderless_since led first snaps s present absent more =
      check_all-kept snaps _ _ more (check-started first _ absent (check-reset led s present))
