-- ===== src/Observer/Alerts/Keeps.antt =====
-- A rule for invariants of `AlertManager`: what `_maybe_send` keeps, and what does not speak of the
-- timer and the clock, every detector and every run of checks keep.
use driftless.Prelude.{
  ℕ, ◌+◌, String, Bool, Option, none, some, List, [], ◌∷◌, inl, inr, ltb, leb, length, ◌==◌, nat_eq,
  Bool-cases, Option-cases,
}
use driftless.Prelude.Dict.{Dict}
use driftless.Observer.Cluster.{ClusterSnapshot, split_brain_message, leader, reachable_count}
use driftless.Observer.Alerts.{
  AlertManager, Publish, no_leader_timeout, quorum_of, maybe_send, raise_alert, alert_conflicts,
  check_split_brain, check_no_leader, leaderless_at, check_quorum_loss, check, check_all,
}

-- A step of the manager keeps the invariant from any state.
abbrev pub Keeps :
    {A : Type 0} → (AlertManager → Type 0) → (AlertManager → AlertManager × A) → Type 0
Keeps P f = (s : AlertManager) → P s → P (f s).0

module _ (clock : ℕ → ℕ) (accepts : Publish → Bool) (P : AlertManager → Type 0)
    (sends : (key subject body : String) → Keeps P (maybe_send clock accepts key subject body))
    (stays : (s : AlertManager) (since : Option ℕ) (reads : ℕ)
      → P s
      → P (record s { leaderless_since = since; reads = reads })) where
  raise_alert-Keeps :
      (key subject body msg : String) → Keeps P (raise_alert clock accepts key subject body msg)
  unfolding raise_alert
  raise_alert-Keeps key subject body msg s h = sends key subject body s h

  alert_conflicts-Keeps :
      (msg : String) (snap : ClusterSnapshot) (d : Dict ℕ (List String))
      → Keeps P (alert_conflicts clock accepts msg snap d)
  unfolding alert_conflicts
  alert_conflicts-Keeps msg snap [] s h = h
  alert_conflicts-Keeps msg snap ((term, ids) ∷ d) s h = elim (Bool-cases (ltb 1 (length ids))) [
    | inl many ↦ rw many (alert_conflicts-Keeps msg snap d _ (raise_alert-Keeps _ _ _ msg s h))
    | inr one ↦ rw one (alert_conflicts-Keeps msg snap d s h)
  ]

  check_split_brain-Keeps :
      (snap : ClusterSnapshot) → Keeps P (check_split_brain clock accepts snap)
  unfolding check_split_brain
  check_split_brain-Keeps snap s h = elim (Option-cases (split_brain_message snap)) [
    | inl quiet ↦ rw (quiet, check_split_brain) h
    | inr (msg, found) ↦ rw (found, check_split_brain) (alert_conflicts-Keeps msg snap _ s h)
  ]

  leaderless_at-Keeps :
      (now : ℕ) (snap : ClusterSnapshot) → Keeps P (leaderless_at clock accepts now snap)
  unfolding leaderless_at
  leaderless_at-Keeps now snap s h = elim (Option-cases s.leaderless_since) [
    | inl fresh ↦ rw (fresh, leaderless_at) (stays s (some now) s.reads h)
    | inr (since, running) ↦ elim (Bool-cases (ltb now (since + no_leader_timeout))) [
      | inl grace ↦ rw (running, leaderless_at) (rw grace h)
      | inr over ↦ rw (running, leaderless_at) (rw over (raise_alert-Keeps _ _ _ _ s h))
    ]
  ]

  check_no_leader-Keeps : (snap : ClusterSnapshot) → Keeps P (check_no_leader clock accepts snap)
  unfolding check_no_leader
  check_no_leader-Keeps snap s h = elim (Option-cases (leader snap)) [
    | inl absent ↦
        rw (absent, check_no_leader)
          (leaderless_at-Keeps _ snap _ (stays s s.leaderless_since (s.reads + 1) h))
    | inr (n, present) ↦ rw (present, check_no_leader) (stays s none s.reads h)
  ]

  check_quorum_loss-Keeps :
      (snap : ClusterSnapshot) → Keeps P (check_quorum_loss clock accepts snap)
  unfolding check_quorum_loss
  check_quorum_loss-Keeps snap s h = elim (Bool-cases (length snap.nodes == 0)) [
    | inl empty ↦ rw empty h
    | inr some_nodes ↦
        elim (Bool-cases (leb (quorum_of (length snap.nodes)) (reachable_count snap))) [
          | inl quorum ↦ rw some_nodes (rw quorum h)
          | inr lost ↦ rw some_nodes (rw lost (raise_alert-Keeps _ _ _ _ s h))
        ]
  ]

  pub check_all-Keeps :
      (snaps : List ClusterSnapshot) (s : AlertManager) → P s → P (check_all clock accepts snaps s)
  unfolding check_all check
  check_all-Keeps [] s h = h
  check_all-Keeps (snap ∷ snaps) s h = check_all-Keeps snaps _ (
      check_quorum_loss-Keeps snap _
        (check_no_leader-Keeps snap _ (check_split_brain-Keeps snap s h)))
