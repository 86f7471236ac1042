-- ===== src/Bench/FollowerRecovery.antt =====
-- chaos-bench/follower_recovery.py: the milestones of a follower that was killed, read from its logs.
-- The two regular expressions are parameters, as is what CloudWatch Logs answers; a run of `observe`
-- is given the turns that start before its deadline.
pub mod Milestones
mod Tests
use driftless.Prelude.{
  ℕ, ◌+◌, ◌-◌, ◌*◌, ltb, leb, String, Bool, true, false, ◌&&◌, Option, none, some, List, [], ◌∷◌,
  if◌then◌else◌, is_some, flatten,
}

pub record LogEvent : Type 0 where
  pub timestamp : ℕ
  pub message : String

pub record RecoveryTimeline : Type 0 where
  pub node_id : String
  pub killed_ns : ℕ
  pub leader_commit_at_kill : ℕ
  pub restart_ns : Option ℕ
  pub snapshot_restored_ns : Option ℕ
  pub snapshot_last_index : Option ℕ
  pub catchup_ns : Option ℕ
  pub final_commit_index : Option ℕ

-- The pages that the three searches of a turn give.
pub record Turn : Type 0 where
  pub started : List (List LogEvent)
  pub restored : List (List LogEvent)
  pub ticks : List (List LogEvent)

-- `_filter_events`: the events of all pages.
unfoldable pub filter_events : List (List LogEvent) → List LogEvent
filter_events pages = flatten pages

abbrev pub ns_of : LogEvent → ℕ
ns_of ev = ev.timestamp * 1000000

module _ (snapshot_index commit_of : String → Option ℕ) (tolerance : ℕ) where
  -- The first event after the kill.
  unfoldable pub first_event : ℕ → List LogEvent → Option LogEvent
  first_event killed_ns [] = none
  first_event killed_ns (ev ∷ events) =
      if ltb killed_ns (ns_of ev) then some ev else first_event killed_ns events

  unfoldable pub see_restart : List LogEvent → RecoveryTimeline → RecoveryTimeline
  unfolding first_event
  see_restart events tl = elim tl.restart_ns [
    | some t ↦ tl
    | none ↦ elim (first_event tl.killed_ns events) [
      | none ↦ tl
      | some ev ↦ record tl { restart_ns = some (ns_of ev) }
    ]
  ]

  unfoldable pub see_snapshot : List LogEvent → RecoveryTimeline → RecoveryTimeline
  unfolding first_event
  see_snapshot events tl = elim tl.snapshot_restored_ns [
    | some t ↦ tl
    | none ↦ elim (first_event tl.killed_ns events) [
      | none ↦ tl
      | some ev ↦ elim (snapshot_index ev.message) [
        | none ↦ record tl { snapshot_restored_ns = some (ns_of ev) }
        | some idx ↦ record tl {
          snapshot_restored_ns = some (ns_of ev);
          snapshot_last_index = some idx;
        }
      ]
    ]
  ]

  -- `max(0, self.leader_commit - self.tol)`
  unfoldable pub target : RecoveryTimeline → ℕ
  target tl = tl.leader_commit_at_kill - tolerance

  -- The loop over the ticks.
  unfoldable pub walk : List LogEvent → RecoveryTimeline → RecoveryTimeline
  unfolding target
  walk [] tl = tl
  walk (ev ∷ events) tl =
      if leb (ns_of ev) tl.killed_ns then walk events tl else (elim (commit_of ev.message) [
        | none ↦ walk events tl
        | some ci ↦
            if leb (target tl) ci
            then record tl { final_commit_index = some ci; catchup_ns = some (ns_of ev) }
            else walk events (record tl { final_commit_index = some ci })
      ])

  unfoldable pub see_catchup : List LogEvent → RecoveryTimeline → RecoveryTimeline
  unfolding walk
  see_catchup events tl = elim tl.catchup_ns [ some t ↦ tl | none ↦ walk events tl ]

  -- One turn of the loop.
  unfoldable pub look : Turn → RecoveryTimeline → RecoveryTimeline
  unfolding see_restart see_snapshot see_catchup filter_events
  look turn tl =
      see_catchup (filter_events turn.ticks)
        (see_snapshot (filter_events turn.restored) (see_restart (filter_events turn.started) tl))

  abbrev pub is_done : RecoveryTimeline → Bool
  is_done tl = is_some tl.restart_ns && is_some tl.catchup_ns

  unfoldable pub observe_from : List Turn → RecoveryTimeline → RecoveryTimeline
  unfolding look
  observe_from [] tl = tl
  observe_from (turn ∷ turns) tl =
      let seen = look turn tl in if is_done seen then seen else observe_from turns seen

  unfoldable pub observe : String → ℕ → ℕ → List Turn → RecoveryTimeline
  unfolding observe_from
  observe node_id killed_ns leader_commit turns = observe_from turns (record {
    node_id = node_id;
    killed_ns = killed_ns;
    leader_commit_at_kill = leader_commit;
    restart_ns = none;
    snapshot_restored_ns = none;
    snapshot_last_index = none;
    catchup_ns = none;
    final_commit_index = none;
  })

pub record Printed : Type 0 where
  pub node_id : String
  pub killed_ns : ℕ
  pub leader_commit_at_kill : ℕ
  pub restart : Option ℕ
  pub snapshot_restored : Option ℕ
  pub snapshot_last_index : Option ℕ
  pub catchup : Option ℕ
  pub final_commit_index : Option ℕ
  pub used_snapshot : Bool

-- `to_dict`, with the times from the kill in nanoseconds.
unfoldable pub to_dict : RecoveryTimeline → Printed
to_dict tl =
    let since : Option ℕ → Option ℕ =
      λ o. elim o [ none ↦ none | some t ↦ some (t - tl.killed_ns) ] in
    record {
      node_id = tl.node_id;
      killed_ns = tl.killed_ns;
      leader_commit_at_kill = tl.leader_commit_at_kill;
      restart = since tl.restart_ns;
      snapshot_restored = since tl.snapshot_restored_ns;
      snapshot_last_index = tl.snapshot_last_index;
      catchup = since tl.catchup_ns;
      final_commit_index = tl.final_commit_index;
      used_snapshot = is_some tl.snapshot_restored_ns;
    }
