-- ===== src/Bench/FollowerRecovery/Milestones.antt =====
-- What the milestones of a recovery say.
use driftless.Prelude.{
  ℕ, ◌-◌, ◌≤◌, ◌<◌, ltb, leb, String, Option, none, some, List, [], ◌∷◌, ◌≡◌, refl, arith,
  Bool-cases, Option-cases, inl, inr,
}
use driftless.Bench.FollowerRecovery.{
  LogEvent, RecoveryTimeline, Turn, ns_of, filter_events, first_event, see_restart, see_snapshot,
  target, walk, see_catchup, look, is_done, observe_from, observe,
}

-- A milestone that was reached lies after the kill.
abbrev After : ℕ → Option ℕ → Type 0
After killed none = Unit
After killed (some t) = killed < t

-- The catch-up was seen with a commit index that is at least the target.
abbrev Caught : ℕ → Option ℕ → Option ℕ → Type 0
Caught goal none final = Unit
Caught goal (some t) none = ⊥
Caught goal (some t) (some ci) = goal ≤ ci

pub record IsTimeline (killed commit tolerance : ℕ) (tl : RecoveryTimeline) : Type 0 where
  pub same_kill : tl.killed_ns ≡ killed
  pub same_commit : tl.leader_commit_at_kill ≡ commit
  pub restart : After killed tl.restart_ns
  pub snapshot : After killed tl.snapshot_restored_ns
  pub catchup : After killed tl.catchup_ns
  pub caught : Caught (commit - tolerance) tl.catchup_ns tl.final_commit_index

some-injective : {a b : LogEvent} → some a ≡ some b → a ≡ b
some-injective h = cc

module _ (snapshot_index commit_of : String → Option ℕ) (tolerance killed commit : ℕ) where
  first_event_after :
      (events : List LogEvent) {ev : LogEvent}
      → first_event snapshot_index commit_of tolerance killed events ≡ some ev
      → killed < ns_of ev
  unfolding first_event
  first_event_after [] h = absurd (cc)
  first_event_after (e ∷ events) h = elim (Bool-cases (ltb killed (ns_of e))) [
    | inl after ↦ rw (← some-injective (rw (after, first_event) at h)) (ground arith)
    | inr before ↦ first_event_after events (rw (before, first_event) at h)
  ]

  see_restart-IsTimeline :
      (events : List LogEvent) (tl : RecoveryTimeline)
      → IsTimeline killed commit tolerance tl
      → IsTimeline killed commit tolerance
          (see_restart snapshot_index commit_of tolerance events tl)
  unfolding see_restart
  see_restart-IsTimeline events tl h = elim (Option-cases tl.restart_ns) [
    | inr (t, set) ↦ rw (set, see_restart) h
    | inl unset ↦
        elim (Option-cases (first_event snapshot_index commit_of tolerance tl.killed_ns events)) [
          | inl absent ↦ rw (unset, see_restart) (rw (absent, see_restart) h)
          | inr (ev, first) ↦
              rw (unset, see_restart)
                (rw (first, see_restart)
                  (record {
                    same_kill = h.same_kill;
                    same_commit = h.same_commit;
                    restart = first_event_after events (rw h.same_kill at first);
                    snapshot = h.snapshot;
                    catchup = h.catchup;
                    caught = h.caught;
                  }))
        ]
  ]

  see_snapshot-IsTimeline :
      (events : List LogEvent) (tl : RecoveryTimeline)
      → IsTimeline killed commit tolerance tl
      → IsTimeline killed commit tolerance
          (see_snapshot snapshot_index commit_of tolerance events tl)
  unfolding see_snapshot
  see_snapshot-IsTimeline events tl h = elim (Option-cases tl.snapshot_restored_ns) [
    | inr (t, set) ↦ rw (set, see_snapshot) h
    | inl unset ↦
        elim (Option-cases (first_event snapshot_index commit_of tolerance tl.killed_ns events)) [
          | inl absent ↦ rw (unset, see_snapshot) (rw (absent, see_snapshot) h)
          | inr (ev, first) ↦ elim (Option-cases (snapshot_index ev.message)) [
            | inl unread ↦
                rw (unset, see_snapshot)
                  (rw (first, see_snapshot)
                    (rw (unread, see_snapshot)
                      (record {
                        same_kill = h.same_kill;
                        same_commit = h.same_commit;
                        restart = h.restart;
                        snapshot = first_event_after events (rw h.same_kill at first);
                        catchup = h.catchup;
                        caught = h.caught;
                      })))
            | inr (idx, read) ↦
                rw (unset, see_snapshot)
                  (rw (first, see_snapshot)
                    (rw (read, see_snapshot)
                      (record {
                        same_kill = h.same_kill;
                        same_commit = h.same_commit;
                        restart = h.restart;
                        snapshot = first_event_after events (rw h.same_kill at first);
                        catchup = h.catchup;
                        caught = h.caught;
                      })))
          ]
        ]
  ]

  -- A commit index that is read before the catch-up.
  noted-IsTimeline :
      (ci : ℕ) (tl : RecoveryTimeline)
      → tl.catchup_ns ≡ none
      → IsTimeline killed commit tolerance tl
      → IsTimeline killed commit tolerance (record tl { final_commit_index = some ci })
  noted-IsTimeline ci tl behind h = record {
    same_kill = h.same_kill;
    same_commit = h.same_commit;
    restart = h.restart;
    snapshot = h.snapshot;
    catchup = h.catchup;
    caught = rw (behind, Caught) tt;
  }

  walk-IsTimeline :
      (events : List LogEvent) (tl : RecoveryTimeline)
      → tl.catchup_ns ≡ none
      → IsTimeline killed commit tolerance tl
      → IsTimeline killed commit tolerance (walk snapshot_index commit_of tolerance events tl)
  unfolding walk target
  walk-IsTimeline [] tl behind h = h
  walk-IsTimeline (ev ∷ events) tl behind h = elim (Bool-cases (leb (ns_of ev) tl.killed_ns)) [
    | inl before ↦ rw (before, walk) (walk-IsTimeline events tl behind h)
    | inr after ↦ elim (Option-cases (commit_of ev.message)) [
      | inl unread ↦ rw (after, walk) (rw (unread, walk) (walk-IsTimeline events tl behind h))
      | inr (ci, read) ↦ elim (Bool-cases (leb (tl.leader_commit_at_kill - tolerance) ci)) [
        | inr short ↦
            rw (after, walk)
              (rw (read, walk)
                (rw (short, walk)
                  (walk-IsTimeline events (record tl { final_commit_index = some ci }) behind
                    (noted-IsTimeline ci tl behind h))))
        | inl enough ↦
            rw (after, walk)
              (rw (read, walk)
                (rw (enough, walk)
                  (record {
                    same_kill = h.same_kill;
                    same_commit = h.same_commit;
                    restart = h.restart;
                    snapshot = h.snapshot;
                    catchup = ground (arith, h.same_kill);
                    caught = ground (arith, h.same_commit);
                  })))
      ]
    ]
  ]

  look-IsTimeline :
      (turn : Turn) (tl : RecoveryTimeline)
      → IsTimeline killed commit tolerance tl
      → IsTimeline killed commit tolerance (look snapshot_index commit_of tolerance turn tl)
  unfolding look see_catchup
  look-IsTimeline turn tl h = caught_up _ (
      see_snapshot-IsTimeline (filter_events turn.restored) _
        (see_restart-IsTimeline (filter_events turn.started) tl h))
    where
      caught_up :
          (t : RecoveryTimeline)
          → IsTimeline killed commit tolerance t
          → IsTimeline killed commit tolerance
              (see_catchup snapshot_index commit_of tolerance (filter_events turn.ticks) t)
      caught_up t k = elim (Option-cases t.catchup_ns) [
        | inr (n, set) ↦ rw (set, see_catchup) k
        | inl unset ↦ rw (unset, see_catchup) (walk-IsTimeline (filter_events turn.ticks) t unset k)
      ]

  observe_from-IsTimeline :
      (turns : List Turn) (tl : RecoveryTimeline)
      → IsTimeline killed commit tolerance tl
      → IsTimeline killed commit tolerance
          (observe_from snapshot_index commit_of tolerance turns tl)
  unfolding observe_from
  observe_from-IsTimeline [] tl h = h
  observe_from-IsTimeline (turn ∷ turns) tl h =
      elim (Bool-cases (
        is_done snapshot_index commit_of tolerance
          (look snapshot_index commit_of tolerance turn tl))) [
            | inl done ↦ rw done (look-IsTimeline turn tl h)
            | inr more ↦ rw more (observe_from-IsTimeline turns _ (look-IsTimeline turn tl h))
          ]

  -- Every milestone of an observed recovery lies after the kill, and a catch-up was seen with a
  -- commit index that is at most the tolerance behind the leader's at the kill.
  pub observe-IsTimeline :
      (node_id : String) (turns : List Turn)
      → IsTimeline killed commit tolerance
          (observe snapshot_index commit_of tolerance node_id killed commit turns)
  unfolding observe
  observe-IsTimeline node_id turns = observe_from-IsTimeline turns _ (record {
    same_kill = refl;
    same_commit = refl;
    restart = tt;
    snapshot = tt;
    catchup = tt;
    caught = tt;
  })
