-- ===== src/Bench/Exp4/Spared.antt =====
-- What a run of experiment 4 stops and reports.
use driftless.Prelude.{
  ℕ, ◌*◌, String, true, false, Option, none, some, List, [], ◌∷◌, ◌++◌, ◌≡◌, refl, ◌⊎◌, inl, inr,
  contains, string_eq, Option-cases,
}
use driftless.Prelude.Text.{ends_with}
use driftless.Bench.Result.{ok, raise, Error, Result-cases}
use driftless.Bench.FollowerRecovery as FollowerRecovery
use driftless.Bench.FollowerRecovery.{to_dict}
use driftless.Bench.FollowerRecovery.Milestones.{IsTimeline, observe-IsTimeline}
use driftless.Bench.Chaos.{KillResult, Stopped, stop_random_task}
use driftless.Bench.Chaos.Kills.{IsChoice, IsStop, stop_random_task-IsStop}
use driftless.Bench.CommitWait.{wait_for_commit, latest_leader_commit}
use driftless.Bench.Exp4.{
  Summary, Entry, Exp4, Outcome, pick_follower, node_id_of, recover, after_kill, kill_cold, strike,
  run_exp4, run_start, progress_entries, commit_threshold_reached,
}
use driftless.Bench.Exp4.Node.{IsNodeOf, pick_follower_lem, node_id_of-IsNodeOf}

module _ (commit_of tick_commit snapshot_index : String → Option ℕ) (x : Exp4) where
  -- The summary tells of the recovery of the service's node, whose milestones lie after the kill.
  pub record IsReport (leader_id service : String) (kill : KillResult) (s : Summary) : Type 0 where
    pub leader : s.leader_node_id ≡ leader_id
    pub follower : IsNodeOf service s.follower_node_id
    pub estimate : s.raw_log_size_bytes_estimate ≡ s.leader_commit_at_kill * 220
    pub timeline :
        (tl : FollowerRecovery.RecoveryTimeline) × IsTimeline kill.killed_ns s.leader_commit_at_kill
          10 tl
        × (s.recovery_timeline ≡ to_dict tl)

  -- One running task of the service was stopped, where the service is a coordinator's and its name
  -- does not end in the leader's id.
  pub record IsStruck (leader_id service : String) (kill : KillResult) (stopped : List String)
      : Type 0 where
    pub known : contains x.coordinator_services service ≡ true
    pub other : ends_with service leader_id ≡ false
    pub one : stopped ≡ kill.task_arn ∷ []
    pub running :
        (arns : List String) × (x.host.list_tasks service ≡ ok arns)
        × (contains arns kill.task_arn ≡ true)

  -- The end of a run, once the wait has returned the leader: an exception with nothing stopped, or
  -- one follower's task stopped and then a report, or an exception of the search for the leader's
  -- commit index at the kill.
  pub data IsRun (leader_id : String) : Outcome → Type 0 where
    aborted :
        (e : Error) (entries : List Entry) (stopped : List String)
        → stopped ≡ []
        → IsRun leader_id (record { result = raise e; entries = entries; stopped = stopped })
    unread :
        (service : String) (kill : KillResult) (e : Error) (entries : List Entry)
        (stopped : List String)
        → IsStruck leader_id service kill stopped
        → latest_leader_commit commit_of x.logs leader_id kill.killed_ns ≡ raise e
        → IsRun leader_id (record { result = raise e; entries = entries; stopped = stopped })
    reported :
        (service : String) (kill : KillResult) (s : Summary) (entries : List Entry)
        (stopped : List String)
        → IsStruck leader_id service kill stopped
        → IsReport leader_id service kill s
        → IsRun leader_id (record { result = ok s; entries = entries; stopped = stopped })

  after_kill-IsRun :
      (leader_id : String) (commit : ℕ) (service : String) (kill : KillResult) (prior : List Entry)
      (stopped : List String)
      → IsStruck leader_id service kill stopped
      → IsRun leader_id (
          after_kill commit_of tick_commit snapshot_index x leader_id commit
            (node_id_of service)
            kill
            prior
            stopped)
  unfolding after_kill recover
  after_kill-IsRun leader_id commit service kill prior stopped struck =
      elim (Result-cases (latest_leader_commit commit_of x.logs leader_id kill.killed_ns)) [
        | inr (e, failed) ↦ rw (failed, after_kill) (unread service kill e _ stopped struck failed)
        | inl (latest, read) ↦
            rw (read, after_kill)
              (reported service kill _ _ stopped struck (record {
                leader = refl;
                follower = node_id_of-IsNodeOf service;
                estimate = refl;
                timeline = (
                  _,
                  observe-IsTimeline snapshot_index tick_commit 10 kill.killed_ns _
                      (node_id_of service) x.turns,
                  refl,
                );
              }))
      ]

  module _ (chooses : IsChoice x.host) where
    kill_cold-IsRun :
        (leader_id : String) (commit : ℕ) (service : String) (prior : List Entry)
        → contains x.coordinator_services service ≡ true
        → ends_with service leader_id ≡ false
        → IsRun leader_id
            (kill_cold commit_of tick_commit snapshot_index x leader_id commit service prior)
    unfolding kill_cold
    kill_cold-IsRun leader_id commit service prior known other =
        of_stop _ refl (stop_random_task-IsStop x.host chooses service)
      where
        of_stop :
            (st : Stopped)
            → stop_random_task x.host service ≡ st
            → IsStop x.host service st
            → IsRun leader_id
                (kill_cold commit_of tick_commit snapshot_index x leader_id commit service prior)
        of_stop (raise e, stopped) same h = rw (same, kill_cold) (aborted e _ _ (rw same h))
        of_stop (ok none, stopped) same h = rw (same, kill_cold) (aborted _ _ _ (rw same h.0))
        of_stop (ok (some kill), stopped) same h =
            rw (same, kill_cold)
              (after_kill-IsRun leader_id commit service kill _ (stop_random_task x.host service).1
                (record { known = known; other = other; one = rw same h.0; running = h.2 }))

    strike-IsRun :
        (leader_id : String) (commit : ℕ) (prior : List Entry)
        → IsRun leader_id (strike commit_of tick_commit snapshot_index x leader_id commit prior)
    unfolding strike
    strike-IsRun leader_id commit prior =
        elim (Option-cases (pick_follower x.coordinator_services leader_id)) [
          | inl absent ↦ rw (absent, strike) (aborted _ _ _ refl)
          | inr (service, picked) ↦
              let (known, other) = pick_follower_lem x.coordinator_services leader_id picked in
              rw (picked, strike) (kill_cold-IsRun leader_id commit service prior known other)
        ]

    -- A run that waited in vain stops nothing and raises what the wait raised. A run whose wait found
    -- a leader stops at most one task, a running one of a coordinator's service whose name does not
    -- end in the leader's id; it stops one whenever it returns a summary, and the summary then tells
    -- of the node that the last two parts of that service's name make up, with milestones after the kill.
    pub run_exp4-IsRun :
        ((e : Error) × ((wait_for_commit commit_of x.wait x.target_commit x.duration_ns).0
            ≡ raise e)
          × ((run_exp4 commit_of tick_commit snapshot_index x).result ≡ raise e)
          × ((run_exp4 commit_of tick_commit snapshot_index x).stopped ≡ []))
        ⊎ ((leader_id : String) × (commit : ℕ) × ((wait_for_commit commit_of x.wait x.target_commit
                x.duration_ns).0
              ≡ ok (leader_id, commit))
            × IsRun leader_id (run_exp4 commit_of tick_commit snapshot_index x))
    unfolding run_exp4
    run_exp4-IsRun =
        elim (Result-cases (wait_for_commit commit_of x.wait x.target_commit x.duration_ns).0) [
          | inr (e, failed) ↦
              inl (e, failed, rw (failed, run_exp4) refl, rw (failed, run_exp4) refl)
          | inl ((leader_id, commit), found) ↦ inr (
            leader_id,
            commit,
            found,
            rw (found, run_exp4)
                (strike-IsRun leader_id commit (
                  run_start x.target_commit
                    ∷ progress_entries
                        (wait_for_commit commit_of x.wait x.target_commit x.duration_ns).1
                  ++ commit_threshold_reached leader_id commit ∷ [])),
          )
        ]
