-- ===== src/Bench/Exp4/Returns.antt =====
-- A run of experiment 4 on a cluster that works returns its summary.
use driftless.Prelude.{
  ℕ, ◌+◌, ◌≤◌, ◌<◌, String, true, false, Option, some, List, [], ◌∷◌, ◌++◌, ◌≡◌, refl, contains,
  string_eq,
}
use driftless.Prelude.Text.{ends_with}
use driftless.Bench.Result.{ok, raise, Error}
use driftless.Bench.Deadline.{IsPaced}
use driftless.Bench.LeaderDetect.{LeaderInfo}
use driftless.Bench.FollowerRecovery.{LogEvent}
use driftless.Bench.Chaos.{KillResult, stop_one, stop_random_task}
use driftless.Bench.CommitWait.{Query, look, query, latest_leader_commit, wait_for_commit}
use driftless.Bench.CommitWait.Reached.{wait_for_commit-returns}
use driftless.Bench.Exp4.{
  Summary, Entry, Exp4, node_id_of, recover, after_kill, kill_cold, strike, run_exp4, run_start,
  progress_entries, commit_threshold_reached,
}
use driftless.Bench.Exp4.Node.{pick_follower_lem, pick_follower-some}

-- A cluster that works: each leader that is seen leaves a coordinator's service whose name does not
-- end in its id, every coordinator's service runs a task, each task can be stopped, and the logs can
-- be searched.
pub record IsWorking (commit_of : String → Option ℕ) (x : Exp4) : Type 0 where
  pub others :
      (i : ℕ) (leader : LeaderInfo) (ci : ℕ)
      → look commit_of x.wait i ≡ ok (some (leader, ci))
      → (s : String) × (contains x.coordinator_services s ≡ true)
        × (ends_with s leader.node_id ≡ false)
  pub runs :
      (s : String)
      → contains x.coordinator_services s ≡ true
      → (arn : String) × (arns : List String) × (x.host.list_tasks s ≡ ok (arn ∷ arns))
  pub stops : (arn : String) → x.host.stop_task arn ≡ ok tt
  pub answers : (q : Query) → (pages : List (List LogEvent)) × (x.logs q ≡ ok pages)

module _ (commit_of tick_commit snapshot_index : String → Option ℕ) (x : Exp4)
    (works : IsWorking commit_of x) where
  stops_one :
      (service : String)
      → contains x.coordinator_services service ≡ true
      → (kill : KillResult) × ((stop_random_task x.host service).0 ≡ ok (some kill))
  unfolding stop_random_task stop_one
  stops_one service known =
      let (arn, arns, listed) = works.runs service known in
      rw (listed, stop_random_task) (rw (works.stops (x.host.choice arn arns), stop_one) (_, refl))

  after_kill-returns :
      (leader_id : String) (commit : ℕ) (node : String) (kill : KillResult) (prior : List Entry)
      (stopped : List String)
      → (s : Summary) × ((after_kill commit_of tick_commit snapshot_index x leader_id commit node
            kill prior stopped).result
          ≡ ok s)
  unfolding after_kill latest_leader_commit recover
  after_kill-returns leader_id commit node kill prior stopped =
      let (pages, read) = works.answers (query commit_of leader_id kill.killed_ns) in
      rw (read, after_kill) (_, refl)

  strike-returns :
      (leader_id : String) (commit : ℕ) (prior : List Entry) (other : String)
      → contains x.coordinator_services other ≡ true
      → ends_with other leader_id ≡ false
      → (s : Summary) × ((strike commit_of tick_commit snapshot_index x leader_id commit
            prior).result
          ≡ ok s)
  unfolding strike kill_cold
  strike-returns leader_id commit prior other held differs =
      let (service, picked) =
        pick_follower-some x.coordinator_services leader_id other held differs in
      let (kill, done) =
        stops_one service (pick_follower_lem x.coordinator_services leader_id picked).0 in
      rw (picked, strike)
        (rw (done, kill_cold) (after_kill-returns leader_id commit (node_id_of service) kill _ _))

  -- On a cluster that works, a run returns a summary if no look at the leader fails, each sleep lets
  -- the clock go on, and some look before the deadline shows a commit index that has reached the
  -- target.
  pub run_exp4-returns :
      (k : ℕ) (leader : LeaderInfo) (ci : ℕ)
      → IsPaced x.wait.started x.wait.checked
      → ((i : ℕ) (e : Error) → look commit_of x.wait i ≡ raise e → ⊥)
      → x.wait.checked k < x.wait.started + x.duration_ns
      → look commit_of x.wait k ≡ ok (some (leader, ci))
      → x.target_commit ≤ ci
      → (s : Summary) × ((run_exp4 commit_of tick_commit snapshot_index x).result ≡ ok s)
  unfolding run_exp4
  run_exp4-returns k leader ci paced sound soon seen enough =
      let (i, elected, commit, shows, found, _) =
        wait_for_commit-returns commit_of x.wait x.target_commit x.duration_ns paced k leader ci
          sound soon seen enough in
      let (other, held, differs) = works.others i elected commit shows in
      rw (found, run_exp4)
        (strike-returns elected.node_id commit
          (run_start x.target_commit
              ∷ progress_entries (wait_for_commit commit_of x.wait x.target_commit x.duration_ns).1
            ++ commit_threshold_reached elected.node_id commit ∷ [])
          other held differs)
