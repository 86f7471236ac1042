-- ===== src/Bench/Exp4.antt =====
-- chaos-bench/exp4.py: `run_exp4`, which waits for the leader's log to grow, kills a follower cold and
-- observes its recovery. The workload runs in threads beside it and is not part of the model; what it
-- records stands elsewhere in the history. The wait, the injector, S3 and the logs are parameters.
pub mod Node
pub mod Spared
pub mod Returns
mod Tests
use driftless.Prelude.{
  ℕ, ◌+◌, ◌-◌, ◌*◌, ltb, leb, String, Bool, true, false, Option, none, some, List, [], ◌∷◌, ◌++◌,
  ◌==◌, string_eq, if◌then◌else◌, get_or, length, drop, nat_eq,
}
use driftless.Prelude.Text.{concat, join, ends_with}
use driftless.Prelude.Split.{split}
use driftless.Bench.Result.{Result, ok, raise, runtime_error}
use driftless.Bench.FollowerRecovery as FollowerRecovery
use driftless.Bench.FollowerRecovery.{Turn, Printed, to_dict}
use driftless.Bench.Chaos.{Host, KillResult, stop_random_task}
use driftless.Bench.CommitWait.{Logs, Wait, Progress, latest_leader_commit, wait_for_commit}

-- A snapshot's size and the time of its last change.
pub record Head : Type 0 where
  pub content_length : ℕ
  pub last_modified : String

-- HEAD of an object, by bucket and key; none stands for any exception.
abbrev pub HeadObject : Type 0
HeadObject = String → String → Option Head

-- `_pick_follower`
unfoldable pub pick_follower : List String → String → Option String
pick_follower [] leader_node_id = none
pick_follower (s ∷ services) leader_node_id =
    if ends_with s leader_node_id then pick_follower services leader_node_id else some s

-- The node id at the end of a service's name.
unfoldable pub node_id_of : String → String
node_id_of service =
    let parts = split "-" service in
    if leb 2 (length parts) then join "-" (drop (length parts - 2) parts) else service

-- The environment's SNAPSHOT_S3_BUCKET, if it is there and not empty.
unfoldable pub bucket_of : Option String → String → String
bucket_of bucket account_id =
    let default = concat ("raft-coordinator-dev-raft-snapshots-" ∷ account_id ∷ []) in
    elim bucket [ none ↦ default | some b ↦ if b == "" then default else b ]

unfoldable pub snapshot_s3_object : HeadObject → Option String → String → String → Option Head
unfolding bucket_of
snapshot_s3_object head_object bucket account_id node_id =
    head_object (bucket_of bucket account_id) (concat ("raft/" ∷ node_id ∷ "/snapshot.json" ∷ []))

pub record Summary : Type 0 where
  pub run_name : String
  pub leader_node_id : String
  pub follower_node_id : String
  pub leader_commit_at_kill : ℕ
  pub snapshot_size_bytes : ℕ
  pub raw_log_size_bytes_estimate : ℕ
  pub recovery_timeline : Printed

-- The lines that the run itself records.
pub data Entry : Type 0 where
  run_start : (target_commit : ℕ) → Entry
  commit_progress : Progress → Entry
  commit_threshold_reached : (leader : String) (commit_index : ℕ) → Entry
  exp4_abort : (reason : String) → Entry
  snapshot_before_kill : (node : String) → Option Head → Entry
  kill_follower : KillResult → (follower : String) → Entry
  recovery_timeline : Printed → Entry
  run_end : Entry

-- What a run is given. Both searches of S3, before the kill and after the recovery, have their own
-- answer; the turns are those that start within the observer's 600 s.
pub record Exp4 : Type 0 where
  pub run_name : String
  pub coordinator_services : List String
  pub account_id : String
  pub bucket : Option String
  pub duration_ns : ℕ
  pub target_commit : ℕ
  pub wait : Wait
  pub host : Host
  pub head_before : HeadObject
  pub head_after : HeadObject
  pub logs : Logs
  pub turns : List Turn

-- How a run ends: with its summary or an exception, what it recorded, and the tasks it stopped.
pub record Outcome : Type 0 where
  pub result : Result Summary
  pub entries : List Entry
  pub stopped : List String

abbrev pub progress_entries : List Progress → List Entry
progress_entries [] = []
progress_entries (p ∷ ps) = commit_progress p ∷ progress_entries ps

-- `latest or leader_commit`
unfoldable pub fresh_or : Option ℕ → ℕ → ℕ
fresh_or none commit = commit
fresh_or (some ci) commit = if ci == 0 then commit else ci

-- `(snap_after or snap_before or (0, None))[0]`
unfoldable pub size_of : Option Head → Option Head → ℕ
size_of (some head) other = head.content_length
size_of none (some head) = head.content_length
size_of none none = 0

module _ (commit_of tick_commit snapshot_index : String → Option ℕ) (x : Exp4) where
  -- From the recovery on.
  unfoldable pub recover : String → String → KillResult → ℕ → List Entry → List String → Outcome
  unfolding size_of
  recover leader_id node kill fresh prior stopped =
      let timeline = to_dict (
        FollowerRecovery.observe snapshot_index tick_commit 10 node kill.killed_ns fresh x.turns) in
      let before = snapshot_s3_object x.head_before x.bucket x.account_id node in
      let after = snapshot_s3_object x.head_after x.bucket x.account_id node in
      record {
        result = ok (record {
          run_name = x.run_name;
          leader_node_id = leader_id;
          follower_node_id = node;
          leader_commit_at_kill = fresh;
          snapshot_size_bytes = size_of after before;
          raw_log_size_bytes_estimate = fresh * 220;
          recovery_timeline = timeline;
        });
        entries = prior ++ recovery_timeline timeline ∷ run_end ∷ [];
        stopped = stopped;
      }

  -- From the fresh commit index on.
  unfoldable pub after_kill : String → ℕ → String → KillResult → List Entry → List String → Outcome
  unfolding fresh_or recover
  after_kill leader_id leader_commit node kill prior stopped =
      elim (latest_leader_commit commit_of x.logs leader_id kill.killed_ns) [
        | raise e ↦ record { result = raise e; entries = prior; stopped = stopped }
        | ok latest ↦ recover leader_id node kill (fresh_or latest leader_commit) prior stopped
      ]

  -- From the kill on.
  unfoldable pub kill_cold : String → ℕ → String → List Entry → Outcome
  unfolding after_kill snapshot_s3_object node_id_of
  kill_cold leader_id leader_commit service prior =
      let node = node_id_of service in
      let before = snapshot_s3_object x.head_before x.bucket x.account_id node in
      let entries = prior ++ snapshot_before_kill node before ∷ [] in
      let (killed, stopped) = stop_random_task x.host service in
      elim killed [
        | raise e ↦ record { result = raise e; entries = entries; stopped = stopped }
        | ok none ↦ record {
          result = raise runtime_error;
          entries = entries ++ exp4_abort "no task to kill" ∷ [];
          stopped = stopped;
        }
        | ok (some kill) ↦
            after_kill leader_id leader_commit node kill (entries ++ kill_follower kill node ∷ [])
              stopped
      ]

  -- From the choice of the follower on.
  unfoldable pub strike : String → ℕ → List Entry → Outcome
  unfolding pick_follower kill_cold
  strike leader_id leader_commit prior = elim (pick_follower x.coordinator_services leader_id) [
    | none ↦ record {
      result = raise runtime_error;
      entries = prior ++ exp4_abort "no follower service" ∷ [];
      stopped = [];
    }
    | some service ↦ kill_cold leader_id leader_commit service prior
  ]

  unfoldable pub run_exp4 : Outcome
  unfolding strike
  run_exp4 =
      let (reached, lines) = wait_for_commit commit_of x.wait x.target_commit x.duration_ns in
      let prior = run_start x.target_commit ∷ progress_entries lines in
      elim reached [
        | raise e ↦ record { result = raise e; entries = prior; stopped = [] }
        | ok (leader_id, leader_commit) ↦
            strike leader_id leader_commit
              (prior ++ commit_threshold_reached leader_id leader_commit ∷ [])
      ]
