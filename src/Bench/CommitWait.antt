-- ===== src/Bench/CommitWait.antt =====
-- chaos-bench/exp4.py: the commit index of the leader, read from its logs, and the wait until it
-- reaches a target. What CloudWatch Logs answers to a search, its pages in order, is a parameter, as
-- is the reading of a commit index from a message.
pub mod Latest
pub mod Reached
use driftless.Prelude.{
  ℕ, ◌+◌, ◌-◌, ◌*◌, ◌/◌, zero, suc, ltb, leb, String, Bool, true, false, Option, none, some, List,
  [], ◌∷◌, ◌++◌, if◌then◌else◌, get_or,
}
use driftless.Bench.Result.{Result, ok, raise, timeout_error, out_of_fuel, ◌>>=◌}
use driftless.Bench.FollowerRecovery.{LogEvent}
use driftless.Bench.LeaderDetect.{LeaderInfo}

-- A search of the log group for the raft ticks of one stream.
pub record Query : Type 0 where
  pub start_ms : ℕ
  pub stream_prefix : String

-- The pages that the next tokens lead through.
abbrev pub Logs : Type 0
Logs = Query → Result (List (List LogEvent))

-- A line that is recorded while the wait lasts.
pub record Progress : Type 0 where
  pub leader : String
  pub commit_index : ℕ
  pub target : ℕ

-- What the surroundings give to a wait: for each turn the reading of the loop's test, the leader, the
-- logs, and the two readings of the clock for the line of progress.
pub record Wait : Type 0 where
  pub started : ℕ
  pub checked : ℕ → ℕ
  pub find_leader : ℕ → Result (Option LeaderInfo)
  pub logs : ℕ → Logs
  pub compared_ns : ℕ → ℕ
  pub noted_ns : ℕ → ℕ

module _ (commit_of : String → Option ℕ) where
  -- `if latest is None or ci > latest`
  unfoldable pub newer : Option ℕ → Option ℕ → Option ℕ
  newer none latest = latest
  newer (some ci) none = some ci
  newer (some ci) (some l) = if ltb l ci then some ci else some l

  -- The loop over the events of a page.
  unfoldable pub see_events : List LogEvent → Option ℕ → Option ℕ
  unfolding newer
  see_events [] latest = latest
  see_events (ev ∷ events) latest = see_events events (newer (commit_of ev.message) latest)

  -- The loop over the pages.
  unfoldable pub see_pages : List (List LogEvent) → Option ℕ → Option ℕ
  unfolding see_events
  see_pages [] latest = latest
  see_pages (page ∷ pages) latest = see_pages pages (see_events page latest)

  -- `max(0, since_ns // 1_000_000 - 5000)`
  unfoldable pub query : String → ℕ → Query
  query leader_node_id since_ns = record {
    start_ms = since_ns / 1000000 - 5000;
    stream_prefix = leader_node_id;
  }

  unfoldable pub latest_leader_commit : Logs → String → ℕ → Result (Option ℕ)
  unfolding see_pages query
  latest_leader_commit logs leader_node_id since_ns =
      logs (query leader_node_id since_ns) >>= λ pages. ok (see_pages pages none)

  module _ (w : Wait) where
    -- The leader of a turn and its commit index, `… or 0`.
    unfoldable pub look : ℕ → Result (Option (LeaderInfo × ℕ))
    unfolding latest_leader_commit
    look k = w.find_leader k >>= λ found. (elim found [
      | none ↦ ok none
      | some leader ↦
          latest_leader_commit (w.logs k) leader.node_id 0 >>= λ ci. ok (some (leader, get_or ci 0))
    ])

    module _ (target : ℕ) where
      -- A line at most every 30 s, and the time of the last one.
      unfoldable pub progress : ℕ → LeaderInfo → ℕ → ℕ → List Progress × ℕ
      progress k leader ci last_log_ns =
          if ltb (last_log_ns + 30000000000) (w.compared_ns k)
          then (
            record { leader = leader.node_id; commit_index = ci; target = target } ∷ [],
            w.noted_ns k,
          )
          else ([], last_log_ns)

      abbrev pub before :
          List Progress → Result (String × ℕ) × List Progress → Result (String × ℕ) × List Progress
      before lines (r, rest) = (r, lines ++ rest)

      -- What a turn does with what it saw; `rest` are the turns after it.
      unfoldable pub after_look :
          ℕ
          → ℕ
          → (ℕ → Result (String × ℕ) × List Progress)
          → Result (Option (LeaderInfo × ℕ))
          → Result (String × ℕ) × List Progress
      unfolding progress
      after_look k last_log_ns rest (raise e) = (raise e, [])
      after_look k last_log_ns rest (ok none) = rest last_log_ns
      after_look k last_log_ns rest (ok (some (leader, ci))) =
          let (lines, logged) = progress k leader ci last_log_ns in
          elim (leb target ci) [
            | true ↦ (ok (leader.node_id, ci), lines)
            | false ↦ before lines (rest logged)
          ]

      module _ (deadline : ℕ) where
        unfoldable pub wait_from : ℕ → ℕ → ℕ → Result (String × ℕ) × List Progress
        unfolding look after_look
        wait_from zero k last_log_ns = (raise out_of_fuel, [])
        wait_from (suc f) k last_log_ns = elim (ltb (w.checked k) deadline) [
          | false ↦ (raise timeout_error, [])
          | true ↦ after_look k last_log_ns (wait_from f (k + 1)) (look k)
        ]

  -- `_wait_for_commit`
  unfoldable pub wait_for_commit : Wait → ℕ → ℕ → Result (String × ℕ) × List Progress
  unfolding wait_from
  wait_for_commit w target max_wait_ns =
      wait_from w target (w.started + max_wait_ns) (suc max_wait_ns) 0 0
