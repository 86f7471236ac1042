-- ===== src/Bench/Campaign.antt =====
-- A run under faults: the threads of `run_exp3` of chaos-bench/exp3.py and of `run_exp1` of
-- chaos-bench/exp1.py. The bench worker with its two pools, the fault loops, the tracker and the
-- orchestrator take their steps in any order. What a turn of a fault loop stops and what it records are
-- two steps, between which other threads may take theirs; a scan of the tracker is one step. The run is
-- followed up to the close of the history's file, after which no thread can record.
pub mod Entries
pub mod Lines
pub mod Worker
pub mod Submits
pub mod Told
pub mod Held
pub mod Tracked
pub mod Lost
pub mod Lone
pub mod Tallied
pub mod Analysed
pub mod Ends
mod Tests
use driftless.Prelude.{
  ℕ, ◌+◌, ◌<◌, ◌≤◌, String, Bool, true, false, Option, none, some, List, [], ◌∷◌, ◌++◌, ◌≡◌, ◌⊎◌,
}
use driftless.Bench.Result.{Result, ok, raise}
use driftless.Bench.Table.{Item}
use driftless.Bench.LeaderDetect.{LeaderInfo}
use driftless.Bench.LeaderTracker.{Peek, Seen, scan_once, track}
use driftless.Bench.Chaos.{
  Host, Fault, Change, kill_turn, kill_leader_turn, kill_follower_turn, redeliver_turn,
}
use driftless.Bench.Workload.{
  Job, Phase, firing, finished, Workload, start as fresh, Step, fire, submit as submits,
  submit_raises, hand_over, poll_ends, poll_raises, close, drain, finish, end_run,
}
use driftless.Bench.Campaign.Entries.{
  Entry, run_start, submit, submit_error, poll_observe, outcome, fault, seen, run_end, Loop,
  leaders, followers, redeliveries,
}
use mathlib.Core.List.{map}

-- Experiment 1 submits until it is stopped, and experiment 3 up to a number of tasks.
pub data Kind : Type 0 where
  exp1 : Kind
  exp3 : (target_count : ℕ) → Kind

-- A fault loop waits for its period or the stop event, takes a turn, is about to record what the turn
-- did, or has left.
pub data Watch : Type 0 where
  sleeping turning left : Watch
  recording : Fault → Watch

pub record Watches : Type 0 where
  pub leader_kill : Watch
  pub follower_kill : Watch
  pub sqs_redeliver : Watch

-- The pools of the worker, the number of submissions that its loop has fired, the stop event, the
-- fault loops, the tasks that they stopped, the tracker's last leader, whether the end of the run was
-- recorded, and the history with the clock at each entry.
pub record Campaign : Type 0 where
  pub work : Workload
  pub submitted : ℕ
  pub stopped : Bool
  pub loops : Watches
  pub killed : List String
  pub last_leader : Option String
  pub over : Bool
  pub history : List (ℕ × Entry)

abbrev pub watch : Loop → Watches → Watch
watch leaders ws = ws.leader_kill
watch followers ws = ws.follower_kill
watch redeliveries ws = ws.sqs_redeliver

abbrev pub turn_to : Loop → Watch → Watches → Watches
turn_to leaders w ws = record ws { leader_kill = w }
turn_to followers w ws = record ws { follower_kill = w }
turn_to redeliveries w ws = record ws { sqs_redeliver = w }

-- Experiment 1 has the loop of the leader kills only.
abbrev pub watches : Kind → Watches
watches exp1 = record { leader_kill = sleeping; follower_kill = left; sqs_redeliver = left }
watches (exp3 target_count) = record {
  leader_kill = sleeping;
  follower_kill = sleeping;
  sqs_redeliver = sleeping;
}

abbrev pub start : Kind → ℕ → Campaign
start kind now = record {
  work = fresh;
  submitted = 0;
  stopped = false;
  loops = watches kind;
  killed = [];
  last_leader = none;
  over = false;
  history = (now, run_start) ∷ [];
}

-- The test of the submit loop, its negation, and when the orchestrator sets the stop event:
-- experiment 1 after a sleep, experiment 3 once the worker is done.
abbrev pub MayFire : Kind → Campaign → Type 0
MayFire exp1 c = c.stopped ≡ false
MayFire (exp3 target_count) c = (c.submitted < target_count) × (c.stopped ≡ false)

abbrev pub MayClose : Kind → Campaign → Type 0
MayClose exp1 c = c.stopped ≡ true
MayClose (exp3 target_count) c = (target_count ≤ c.submitted) ⊎ (c.stopped ≡ true)

abbrev pub MayStop : Kind → Campaign → Type 0
MayStop exp1 c = Unit
MayStop (exp3 target_count) c = c.work.phase ≡ finished

-- What the worker's threads may do: the loop obeys its test, and the worker records no end of the run.
abbrev pub May : Kind → Campaign → (w v : Workload) → Step w v → Type 0
May kind c w _ (fire _ p) = MayFire kind c
May kind c w _ (submits _ n job e) = Unit
May kind c w _ (submit_raises _ n e) = Unit
May kind c w _ (hand_over _ before after job p e) = Unit
May kind c w _ (poll_ends _ before after job t s e) = Unit
May kind c w _ (poll_raises _ before after job e) = Unit
May kind c w _ (close _ p) = MayClose kind c
May kind c w _ (drain _ p e h) = Unit
May kind c w _ (finish _ p e) = Unit
May kind c w _ (end_run _ p) = ⊥

-- The submissions that a step fires, and the entries that it records; a submission that raises is
-- recorded too.
abbrev pub fires : (w v : Workload) → Step w v → ℕ
fires w _ (fire _ p) = 1
fires w _ (submits _ n job e) = 0
fires w _ (submit_raises _ n e) = 0
fires w _ (hand_over _ before after job p e) = 0
fires w _ (poll_ends _ before after job t s e) = 0
fires w _ (poll_raises _ before after job e) = 0
fires w _ (close _ p) = 0
fires w _ (drain _ p e h) = 0
fires w _ (finish _ p e) = 0
fires w _ (end_run _ p) = 0

abbrev pub entries : (now : ℕ) (w v : Workload) → Step w v → List (ℕ × Entry)
entries now w _ (fire _ p) = []
entries now w _ (submits _ n job e) = (now, submit job) ∷ []
entries now w _ (submit_raises _ n e) = (now, submit_error) ∷ []
entries now w _ (hand_over _ before after job p e) = []
entries now w _ (poll_ends _ before after job t s e) = (now, outcome job t s) ∷ []
entries now w _ (poll_raises _ before after job e) = []
entries now w _ (close _ p) = []
entries now w _ (drain _ p e h) = []
entries now w _ (finish _ p e) = []
entries now w _ (end_run _ p) = []

-- What a turn does before it records: the tasks that it stopped, and where its loop goes on.
abbrev pub after_turn : Loop → Watch → List String → Campaign → Campaign
after_turn l w stopped c = record c { loops = turn_to l w c.loops; killed = c.killed ++ stopped }

-- An exception ends the kill loop of experiment 1.
abbrev pub after_kill_turn : Result Fault × List String → Campaign → Campaign
after_kill_turn (ok f, stopped) c = after_turn leaders (recording f) stopped c
after_kill_turn (raise e, stopped) c = after_turn leaders left stopped c

pub data Move (kind : Kind) : Campaign → Campaign → Type 0 where
  -- A step of the worker.
  works :
      (c : Campaign) (now : ℕ) (v : Workload) (s : Step c.work v)
      → May kind c c.work v s
      → Move kind c (record c {
        work = v;
        submitted = c.submitted + fires c.work v s;
        history = c.history ++ entries now c.work v s;
      })
  -- A poll records a status that it reads.
  observes :
      (c : Campaign) (target_count now : ℕ) (before after : List Job) (job : Job) (status : String)
      → kind ≡ exp3 target_count
      → c.work.polling ≡ before ++ job ∷ after
      → Move kind c (record c { history = c.history ++ (now, poll_observe job status) ∷ [] })
  -- `while not stop.is_set()`
  begins :
      (c : Campaign) (l : Loop)
      → watch l c.loops ≡ sleeping
      → c.stopped ≡ false
      → Move kind c (record c { loops = turn_to l turning c.loops })
  -- `if stop.wait(period_s): return`
  leaves :
      (c : Campaign) (l : Loop)
      → watch l c.loops ≡ sleeping
      → c.stopped ≡ true
      → Move kind c (record c { loops = turn_to l left c.loops })
  kills :
      (c : Campaign) (host : Host) (found : Result (Option LeaderInfo))
      → kind ≡ exp1
      → c.loops.leader_kill ≡ turning
      → Move kind c (after_kill_turn (kill_turn host found) c)
  kills_leader :
      (c : Campaign) (target_count : ℕ) (host : Host) (found : Result (Option LeaderInfo))
      → kind ≡ exp3 target_count
      → c.loops.leader_kill ≡ turning
      → Move kind c (
          after_turn leaders
            (recording (kill_leader_turn host found).0)
            (kill_leader_turn host found).1
            c)
  kills_follower :
      (c : Campaign) (host : Host) (services : List String) (found : Result (Option LeaderInfo))
      → c.loops.follower_kill ≡ turning
      → Move kind c (
          after_turn followers
            (recording (kill_follower_turn host services found).0)
            (kill_follower_turn host services found).1
            c)
  redelivers :
      (c : Campaign) (change : String → Change) (receive : ℕ → List String)
      → c.loops.sqs_redeliver ≡ turning
      → Move kind c (after_turn redeliveries (recording (redeliver_turn change receive)) [] c)
  -- `rec.record(...)` at the end of a turn; the loop waits again.
  records :
      (c : Campaign) (l : Loop) (now : ℕ) (f : Fault)
      → watch l c.loops ≡ recording f
      → Move kind c (record c {
        loops = turn_to l sleeping c.loops;
        history = c.history ++ (now, fault l f) ∷ [];
      })
  -- The tracker scans the peers table.
  tracks :
      (c : Campaign) (now : ℕ) (peek : Peek)
      → Move kind c (record c {
        last_leader = scan_once peek;
        history = c.history ++ map (λ s. (now, seen s)) (track c.last_leader (peek ∷ []));
      })
  -- `stop.set()`
  stops : (c : Campaign) → MayStop kind c → Move kind c (record c { stopped = true })
  -- `rec.record(op="run_end")`
  ends :
      (c : Campaign) (now : ℕ)
      → c.stopped ≡ true
      → c.over ≡ false
      → Move kind c (record c { over = true; history = c.history ++ (now, run_end) ∷ [] })

-- Some moves one after the other.
pub data Reaches (kind : Kind) (c : Campaign) : Campaign → Type 0 where
  here : Reaches kind c c
  next : {d e : Campaign} → Reaches kind c d → Move kind d e → Reaches kind c e
