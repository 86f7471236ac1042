-- ===== src/Bench/Campaign/Entries.antt =====
-- The entries of a history: the calls of `rec.record` in chaos-bench/exp3.py and exp1.py, and the line
-- that chaos-bench/recorder.py writes for each.
use driftless.Prelude.{ℕ, String, none, some, ◌==◌, string_eq, if◌then◌else◌}
use driftless.Bench.History.{Event, Line, event}
use driftless.Bench.Chaos.{Fault, skip, killed, sqs_redeliver, error}
use driftless.Bench.LeaderTracker.{Seen, leader_observed, leader_gap}
use driftless.Bench.Workload.{Job}

pub data Loop : Type 0 where
  leaders followers redeliveries : Loop

pub data Entry : Type 0 where
  run_start : Entry
  submit : Job → Entry
  submit_error : Entry
  poll_observe : Job → (status : String) → Entry
  outcome : Job → (completed_ns : ℕ) (status : String) → Entry
  fault : Loop → Fault → Entry
  seen : Seen → Entry
  run_end : Entry

-- An event with an op and nothing else that is read.
abbrev pub plain : String → Event
plain op = record {
  op = some op;
  task_id = none;
  status = none;
  node_id = none;
  wall_ns = none;
  submitted_ns = none;
  completed_ns = none;
  killed_ns = none;
  redelivered = none;
}

-- The op of a kill is that of its loop.
abbrev pub kill_op : Loop → String
kill_op leaders = "chaos.kill_leader"
kill_op followers = "chaos.kill_follower"
kill_op redeliveries = "chaos.sqs_redeliver"

abbrev pub fault_event : Loop → Fault → Event
fault_event l (skip reason) = plain "chaos.skip"
fault_event l (killed res) = record (plain (kill_op l)) { killed_ns = some res.killed_ns }
fault_event l (sqs_redeliver n) = record (plain "chaos.sqs_redeliver") { redelivered = some n }
fault_event l (error e) = plain "chaos.error"

-- A poll that ran into its deadline records a timeout.
abbrev pub outcome_op : String → String
outcome_op status = if status == "TIMEOUT" then "timeout" else "complete"

abbrev pub event_of : Entry → Event
event_of run_start = plain "run_start"
event_of (submit job) = record (plain "submit") {
  task_id = some job.task_id;
  submitted_ns = some job.submitted_ns;
}
event_of submit_error = plain "submit_error"
event_of (poll_observe job status) = record (plain "poll_observe") {
  task_id = some job.task_id;
  status = some status;
}
event_of (outcome job completed_ns status) = record (plain (outcome_op status)) {
  task_id = some job.task_id;
  status = some status;
  submitted_ns = some job.submitted_ns;
  completed_ns = some completed_ns;
}
event_of (fault l f) = fault_event l f
event_of (seen (leader_observed node_id)) = record (plain "leader_observed") {
  node_id = some node_id;
}
event_of (seen leader_gap) = plain "leader_gap"
event_of run_end = plain "run_end"

-- `fields.setdefault("wall_ns", time.time_ns())`
abbrev pub stamp : ℕ → Event → Event
stamp now ev = elim ev.wall_ns [ none ↦ record ev { wall_ns = some now } | some t ↦ ev ]

-- `HistoryRecorder.record`, at the clock's reading.
abbrev pub record_line : ℕ × Entry → Line
record_line (now, e) = event (stamp now (event_of e))
