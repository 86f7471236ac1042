-- ===== src/Bench/Campaign/Tests.antt =====
-- A run of experiment 3 with one task and one leader kill.
use driftless.Prelude.{
  none, String, ◌+◌, Bool-cases, inr, Bool, true, some, [], ◌∷◌, ◌++◌, ◌≡◌, refl, inl, count_by,
  string_eq, ◌==◌, arith,
}
use driftless.Prelude.Int.{pos}
use driftless.Bench.Result.{ok}
use driftless.Bench.LeaderDetect.{LeaderInfo}
use driftless.Bench.Chaos.{Fault, Host, kill_leader_turn, kill_leader, stop_random_task, stop_one}
use driftless.Bench.DupScan.{DupScanResult}
use driftless.Bench.DivergenceScan.{DivergenceScanResult}
use driftless.Bench.Faults.{Counts, count_all, no_counts, report}
use driftless.Bench.Workload.{
  Job, Line, finished, takes_polls, fire, submit as submits, hand_over, poll_ends, poll_raises,
  close, drain, finish,
}
use driftless.Bench.Workload.Accounts.{submissions, outcomes}
use driftless.Bench.Campaign.Entries.{record_line, leaders, fault, submit, outcome, run_end}
use driftless.Bench.Campaign.Lines.{bench_lines, is_try}
use driftless.Bench.Campaign.{
  Kind, exp1, exp3, Campaign, start, Reaches, works, begins, kills_leader, records, stops, ends,
  here, next, turning, sleeping, recording, after_turn,
}
use driftless.Bench.Campaign.Submits.{exp3-submits}
use driftless.Bench.Campaign.Lost.{exp3-lost}
use driftless.Bench.Campaign.Analysed.{IsFresh, exp1-analysed}
use driftless.Bench.Analysis.{Analysis, analyze}
use driftless.Bench.Campaign.Told.{told}
use driftless.Bench.Campaign.Held.{held, Reaches-told}
use driftless.Bench.Campaign.Ends.{exp3-ends}
use driftless.Bench.Campaign.Tracked.{IsTracked, Reaches-IsTracked}
use mathlib.Core.List.{map}

abbrev one_task : Host
one_task = record {
  list_tasks = λ service. ok ("arn:1" ∷ []);
  stop_task = λ arn. ok tt;
  time_ns = 50;
  choice = λ x xs. x;
}

abbrev leader_a : LeaderInfo
leader_a = record {
  node_id = "a";
  http_addr = "http://a:1";
  ecs_service = "coordinator-a";
  term = 1;
}

abbrev job : Job
job = record { task_id = "t1"; submitted_ns = 5 }

abbrev three : Kind
three = exp3 1

-- The task is fired, the leader's task is stopped, and the task is submitted and polled; its poll raises.
abbrev begun : Campaign
begun = record (start three 0) {
  work = record (start three 0).work { waiting = 1 };
  submitted = 1;
  loops = record { leader_kill = turning; follower_kill = sleeping; sqs_redeliver = sleeping };
}

run-begun : Reaches three (start three 0) begun
run-begun =
    next (next here (works (start three 0) 1 _ (fire _ refl) (omega arith, refl)))
      (begins _ leaders refl refl)

abbrev leader_strike : Fault
leader_strike = (kill_leader_turn one_task (ok (some leader_a))).0

abbrev struck : Campaign
struck =
    after_turn leaders (recording leader_strike) (kill_leader_turn one_task (ok (some leader_a))).1
      begun

run-struck : Reaches three (start three 0) struck
run-struck = next run-begun (kills_leader begun 1 one_task (ok (some leader_a)) refl refl)

abbrev recorded : Campaign
recorded = record struck {
  loops = record struck.loops { leader_kill = sleeping };
  history = struck.history ++ (60, fault leaders leader_strike) ∷ [];
}

run-recorded : Reaches three (start three 0) recorded
run-recorded = next run-struck (records struck leaders 60 leader_strike refl)

abbrev ended : Campaign
ended = record recorded {
  work = record recorded.work {
    waiting = 0;
    phase = finished;
    raised = job ∷ [];
    history = Line.run_start ∷ Line.submitted job ∷ [];
  };
  stopped = true;
  over = true;
  history = (recorded.history ++ (70, submit job) ∷ []) ++ (99, run_end) ∷ [];
}

run-ended : Reaches three (start three 0) ended
unfolding takes_polls
run-ended =
    next
      (next
        (next
          (next
            (next
              (next
                (next (next run-recorded (works _ 70 _ (submits _ 0 job refl) tt))
                  (works _ 71 _ (close _ refl) (inl (omega arith))))
                (works _ 72 _ (hand_over _ [] [] job refl refl) tt))
              (works _ 73 _ (drain _ refl refl refl) tt))
            (works _ 74 _ (poll_raises _ [] [] job refl) tt))
          (works _ 75 _ (finish _ refl refl) tt))
        (stops _ refl))
      (ends _ 99 refl refl)

abbrev is_t1 : Job → Bool
is_t1 j = j.task_id == "t1"

exp3-submits_example :
    (count_by is_try ended.history ≡ 1)
    × (count_by is_t1 (submissions (bench_lines ended.history))
        ≡ count_by is_t1 (outcomes (bench_lines ended.history)) + count_by is_t1 ended.work.raised)
exp3-submits_example = exp3-submits 1 0 ended run-ended refl is_t1

abbrev no_dups : DupScanResult
no_dups = record {
  total_scanned = 1;
  duplicate_count = 0;
  duplicate_task_ids = [];
  max_receive_count = pos 1;
}

abbrev no_divergence : DivergenceScanResult
no_divergence = record {
  total_scanned = 1;
  stuck_pending = 0;
  stuck_assigned = 0;
  missing = 0;
  stuck_pending_sample = [];
  stuck_assigned_sample = [];
  missing_sample = [];
}

exp3-lost_example :
    (k : Counts) × (count_all (map record_line ended.history) no_counts ≡ ok k)
    × ((report no_dups no_divergence (pos 0) k).lost ≡ 1)
exp3-lost_example = exp3-lost 1 0 ended run-ended refl no_dups no_divergence (pos 0)

abbrev is_arn1 : String → Bool
is_arn1 arn = arn == "arn:1"

-- The leader's task is stopped, and its kill is about to be recorded.
Reaches-told_example :
    count_by is_arn1 struck.killed
    ≡ count_by is_arn1 (told struck.history) + count_by is_arn1 (held struck.loops)
Reaches-told_example = Reaches-told three 0 struck run-struck is_arn1

one_told : count_by is_arn1 (told ended.history) ≡ 1
unfolding kill_leader_turn kill_leader stop_random_task stop_one
one_told = refl

exp3-ends_example : (d : Campaign) × Reaches three begun d × (d.over ≡ true)
exp3-ends_example = exp3-ends 1 0 begun run-begun

Reaches-IsTracked_example : IsTracked ended.history none
Reaches-IsTracked_example = Reaches-IsTracked three 0 ended run-ended

-- In a run of experiment 1 one task completes, and another is not yet polled when the run ends.
abbrev later_job : Job
later_job = record { task_id = "t2"; submitted_ns = 20 }

abbrev cut_off : Campaign
cut_off = record (start exp1 0) {
  work = record (start exp1 0).work {
    handing = later_job ∷ [];
    history =
        Line.run_start
        ∷ Line.submitted job
        ∷ Line.outcome job 15 "COMPLETED"
        ∷ Line.submitted later_job
        ∷ [];
  };
  submitted = 2;
  stopped = true;
  over = true;
  history =
      (((start exp1 0).history ++ (6, submit job) ∷ []) ++ (16, outcome job 15 "COMPLETED") ∷ [])
      ++ (21, submit later_job) ∷ (40, run_end) ∷ [];
}

run-cut_off : Reaches exp1 (start exp1 0) cut_off
unfolding takes_polls
run-cut_off =
    next
      (next
        (next
          (next
            (next
              (next
                (next (next here (works _ 1 _ (fire _ refl) refl))
                  (works _ 6 _ (submits _ 0 job refl) tt))
                (works _ 7 _ (hand_over _ [] [] job refl refl) tt))
              (works _ 16 _ (poll_ends _ [] [] job 15 "COMPLETED" refl) tt))
            (works _ 17 _ (fire _ refl) refl))
          (works _ 21 _ (submits _ 0 later_job refl) tt))
        (stops _ tt))
      (ends _ 40 refl refl)

cut_off-IsFresh : IsFresh cut_off
cut_off-IsFresh tid = elim (Bool-cases ("t1" == tid)) [
  | inl t1 ↦ rw (← (string_eq.same_iff "t1" tid).0 t1) (omega arith)
  | inr other ↦ rw other (ground arith)
]

exp1-analysed_example :
    (r : Analysis) × (analyze (map record_line cut_off.history) ≡ ok r)
    × (r.submitted ≡ 2)
    × (r.completed + r.timed_out ≡ 1)
    × (r.lost ≡ 1)
    × (r.kill_count + 0 ≡ 0)
exp1-analysed_example = exp1-analysed 0 cut_off run-cut_off cut_off-IsFresh
