-- ===== src/Bench/Faults.antt =====
-- The verdict on a run with faults: `analyze` of chaos-bench/exp3.py. What the binary of the
-- linearizability check does is a parameter.
pub mod Verdict
mod Tests
use driftless.Prelude.{
  ℕ, ◌+◌, ◌-◌, String, Bool, true, false, Option, none, some, List, [], ◌∷◌, if◌then◌else◌, get_or,
  string_eq, ◌==◌,
}
use driftless.Prelude.Int.{ℤ, pos, negsuc}
use driftless.Bench.Result.{Result, ok, raise, Error, value_error, ◌>>=◌}
use driftless.Bench.History.{Event, Line, blank, event, garbled, is_op}
use driftless.Bench.Table.{Reply}
use driftless.Bench.DupScan.{DupScanResult, scan as dup_scan}
use driftless.Bench.DivergenceScan.{DivergenceScanResult, scan as divergence_scan}

pub record Counts : Type 0 where
  pub submitted : ℕ
  pub completed : ℕ
  pub timed_out : ℕ
  pub leader_kills : ℕ
  pub follower_kills : ℕ
  pub sqs_redeliveries : ℕ

-- The body of the loop over the history.
unfoldable pub count_event : Event → Counts → Counts
count_event ev c =
    if is_op "submit" ev
    then record c { submitted = c.submitted + 1 }
    else if is_op "complete" ev
    then record c { completed = c.completed + 1 }
    else if is_op "timeout" ev
    then record c { timed_out = c.timed_out + 1 }
    else if is_op "chaos.kill_leader" ev
    then record c { leader_kills = c.leader_kills + 1 }
    else if is_op "chaos.kill_follower" ev
    then record c { follower_kills = c.follower_kills + 1 }
    else if is_op "chaos.sqs_redeliver" ev
    then record c { sqs_redeliveries = c.sqs_redeliveries + get_or ev.redelivered 0 }
    else c

unfoldable pub count_all : List Line → Counts → Result Counts
unfolding count_event
count_all [] c = ok c
count_all (blank ∷ lines) c = count_all lines c
count_all (garbled ∷ lines) c = raise value_error
count_all (event ev ∷ lines) c = count_all lines (count_event ev c)

pub record Report : Type 0 where
  pub submitted : ℕ
  pub completed : ℕ
  pub timed_out : ℕ
  pub lost : ℕ
  pub leader_kills : ℕ
  pub follower_kills : ℕ
  pub sqs_redeliveries_injected : ℕ
  pub duplicate_dispatches : ℕ
  pub max_receive_count : ℤ
  pub stuck_pending : ℕ
  pub stuck_assigned : ℕ
  pub linearizability_violations : ℤ

abbrev pub no_counts : Counts
no_counts = record {
  submitted = 0;
  completed = 0;
  timed_out = 0;
  leader_kills = 0;
  follower_kills = 0;
  sqs_redeliveries = 0;
}

unfoldable pub report : DupScanResult → DivergenceScanResult → ℤ → Counts → Report
report dup_result div_result lin_violations c = record {
  submitted = c.submitted;
  completed = c.completed;
  timed_out = c.timed_out;
  lost = c.submitted - c.completed - c.timed_out;
  leader_kills = c.leader_kills;
  follower_kills = c.follower_kills;
  sqs_redeliveries_injected = c.sqs_redeliveries;
  duplicate_dispatches = dup_result.duplicate_count;
  max_receive_count = dup_result.max_receive_count;
  stuck_pending = div_result.stuck_pending;
  stuck_assigned = div_result.stuck_assigned;
  linearizability_violations = lin_violations;
}

-- The binary of the check is not there, ran into its time limit, ended with an exit code other than 0,
-- or wrote its result: the number of violations, if that has one, or a file that cannot be read.
pub data Lincheck : Type 0 where
  missing : Lincheck
  timed_out : Lincheck
  refused : Lincheck
  checked : Option ℤ → Lincheck
  unreadable : Error → Lincheck

-- -1 stands for a check that was skipped or failed.
unfoldable pub lin_violations_of : Lincheck → Result ℤ
lin_violations_of missing = ok (negsuc 0)
lin_violations_of timed_out = ok (negsuc 0)
lin_violations_of refused = ok (negsuc 0)
lin_violations_of (checked none) = ok (pos 0)
lin_violations_of (checked (some n)) = ok n
lin_violations_of (unreadable e) = raise e

-- The two scans call the service `first` and then `second`.
unfoldable pub analyze :
    (first second : ℕ → List String → Reply) → Lincheck → List Line → Result Report
unfolding count_all report lin_violations_of
analyze first second lincheck lines = dup_scan first lines >>= λ dup_result.
    divergence_scan second lines >>= λ div_result. lin_violations_of lincheck >>= λ lin_violations.
    count_all lines no_counts >>= λ c. ok (report dup_result div_result lin_violations c)
