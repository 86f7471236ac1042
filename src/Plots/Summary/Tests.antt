-- ===== src/Plots/Summary/Tests.antt =====
-- The dashboard of the sample run.
use driftless.Prelude.{true, some, ◌≡◌, ◌↔◌, refl}
use driftless.Prelude.{chunks}
use driftless.Prelude.Dict.{lookup}
use driftless.Prelude.Int.{pos, parse_int}
use driftless.Bench.History.{task_ids_from_history}
use driftless.Bench.Table.{scan_table, scan_chunks, drain, visit_all, get_n, get_s}
use driftless.Bench.DupScan.{scan as scan_dups, visit_dup, receive_count}
use driftless.Bench.DivergenceScan.{scan as scan_divergence, visit_status}
use driftless.Bench.Result.{Result, ok}
use driftless.Bench.Faults.{Report, checked, lin_violations_of, analyze}
use driftless.Bench.Samples.{
  rows, one_key, one_key-IsBatchGet, history, ids, history-ids, rows-IsKeyed,
}
use driftless.Plots.Summary.{safety_bars, proof_bars}
use driftless.Plots.Summary.Passes.{all_green, IsClean, safety_bars-IsClean}

abbrev verdict : Result Report
verdict = analyze (one_key rows) (one_key rows) (checked (some (pos 0))) history

abbrev report : Report
report = record {
  submitted = 4;
  completed = 0;
  timed_out = 0;
  lost = 4;
  leader_kills = 0;
  follower_kills = 0;
  sqs_redeliveries_injected = 0;
  duplicate_dispatches = 1;
  max_receive_count = pos 3;
  stuck_pending = 1;
  stuck_assigned = 0;
  linearizability_violations = pos 0;
}

checked_none : lin_violations_of (checked (some (pos 0))) ≡ ok (pos 0)
unfolding lin_violations_of
checked_none = refl

verdict-report : verdict ≡ ok report
unfolding analyze scan_dups task_ids_from_history scan_table scan_chunks chunks drain visit_all
    visit_dup receive_count get_n lookup parse_int get_s scan_divergence visit_status
verdict-report = refl

safety_bars-IsClean_example :
    ((all_green (safety_bars report) ≡ true) ↔ IsClean rows (pos 0) ids)
    × (all_green (proof_bars report) ≡ all_green (safety_bars report))
safety_bars-IsClean_example =
    safety_bars-IsClean rows rows-IsKeyed (one_key rows) (one_key rows) (one_key-IsBatchGet rows)
      (one_key-IsBatchGet rows) (checked (some (pos 0))) (pos 0) history ids report checked_none
      history-ids verdict-report
