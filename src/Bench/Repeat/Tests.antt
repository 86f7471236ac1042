-- ===== src/Bench/Repeat/Tests.antt =====
-- A repeated run of two iterations, of which one could not reset its cluster.
use driftless.Prelude.{flatten, List, [], ◌∷◌, ◌≡◌}
use driftless.Bench.Result.{Result, ok, raise, Error}
use driftless.Bench.History.{Line}
use driftless.Bench.Campaign.Entries.{record_line, submit, outcome}
use driftless.Bench.Reset.{Site}
use driftless.Bench.Repeat.{RepeatSummary, Iteration, run_single_kill_iteration, run_exp1_repeat}
use driftless.Bench.Repeat.Spread.{sample_of, IsSpread, IsTotalled, run_exp1_repeat-IsSpread}
use mathlib.Core.List.{map}

abbrev site : Result (Unit {0}) → Site
site deleted = record {
  pages = ("raft/a/snapshot.json" ∷ []) ∷ [];
  deletes = λ keys. deleted;
  list_tasks = λ svc. ok [];
  stops = λ arn. ok tt;
  started = 0;
  checked = λ k. k;
  scan = λ k. ok [];
  now = λ k. k;
}

abbrev lines : List Line
lines = map record_line (
    (5, submit (record { task_id = "t1"; submitted_ns = 5 }))
    ∷ (9, outcome (record { task_id = "t1"; submitted_ns = 5 }) 9 "COMPLETED")
    ∷ [])

abbrev its : List Iteration
its =
    record { site = site (raise Error.client_error); run = ok lines }
    ∷ record { site = site (ok tt); run = ok lines }
    ∷ []

run_exp1_repeat-IsSpread_example :
    let results = map (run_single_kill_iteration []) its in
    (s : RepeatSummary) × (run_exp1_repeat "r" [] its ≡ ok s)
    × (s.per_iteration ≡ results)
    × (s.iterations ≡ 2)
    × (s.convergence_samples ≡ flatten (map sample_of results))
    × IsSpread (flatten (map sample_of results)) s
    × IsTotalled results s
run_exp1_repeat-IsSpread_example = run_exp1_repeat-IsSpread "r" [] its
