-- ===== src/Bench/Campaign/Lost.antt =====
-- What the verdict on a run under faults counts as lost.
use driftless.Prelude.{
  ℕ, ◌+◌, true, List, [], ◌∷◌, ◌≡◌, refl, arith, count_by, count_by-all, length, Bool-cases, inl,
  inr, ◌==◌, string_eq,
}
use driftless.Prelude.Int.{ℤ}
use driftless.Bench.Result.{ok}
use driftless.Bench.DupScan.{DupScanResult}
use driftless.Bench.DivergenceScan.{DivergenceScanResult}
use driftless.Bench.Faults.{Counts, count_all, count_event, no_counts, report}
use driftless.Bench.Faults.Verdict.{has_op, count_all-Adds}
use driftless.Bench.Chaos.{skip, killed, sqs_redeliver, error}
use driftless.Bench.LeaderTracker.{leader_observed, leader_gap}
use driftless.Bench.Workload.Accounts.{submissions, outcomes}
use driftless.Bench.Campaign.Entries.{
  Entry, run_start, submit, submit_error, poll_observe, outcome, fault, seen, run_end, leaders,
  followers, redeliveries, event_of, stamp, record_line,
}
use driftless.Bench.Campaign.Lines.{bench_lines}
use driftless.Bench.Campaign.{exp3, Campaign, start, Reaches}
use driftless.Bench.Campaign.Submits.{exp3-submits}
use mathlib.Core.List.{map}

-- Every line that the recorder writes can be read.
count_all-written :
    (es : List (ℕ × Entry)) (k : Counts)
    → (k' : Counts) × (count_all (map record_line es) k ≡ ok k')
unfolding count_all
count_all-written [] k = (k, refl)
count_all-written ((t, e) ∷ es) k = count_all-written es (count_event (stamp t (event_of e)) k)

-- The lines with the op of a submission, and of an outcome.
abbrev IsCounted : List (ℕ × Entry) → Type 0
IsCounted es =
    (count_by (has_op "submit") (map record_line es) ≡ length (submissions (bench_lines es)))
    × (count_by (has_op "complete") (map record_line es)
          + count_by (has_op "timeout") (map record_line es)
        ≡ length (outcomes (bench_lines es)))

written-IsCounted : (es : List (ℕ × Entry)) → IsCounted es
written-IsCounted [] = (refl, omega arith)
written-IsCounted ((t, run_start) ∷ es) =
    let (s, o) = written-IsCounted es in (omega (arith, s), omega (arith, o))
written-IsCounted ((t, submit job) ∷ es) =
    let (s, o) = written-IsCounted es in (omega (arith, s), omega (arith, o))
written-IsCounted ((t, submit_error) ∷ es) =
    let (s, o) = written-IsCounted es in (omega (arith, s), omega (arith, o))
written-IsCounted ((t, poll_observe job s) ∷ es) =
    let (s, o) = written-IsCounted es in (omega (arith, s), omega (arith, o))
written-IsCounted ((t, outcome job ns status) ∷ es) =
    let (s, o) = written-IsCounted es in
    elim (Bool-cases (status == "TIMEOUT")) [
      | inl e ↦ rw e (omega (arith, s), omega (arith, o))
      | inr e ↦ rw e (omega (arith, s), omega (arith, o))
    ]
written-IsCounted ((t, fault l (skip reason)) ∷ es) =
    let (s, o) = written-IsCounted es in (omega (arith, s), omega (arith, o))
written-IsCounted ((t, fault leaders (killed res)) ∷ es) =
    let (s, o) = written-IsCounted es in (omega (arith, s), omega (arith, o))
written-IsCounted ((t, fault followers (killed res)) ∷ es) =
    let (s, o) = written-IsCounted es in (omega (arith, s), omega (arith, o))
written-IsCounted ((t, fault redeliveries (killed res)) ∷ es) =
    let (s, o) = written-IsCounted es in (omega (arith, s), omega (arith, o))
written-IsCounted ((t, fault l (sqs_redeliver n)) ∷ es) =
    let (s, o) = written-IsCounted es in (omega (arith, s), omega (arith, o))
written-IsCounted ((t, fault l (error e)) ∷ es) =
    let (s, o) = written-IsCounted es in (omega (arith, s), omega (arith, o))
written-IsCounted ((t, seen (leader_observed n)) ∷ es) =
    let (s, o) = written-IsCounted es in (omega (arith, s), omega (arith, o))
written-IsCounted ((t, seen leader_gap) ∷ es) =
    let (s, o) = written-IsCounted es in (omega (arith, s), omega (arith, o))
written-IsCounted ((t, run_end) ∷ es) =
    let (s, o) = written-IsCounted es in (omega (arith, s), omega (arith, o))

-- Once a run of experiment 3 has recorded its end, its history can be counted, and the verdict on it,
-- whatever its scans found, counts as lost exactly the submitted tasks whose poll raised.
pub exp3-lost :
    (target now : ℕ) (c : Campaign)
    → Reaches (exp3 target) (start (exp3 target) now) c
    → c.over ≡ true
    → (dup_result : DupScanResult) (div_result : DivergenceScanResult) (lin_violations : ℤ)
    → (k : Counts) × (count_all (map record_line c.history) no_counts ≡ ok k)
      × ((report dup_result div_result lin_violations k).lost ≡ length c.work.raised)
unfolding report
exp3-lost target now c r over dup_result div_result lin_violations =
    let (k, counted) = count_all-written c.history no_counts in
    let (submitted, completed, timed_out, _, _) =
      count_all-Adds (map record_line c.history) no_counts counted in
    let (s, o) = written-IsCounted c.history in
    let balance = (exp3-submits target now c r over (λ j. true)).1 in
    (
      k,
      counted,
      omega (
        arith,
        submitted,
        completed,
        timed_out,
        s,
        o,
        balance,
        count_by-all (submissions (bench_lines c.history)),
        count_by-all (outcomes (bench_lines c.history)),
        count_by-all c.work.raised,
      ),
    )
