-- ===== src/Bench/Campaign/Tallied.antt =====
-- What the loop of exp1.py's `analyze` collects from the entries of a run.
use driftless.Prelude.{
  ℕ, ◌+◌, String, Bool, List, [], ◌∷◌, ◌++◌, ◌≡◌, refl, ap, ◌∙◌, arith, count_by, filter_by, length,
  length-append, Bool-cases, inl, inr, ◌==◌, string_eq, if◌then◌else◌,
}
use driftless.Prelude.Dict.{keys, insert}
use driftless.Bench.Result.{ok}
use driftless.Bench.Analysis.{Tally, note, tally, set_add}
use driftless.Bench.Analysis.Tasks.{keys-insert}
use driftless.Bench.Analysis.Sets.{set_adds, times}
use driftless.Bench.Chaos.{skip, killed, sqs_redeliver, error}
use driftless.Bench.LeaderTracker.{leader_observed, leader_gap}
use driftless.Bench.Workload.{Job, Line}
use driftless.Bench.Workload.Accounts.{submissions, outcomes}
use driftless.Bench.Campaign.Entries.{
  Entry, run_start, submit, submit_error, poll_observe, outcome, fault, seen, run_end, leaders,
  followers, redeliveries, record_line,
}
use driftless.Bench.Campaign.Lines.{bench_lines}
use driftless.Bench.Campaign.Lone.{is_kill}
use mathlib.Core.List.{map}

-- The ids of the tasks that are submitted, and of those that end with and without a timeout.
abbrev pub submitted_ids : List Line → List String
submitted_ids [] = []
submitted_ids (Line.run_start ∷ ls) = submitted_ids ls
submitted_ids (Line.submitted job ∷ ls) = job.task_id ∷ submitted_ids ls
submitted_ids (Line.outcome job t s ∷ ls) = submitted_ids ls
submitted_ids (Line.run_end ∷ ls) = submitted_ids ls

abbrev pub late_ids : List Line → List String
late_ids [] = []
late_ids (Line.run_start ∷ ls) = late_ids ls
late_ids (Line.submitted job ∷ ls) = late_ids ls
late_ids (Line.outcome job t s ∷ ls) =
    if s == "TIMEOUT" then job.task_id ∷ late_ids ls else late_ids ls
late_ids (Line.run_end ∷ ls) = late_ids ls

abbrev pub done_ids : List Line → List String
done_ids [] = []
done_ids (Line.run_start ∷ ls) = done_ids ls
done_ids (Line.submitted job ∷ ls) = done_ids ls
done_ids (Line.outcome job t s ∷ ls) =
    if s == "TIMEOUT" then done_ids ls else job.task_id ∷ done_ids ls
done_ids (Line.run_end ∷ ls) = done_ids ls

-- The analysis of the entries goes through, and ends with these sets of tasks.
abbrev pub IsTallied : List (ℕ × Entry) → Tally → Tally → Type 0
IsTallied es t t' =
    (tally (map record_line es) t ≡ ok t')
    × (keys t'.submits ≡ set_adds (keys t.submits) (submitted_ids (bench_lines es)))
    × (keys t'.completes ≡ set_adds (keys t.completes) (done_ids (bench_lines es)))
    × (t'.timeouts ≡ set_adds t.timeouts (late_ids (bench_lines es)))
    × (length t'.kills ≡ length t.kills + length (filter_by is_kill es))

pub tally-written : (es : List (ℕ × Entry)) (t : Tally) → (t' : Tally) × IsTallied es t t'
unfolding tally note set_add
tally-written [] t = (t, (refl, refl, refl, refl, omega arith))
tally-written ((n, run_start) ∷ es) t = tally-written es t
tally-written ((n, submit job) ∷ es) t =
    let (t', (run, submits, completes, timeouts, kills)) =
      tally-written es (record t { submits = insert job.task_id job.submitted_ns t.submits }) in
    (
      t',
      (
        run,
        submits
            ∙ ap (λ set. set_adds set (submitted_ids (bench_lines es)))
                (keys-insert job.task_id job.submitted_ns t.submits),
        completes,
        timeouts,
        kills,
      ),
    )
tally-written ((n, submit_error) ∷ es) t = tally-written es t
tally-written ((n, poll_observe job s) ∷ es) t = tally-written es t
tally-written ((n, outcome job ns status) ∷ es) t = elim (Bool-cases (status == "TIMEOUT")) [
  | inl late ↦ rw late (tally-written es (record t { timeouts = set_add job.task_id t.timeouts }))
  | inr done ↦
      let (t', (run, submits, completes, timeouts, kills)) =
        tally-written es (record t { completes = insert job.task_id ns t.completes }) in
      rw done (
        t',
        (
          run,
          submits,
          completes
              ∙ ap (λ set. set_adds set (done_ids (bench_lines es)))
                  (keys-insert job.task_id ns t.completes),
          timeouts,
          kills,
        ),
      )
]
tally-written ((n, fault l (skip reason)) ∷ es) t = tally-written es t
tally-written ((n, fault leaders (killed res)) ∷ es) t =
    let (t', (run, submits, completes, timeouts, kills)) =
      tally-written es (record t { kills = t.kills ++ res.killed_ns ∷ [] }) in
    (
      t',
      (
        run,
        submits,
        completes,
        timeouts,
        omega (arith, kills, length-append t.kills (res.killed_ns ∷ [])),
      ),
    )
tally-written ((n, fault followers (killed res)) ∷ es) t = tally-written es t
tally-written ((n, fault redeliveries (killed res)) ∷ es) t = tally-written es t
tally-written ((n, fault l (sqs_redeliver k)) ∷ es) t = tally-written es t
tally-written ((n, fault l (error e)) ∷ es) t = tally-written es t
tally-written ((n, seen (leader_observed node_id)) ∷ es) t = tally-written es _
tally-written ((n, seen leader_gap) ∷ es) t = tally-written es t
tally-written ((n, run_end) ∷ es) t = tally-written es t

abbrev pub is_task : String → Job → Bool
is_task tid job = job.task_id == tid

-- The ids of the submissions, and of the two kinds of outcomes.
pub submitted_ids-IsCounted :
    (ls : List Line)
    → (length (submitted_ids ls) ≡ length (submissions ls))
      × ((tid : String) → times tid (submitted_ids ls) ≡ count_by (is_task tid) (submissions ls))
submitted_ids-IsCounted [] = (refl, λ tid. refl)
submitted_ids-IsCounted (Line.run_start ∷ ls) = submitted_ids-IsCounted ls
submitted_ids-IsCounted (Line.submitted job ∷ ls) =
    let (len, count) = submitted_ids-IsCounted ls in
    (omega (arith, len), λ tid. omega (arith, count tid))
submitted_ids-IsCounted (Line.outcome job t s ∷ ls) = submitted_ids-IsCounted ls
submitted_ids-IsCounted (Line.run_end ∷ ls) = submitted_ids-IsCounted ls

pub ended_ids-IsCounted :
    (ls : List Line)
    → (length (done_ids ls) + length (late_ids ls) ≡ length (outcomes ls))
      × ((tid : String)
          → times tid (done_ids ls) + times tid (late_ids ls)
            ≡ count_by (is_task tid) (outcomes ls))
ended_ids-IsCounted [] = (omega arith, λ tid. omega arith)
ended_ids-IsCounted (Line.run_start ∷ ls) = ended_ids-IsCounted ls
ended_ids-IsCounted (Line.submitted job ∷ ls) = ended_ids-IsCounted ls
ended_ids-IsCounted (Line.outcome job t s ∷ ls) =
    let (len, count) = ended_ids-IsCounted ls in
    elim (Bool-cases (s == "TIMEOUT")) [
      | inl late ↦ rw late (omega (arith, len), λ tid. omega (arith, count tid))
      | inr done ↦ rw done (omega (arith, len), λ tid. omega (arith, count tid))
    ]
ended_ids-IsCounted (Line.run_end ∷ ls) = ended_ids-IsCounted ls
