-- ===== src/Bench/Workload/Tests.antt =====
-- A workload of one task.
use driftless.Prelude.{◌+◌, [], ◌∷◌, ◌≡◌, refl, count_by, string_eq, ◌==◌}
use driftless.Bench.Workload.{
  Job, run_start, submitted, outcome, run_end, firing, closing, returned, Workload, takes_polls,
  start, Run, fire, submit, hand_over, poll_ends, close, drain, finish, end_run, still, goes_on,
}
use driftless.Bench.Workload.Accounts.{submissions, outcomes, finished-accounts}

abbrev job : Job
job = record { task_id = "t1"; submitted_ns = 5 }

abbrev closed : Workload
closed = record {
  phase = closing;
  waiting = 0;
  handing = job ∷ [];
  polling = [];
  raised = [];
  history = run_start ∷ submitted job ∷ [];
}

abbrev done : Workload
done = record {
  phase = returned;
  waiting = 0;
  handing = [];
  polling = [];
  raised = [];
  history = run_start ∷ submitted job ∷ outcome job 9 "COMPLETED" ∷ run_end ∷ [];
}

closed-done : Run closed 5 done
unfolding takes_polls
closed-done = goes_on _ _ _ _ (hand_over closed [] [] job refl refl) (
    goes_on _ _ _ _ (drain _ refl refl refl) (
      goes_on _ _ _ _ (poll_ends _ [] [] job 9 "COMPLETED" refl)
        (goes_on _ _ _ _ (finish _ refl refl) (goes_on _ _ _ _ (end_run _ refl) (still _)))))

start-done : Run start 8 done
start-done =
    goes_on _ _ _ _ (fire start refl)
      (goes_on _ _ _ _ (submit _ 0 job refl) (goes_on _ _ _ _ (close _ refl) closed-done))

not_firing : closed.phase ≡ firing → ⊥
not_firing h = cc

finished-accounts_example :
    count_by (λ j. j.task_id == "t1") (submissions done.history)
    ≡ count_by (λ j. j.task_id == "t1") (outcomes done.history)
      + count_by (λ j. j.task_id == "t1") done.raised
finished-accounts_example = finished-accounts done 8 start-done refl (λ j. j.task_id == "t1")
