-- ===== src/Bench/Polling/Ends.antt =====
-- The poll of a task ends, and with which entry.
use driftless.Prelude.{
  ℕ, ◌+◌, ◌≤◌, ◌<◌, suc, ltb, String, true, false, Option, none, some, List, [], ◌∷◌, string_eq,
  ◌≡◌, arith,
}
use driftless.Bench.Result.{Result, ok}
use driftless.Bench.Deadline.{IsPaced, IsWaiting, waits_none, waits_more, timed_loop}
use driftless.Bench.Polling.{
  Run, Entry, complete, timeout, ended_status, poll_from, poll_to_completion,
}

-- What turn `k` finds: the status of a task that has ended.
abbrev pub ended_at : Run → ℕ → Option String
ended_at run k = ended_status (run.poll_status k)

-- The outcome of the polls from turn `j`: the first poll that found the task ended, before the
-- deadline, or else the timeout at the first test after it.
pub data IsOutcome (run : Run) (task_id : String) (submitted_ns deadline j : ℕ)
    : Result (List Entry) → Type 0 where
  completes :
      (k : ℕ) (status : String)
      → IsWaiting run.checked (ended_at run) deadline j k
      → run.checked k < deadline
      → ended_at run k ≡ some status
      → IsOutcome run task_id submitted_ns deadline j
          (ok (complete task_id submitted_ns (run.returned k) status ∷ []))
  times_out :
      (k : ℕ)
      → IsWaiting run.checked (ended_at run) deadline j k
      → deadline ≤ run.checked k
      → IsOutcome run task_id submitted_ns deadline j
          (ok (timeout task_id submitted_ns (run.ended k) ∷ []))

module _ (run : Run) (task_id : String) (submitted_ns deadline : ℕ) where
  IsOutcome-later :
      (j : ℕ) (r : Result (List Entry))
      → run.checked j < deadline
      → ended_at run j ≡ none
      → IsOutcome run task_id submitted_ns deadline (j + 1) r
      → IsOutcome run task_id submitted_ns deadline j r
  IsOutcome-later j _ h o (completes k status w c e) =
      completes k status (waits_more _ _ deadline j k h o w) c e
  IsOutcome-later j _ h o (times_out k w c) = times_out k (waits_more _ _ deadline j k h o w) c

  poll_from-IsOutcome :
      (f j : ℕ)
      → IsPaced run.started run.checked
      → deadline ≤ run.checked j + f
      → IsOutcome run task_id submitted_ns deadline j
          (poll_from run task_id submitted_ns deadline (suc f) j)
  unfolding poll_from
  poll_from-IsOutcome f j paced enough =
      timed_loop run.checked (ended_at run) deadline
        (λ f j.
          IsOutcome run task_id submitted_ns deadline j
            (poll_from run task_id submitted_ns deadline f j))
        (λ f j late.
          let past : ltb (run.checked j) deadline ≡ false = ground arith in
          rw past (times_out j (waits_none _ _ deadline j) late))
        (λ f j status early over.
          let soon : ltb (run.checked j) deadline ≡ true = ground arith in
          rw soon
            (rw (over, poll_from) (completes j status (waits_none _ _ deadline j) early over)))
        (λ f j early still later.
          let soon : ltb (run.checked j) deadline ≡ true = ground arith in
          rw soon (rw (still, poll_from) (IsOutcome-later j _ early still later)))
        paced f j enough

-- The polls of a task, where none of them raises and each sleep lets the clock go on, end with one
-- entry: the completion at the first poll that finds the task COMPLETED or FAILED before the
-- deadline, or else the timeout at the first test after the deadline.
pub poll_to_completion-IsOutcome :
    (run : Run) (task_id : String) (submitted_ns timeout_ns : ℕ)
    → IsPaced run.started run.checked
    → IsOutcome run task_id submitted_ns
        (run.started + timeout_ns)
        0
        (poll_to_completion run task_id submitted_ns timeout_ns)
unfolding poll_to_completion
poll_to_completion-IsOutcome run task_id submitted_ns timeout_ns paced =
    poll_from-IsOutcome run task_id submitted_ns (run.started + timeout_ns) timeout_ns 0 paced
      (omega (arith, paced.first))
