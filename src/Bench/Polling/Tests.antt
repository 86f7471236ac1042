-- ===== src/Bench/Polling/Tests.antt =====
-- The polls of a task that completes at the third turn.
use driftless.Prelude.{◌+◌, ◌*◌, ltb, some, [], ◌∷◌, ◌≡◌, refl, arith, if◌then◌else◌}
use driftless.Bench.Result.{ok}
use driftless.Bench.Polling.{
  Run, complete, timeout, poll_from, has_ended, ended_status, poll_to_completion,
  poll_to_completion_traced,
}
use driftless.Bench.Deadline.{IsPaced}
use driftless.Bench.Polling.Ends.{IsOutcome, poll_to_completion-IsOutcome}
use driftless.Bench.Polling.Traced.{ends_of, poll_to_completion_traced_lem}

abbrev run : Run
run = record {
  started = 100;
  checked = λ k. 100 + k * 50;
  poll_status = λ k. if ltb k 2 then some "ASSIGNED" else some "COMPLETED";
  called = λ k. 101 + k * 50;
  returned = λ k. 105 + k * 50;
  ended = λ k. 106 + k * 50;
}

run-IsPaced : IsPaced run.started run.checked
run-IsPaced = record { first = omega arith; later = λ k. omega arith }

completed_at_205 : poll_to_completion run "t1" 90 1000 ≡ ok (complete "t1" 90 205 "COMPLETED" ∷ [])
unfolding poll_to_completion poll_from has_ended ended_status
completed_at_205 = refl

timed_out_at_156 : poll_to_completion run "t1" 90 30 ≡ ok (timeout "t1" 90 156 ∷ [])
unfolding poll_to_completion poll_from has_ended ended_status
timed_out_at_156 = refl

poll_to_completion-IsOutcome_example :
    IsOutcome run "t1" 90 1100 0 (poll_to_completion run "t1" 90 1000)
poll_to_completion-IsOutcome_example = poll_to_completion-IsOutcome run "t1" 90 1000 run-IsPaced

poll_to_completion_traced_lem_example :
    ends_of (poll_to_completion_traced run "t1" 90 1000) ≡ poll_to_completion run "t1" 90 1000
poll_to_completion_traced_lem_example = poll_to_completion_traced_lem run "t1" 90 1000
