-- ===== src/Bench/Polling.antt =====
-- The polls of a submitted task until it has ended: `_poll_to_completion` of chaos-bench/bench.py
-- and `_poll_to_completion_traced` of chaos-bench/exp3.py, for polls that do not raise. Times are in nanoseconds.
pub mod Ends
pub mod Traced
mod Tests
use driftless.Prelude.{
  ℕ, ◌+◌, zero, suc, ltb, String, Bool, true, false, not, ◌&&◌, ◌||◌, Option, none, some, List, [],
  ◌∷◌, ◌++◌, ◌==◌, string_eq, if◌then◌else◌,
}
use driftless.Bench.Result.{Result, ok, raise, out_of_fuel, ◌>>=◌}

-- What the surroundings give to one run of the loop: the reading of the clock at its start, and for
-- the k-th turn the reading of the loop's test, the status polled, the readings before and after the
-- poll, and the reading at the end if that test ends the loop.
pub record Run : Type 0 where
  pub started : ℕ
  pub checked : ℕ → ℕ
  pub poll_status : ℕ → Option String
  pub called : ℕ → ℕ
  pub returned : ℕ → ℕ
  pub ended : ℕ → ℕ

-- What the loop writes into the history.
pub data Entry : Type 0 where
  complete : (task_id : String) (submitted_ns completed_ns : ℕ) (status : String) → Entry
  timeout : (task_id : String) (submitted_ns completed_ns : ℕ) → Entry
  poll_observe : (task_id : String) (call_ns return_ns : ℕ) (status : String) → Entry

-- `status in ("COMPLETED", "FAILED")`
unfoldable pub has_ended : String → Bool
has_ended status = status == "COMPLETED" || status == "FAILED"

-- The status if the task has ended.
unfoldable pub ended_status : Option String → Option String
ended_status none = none
ended_status (some status) = if has_ended status then some status else none

module _ (run : Run) (task_id : String) (submitted_ns deadline : ℕ) where
  -- `while time.time() < deadline`; the turns are counted from `k`.
  unfoldable pub poll_from : ℕ → ℕ → Result (List Entry)
  poll_from zero k = raise out_of_fuel
  poll_from (suc f) k =
      let rest = poll_from f (k + 1) in
      if ltb (run.checked k) deadline
      then (elim (ended_status (run.poll_status k)) [
        | some status ↦ ok (complete task_id submitted_ns (run.returned k) status ∷ [])
        | none ↦ rest
      ])
      else ok (timeout task_id submitted_ns (run.ended k) ∷ [])

  -- `if status: rec.record(op="poll_observe", …)`
  unfoldable pub observed : ℕ → List Entry
  observed k = elim (run.poll_status k) [
    | none ↦ []
    | some status ↦
        if status == ""
        then []
        else poll_observe task_id (run.called k) (run.returned k) status ∷ []
  ]

  unfoldable pub trace_from : ℕ → ℕ → Result (List Entry)
  unfolding observed
  trace_from zero k = raise out_of_fuel
  trace_from (suc f) k =
      let rest = trace_from f (k + 1) in
      if ltb (run.checked k) deadline
      then (elim (ended_status (run.poll_status k)) [
        | some status ↦
            ok (observed k ++ complete task_id submitted_ns (run.returned k) status ∷ [])
        | none ↦ rest >>= λ entries. ok (observed k ++ entries)
      ])
      else ok (timeout task_id submitted_ns (run.ended k) ∷ [])

unfoldable pub poll_to_completion : Run → String → ℕ → ℕ → Result (List Entry)
poll_to_completion run task_id submitted_ns timeout_ns =
    poll_from run task_id submitted_ns (run.started + timeout_ns) (suc timeout_ns) 0

unfoldable pub poll_to_completion_traced : Run → String → ℕ → ℕ → Result (List Entry)
poll_to_completion_traced run task_id submitted_ns timeout_ns =
    trace_from run task_id submitted_ns (run.started + timeout_ns) (suc timeout_ns) 0
