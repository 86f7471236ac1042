-- ===== src/Bench/Polling/Traced.antt =====
-- The traced poll writes what the plain one writes, after the observations of the statuses.
use driftless.Prelude.{
  ℕ, ◌+◌, zero, suc, ltb, String, Bool, true, false, List, [], ◌∷◌, ◌++◌, string_eq, ◌≡◌, refl,
  arith, ap, ◌∙◌, inl, inr, Bool-cases, Option-cases, filter_by,
}
use driftless.Bench.Result.{Result, ok, raise, ◌>>=◌}
use driftless.Bench.Polling.{
  Run, Entry, complete, poll_observe, ended_status, poll_from, trace_from, observed,
  poll_to_completion, poll_to_completion_traced,
}

-- The entry ends the poll.
abbrev pub is_end : Entry → Bool
is_end (poll_observe t c r s) = false
is_end e = true

abbrev pub ends_of : Result (List Entry) → Result (List Entry)
ends_of r = r >>= λ entries. ok (filter_by is_end entries)

module _ (run : Run) (task_id : String) (submitted_ns deadline : ℕ) where
  ends-observed :
      (k : ℕ) (entries : List Entry)
      → filter_by is_end (observed run task_id submitted_ns deadline k ++ entries)
        ≡ filter_by is_end entries
  unfolding observed
  ends-observed k entries = ground arith

  ends_later :
      (k : ℕ) (r : Result (List Entry))
      → ends_of (r >>= λ entries. ok (observed run task_id submitted_ns deadline k ++ entries))
        ≡ ends_of r
  ends_later k (ok entries) = ap ok (ends-observed k entries)
  ends_later k (raise e) = refl

  trace_from-ends :
      (f k : ℕ)
      → ends_of (trace_from run task_id submitted_ns deadline f k)
        ≡ poll_from run task_id submitted_ns deadline f k
  unfolding trace_from poll_from
  trace_from-ends zero k = refl
  trace_from-ends (suc f) k = elim (Bool-cases (ltb (run.checked k) deadline)) [
    | inr over ↦ rw over refl
    | inl early ↦ elim (Option-cases (ended_status (run.poll_status k))) [
      | inr (status, over) ↦
          ground
            (arith, ends-observed k (complete task_id submitted_ns (run.returned k) status ∷ []))
      | inl still ↦ rw early (
          rw (still, trace_from, poll_from)
            (ends_later k (trace_from run task_id submitted_ns deadline f (k + 1))
              ∙ trace_from-ends f (k + 1)))
    ]
  ]

-- Less its observations, the traced poll writes exactly what the plain poll writes in the same
-- surroundings.
pub poll_to_completion_traced_lem :
    (run : Run) (task_id : String) (submitted_ns timeout_ns : ℕ)
    → ends_of (poll_to_completion_traced run task_id submitted_ns timeout_ns)
      ≡ poll_to_completion run task_id submitted_ns timeout_ns
unfolding poll_to_completion_traced poll_to_completion
poll_to_completion_traced_lem run task_id submitted_ns timeout_ns =
    trace_from-ends run task_id submitted_ns (run.started + timeout_ns) (suc timeout_ns) 0
