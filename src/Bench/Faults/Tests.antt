-- ===== src/Bench/Faults/Tests.antt =====
-- The verdict at the sample table and history.
use driftless.Prelude.Int.{pos}
use driftless.Prelude.{◌≡◌, refl, some}
use driftless.Bench.Result.{ok}
use driftless.Bench.Faults.{checked, lin_violations_of, analyze}
use driftless.Bench.Faults.Verdict.{Decided, analyze-Decided}
use driftless.Bench.Samples.{
  rows, one_key, one_key-IsBatchGet, history, ids, history-ids, rows-IsKeyed,
}

checked_none : lin_violations_of (checked (some (pos 0))) ≡ ok (pos 0)
unfolding lin_violations_of
checked_none = refl

analyze-Decided_example :
    Decided rows
      (pos 0)
      history
      ids
      (analyze (one_key rows) (one_key rows) (checked (some (pos 0))) history)
analyze-Decided_example =
    analyze-Decided rows rows-IsKeyed (one_key rows) (one_key rows) (one_key-IsBatchGet rows)
      (one_key-IsBatchGet rows) (checked (some (pos 0))) (pos 0) history ids checked_none
      history-ids
