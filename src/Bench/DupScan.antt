-- ===== src/Bench/DupScan.antt =====
-- chaos-bench/dup_scan.py: the tasks of a history whose row was received more than once.
pub mod Sound
use driftless.Prelude.{
  ℕ, String, Bool, true, false, Option, none, some, List, [], ◌∷◌, ◌++◌, ◌==◌, string_eq,
  if◌then◌else◌, length,
}
use driftless.Prelude.Dict.{Dict, lookup}
use driftless.Prelude.Int.{ℤ, pos, ltb_ℤ, parse_int}
use driftless.Bench.Result.{Result, ok, raise, key_error, ◌>>=◌}
use driftless.Bench.History.{Line, task_ids_from_history}
use driftless.Bench.Table.{Item, Reply, get_n, get_s, scan_table}
use driftless.Prelude.{take}

pub record DupScanResult : Type 0 where
  pub total_scanned : ℕ
  pub duplicate_count : ℕ
  pub duplicate_task_ids : List String
  pub max_receive_count : ℤ

-- The fields that `to_dict` prints: the ids are cut to a sample of 20.
pub record Printed : Type 0 where
  pub total_scanned : ℕ
  pub duplicate_count : ℕ
  pub max_receive_count : ℤ
  pub duplicate_task_ids_sample : List String

unfoldable pub to_dict : DupScanResult → Printed
to_dict r = record {
  total_scanned = r.total_scanned;
  duplicate_count = r.duplicate_count;
  max_receive_count = r.max_receive_count;
  duplicate_task_ids_sample = take 20 r.duplicate_task_ids;
}

-- The local variables of the scan: `dup_ids` and `max_rc`.
pub record Dups : Type 0 where
  pub dup_ids : List String
  pub max_rc : ℤ

-- `int(rc_attr)`, None where the attribute is missing or no whole number.
unfoldable pub receive_count : Item → Option ℤ
receive_count item = elim (get_n "receive_count" item) [ none ↦ none | some n ↦ parse_int n ]

abbrev more : ℤ → ℤ → ℤ
more rc max_rc = if ltb_ℤ max_rc rc then rc else max_rc

-- `item["task_id"]["S"]`, behind the test that the row is a duplicate.
unfoldable pub add_dup : ℤ → Item → Dups → Result Dups
add_dup rc item acc =
    let seen = record acc { max_rc = more rc acc.max_rc } in
    if ltb_ℤ (pos 1) rc
    then (elim (get_s "task_id" item) [
      | none ↦ raise key_error
      | some tid ↦ ok (record seen { dup_ids = acc.dup_ids ++ tid ∷ [] })
    ])
    else ok seen

-- The body of the loop over the items of a response.
unfoldable pub visit_dup : Item → Dups → Result Dups
unfolding add_dup
visit_dup item acc = elim (receive_count item) [ none ↦ ok acc | some rc ↦ add_dup rc item acc ]

unfoldable pub report : List String → Dups → DupScanResult
report ids acc = record {
  total_scanned = length ids;
  duplicate_count = length acc.dup_ids;
  duplicate_task_ids = acc.dup_ids;
  max_receive_count = acc.max_rc;
}

unfoldable pub scan : (ℕ → List String → Reply) → List Line → Result DupScanResult
unfolding report
scan batch_get lines = task_ids_from_history lines >>= λ ids.
    scan_table batch_get visit_dup ids (record { dup_ids = []; max_rc = pos 0 }) >>= λ acc.
    ok (report ids acc)
