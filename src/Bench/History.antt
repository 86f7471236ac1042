-- ===== src/Bench/History.antt =====
-- The history of a run (chaos-bench/recorder.py): one JSON object to a line, and the reader of the
-- submitted task ids that chaos-bench/dup_scan.py and chaos-bench/divergence_scan.py share.
pub mod Submitted
use driftless.Prelude.{
  ℕ, String, Bool, true, false, not, ◌&&◌, Option, none, some, List, [], ◌∷◌, ◌++◌, ◌==◌, string_eq,
  if◌then◌else◌, contains,
}
use driftless.Bench.Result.{Result, ok, raise, value_error}

-- The keys of an event that the readers look at; each may be missing.
pub record Event : Type 0 where
  pub op : Option String
  pub task_id : Option String
  pub status : Option String
  pub node_id : Option String
  pub wall_ns : Option ℕ
  pub submitted_ns : Option ℕ
  pub completed_ns : Option ℕ
  pub killed_ns : Option ℕ
  pub redelivered : Option ℕ

-- A line of the file: empty after `strip`, a JSON object, or a text that `json.loads` refuses.
pub data Line : Type 0 where
  blank : Line
  event : Event → Line
  garbled : Line

abbrev pub is_op : String → Event → Bool
is_op name ev = elim ev.op [ none ↦ false | some op ↦ op == name ]

-- The ids in order of first appearance, and the set `seen`.
pub record Ids : Type 0 where
  pub ids : List String
  pub seen : List String

-- `if tid and tid not in seen`
unfoldable pub note_id : String → Ids → Ids
note_id tid acc =
    if not (tid == "") && not (contains acc.seen tid)
    then record { ids = acc.ids ++ tid ∷ []; seen = tid ∷ acc.seen }
    else acc

unfoldable pub note_event : Event → Ids → Ids
unfolding note_id
note_event ev acc =
    if is_op "submit" ev then (elim ev.task_id [ none ↦ acc | some tid ↦ note_id tid acc ]) else acc

unfoldable pub collect_ids : List Line → Ids → Result (List String)
collect_ids [] acc = ok acc.ids
collect_ids (blank ∷ lines) acc = collect_ids lines acc
collect_ids (garbled ∷ lines) acc = raise value_error
collect_ids (event ev ∷ lines) acc = collect_ids lines (note_event ev acc)

unfoldable pub task_ids_from_history : List Line → Result (List String)
unfolding collect_ids note_event
task_ids_from_history lines = collect_ids lines (record { ids = []; seen = [] })
