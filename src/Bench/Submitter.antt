-- ===== src/Bench/Submitter.antt =====
-- chaos-bench/submitter.py: the three writes of a submission, in their order, and the read of a
-- task's status. The stores are S3, DynamoDB and SQS as far as the submitter sees them; a queued
-- message is the JSON object of its text.
pub mod Backed
mod Tests
use driftless.Prelude.{ℕ, String, Option, none, some, List, [], ◌∷◌, ◌++◌, string_eq}
use driftless.Prelude.Dict.{Dict, lookup, insert}
use driftless.Prelude.Text.{decimal, concat}
use driftless.Bench.Result.{Result, ok, raise, Error}
use driftless.Bench.Table.{Item, text, number, get_s}

pub record Message : Type 0 where
  pub task_id : String
  pub priority : ℕ

pub record Stores : Type 0 where
  pub payloads : Dict String String
  pub tasks : Dict String Item
  pub queue : List Message

-- The exception of each write, if it fails.
pub record Writes : Type 0 where
  pub put_object : Option Error
  pub put_item : Option Error
  pub send_message : Option Error

pub record SubmitResult : Type 0 where
  pub task_id : String
  pub submitted_ns : ℕ

unfoldable pub key_of : String → String
key_of task_id = concat ("tasks/" ∷ task_id ∷ "/payload" ∷ [])

unfoldable pub row_of : String → ℕ → String → Item
unfolding key_of
row_of task_id priority now =
    ("task_id", text task_id)
    ∷ ("status", text "PENDING")
    ∷ ("priority", number (decimal priority))
    ∷ ("s3_key", text (key_of task_id))
    ∷ ("created_at", text now)
    ∷ ("updated_at", text now)
    ∷ []

-- `uuid4`, `utcnow` and `time_ns` give `task_id`, `now` and `submitted_ns`.
unfoldable pub submit :
    Writes
    → (task_id now : String) (submitted_ns : ℕ) (payload : String) (priority : ℕ) → Stores
    → Result SubmitResult × Stores
unfolding row_of
submit writes task_id now submitted_ns payload priority w =
    let w₁ = record w { payloads = insert (key_of task_id) payload w.payloads } in
    let w₂ = record w₁ { tasks = insert task_id (row_of task_id priority now) w.tasks } in
    let m : Message = record { task_id = task_id; priority = priority } in
    let w₃ = record w₂ { queue = w.queue ++ m ∷ [] } in
    elim writes.put_object [
      | some e ↦ (raise e, w)
      | none ↦ elim writes.put_item [
        | some e ↦ (raise e, w₁)
        | none ↦ elim writes.send_message [
          | some e ↦ (raise e, w₂)
          | none ↦ (ok (record { task_id = task_id; submitted_ns = submitted_ns }), w₃)
        ]
      ]
    ]

-- An empty row counts as none.
unfoldable pub poll_status : String → Stores → Option String
poll_status task_id w = elim (lookup task_id w.tasks) [
  | none ↦ none
  | some item ↦ get_s "status" item
]
