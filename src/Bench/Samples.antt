-- ===== src/Bench/Samples.antt =====
-- A small table behind a service that processes one key to a call, and a history.
use driftless.Prelude.{
  ℕ, String, Option, none, some, List, [], ◌∷◌, ◌++◌, ◌≡◌, refl, arith, inl, inr, ◌==◌, string_eq,
  if◌then◌else◌, All, Option-cases,
}
use driftless.Prelude.Dict.{lookup}
use driftless.Bench.Result.{ok}
use driftless.Bench.Table.{text, number, Item, Reply, got, IsBatchGet, get_s}
use driftless.Bench.History.{
  Line, blank, event, task_ids_from_history, collect_ids, note_event, note_id,
}
use driftless.Bench.DupScan.Sound.{IsKeyed}
use mathlib.Core.List.Perm
use mathlib.Core.List.{Perm, filter_map}

abbrev row : String → String → String → Item
row tid status count =
    ("task_id", text tid) ∷ ("status", text status) ∷ ("receive_count", number count) ∷ []

abbrev pub rows : String → Option Item
rows k =
    if k == "t1"
    then some (row "t1" "COMPLETED" "3")
    else if k == "t2"
    then some (row "t2" "PENDING" "1")
    else none

module _ (table : String → Option Item) where
  abbrev item_of : String → List Item
  item_of k = elim (table k) [ none ↦ [] | some i ↦ i ∷ [] ]

  -- Answers for the first key only.
  abbrev pub one_key : ℕ → List String → Reply
  one_key n [] = got [] []
  one_key n (k ∷ keys) = got (item_of k) keys

  got-injective :
      {items items' : List Item} {rest rest' : List String}
      → got items rest ≡ got items' rest'
      → (items ≡ items') × (rest ≡ rest')
  got-injective h = (cc, cc)

  of_one : (k : String) → Perm (item_of k) (filter_map table (k ∷ []))
  unfolding filter_map
  of_one k = elim (Option-cases (table k)) [
    | inl absent ↦ rw (absent, item_of) Perm.rfl
    | inr (i, present) ↦ rw (present, item_of) Perm.rfl
  ]

  of_table : (k : String) → All (λ i. (j : String) × (table j ≡ some i)) (item_of k)
  of_table k = elim (Option-cases (table k)) [
    | inl absent ↦ rw (absent, item_of, All) tt
    | inr (i, present) ↦ rw (present, item_of, All) ((k, present), tt)
  ]

  serves :
      (n : ℕ) (keys : List String) (items : List Item) (rest : List String)
      → one_key n keys ≡ got items rest
      → (done : List String) × Perm (done ++ rest) keys × Perm items (filter_map table done)
  unfolding filter_map
  serves n [] items rest h =
      let (i, r) = got-injective h in ([], rw (← r) Perm.rfl, rw (← i) Perm.rfl)
  serves n (k ∷ keys) items rest h =
      let (i, r) = got-injective h in (k ∷ [], rw (← r) Perm.rfl, rw (← i) (of_one k))

  holds :
      (n : ℕ) (keys : List String) (items : List Item) (rest : List String)
      → one_key n keys ≡ got items rest
      → All (λ i. (k : String) × (table k ≡ some i)) items
  holds n [] items rest h = rw (← (got-injective h).0) tt
  holds n (k ∷ keys) items rest h = rw (← (got-injective h).0) (of_table k)

  pub one_key-IsBatchGet : IsBatchGet table one_key
  one_key-IsBatchGet = record {
    fewer = λ n k keys items rest h. rw (← (got-injective h).1) (omega arith);
    served = serves;
    held = holds;
  }

abbrev pub submitted : String → Line
submitted tid = event (record {
  op = some "submit";
  task_id = some tid;
  status = none;
  node_id = none;
  wall_ns = none;
  submitted_ns = none;
  completed_ns = none;
  killed_ns = none;
  redelivered = none;
})

abbrev pub history : List Line
history = submitted "t1" ∷ blank ∷ submitted "t2" ∷ submitted "t1" ∷ submitted "t3" ∷ []

abbrev pub ids : List String
ids = "t1" ∷ "t2" ∷ "t3" ∷ []

pub history-ids : task_ids_from_history history ≡ ok ids
unfolding task_ids_from_history collect_ids note_event note_id
history-ids = refl

pub rows-IsKeyed : IsKeyed rows
unfolding lookup get_s
rows-IsKeyed k i h = ground (arith, string_eq.same_iff k "t1", string_eq.same_iff k "t2")
