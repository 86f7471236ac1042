-- ===== src/Bench/History/Submitted.antt =====
-- Which ids a history yields.
use driftless.Prelude.{
  String, Bool, false, not, ◌&&◌, ◌||◌, none, some, List, [], ◌∷◌, ◌≡◌, refl, sym, ◌∙◌, arith, ◌==◌,
  string_eq, inl, inr, contains, contains-append, Unique, append_Unique, any_by, Bool-cases,
  Option-cases,
}
use driftless.Bench.Result.{ok, ok-injective}
use driftless.Bench.History.{
  Event, Line, blank, event, garbled, is_op, Ids, note_id, note_event, collect_ids,
  task_ids_from_history,
}

-- The line is the submission of the task.
abbrev pub submits : String → Line → Bool
submits t (event ev) =
    is_op "submit" ev && (elim ev.task_id [ none ↦ false | some tid ↦ t == tid ]) && not (t == "")
submits t _ = false

-- The two collections hold the same ids, each once.
pub record IsKept (acc : Ids) : Type 0 where
  pub unique : Unique acc.ids
  pub same_ids : (t : String) → contains acc.seen t ≡ contains acc.ids t

note_id-IsKept : (tid : String) (acc : Ids) → IsKept acc → IsKept (note_id tid acc)
unfolding note_id
note_id-IsKept tid acc k = elim (Bool-cases (tid == "")) [
  | inl empty ↦ rw empty k
  | inr named ↦ elim (Bool-cases (contains acc.seen tid)) [
    | inl old ↦ rw named (rw old k)
    | inr new ↦ rw named (
        rw new (record {
          unique = append_Unique acc.ids tid k.unique (sym (k.same_ids tid) ∙ new);
          same_ids = λ t. ground (arith, k.same_ids t, contains-append acc.ids (tid ∷ []) t);
        }))
  ]
]

note_id-ids :
    (tid : String) (acc : Ids) (t : String)
    → IsKept acc
    → contains (note_id tid acc).ids t ≡ (contains acc.ids t || (t == tid && not (t == "")))
unfolding note_id
note_id-ids tid acc t k =
    ground (arith, k.same_ids t, string_eq.same_iff t tid, contains-append acc.ids (tid ∷ []) t)

pub note_event-IsKept : (ev : Event) (acc : Ids) → IsKept acc → IsKept (note_event ev acc)
unfolding note_event
note_event-IsKept ev acc k = elim (Bool-cases (is_op "submit" ev)) [
  | inr other ↦ rw other k
  | inl submit ↦ elim (Option-cases ev.task_id) [
    | inl missing ↦ rw submit (rw (missing, note_event) k)
    | inr (tid, present) ↦ rw submit (rw (present, note_event) (note_id-IsKept tid acc k))
  ]
]

note_event-ids :
    (ev : Event) (acc : Ids) (t : String)
    → IsKept acc
    → contains (note_event ev acc).ids t ≡ (contains acc.ids t || submits t (event ev))
unfolding note_event
note_event-ids ev acc t k = elim (Bool-cases (is_op "submit" ev)) [
  | inr other ↦ ground arith
  | inl submit ↦ elim (Option-cases ev.task_id) [
    | inl missing ↦ ground arith
    | inr (tid, present) ↦ ground (arith, note_id-ids tid acc t k)
  ]
]

collect_ids_lem :
    (lines : List Line) (acc : Ids) {ids : List String}
    → IsKept acc
    → collect_ids lines acc ≡ ok ids
    → Unique ids
      × ((t : String) → contains ids t ≡ (contains acc.ids t || any_by (submits t) lines))
unfolding collect_ids
collect_ids_lem [] acc k h = rw (← ok-injective h) (k.unique, λ t. ground arith)
collect_ids_lem (blank ∷ lines) acc k h = collect_ids_lem lines acc k h
collect_ids_lem (garbled ∷ lines) acc k h = absurd (cc)
collect_ids_lem (event ev ∷ lines) acc k h =
    let (unique, found) =
      collect_ids_lem lines (note_event ev acc) (note_event-IsKept ev acc k) h in
    (unique, λ t. ground (arith, found t, note_event-ids ev acc t k))

-- The ids that are read from a history stand there once each, and they are exactly the nonempty
-- task ids of its submit events; other lines change nothing.
pub task_ids_from_history_lem :
    (lines : List Line) {ids : List String}
    → task_ids_from_history lines ≡ ok ids
    → Unique ids × ((t : String) → contains ids t ≡ any_by (submits t) lines)
unfolding task_ids_from_history
task_ids_from_history_lem lines h =
    collect_ids_lem lines (record { ids = []; seen = [] })
      (record { unique = tt; same_ids = λ t. refl }) h
