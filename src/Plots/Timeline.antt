-- ===== src/Plots/Timeline.antt =====
-- `fig_task_state_timeline` of experiments/exp3/plot_exp3.py: how many tasks are pending, assigned and
-- completed over time, from the events that experiment 3 records. The counters are integers.
pub mod Moves
pub mod Counted
mod Tests
use driftless.Prelude.{
  ℕ, zero, suc, ltb, leb, String, Bool, true, false, ◌||◌, ◌&&◌, Option, none, some, List, [], ◌∷◌,
  ◌++◌, ◌==◌, string_eq, nat_eq, if◌then◌else◌, sort,
}
use driftless.Prelude.Dict.{Dict, lookup, insert}
use driftless.Prelude.Int.{ℤ, pos, negsuc, sub_ℕ}
use driftless.Prelude.Text.{str_leb}

-- The events that the figure reads, with the fields that it reads of them.
pub data Event : Type 0 where
  submit : (wall_ns : ℕ) (task_id : String) → Event
  poll_observe : (return_ns : ℕ) (task_id status : String) → Event
  complete : (completed_ns : ℕ) (task_id status : String) → Event
  other : Event

pub record Observation : Type 0 where
  pub ns : ℕ
  pub task_id : String
  pub status : String

unfoldable pub observed : Event → List Observation
observed (submit ns tid) = record { ns = ns; task_id = tid; status = "PENDING" } ∷ []
observed (poll_observe ns tid status) = record { ns = ns; task_id = tid; status = status } ∷ []
observed (complete ns tid status) = record { ns = ns; task_id = tid; status = status } ∷ []
observed other = []

-- The loop that builds `obs`.
unfoldable pub observations : List Event → List Observation
unfolding observed
observations [] = []
observations (e ∷ events) = observed e ++ observations events

-- The order of the tuples.
unfoldable pub tuple_leb : Observation → Observation → Bool
tuple_leb a b =
    ltb a.ns b.ns
    || (a.ns == b.ns
        && (if a.task_id == b.task_id
            then str_leb a.status b.status
            else str_leb a.task_id b.task_id))

abbrev pub inc : ℤ → ℤ
inc (pos n) = pos (suc n)
inc (negsuc zero) = pos 0
inc (negsuc (suc n)) = negsuc n

abbrev pub dec : ℤ → ℤ
dec (pos zero) = negsuc 0
dec (pos (suc n)) = pos n
dec (negsuc n) = negsuc (suc n)

-- A point of the three curves, its time from the start of the run.
pub record Point : Type 0 where
  pub t_ns : ℤ
  pub pending : ℤ
  pub assigned : ℤ
  pub completed : ℤ

pub record Timeline : Type 0 where
  pub task_status : Dict String String
  pub pending : ℤ
  pub assigned : ℤ
  pub completed : ℤ
  pub points : List Point

-- `status in ("COMPLETED", "FAILED")`
unfoldable pub is_over : String → Bool
is_over status = status == "COMPLETED" || status == "FAILED"

-- The two chains of `if … elif …`, with what each does to a counter.
unfoldable pub move : (ℤ → ℤ) → String → Timeline → Timeline
unfolding is_over
move step status t =
    if status == "PENDING"
    then record t { pending = step t.pending }
    else if status == "ASSIGNED"
    then record t { assigned = step t.assigned }
    else if is_over status
    then record t { completed = step t.completed }
    else t

unfoldable pub leave : Option String → Timeline → Timeline
unfolding move
leave none t = t
leave (some old) t = move dec old t

abbrev pub is_old : Option String → String → Bool
is_old none status = false
is_old (some old) status = old == status

-- The body of the loop over the sorted observations.
unfoldable pub see : ℕ → Observation → Timeline → Timeline
unfolding leave move
see run_start_ns o t =
    let old = lookup o.task_id t.task_status in
    let moved = move inc o.status (leave old t) in
    if is_old old o.status then t else record {
      task_status = insert o.task_id o.status t.task_status;
      pending = moved.pending;
      assigned = moved.assigned;
      completed = moved.completed;
      points =
          t.points
          ++ record {
            t_ns = sub_ℕ o.ns run_start_ns;
            pending = moved.pending;
            assigned = moved.assigned;
            completed = moved.completed;
          }
            ∷ [];
    }

unfoldable pub see_all : ℕ → List Observation → Timeline → Timeline
unfolding see
see_all run_start_ns [] t = t
see_all run_start_ns (o ∷ os) t = see_all run_start_ns os (see run_start_ns o t)

abbrev pub empty : Timeline
empty = record {
  task_status = [];
  pending = pos 0;
  assigned = pos 0;
  completed = pos 0;
  points = [];
}

unfoldable pub timeline : ℕ → List Event → Timeline
unfolding see_all observations tuple_leb
timeline run_start_ns events = see_all run_start_ns (sort tuple_leb (observations events)) empty
