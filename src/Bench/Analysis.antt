-- ===== src/Bench/Analysis.antt =====
-- The metrics of a finished run: `analyze` of chaos-bench/exp1.py.
-- Times are whole nanoseconds; a mean is the pair of its sum and its count.
pub mod Pct
pub mod Gaps
pub mod Tasks
pub mod Sets
mod Tests
use driftless.Prelude.{
  ℕ, ◌+◌, ◌-◌, ◌*◌, zero, suc, ltb, leb, String, Bool, true, false, Option, none, some, List, [],
  ◌∷◌, ◌++◌, ◌==◌, string_eq, if◌then◌else◌, length, get_elem?, sort, contains, get_or,
}
use driftless.Prelude.Dict.{Dict, insert}
use driftless.Prelude.Round.{round_half_even}
use driftless.Bench.Result.{Result, ok, raise, key_error, value_error, index_error, ◌>>=◌}
use driftless.Bench.History.{Event, Line, blank, event, garbled, is_op}

-- The local variables of the loop over the history; `timeouts` is a set, whose order is not used.
pub record Tally : Type 0 where
  pub submits : Dict String ℕ
  pub completes : Dict String ℕ
  pub timeouts : List String
  pub kills : List ℕ
  pub leader_events : List (ℕ × String)

-- `ev["task_id"]` and `ev["node_id"]`
abbrev pub required : Option String → Result String
required none = raise key_error
required (some s) = ok s

unfoldable pub set_add : String → List String → List String
set_add tid set = if contains set tid then set else set ++ tid ∷ []

-- The body of the loop, for one event.
unfoldable pub note : Event → Tally → Result Tally
unfolding set_add
note ev t =
    if is_op "submit" ev
    then (required ev.task_id >>= λ tid.
        ok (record t { submits = insert tid (get_or ev.submitted_ns 0) t.submits }))
    else if is_op "complete" ev
    then (required ev.task_id >>= λ tid.
        ok (record t { completes = insert tid (get_or ev.completed_ns 0) t.completes }))
    else if is_op "timeout" ev
    then (required ev.task_id >>= λ tid. ok (record t { timeouts = set_add tid t.timeouts }))
    else if is_op "chaos.kill_leader" ev
    then ok (record t { kills = t.kills ++ get_or ev.killed_ns (get_or ev.wall_ns 0) ∷ [] })
    else if is_op "leader_observed" ev
    then (required ev.node_id >>= λ nid.
        ok (record t { leader_events = t.leader_events ++ (get_or ev.wall_ns 0, nid) ∷ [] }))
    else ok t

unfoldable pub tally : List Line → Tally → Result Tally
unfolding note
tally [] t = ok t
tally (blank ∷ lines) t = tally lines t
tally (garbled ∷ lines) t = raise value_error
tally (event ev ∷ lines) t = note ev t >>= tally lines

-- The time from a kill to the first leader event strictly after it.
unfoldable pub first_after : ℕ → List (ℕ × String) → Option ℕ
first_after k [] = none
first_after k ((ts, nid) ∷ events) = if ltb k ts then some (ts - k) else first_after k events

unfoldable pub convergence : List ℕ → List (ℕ × String) → List ℕ
unfolding first_after
convergence [] events = []
convergence (k ∷ kills) events = elim (first_after k events) [
  | none ↦ convergence kills events
  | some d ↦ d ∷ convergence kills events
]

abbrev pub smaller : ℕ → ℕ → ℕ
smaller a b = if leb a b then a else b

-- `xs_sorted[max(0, min(len(xs_sorted) - 1, int(round(p / 100 * (len(xs_sorted) - 1)))))]`
unfoldable pub pct : List ℕ → ℕ → Result ℕ
pct [] p = ok 0
pct (x ∷ xs) p =
    let sorted = sort leb (x ∷ xs) in
    let last = length sorted - 1 in
    elim (get_elem? sorted (smaller last (round_half_even (p * last) 100))) [
      | none ↦ raise index_error
      | some v ↦ ok v
    ]

abbrev pub total : List ℕ → ℕ
total [] = 0
total (x ∷ xs) = x + total xs

abbrev pub largest : List ℕ → ℕ
largest [] = 0
largest (x ∷ xs) = if leb x (largest xs) then largest xs else x

pub record Analysis : Type 0 where
  pub kill_count : ℕ
  pub convergence_samples : ℕ
  pub convergence_p50 : ℕ
  pub convergence_p95 : ℕ
  pub convergence_mean : ℕ × ℕ
  pub convergence_max : ℕ
  pub submitted : ℕ
  pub completed : ℕ
  pub timed_out : ℕ
  pub lost : ℕ
  pub leader_change_count : ℕ

unfoldable pub summary : Tally → Result Analysis
unfolding pct convergence
summary t =
    let samples = convergence t.kills t.leader_events in
    pct samples 50 >>= λ p50. pct samples 95 >>= λ p95. ok (record {
      kill_count = length t.kills;
      convergence_samples = length samples;
      convergence_p50 = p50;
      convergence_p95 = p95;
      convergence_mean = (total samples, length samples);
      convergence_max = largest samples;
      submitted = length t.submits;
      completed = length t.completes;
      timed_out = length t.timeouts;
      lost = length t.submits - length t.completes - length t.timeouts;
      leader_change_count = length t.leader_events;
    })

abbrev pub empty : Tally
empty = record { submits = []; completes = []; timeouts = []; kills = []; leader_events = [] }

unfoldable pub analyze : List Line → Result Analysis
unfolding tally summary
analyze lines = tally lines empty >>= summary
