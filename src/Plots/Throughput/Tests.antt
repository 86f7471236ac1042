-- ===== src/Plots/Throughput/Tests.antt =====
-- The counts of a short history.
use driftless.Prelude.{ℕ, String, Option, none, some, List, [], ◌∷◌, ◌≡◌, refl, string_eq, All}
use driftless.Prelude.Dict.{lookup, insert}
use driftless.Prelude.Int.{pos}
use driftless.Bench.Result.{ok}
use driftless.Bench.History.{Event}
use driftless.Plots.Throughput.{
  bump, whole_seconds, note_complete, note, note_all, outcomes, analyze,
}
use driftless.Plots.Throughput.Counts.{IsTimed}

abbrev event : String → Option String → Option ℕ → Option ℕ → Option ℕ → Event
event op status wall submitted completed = record {
  op = some op;
  task_id = none;
  status = status;
  node_id = none;
  wall_ns = wall;
  submitted_ns = submitted;
  completed_ns = completed;
  killed_ns = none;
  redelivered = none;
}

abbrev events : List Event
events =
    event "run_start" none (some 1000000000) none none
    ∷ event "complete" (some "COMPLETED") none (some 1500000000) (some 2200000000)
    ∷ event "complete" (some "FAILED") none (some 1600000000) (some 2900000000)
    ∷ event "timeout" (some "TIMEOUT") none (some 1700000000) none
    ∷ []

counts_of_events :
    analyze events
    ≡ ok (record {
      completed_count = 1;
      failed_count = 1;
      timeout_count = 1;
      completions_by_sec = (pos 1, 2) ∷ [];
      latencies_ns = pos 700000000 ∷ pos 1300000000 ∷ [];
    })
unfolding lookup insert bump whole_seconds note_complete note note_all outcomes analyze
counts_of_events = refl

events-IsTimed : All IsTimed events
events-IsTimed =
    (λ h. absurd (cc), (λ h. (refl, refl), (λ h. (refl, refl), (λ h. absurd (cc), tt))))
