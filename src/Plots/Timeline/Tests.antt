-- ===== src/Plots/Timeline/Tests.antt =====
-- The timeline of two tasks.
use driftless.Prelude.{List, [], ◌∷◌, ◌≡◌, refl}
use driftless.Prelude.Dict.{lookup, insert}
use driftless.Prelude.Int.{pos}
use driftless.Plots.Timeline.{
  Event, submit, poll_observe, complete, other, observed, observations, tuple_leb, is_over, move,
  leave, see, see_all, timeline,
}
use driftless.Plots.Timeline.Counted.{IsTimeline, timeline-IsTimeline}

abbrev events : List Event
events =
    other
    ∷ submit 110 "t1"
    ∷ complete 150 "t1" "COMPLETED"
    ∷ submit 120 "t2"
    ∷ poll_observe 130 "t1" "ASSIGNED"
    ∷ poll_observe 140 "t1" "ASSIGNED"
    ∷ []

last_counts : timeline 100 events ≡ record {
  task_status = ("t1", "COMPLETED") ∷ ("t2", "PENDING") ∷ [];
  pending = pos 1;
  assigned = pos 0;
  completed = pos 1;
  points =
      record { t_ns = pos 10; pending = pos 1; assigned = pos 0; completed = pos 0 }
      ∷ record { t_ns = pos 20; pending = pos 2; assigned = pos 0; completed = pos 0 }
      ∷ record { t_ns = pos 30; pending = pos 1; assigned = pos 1; completed = pos 0 }
      ∷ record { t_ns = pos 50; pending = pos 1; assigned = pos 0; completed = pos 1 }
      ∷ [];
}
unfolding lookup insert observed observations tuple_leb is_over move leave see see_all timeline
last_counts = refl

timeline-IsTimeline_example : IsTimeline (timeline 100 events)
timeline-IsTimeline_example = timeline-IsTimeline 100 events
