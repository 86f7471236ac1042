-- ===== src/Bench/FollowerRecovery/Tests.antt =====
-- The recovery of a follower over two turns.
use driftless.Prelude.{ℕ, String, Option, none, some, List, [], ◌∷◌, ◌≡◌, refl}
use driftless.Prelude.Int.{parse_int, pos}
use driftless.Bench.FollowerRecovery.{
  LogEvent, Turn, filter_events, first_event, see_restart, see_snapshot, target, walk, see_catchup,
  look, observe_from, observe, to_dict,
}
use driftless.Bench.FollowerRecovery.Milestones.{IsTimeline, observe-IsTimeline}

program : Unit {0}
unfolding parse_int filter_events first_event see_restart see_snapshot target walk see_catchup look
    observe_from observe to_dict
program = tt

-- The samples' messages are the numbers alone.
abbrev number : String → Option ℕ
number s = elim (parse_int s) [ some (pos n) ↦ some n | _ ↦ none ]

abbrev at : ℕ → String → LogEvent
at timestamp message = record { timestamp = timestamp; message = message }

abbrev turns : List Turn
turns =
    record { started = (at 5 "" ∷ []) ∷ []; restored = []; ticks = (at 5 "90" ∷ []) ∷ [] }
    ∷ record {
      started = (at 5 "" ∷ at 20 "" ∷ []) ∷ [];
      restored = (at 21 "40" ∷ []) ∷ [];
      ticks = (at 5 "90" ∷ at 22 "60" ∷ []) ∷ (at 23 "85" ∷ at 24 "95" ∷ at 25 "99" ∷ []) ∷ [];
    }
    ∷ []

caught_up_at_24 : (observe number number 10 "c" 10000000 100 turns).catchup_ns ≡ some 24000000
unfolding program
caught_up_at_24 = refl

observe-IsTimeline_example :
    IsTimeline 10000000 100 10 (observe number number 10 "c" 10000000 100 turns)
observe-IsTimeline_example = observe-IsTimeline number number 10 10000000 100 "c" turns
