-- ===== src/Bench/Campaign/Held.antt =====
-- What the fault loops of a run stopped, told in its history or about to be told.
use driftless.Prelude.{
  ℕ, ◌+◌, Bool, count_by, count_by-append, arith, String, List, [], ◌∷◌, ◌++◌, ◌≡◌, refl, sym, ap,
}
use driftless.Bench.Result.{Result, ok, raise}
use driftless.Bench.LeaderTracker.{track}
use driftless.Bench.Chaos.{Fault, kill_turn, kill_leader_turn, kill_follower_turn, redeliver_turn}
use driftless.Bench.Campaign.Entries.{
  Entry, poll_observe, fault, run_end, Loop, leaders, redeliveries,
}
use driftless.Bench.Campaign.{
  Kind, exp1, exp3, Watch, sleeping, turning, left, recording, Watches, watch, turn_to, Campaign,
  start, after_turn, after_kill_turn, Move, Reaches, works, observes, begins, leaves, kills,
  kills_leader, kills_follower, redelivers, records, tracks, stops, ends, here, next,
}
use driftless.Bench.Campaign.Told.{
  told_of, told, told-append, IsTold, kill_leader_turn-told, kill_follower_turn-told,
  kill_turn-IsTold, redeliver_turn-told, told-entries, told-seen,
}

-- The tasks that a loop stopped and has not recorded yet.
abbrev pub pending : Watch → List String
pending sleeping = []
pending turning = []
pending left = []
pending (recording f) = told_of f

abbrev pub held : Watches → List String
held ws = pending ws.leader_kill ++ pending ws.follower_kill ++ pending ws.sqs_redeliver

-- The stopped tasks that pass a test are those that the history tells or a loop holds.
abbrev IsBalanced : (String → Bool) → Campaign → Type 0
IsBalanced test c =
    count_by test c.killed ≡ count_by test (told c.history) + count_by test (held c.loops)

module _ (test : String → Bool) where
  pub count_held :
      (ws : Watches)
      → count_by test (held ws)
        ≡ count_by test (pending ws.leader_kill)
          + count_by test (pending ws.follower_kill)
          + count_by test (pending ws.sqs_redeliver)
  count_held ws = omega (
    arith,
    count_by-append test (pending ws.leader_kill ++ pending ws.follower_kill)
        (pending ws.sqs_redeliver),
    count_by-append test (pending ws.leader_kill) (pending ws.follower_kill),
  )

  held-turn_to :
      (l : Loop) (w : Watch) (ws : Watches)
      → count_by test (held (turn_to l w ws)) + count_by test (pending (watch l ws))
        ≡ count_by test (held ws) + count_by test (pending w)
  held-turn_to leaders w ws = rw (count_held (turn_to leaders w ws)) (omega (arith, count_held ws))
  held-turn_to Loop.followers w ws =
      rw (count_held (turn_to Loop.followers w ws)) (omega (arith, count_held ws))
  held-turn_to redeliveries w ws =
      rw (count_held (turn_to redeliveries w ws)) (omega (arith, count_held ws))

  module _ (c : Campaign) (h : IsBalanced test c) where
    -- Some more entries that tell no kill.
    told-aside :
        (es : List (ℕ × Entry))
        → told es ≡ []
        → IsBalanced test (record c { history = c.history ++ es })
    told-aside es e = omega (
      arith,
      h,
      ap (count_by test) (told-append c.history es),
      count_by-append test (told c.history) (told es),
      ap (count_by test) e,
    )

    -- A loop goes on, with what it holds and what it stopped.
    after_turn-IsBalanced :
        (l : Loop) (w : Watch) (stopped : List String)
        → pending (watch l c.loops) ≡ []
        → pending w ≡ stopped
        → IsBalanced test (after_turn l w stopped c)
    after_turn-IsBalanced l w stopped empty holds = omega (
      arith,
      h,
      held-turn_to l w c.loops,
      ap (count_by test) empty,
      ap (count_by test) holds,
      count_by-append test c.killed stopped,
    )

    turn_to-IsBalanced :
        (l : Loop) (w : Watch)
        → pending (watch l c.loops) ≡ []
        → pending w ≡ []
        → IsBalanced test (record c { loops = turn_to l w c.loops })
    turn_to-IsBalanced l w empty holds =
        omega
          (arith, h, held-turn_to l w c.loops, ap (count_by test) empty, ap (count_by test) holds)

    after_kill_turn-IsBalanced :
        (turn : Result Fault × List String)
        → IsTold turn
        → pending c.loops.leader_kill ≡ []
        → IsBalanced test (after_kill_turn turn c)
    after_kill_turn-IsBalanced (ok f, stopped) e empty =
        after_turn-IsBalanced leaders (recording f) stopped empty e
    after_kill_turn-IsBalanced (raise x, stopped) e empty =
        after_turn-IsBalanced leaders left stopped empty (sym e)

    records-IsBalanced :
        (l : Loop) (now : ℕ) (f : Fault)
        → watch l c.loops ≡ recording f
        → IsBalanced test (record c {
          loops = turn_to l sleeping c.loops;
          history = c.history ++ (now, fault l f) ∷ [];
        })
    records-IsBalanced l now f e = omega (
      arith,
      h,
      held-turn_to l sleeping c.loops,
      ap (λ w. count_by test (pending w)) e,
      ap (count_by test) (told-append c.history ((now, fault l f) ∷ [])),
      count_by-append test (told c.history) (told_of f ++ []),
      count_by-append test (told_of f) [],
    )

Move-IsBalanced :
    (kind : Kind) (test : String → Bool) (c d : Campaign)
    → Move kind c d
    → IsBalanced test c
    → IsBalanced test d
Move-IsBalanced kind test c _ (works _ now v s m) h =
    told-aside test c h _ (told-entries now c.work v s)
Move-IsBalanced kind test c _ (observes _ target now before after job status k e) h =
    told-aside test c h ((now, poll_observe job status) ∷ []) refl
Move-IsBalanced kind test c _ (begins _ l p e) h =
    turn_to-IsBalanced test c h l turning (ap pending p) refl
Move-IsBalanced kind test c _ (leaves _ l p e) h =
    turn_to-IsBalanced test c h l left (ap pending p) refl
Move-IsBalanced kind test c _ (kills _ host found k p) h =
    after_kill_turn-IsBalanced test c h (kill_turn host found) (kill_turn-IsTold host found)
      (ap pending p)
Move-IsBalanced kind test c _ (kills_leader _ target host found k p) h =
    after_turn-IsBalanced test c h leaders (recording (kill_leader_turn host found).0) _
      (ap pending p) (kill_leader_turn-told host found)
Move-IsBalanced kind test c _ (kills_follower _ host services found p) h =
    after_turn-IsBalanced test c h Loop.followers
      (recording (kill_follower_turn host services found).0) _ (ap pending p)
      (kill_follower_turn-told host services found)
Move-IsBalanced kind test c _ (redelivers _ change receive p) h =
    after_turn-IsBalanced test c h redeliveries (recording (redeliver_turn change receive)) _
      (ap pending p) (redeliver_turn-told change receive)
Move-IsBalanced kind test c _ (records _ l now f e) h = records-IsBalanced test c h l now f e
Move-IsBalanced kind test c _ (tracks _ now peek) h =
    told-aside test c h _ (told-seen now (track c.last_leader (peek ∷ [])))
Move-IsBalanced kind test c _ (stops _ m) h = h
Move-IsBalanced kind test c _ (ends _ now e o) h = told-aside test c h ((now, run_end) ∷ []) refl

-- At each point of a run of experiment 1 or 3, whatever the order of its threads' steps and whichever
-- calls of theirs raised, the tasks that the fault loops stopped are exactly those whose kill the
-- history tells and those whose kill a loop is about to record; counted by an arbitrary test, both
-- sides are the same tasks.
pub Reaches-told :
    (kind : Kind) (now : ℕ) (c : Campaign)
    → Reaches kind (start kind now) c
    → (test : String → Bool)
    → count_by test c.killed ≡ count_by test (told c.history) + count_by test (held c.loops)
Reaches-told exp1 now _ here test = omega arith
Reaches-told (exp3 target) now _ here test = omega arith
Reaches-told kind now c (next r m) test =
    Move-IsBalanced kind test _ c m (Reaches-told kind now _ r test)
