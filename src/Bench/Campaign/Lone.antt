-- ===== src/Bench/Campaign/Lone.antt =====
-- The kills of experiment 1, which has the loop of the leader kills only.
use driftless.Prelude.{
  ℕ, ◌+◌, String, Bool, true, false, not, List, [], ◌∷◌, ◌++◌, ◌≡◌, refl, ap, sym, ◌∙◌, arith,
  count_by, count_by-append, count_by-all, length,
}
use driftless.Bench.Result.{Result, ok, raise}
use driftless.Bench.Chaos.{Fault, skip, killed, sqs_redeliver, error, kill_turn}
use driftless.Bench.LeaderTracker.{track}
use driftless.Bench.Campaign.Entries.{
  Entry, run_start, submit, submit_error, poll_observe, outcome, fault, seen, run_end, Loop,
  leaders, followers, redeliveries,
}
use driftless.Bench.Campaign.{
  exp1, left, Campaign, start, entries, after_kill_turn, Move, Reaches, works, observes, begins,
  leaves, kills, kills_leader, kills_follower, redelivers, records, tracks, stops, ends, here, next,
}
use driftless.Bench.Campaign.Told.{told, told-entries, told-seen}
use driftless.Bench.Campaign.Held.{pending, count_held, Reaches-told}

-- The kills of the leader loop, and those of the others.
abbrev kill_by : (Loop → Bool) → Fault → Loop → Bool
kill_by test (killed res) l = test l
kill_by test (skip reason) l = false
kill_by test (sqs_redeliver n) l = false
kill_by test (error e) l = false

abbrev is_leaders : Loop → Bool
is_leaders leaders = true
is_leaders followers = false
is_leaders redeliveries = false

abbrev pub is_kill : ℕ × Entry → Bool
is_kill (t, fault l f) = kill_by is_leaders f l
is_kill (t, e) = false

abbrev is_stray : ℕ × Entry → Bool
is_stray (t, fault l f) = kill_by (λ l. not (is_leaders l)) f l
is_stray (t, e) = false

kills-told : (es : List (ℕ × Entry)) → count_by is_kill es + count_by is_stray es ≡ length (told es)
kills-told [] = omega arith
kills-told ((t, run_start) ∷ es) = omega (arith, kills-told es)
kills-told ((t, submit job) ∷ es) = omega (arith, kills-told es)
kills-told ((t, submit_error) ∷ es) = omega (arith, kills-told es)
kills-told ((t, poll_observe job s) ∷ es) = omega (arith, kills-told es)
kills-told ((t, outcome job ns s) ∷ es) = omega (arith, kills-told es)
kills-told ((t, fault l (skip reason)) ∷ es) = omega (arith, kills-told es)
kills-told ((t, fault leaders (killed res)) ∷ es) = omega (arith, kills-told es)
kills-told ((t, fault followers (killed res)) ∷ es) = omega (arith, kills-told es)
kills-told ((t, fault redeliveries (killed res)) ∷ es) = omega (arith, kills-told es)
kills-told ((t, fault l (sqs_redeliver n)) ∷ es) = omega (arith, kills-told es)
kills-told ((t, fault l (error e)) ∷ es) = omega (arith, kills-told es)
kills-told ((t, seen s) ∷ es) = omega (arith, kills-told es)
kills-told ((t, run_end) ∷ es) = omega (arith, kills-told es)

-- The other two loops have left, and no kill is theirs.
record IsLone (c : Campaign) : Type 0 where
  no_follower_kill : c.loops.follower_kill ≡ left
  no_redeliver : c.loops.sqs_redeliver ≡ left
  no_stray : count_by is_stray c.history ≡ 0

module _ (c : Campaign) (a : IsLone c) where
  -- Entries that tell no kill, and a leader turn's.
  lone-aside : (es : List (ℕ × Entry)) → told es ≡ [] → count_by is_stray (c.history ++ es) ≡ 0
  lone-aside es e =
      omega (arith, a.no_stray, count_by-append is_stray c.history es, kills-told es, ap length e)

  lone-turn :
      (now : ℕ) (f : Fault) → count_by is_stray (c.history ++ (now, fault leaders f) ∷ []) ≡ 0
  lone-turn now f = omega (
    arith,
    a.no_stray,
    count_by-append is_stray c.history ((now, fault leaders f) ∷ []),
    of_leaders f,
  )
    where
      of_leaders : (f : Fault) → count_by is_stray ((now, fault leaders f) ∷ []) ≡ 0
      of_leaders (skip reason) = refl
      of_leaders (killed res) = refl
      of_leaders (sqs_redeliver n) = refl
      of_leaders (error e) = refl

  after_kill_turn-IsLone : (turn : Result Fault × List String) → IsLone (after_kill_turn turn c)
  after_kill_turn-IsLone (ok f, stopped) = record {
    no_follower_kill = a.no_follower_kill;
    no_redeliver = a.no_redeliver;
    no_stray = a.no_stray;
  }
  after_kill_turn-IsLone (raise e, stopped) = record {
    no_follower_kill = a.no_follower_kill;
    no_redeliver = a.no_redeliver;
    no_stray = a.no_stray;
  }

  append-IsLone :
      (es : List (ℕ × Entry)) → told es ≡ [] → IsLone (record c { history = c.history ++ es })
  append-IsLone es e = record {
    no_follower_kill = a.no_follower_kill;
    no_redeliver = a.no_redeliver;
    no_stray = lone-aside es e;
  }

Move-IsLone : (c d : Campaign) → Move exp1 c d → IsLone c → IsLone d
Move-IsLone c _ (works _ now v s m) a = record {
  no_follower_kill = a.no_follower_kill;
  no_redeliver = a.no_redeliver;
  no_stray = lone-aside c a (entries now c.work v s) (told-entries now c.work v s);
}
Move-IsLone c _ (observes _ target now before after job status k e) a =
    append-IsLone c a ((now, poll_observe job status) ∷ []) refl
Move-IsLone c _ (begins _ leaders p e) a = record {
  no_follower_kill = a.no_follower_kill;
  no_redeliver = a.no_redeliver;
  no_stray = a.no_stray;
}
Move-IsLone c _ (begins _ followers p e) a = absurd (cc (sym p ∙ a.no_follower_kill))
Move-IsLone c _ (begins _ redeliveries p e) a = absurd (cc (sym p ∙ a.no_redeliver))
Move-IsLone c _ (leaves _ leaders p e) a = record {
  no_follower_kill = a.no_follower_kill;
  no_redeliver = a.no_redeliver;
  no_stray = a.no_stray;
}
Move-IsLone c _ (leaves _ followers p e) a = absurd (cc (sym p ∙ a.no_follower_kill))
Move-IsLone c _ (leaves _ redeliveries p e) a = absurd (cc (sym p ∙ a.no_redeliver))
Move-IsLone c _ (kills _ host found k p) a = after_kill_turn-IsLone c a (kill_turn host found)
Move-IsLone c _ (kills_leader _ target host found k p) a = record {
  no_follower_kill = a.no_follower_kill;
  no_redeliver = a.no_redeliver;
  no_stray = a.no_stray;
}
Move-IsLone c _ (kills_follower _ host services found p) a =
    absurd (cc (sym p ∙ a.no_follower_kill))
Move-IsLone c _ (redelivers _ change receive p) a = absurd (cc (sym p ∙ a.no_redeliver))
Move-IsLone c _ (records _ leaders now f e) a = record {
  no_follower_kill = a.no_follower_kill;
  no_redeliver = a.no_redeliver;
  no_stray = lone-turn c a now f;
}
Move-IsLone c _ (records _ followers now f e) a = absurd (cc (sym e ∙ a.no_follower_kill))
Move-IsLone c _ (records _ redeliveries now f e) a = absurd (cc (sym e ∙ a.no_redeliver))
Move-IsLone c _ (tracks _ now peek) a = record {
  no_follower_kill = a.no_follower_kill;
  no_redeliver = a.no_redeliver;
  no_stray = lone-aside c a _ (told-seen now (track c.last_leader (peek ∷ [])));
}
Move-IsLone c _ (stops _ m) a = record {
  no_follower_kill = a.no_follower_kill;
  no_redeliver = a.no_redeliver;
  no_stray = a.no_stray;
}
Move-IsLone c _ (ends _ now e o) a = record {
  no_follower_kill = a.no_follower_kill;
  no_redeliver = a.no_redeliver;
  no_stray = lone-aside c a ((now, run_end) ∷ []) refl;
}

Reaches-IsLone : (now : ℕ) (c : Campaign) → Reaches exp1 (start exp1 now) c → IsLone c
Reaches-IsLone now _ here = record { no_follower_kill = refl; no_redeliver = refl; no_stray = refl }
Reaches-IsLone now c (next r m) = Move-IsLone _ c m (Reaches-IsLone now _ r)

-- In a run of experiment 1 the kills in the history, with one that the loop is about to record, are as
-- many as the tasks that were stopped.
pub count-kills :
    (now : ℕ) (c : Campaign)
    → Reaches exp1 (start exp1 now) c
    → count_by is_kill c.history + length (pending c.loops.leader_kill) ≡ length c.killed
count-kills now c r =
    let a = Reaches-IsLone now c r in
    omega (
      arith,
      kills-told c.history,
      a.no_stray,
      Reaches-told exp1 now c r (λ arn. true),
      count_held (λ arn. true) c.loops,
      ap (λ w. count_by (λ arn. true) (pending w)) a.no_follower_kill,
      ap (λ w. count_by (λ arn. true) (pending w)) a.no_redeliver,
      count_by-all c.killed,
      count_by-all (told c.history),
      count_by-all (pending c.loops.leader_kill),
    )
