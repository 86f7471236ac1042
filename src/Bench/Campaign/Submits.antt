-- ===== src/Bench/Campaign/Submits.antt =====
-- What a run under faults submits.
use driftless.Prelude.{
  ℕ, String, ◌+◌, Bool, true, List, [], ◌∷◌, ◌++◌, ◌≡◌, refl, sym, ap, ◌∙◌, arith, count_by,
  count_by-append,
}
use driftless.Bench.Result.{Result, ok, raise}
use driftless.Bench.Chaos.{Fault, kill_turn}
use driftless.Bench.LeaderTracker.{track}
use driftless.Bench.Workload.{Job, returned}
use driftless.Bench.Workload.Accounts.{
  submissions, outcomes, IsAccounted, step-IsAccounted, start-IsAccounted, over-accounts, IsOver,
  IsShut-over,
}
use driftless.Bench.Campaign.Entries.{
  Entry, poll_observe, run_end, Loop, leaders, followers, redeliveries,
}
use driftless.Bench.Campaign.{
  Kind, exp1, exp3, Watch, recording, left, Campaign, start, MayStop, entries, after_turn,
  after_kill_turn, Move, Reaches, works, observes, begins, leaves, kills, kills_leader,
  kills_follower, redelivers, records, tracks, stops, ends, here, next,
}
use mathlib.Core.Path.{subst}
use mathlib.Core.List.{append-nil}
use driftless.Bench.Campaign.Lines.{
  bench_lines, bench_lines-append, is_try, IsAside, faults-IsAside, seen-IsAside,
}
use driftless.Bench.Campaign.Worker.{
  Tried, Targeted, works-same, works-tries, works-runs, works-Targeted,
}

pub record IsSteady (kind : Kind) (c : Campaign) : Type 0 where
  pub same : bench_lines c.history ≡ c.work.history
  pub accounted : IsAccounted c.work
  pub fired : c.submitted ≡ c.work.waiting + count_by is_try c.history
  pub targeted : Targeted kind c.work c.submitted c.stopped
  pub ended : c.over ≡ true → c.stopped ≡ true
  pub runs : c.work.phase ≡ returned → ⊥

module _ (kind : Kind) (c : Campaign) (a : IsSteady kind c) where
  aside-same : (es : List (ℕ × Entry)) → IsAside es → bench_lines (c.history ++ es) ≡ c.work.history
  aside-same es (lines, tries) =
      bench_lines-append c.history es ∙ rw (lines, append-nil (bench_lines c.history)) a.same

  aside-fired :
      (es : List (ℕ × Entry))
      → IsAside es
      → c.submitted ≡ c.work.waiting + count_by is_try (c.history ++ es)
  aside-fired es (lines, tries) = omega (arith, a.fired, tries, count_by-append is_try c.history es)

  after_turn-IsSteady :
      (l : Loop) (w : Watch) (stopped : List String) → IsSteady kind (after_turn l w stopped c)
  after_turn-IsSteady l w stopped = record {
    same = a.same;
    accounted = a.accounted;
    fired = a.fired;
    targeted = a.targeted;
    ended = a.ended;
    runs = a.runs;
  }

  after_kill_turn-IsSteady :
      (turn : Result Fault × List String) → IsSteady kind (after_kill_turn turn c)
  after_kill_turn-IsSteady (ok f, stopped) = after_turn-IsSteady leaders (recording f) stopped
  after_kill_turn-IsSteady (raise e, stopped) = after_turn-IsSteady leaders left stopped

  stops-Targeted : MayStop kind c → Targeted kind c.work c.submitted true
  stops-Targeted m = by_kind kind m a.targeted
    where
      by_kind :
          (k : Kind)
          → MayStop k c
          → Targeted k c.work c.submitted c.stopped
          → Targeted k c.work c.submitted true
      by_kind exp1 m h = tt
      by_kind (exp3 target) m (tried, late) = (tried, λ e. m)

pub Move-IsSteady :
    (kind : Kind) (c d : Campaign) → Move kind c d → IsSteady kind c → IsSteady kind d
Move-IsSteady kind c _ (works _ now v s m) a = record {
  same =
      bench_lines-append c.history (entries now c.work v s)
      ∙ ap (λ ls. ls ++ bench_lines (entries now c.work v s)) a.same
      ∙ sym (works-same kind c now c.work v s m);
  accounted = step-IsAccounted c.work v s a.accounted;
  fired = omega (
    arith,
    a.fired,
    works-tries now c.work v s,
    count_by-append is_try c.history (entries now c.work v s),
  );
  targeted = works-Targeted kind c v s m a.targeted;
  ended = a.ended;
  runs = works-runs kind c c.work v s m a.runs;
}
Move-IsSteady kind c _ (observes _ target now before after job status k e) a = record {
  same = aside-same kind c a ((now, poll_observe job status) ∷ []) (refl, refl);
  accounted = a.accounted;
  fired = aside-fired kind c a ((now, poll_observe job status) ∷ []) (refl, refl);
  targeted = a.targeted;
  ended = a.ended;
  runs = a.runs;
}
Move-IsSteady kind c _ (begins _ l p e) a = record {
  same = a.same;
  accounted = a.accounted;
  fired = a.fired;
  targeted = a.targeted;
  ended = a.ended;
  runs = a.runs;
}
Move-IsSteady kind c _ (leaves _ l p e) a = record {
  same = a.same;
  accounted = a.accounted;
  fired = a.fired;
  targeted = a.targeted;
  ended = a.ended;
  runs = a.runs;
}
Move-IsSteady kind c _ (kills _ host found k p) a =
    after_kill_turn-IsSteady kind c a (kill_turn host found)
Move-IsSteady kind c _ (kills_leader _ target host found k p) a =
    after_turn-IsSteady kind c a leaders _ _
Move-IsSteady kind c _ (kills_follower _ host services found p) a =
    after_turn-IsSteady kind c a followers _ _
Move-IsSteady kind c _ (redelivers _ change receive p) a =
    after_turn-IsSteady kind c a redeliveries _ _
Move-IsSteady kind c _ (records _ l now f e) a = record {
  same = aside-same kind c a _ (faults-IsAside l now (f ∷ []));
  accounted = a.accounted;
  fired = aside-fired kind c a _ (faults-IsAside l now (f ∷ []));
  targeted = a.targeted;
  ended = a.ended;
  runs = a.runs;
}
Move-IsSteady kind c _ (tracks _ now peek) a =
    let aside = seen-IsAside now (track c.last_leader (peek ∷ [])) in
    record {
      same = aside-same kind c a _ aside;
      accounted = a.accounted;
      fired = aside-fired kind c a _ aside;
      targeted = a.targeted;
      ended = a.ended;
      runs = a.runs;
    }
Move-IsSteady kind c _ (stops _ m) a = record {
  same = a.same;
  accounted = a.accounted;
  fired = a.fired;
  targeted = stops-Targeted kind c a m;
  ended = λ o. refl;
  runs = a.runs;
}
Move-IsSteady kind c _ (ends _ now e o) a = record {
  same = aside-same kind c a ((now, run_end) ∷ []) (refl, refl);
  accounted = a.accounted;
  fired = aside-fired kind c a ((now, run_end) ∷ []) (refl, refl);
  targeted = a.targeted;
  ended = λ o. e;
  runs = a.runs;
}

pub Reaches-IsSteady :
    (kind : Kind) (now : ℕ) (c : Campaign) → Reaches kind (start kind now) c → IsSteady kind c
Reaches-IsSteady exp1 now _ here = record {
  same = refl;
  accounted = start-IsAccounted;
  fired = omega arith;
  targeted = tt;
  ended = λ h. absurd (cc);
  runs = λ h. absurd (cc);
}
Reaches-IsSteady (exp3 target) now _ here = record {
  same = refl;
  accounted = start-IsAccounted;
  fired = omega arith;
  targeted = (omega arith, λ h. absurd (cc));
  ended = λ h. absurd (cc);
  runs = λ h. absurd (cc);
}
Reaches-IsSteady kind now c (next r m) = Move-IsSteady kind _ c m (Reaches-IsSteady kind now _ r)

-- Once a run of experiment 3 has recorded its end, whatever the order of its threads' steps, its
-- history has as many submissions and submission errors together as the target, and each submitted task
-- has its outcome in the history, or its poll raised, and only one of these; counted by an arbitrary
-- test, both sides are the same tasks.
pub exp3-submits :
    (target now : ℕ) (c : Campaign)
    → Reaches (exp3 target) (start (exp3 target) now) c
    → c.over ≡ true
    → (test : Job → Bool)
    → (count_by is_try c.history ≡ target)
      × (count_by test (submissions (bench_lines c.history))
          ≡ count_by test (outcomes (bench_lines c.history)) + count_by test c.work.raised)
exp3-submits target now c r over test =
    let a = Reaches-IsSteady (exp3 target) now c r in
    let done = a.targeted.1 (a.ended over) in
    let (none_waits, _, _) =
      IsShut-over c.work.phase _ _ _ (subst IsOver (sym done) tt) a.accounted.shut in
    let reached = subst (λ p. Tried target p c.submitted) done a.targeted.0 in
    (
      omega (arith, a.fired, none_waits, reached),
      rw a.same (over-accounts c.work a.accounted (subst IsOver (sym done) tt) test),
    )
