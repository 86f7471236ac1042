-- ===== src/Bench/Workload/Accounts.antt =====
-- Where the submitted tasks of a workload are.
use driftless.Prelude.{
  ℕ, ◌+◌, suc, Bool, true, List, [], ◌∷◌, ◌++◌, ◌≡◌, refl, sym, ap, ◌∙◌, arith, count_by,
  count_by-append,
}
use driftless.Bench.Workload.{
  Job, Line, run_start, submitted, outcome, run_end, Phase, firing, closing, draining, finished,
  returned, Workload, takes_polls, start, Step, Run, fire, submit, submit_raises, hand_over,
  poll_ends, poll_raises, close, drain, finish, end_run, still, goes_on,
}

-- The jobs that the history shows as submitted, and those that it shows with an outcome.
abbrev pub submissions : List Line → List Job
submissions [] = []
submissions (run_start ∷ ls) = submissions ls
submissions (submitted job ∷ ls) = job ∷ submissions ls
submissions (outcome job t s ∷ ls) = submissions ls
submissions (run_end ∷ ls) = submissions ls

abbrev pub outcomes : List Line → List Job
outcomes [] = []
outcomes (run_start ∷ ls) = outcomes ls
outcomes (submitted job ∷ ls) = outcomes ls
outcomes (outcome job t s ∷ ls) = job ∷ outcomes ls
outcomes (run_end ∷ ls) = outcomes ls

-- Both pools are done.
abbrev pub IsOver : Phase → Type 0
IsOver finished = Unit
IsOver returned = Unit
IsOver p = ⊥

-- What is left in a phase: the submissions that wait, the jobs handed over, the polls.
abbrev pub IsShut : Phase → ℕ → List Job → List Job → Type 0
IsShut firing waiting handing polling = Unit
IsShut closing waiting handing polling = Unit
IsShut draining waiting handing polling = (waiting ≡ 0) × (handing ≡ [])
IsShut finished waiting handing polling = (waiting ≡ 0) × (handing ≡ []) × (polling ≡ [])
IsShut returned waiting handing polling = (waiting ≡ 0) × (handing ≡ []) × (polling ≡ [])

IsShut-submit :
    (p : Phase) (k n : ℕ) (hs hs' ps : List Job) → k ≡ suc n → IsShut p k hs ps → IsShut p n hs' ps
IsShut-submit firing k n hs hs' ps e h = tt
IsShut-submit closing k n hs hs' ps e h = tt
IsShut-submit draining k n hs hs' ps e h = absurd (omega (arith, h.0))
IsShut-submit finished k n hs hs' ps e h = absurd (omega (arith, h.0))
IsShut-submit returned k n hs hs' ps e h = absurd (omega (arith, h.0))

IsShut-hand_over :
    (p : Phase) (k : ℕ) (hs hs' ps ps' : List Job)
    → takes_polls p ≡ true
    → IsShut p k hs ps
    → IsShut p k hs' ps'
unfolding takes_polls
IsShut-hand_over firing k hs hs' ps ps' e h = tt
IsShut-hand_over closing k hs hs' ps ps' e h = tt
IsShut-hand_over draining k hs hs' ps ps' e h = absurd (cc)
IsShut-hand_over finished k hs hs' ps ps' e h = absurd (cc)
IsShut-hand_over returned k hs hs' ps ps' e h = absurd (cc)

not_empty : (before after : List Job) (job : Job) → before ++ job ∷ after ≡ [] → ⊥
not_empty [] after job h = cc
not_empty (x ∷ before) after job h = cc

IsShut-poll :
    (p : Phase) (k : ℕ) (hs ps ps' before after : List Job) (job : Job)
    → ps ≡ before ++ job ∷ after
    → IsShut p k hs ps
    → IsShut p k hs ps'
IsShut-poll firing k hs ps ps' before after job e h = tt
IsShut-poll closing k hs ps ps' before after job e h = tt
IsShut-poll draining k hs ps ps' before after job e h = h
IsShut-poll finished k hs ps ps' before after job e h =
    absurd (not_empty before after job (sym e ∙ h.2))
IsShut-poll returned k hs ps ps' before after job e h =
    absurd (not_empty before after job (sym e ∙ h.2))

IsShut-finish :
    (p : Phase) (k : ℕ) (hs ps : List Job)
    → p ≡ draining
    → ps ≡ []
    → IsShut p k hs ps
    → IsShut finished k hs ps
IsShut-finish firing k hs ps e none h = absurd (cc)
IsShut-finish closing k hs ps e none h = absurd (cc)
IsShut-finish draining k hs ps e none h = (h.0, h.1, none)
IsShut-finish finished k hs ps e none h = h
IsShut-finish returned k hs ps e none h = h

pub IsShut-over :
    (p : Phase) (k : ℕ) (hs ps : List Job)
    → IsOver p
    → IsShut p k hs ps
    → (k ≡ 0) × (hs ≡ []) × (ps ≡ [])
IsShut-over firing k hs ps e h = elim e [ ]
IsShut-over closing k hs ps e h = elim e [ ]
IsShut-over draining k hs ps e h = elim e [ ]
IsShut-over finished k hs ps e h = h
IsShut-over returned k hs ps e h = h

-- Every submitted job has its outcome, or is handed over, polled, or was lost by a poll that raised,
-- and only one of these; counted by an arbitrary test, the two sides are the same jobs.
pub record IsAccounted (w : Workload) : Type 0 where
  pub accounts :
      (test : Job → Bool)
      → count_by test (submissions w.history)
        ≡ count_by test (outcomes w.history)
          + count_by test w.handing
          + count_by test w.polling
          + count_by test w.raised
  pub shut : IsShut w.phase w.waiting w.handing w.polling

-- A job that is taken out of a list.
count_by-middle :
    (test : Job → Bool) (before after : List Job) (job : Job) (jobs : List Job)
    → jobs ≡ before ++ job ∷ after
    → count_by test jobs ≡ count_by test (before ++ after) + count_by test (job ∷ [])
count_by-middle test before after job jobs h =
    ap (count_by test) h
    ∙ omega (arith, count_by-append test before (job ∷ after), count_by-append test before after)

submissions-append : (xs ys : List Line) → submissions (xs ++ ys) ≡ submissions xs ++ submissions ys
submissions-append [] ys = refl
submissions-append (run_start ∷ xs) ys = submissions-append xs ys
submissions-append (submitted job ∷ xs) ys = ap (◌∷◌ job) (submissions-append xs ys)
submissions-append (outcome job t s ∷ xs) ys = submissions-append xs ys
submissions-append (run_end ∷ xs) ys = submissions-append xs ys

outcomes-append : (xs ys : List Line) → outcomes (xs ++ ys) ≡ outcomes xs ++ outcomes ys
outcomes-append [] ys = refl
outcomes-append (run_start ∷ xs) ys = outcomes-append xs ys
outcomes-append (submitted job ∷ xs) ys = outcomes-append xs ys
outcomes-append (outcome job t s ∷ xs) ys = ap (◌∷◌ job) (outcomes-append xs ys)
outcomes-append (run_end ∷ xs) ys = outcomes-append xs ys

-- The counts after one more line.
count_submissions :
    (test : Job → Bool) (h : List Line) (l : Line)
    → count_by test (submissions (h ++ l ∷ []))
      ≡ count_by test (submissions h) + count_by test (submissions (l ∷ []))
count_submissions test h l =
    ap (count_by test) (submissions-append h (l ∷ []))
    ∙ count_by-append test (submissions h) (submissions (l ∷ []))

count_outcomes :
    (test : Job → Bool) (h : List Line) (l : Line)
    → count_by test (outcomes (h ++ l ∷ []))
      ≡ count_by test (outcomes h) + count_by test (outcomes (l ∷ []))
count_outcomes test h l =
    ap (count_by test) (outcomes-append h (l ∷ []))
    ∙ count_by-append test (outcomes h) (outcomes (l ∷ []))

pub step-IsAccounted : (w v : Workload) → Step w v → IsAccounted w → IsAccounted v
step-IsAccounted w _ (fire _ p) a = record { accounts = a.accounts; shut = rw p tt }
step-IsAccounted w _ (submit _ n job e) a = record {
  accounts = λ test. omega (
    arith,
    a.accounts test,
    count_submissions test w.history (submitted job),
    count_outcomes test w.history (submitted job),
  );
  shut = IsShut-submit w.phase w.waiting n w.handing (job ∷ w.handing) w.polling e a.shut;
}
step-IsAccounted w _ (submit_raises _ n e) a = record {
  accounts = a.accounts;
  shut = IsShut-submit w.phase w.waiting n w.handing w.handing w.polling e a.shut;
}
step-IsAccounted w _ (hand_over _ before after job p e) a = record {
  accounts = λ test. omega (
    arith,
    a.accounts test,
    count_by-middle test before after job w.handing e,
    count_by-append test w.polling (job ∷ []),
  );
  shut = IsShut-hand_over w.phase w.waiting w.handing _ w.polling _ p a.shut;
}
step-IsAccounted w _ (poll_ends _ before after job t s e) a = record {
  accounts = λ test. omega (
    arith,
    a.accounts test,
    count_by-middle test before after job w.polling e,
    count_submissions test w.history (outcome job t s),
    count_outcomes test w.history (outcome job t s),
  );
  shut = IsShut-poll w.phase w.waiting w.handing w.polling _ before after job e a.shut;
}
step-IsAccounted w _ (poll_raises _ before after job e) a = record {
  accounts =
      λ test. omega (arith, a.accounts test, count_by-middle test before after job w.polling e);
  shut = IsShut-poll w.phase w.waiting w.handing w.polling _ before after job e a.shut;
}
step-IsAccounted w _ (close _ p) a = record { accounts = a.accounts; shut = tt }
step-IsAccounted w _ (drain _ p e h) a = record { accounts = a.accounts; shut = (e, h) }
step-IsAccounted w _ (finish _ p e) a = record {
  accounts = a.accounts;
  shut = IsShut-finish w.phase w.waiting w.handing w.polling p e a.shut;
}
step-IsAccounted w _ (end_run _ p) a = record {
  accounts = λ test. omega (
    arith,
    a.accounts test,
    count_submissions test w.history run_end,
    count_outcomes test w.history run_end,
  );
  shut = IsShut-over w.phase w.waiting w.handing w.polling (rw p tt) a.shut;
}

pub start-IsAccounted : IsAccounted start
start-IsAccounted = record { accounts = λ test. omega arith; shut = tt }

run-IsAccounted : (w v : Workload) (n : ℕ) → Run w n v → IsAccounted w → IsAccounted v
run-IsAccounted w _ _ (still _) a = a
run-IsAccounted w u _ (goes_on _ v _ n s r) a = run-IsAccounted v u n r (step-IsAccounted w v s a)

-- In whatever order the loop and the threads take their steps, each submitted task has its outcome in
-- the history, or is about to be handed over or polled, or its poll raised, and only one of these;
-- counted by an arbitrary test, both sides are the same tasks. No job is handed to the poll pool once
-- it is shut down.
pub start-accounts : (w : Workload) (n : ℕ) → Run start n w → IsAccounted w
start-accounts w n r = run-IsAccounted start w n r start-IsAccounted

pub over-accounts :
    (w : Workload)
    → IsAccounted w
    → IsOver w.phase
    → (test : Job → Bool)
    → count_by test (submissions w.history)
      ≡ count_by test (outcomes w.history) + count_by test w.raised
over-accounts w a over test =
    let (k, hs, ps) = IsShut-over w.phase w.waiting w.handing w.polling over a.shut in
    a.accounts test ∙ rw (hs, ps) (omega arith)

-- Once a workload has returned, each submitted task has its outcome in the history, or its poll raised,
-- and only one of these.
pub finished-accounts :
    (w : Workload) (n : ℕ)
    → Run start n w
    → w.phase ≡ returned
    → (test : Job → Bool)
    → count_by test (submissions w.history)
      ≡ count_by test (outcomes w.history) + count_by test w.raised
finished-accounts w n r done test = over-accounts w (start-accounts w n r) (rw done tt) test
