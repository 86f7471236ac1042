-- ===== src/Bench/Workload/Ends.antt =====
-- A workload returns once its loop has ended.
use driftless.Prelude.{
  ℕ, ◌+◌, ◌*◌, ◌≤◌, ◌<◌, zero, suc, true, List, [], ◌∷◌, ◌++◌, ◌≡◌, refl, ap, ◌∙◌, arith, length,
  length-append, ◌⊎◌, inl, inr,
}
use driftless.Bench.Workload.{
  Job, Phase, firing, closing, draining, finished, returned, Workload, takes_polls, Step, Run, fire,
  submit, submit_raises, hand_over, poll_ends, poll_raises, close, drain, finish, end_run, still,
  goes_on,
}

abbrev pub rank : Phase → ℕ
rank firing = 4
rank closing = 3
rank draining = 2
rank finished = 1
rank returned = 0

-- A bound on the steps that are left: a submission that waits is at most submitted, handed over and
-- polled.
abbrev pub work : Workload → ℕ
work w = 3 * w.waiting + 2 * length w.handing + length w.polling + rank w.phase

length-middle :
    (before after : List Job) (job : Job) (jobs : List Job)
    → jobs ≡ before ++ job ∷ after
    → length jobs ≡ length (before ++ after) + 1
length-middle before after job jobs h =
    ap length h ∙ omega (arith, length-append before (job ∷ after), length-append before after)

-- Each step after the loop's end leaves less work, and the loop does not begin again.
pub step-work :
    (w v : Workload)
    → Step w v
    → (w.phase ≡ firing → ⊥)
    → (work v < work w) × (v.phase ≡ firing → ⊥)
step-work w _ (fire _ p) ended = absurd (ended p)
step-work w _ (submit _ n job e) ended = (omega arith, ended)
step-work w _ (submit_raises _ n e) ended = (omega arith, ended)
step-work w _ (hand_over _ before after job p e) ended = (
  omega (arith, length-middle before after job w.handing e, length-append w.polling (job ∷ [])),
  ended,
)
step-work w _ (poll_ends _ before after job t s e) ended =
    (omega (arith, length-middle before after job w.polling e), ended)
step-work w _ (poll_raises _ before after job e) ended =
    (omega (arith, length-middle before after job w.polling e), ended)
step-work w _ (close _ p) ended = absurd (ended p)
step-work w _ (drain _ p e h) ended = (omega (arith, ap rank p), λ q. absurd (cc))
step-work w _ (finish _ p e) ended = (omega (arith, ap rank p), λ q. absurd (cc))
step-work w _ (end_run _ p) ended = (omega (arith, ap rank p), λ q. absurd (cc))

run-work : (w v : Workload) (n : ℕ) → Run w n v → (w.phase ≡ firing → ⊥) → n + work v ≤ work w
run-work w _ _ (still _) ended = omega arith
run-work w u _ (goes_on _ v _ n s r) ended =
    let (less, later) = step-work w v s ended in omega (arith, run-work v u n r later, less)

takes_closing : takes_polls closing ≡ true
unfolding takes_polls
takes_closing = refl

-- What can be done next, in each phase.
pub progress : (w : Workload) → (w.phase ≡ returned) ⊎ ((v : Workload) × Step w v)
progress w = by_phase w.phase refl
  where
    a_job : Job
    a_job = record { task_id = ""; submitted_ns = 0 }

    hands :
        (hs : List Job)
        → w.phase ≡ closing
        → w.waiting ≡ 0
        → w.handing ≡ hs
        → (v : Workload) × Step w v
    hands [] p none e = (_, drain w p none e)
    hands (job ∷ hs) p none e = (_, hand_over w [] hs job (ap takes_polls p ∙ takes_closing) e)

    waits : (k : ℕ) → w.phase ≡ closing → w.waiting ≡ k → (v : Workload) × Step w v
    waits zero p e = hands w.handing p e refl
    waits (suc n) p e = (_, submit w n a_job e)

    polls : (ps : List Job) → w.phase ≡ draining → w.polling ≡ ps → (v : Workload) × Step w v
    polls [] p e = (_, finish w p e)
    polls (job ∷ ps) p e = (_, poll_ends w [] ps job 0 "" e)

    by_phase : (p : Phase) → w.phase ≡ p → (w.phase ≡ returned) ⊎ ((v : Workload) × Step w v)
    by_phase firing p = inr (_, fire w p)
    by_phase closing p = inr (waits w.waiting p refl)
    by_phase draining p = inr (polls w.polling p refl)
    by_phase finished p = inr (_, end_run w p)
    by_phase returned p = inl p

-- Once the loop has ended, however the threads take their steps, at most as many follow as the bound on
-- the work that is left says, and until the workload has returned a further step can be taken.
pub run-ends :
    (w v : Workload) (n : ℕ)
    → Run w n v
    → (w.phase ≡ firing → ⊥)
    → (n ≤ work w) × ((v.phase ≡ returned) ⊎ ((u : Workload) × Step v u))
run-ends w v n r ended = (omega (arith, run-work w v n r ended), progress v)
