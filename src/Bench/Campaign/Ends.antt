-- ===== src/Bench/Campaign/Ends.antt =====
-- A run of experiment 3 can always go on to its end.
use driftless.Prelude.{
  ℕ, zero, suc, ◌+◌, ◌-◌, ◌*◌, ◌<◌, true, false, ◌≡◌, refl, ap, arith, ◌⊎◌, inl, inr, Bool-cases,
  ltb, tests,
}
use driftless.Bench.Workload.{
  Phase, firing, closing, draining, finished, returned, Workload, Step, fire, submit as submits,
  submit_raises, hand_over, poll_ends, poll_raises, close, drain, finish, end_run,
}
use driftless.Bench.Workload.Ends.{rank, work, step-work, progress}
use driftless.Bench.Campaign.{
  Kind, exp3, Campaign, start, May, fires, Move, Reaches, works, stops, ends, here, next,
}
use driftless.Bench.Campaign.Submits.{IsSteady, Move-IsSteady, Reaches-IsSteady}

-- The steps that are left to the worker: each task that is not yet fired takes four.
abbrev left_work : ℕ → Campaign → ℕ
left_work target c = 4 * (target - c.submitted) + work c.work

-- Once the loop has ended and until the worker is done, its threads are free.
May-between :
    (kind : Kind) (c : Campaign) (w v : Workload) (s : Step w v)
    → (w.phase ≡ firing → ⊥)
    → (w.phase ≡ finished → ⊥)
    → May kind c w v s
May-between kind c w _ (fire _ p) ended running = absurd (ended p)
May-between kind c w _ (submits _ n job e) ended running = tt
May-between kind c w _ (submit_raises _ n e) ended running = tt
May-between kind c w _ (hand_over _ before after job p e) ended running = tt
May-between kind c w _ (poll_ends _ before after job t s e) ended running = tt
May-between kind c w _ (poll_raises _ before after job e) ended running = tt
May-between kind c w _ (close _ p) ended running = absurd (ended p)
May-between kind c w _ (drain _ p e h) ended running = tt
May-between kind c w _ (finish _ p e) ended running = tt
May-between kind c w _ (end_run _ p) ended running = absurd (running p)

fires-between : (w v : Workload) (s : Step w v) → (w.phase ≡ firing → ⊥) → fires w v s ≡ 0
fires-between w _ (fire _ p) ended = absurd (ended p)
fires-between w _ (submits _ n job e) ended = refl
fires-between w _ (submit_raises _ n e) ended = refl
fires-between w _ (hand_over _ before after job p e) ended = refl
fires-between w _ (poll_ends _ before after job t s e) ended = refl
fires-between w _ (poll_raises _ before after job e) ended = refl
fires-between w _ (close _ p) ended = refl
fires-between w _ (drain _ p e h) ended = refl
fires-between w _ (finish _ p e) ended = refl
fires-between w _ (end_run _ p) ended = refl

Reaches-trans :
    {kind : Kind} {c d e : Campaign} → Reaches kind c d → Reaches kind d e → Reaches kind c e
Reaches-trans r here = r
Reaches-trans r (next q m) = next (Reaches-trans r q) m

abbrev CanEnd : ℕ → Campaign → Type 0
CanEnd target c = (d : Campaign) × Reaches (exp3 target) c d × (d.over ≡ true)

CanEnd-Move :
    (target : ℕ) (c d : Campaign) → Move (exp3 target) c d → CanEnd target d → CanEnd target c
CanEnd-Move target c d m (e, r, over) = (e, Reaches-trans (next here m) r, over)

-- The orchestrator sets the stop event and records the end.
CanEnd-finished : (target : ℕ) (c : Campaign) → c.work.phase ≡ finished → CanEnd target c
CanEnd-finished target c p = elim (Bool-cases c.over) [
  | inl over ↦ (c, here, over)
  | inr going ↦ (_, next (next here (stops c p)) (ends _ 0 refl going), refl)
]

-- What the worker may do next, if it is not done.
next_step :
    (target : ℕ) (c : Campaign)
    → IsSteady (exp3 target) c
    → (c.work.phase ≡ finished)
      ⊎ ((d : Campaign) × Move (exp3 target) c d × (left_work target d < left_work target c))
next_step target c a = by_phase c.work.phase refl
  where
    between :
        (c.work.phase ≡ firing → ⊥)
        → (c.work.phase ≡ finished → ⊥)
        → (d : Campaign) × Move (exp3 target) c d × (left_work target d < left_work target c)
    between ended running = elim (progress c.work) [
      | inl done ↦ absurd (a.runs done)
      | inr (v, s) ↦ (
        _,
        works c 0 v s (May-between (exp3 target) c c.work v s ended running),
        omega (arith, fires-between c.work v s ended, (step-work c.work v s ended).0),
      )
    ]

    fires_on :
        c.work.phase ≡ firing
        → c.stopped ≡ false
        → (d : Campaign) × Move (exp3 target) c d × (left_work target d < left_work target c)
    fires_on p runs = elim (Bool-cases (ltb c.submitted target)) [
      | inl less ↦ (_, works c 0 _ (fire c.work p) (omega (tests, less), runs), omega (tests, less))
      | inr full ↦
          (_, works c 0 _ (close c.work p) (inl (ground (arith, full))), omega (arith, ap rank p))
    ]

    by_phase :
        (p : Phase)
        → c.work.phase ≡ p
        → (c.work.phase ≡ finished)
          ⊎ ((d : Campaign) × Move (exp3 target) c d × (left_work target d < left_work target c))
    by_phase firing p = elim (Bool-cases c.stopped) [
      | inl stopped ↦ inl (a.targeted.1 stopped)
      | inr runs ↦ inr (fires_on p runs)
    ]
    by_phase closing p = inr (between (λ q. absurd (cc (p, q))) (λ q. absurd (cc (p, q))))
    by_phase draining p = inr (between (λ q. absurd (cc (p, q))) (λ q. absurd (cc (p, q))))
    by_phase finished p = inl p
    by_phase returned p = absurd (a.runs p)

CanEnd-fuel :
    (target k : ℕ) (c : Campaign)
    → IsSteady (exp3 target) c
    → left_work target c < k
    → CanEnd target c
CanEnd-fuel target zero c a h = absurd (omega arith)
CanEnd-fuel target (suc k) c a h = elim (next_step target c a) [
  | inl done ↦ CanEnd-finished target c done
  | inr (d, m, less) ↦
      CanEnd-Move target c d m
        (CanEnd-fuel target k d (Move-IsSteady (exp3 target) c d m a) (omega (arith, less, h)))
]

-- From each point of a run of experiment 3, whatever its threads have done so far, further steps of
-- theirs lead to the record of the run's end.
pub exp3-ends :
    (target now : ℕ) (c : Campaign)
    → Reaches (exp3 target) (start (exp3 target) now) c
    → (d : Campaign) × Reaches (exp3 target) c d × (d.over ≡ true)
exp3-ends target now c r =
    CanEnd-fuel target (suc (left_work target c)) c (Reaches-IsSteady (exp3 target) now c r)
      (omega arith)
