-- ===== src/Bench/Campaign/Worker.antt =====
-- What a step of the worker adds to a run under faults.
use driftless.Prelude.{ℕ, ◌+◌, ◌≤◌, Bool, true, ◌++◌, ◌≡◌, refl, sym, arith, count_by, inl, inr}
use driftless.Bench.Workload.{
  Phase, firing, closing, draining, finished, returned, Workload, Step, fire, submit as submits,
  submit_raises, hand_over, poll_ends, poll_raises, close, drain, finish, end_run,
}
use driftless.Bench.Campaign.{Kind, exp1, exp3, Campaign, May, fires, entries}
use native.Mathlib.Nat.{add-zero}
use mathlib.Core.Path.{subst}
use mathlib.Core.List.{append-nil}
use driftless.Bench.Campaign.Lines.{bench_lines, is_try}

-- How far the loop of experiment 3 has come: it ends at the target.
abbrev pub Tried : ℕ → Phase → ℕ → Type 0
Tried target firing n = n ≤ target
Tried target p n = n ≡ target

abbrev pub Targeted : Kind → Workload → ℕ → (stopped : Bool) → Type 0
Targeted exp1 w n stopped = Unit
Targeted (exp3 target) w n stopped = Tried target w.phase n × (stopped ≡ true → w.phase ≡ finished)

-- A step of the pools adds the lines of its entries.
pub works-same :
    (kind : Kind) (c : Campaign) (now : ℕ) (w v : Workload) (s : Step w v)
    → May kind c w v s
    → v.history ≡ w.history ++ bench_lines (entries now w v s)
works-same kind c now w _ (fire _ p) m = sym (append-nil w.history)
works-same kind c now w _ (submits _ n job e) m = refl
works-same kind c now w _ (submit_raises _ n e) m = sym (append-nil w.history)
works-same kind c now w _ (hand_over _ before after job p e) m = sym (append-nil w.history)
works-same kind c now w _ (poll_ends _ before after job t s e) m = refl
works-same kind c now w _ (poll_raises _ before after job e) m = sym (append-nil w.history)
works-same kind c now w _ (close _ p) m = sym (append-nil w.history)
works-same kind c now w _ (drain _ p e h) m = sym (append-nil w.history)
works-same kind c now w _ (finish _ p e) m = sym (append-nil w.history)
works-same kind c now w _ (end_run _ p) m = absurd m

-- A submission that is fired waits until it is tried.
pub works-tries :
    (now : ℕ) (w v : Workload) (s : Step w v)
    → w.waiting + fires w v s ≡ v.waiting + count_by is_try (entries now w v s)
works-tries now w _ (fire _ p) = omega arith
works-tries now w _ (submits _ n job e) = omega (arith, e)
works-tries now w _ (submit_raises _ n e) = omega (arith, e)
works-tries now w _ (hand_over _ before after job p e) = omega arith
works-tries now w _ (poll_ends _ before after job t s e) = omega arith
works-tries now w _ (poll_raises _ before after job e) = omega arith
works-tries now w _ (close _ p) = omega arith
works-tries now w _ (drain _ p e h) = omega arith
works-tries now w _ (finish _ p e) = omega arith
works-tries now w _ (end_run _ p) = omega arith

Tried-le : (target n : ℕ) (p : Phase) → Tried target p n → n ≤ target
Tried-le target n firing h = h
Tried-le target n closing h = omega (arith, h)
Tried-le target n draining h = omega (arith, h)
Tried-le target n finished h = omega (arith, h)
Tried-le target n returned h = omega (arith, h)

-- The loop fires up to its target, and then ends.
works-Tried :
    (target : ℕ) (c : Campaign) (w v : Workload) (s : Step w v)
    → May (exp3 target) c w v s
    → Tried target w.phase c.submitted
    → (c.stopped ≡ true → w.phase ≡ finished)
    → Tried target v.phase (c.submitted + fires w v s)
works-Tried target c w _ (fire _ p) m tried late = rw p (omega (arith, m.0))
works-Tried target c w _ (submits _ n job e) m tried late = rw add-zero tried
works-Tried target c w _ (submit_raises _ n e) m tried late = rw add-zero tried
works-Tried target c w _ (hand_over _ before after job p e) m tried late = rw add-zero tried
works-Tried target c w _ (poll_ends _ before after job t s e) m tried late = rw add-zero tried
works-Tried target c w _ (poll_raises _ before after job e) m tried late = rw add-zero tried
works-Tried target c w _ (close _ p) (inl reached) tried late =
    omega (arith, reached, Tried-le target c.submitted w.phase tried)
works-Tried target c w _ (close _ p) (inr stopped) tried late = absurd (cc (late stopped, p))
works-Tried target c w _ (drain _ p e h) m tried late =
    omega (arith, subst (λ q. Tried target q c.submitted) p tried)
works-Tried target c w _ (finish _ p e) m tried late =
    omega (arith, subst (λ q. Tried target q c.submitted) p tried)
works-Tried target c w _ (end_run _ p) m tried late = absurd m

-- The stop event comes after the worker's end.
works-late :
    (target : ℕ) (c : Campaign) (w v : Workload) (s : Step w v)
    → May (exp3 target) c w v s
    → w.phase ≡ finished
    → v.phase ≡ finished
works-late target c w _ (fire _ p) m late = late
works-late target c w _ (submits _ n job e) m late = late
works-late target c w _ (submit_raises _ n e) m late = late
works-late target c w _ (hand_over _ before after job p e) m late = late
works-late target c w _ (poll_ends _ before after job t s e) m late = late
works-late target c w _ (poll_raises _ before after job e) m late = late
works-late target c w _ (close _ p) m late = absurd (cc (late, p))
works-late target c w _ (drain _ p e h) m late = absurd (cc (late, p))
works-late target c w _ (finish _ p e) m late = refl
works-late target c w _ (end_run _ p) m late = absurd m

pub works-runs :
    (kind : Kind) (c : Campaign) (w v : Workload) (s : Step w v)
    → May kind c w v s
    → (w.phase ≡ returned → ⊥)
    → v.phase ≡ returned
    → ⊥
works-runs kind c w _ (fire _ p) m runs h = runs h
works-runs kind c w _ (submits _ n job e) m runs h = runs h
works-runs kind c w _ (submit_raises _ n e) m runs h = runs h
works-runs kind c w _ (hand_over _ before after job p e) m runs h = runs h
works-runs kind c w _ (poll_ends _ before after job t s e) m runs h = runs h
works-runs kind c w _ (poll_raises _ before after job e) m runs h = runs h
works-runs kind c w _ (close _ p) m runs h = absurd (cc)
works-runs kind c w _ (drain _ p e n) m runs h = absurd (cc)
works-runs kind c w _ (finish _ p e) m runs h = absurd (cc)
works-runs kind c w _ (end_run _ p) m runs h = absurd m

pub works-Targeted :
    (kind : Kind) (c : Campaign) (v : Workload) (s : Step c.work v)
    → May kind c c.work v s
    → Targeted kind c.work c.submitted c.stopped
    → Targeted kind v (c.submitted + fires c.work v s) c.stopped
works-Targeted exp1 c v s m h = tt
works-Targeted (exp3 target) c v s m (tried, late) = (
  works-Tried target c c.work v s m tried late,
  λ stopped. works-late target c c.work v s m (late stopped),
)
