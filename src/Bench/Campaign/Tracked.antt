-- ===== src/Bench/Campaign/Tracked.antt =====
-- What the history of a run under faults tells of the leader.
use driftless.Prelude.{ℕ, Option, none, String, List, [], ◌∷◌, ◌++◌, ◌≡◌, refl, ap, sym, ◌∙◌}
use driftless.Bench.Result.{Result, ok, raise}
use driftless.Bench.Chaos.{Fault, kill_turn}
use driftless.Bench.LeaderTracker.{Seen, track, scan_once}
use driftless.Bench.LeaderTracker.Changes.{told, after_records, IsChanging, track-IsChanging}
use driftless.Bench.Workload.{Workload, Step}
use driftless.Bench.Workload as Pools
use driftless.Bench.Campaign.Entries.{
  Entry, run_start, submit, submit_error, poll_observe, outcome, fault, seen, run_end,
}
use driftless.Bench.Campaign.{
  Kind, Campaign, start, entries, after_kill_turn, Move, Reaches, works, observes, begins, leaves,
  kills, kills_leader, kills_follower, redelivers, records, tracks, stops, ends, here, next,
}
use mathlib.Core.Path.{subst}
use mathlib.Core.List.{map, append-nil}

-- The entries of the tracker.
abbrev pub sightings : List (ℕ × Entry) → List Seen
sightings [] = []
sightings ((t, run_start) ∷ es) = sightings es
sightings ((t, submit job) ∷ es) = sightings es
sightings ((t, submit_error) ∷ es) = sightings es
sightings ((t, poll_observe job s) ∷ es) = sightings es
sightings ((t, outcome job ns s) ∷ es) = sightings es
sightings ((t, fault l f) ∷ es) = sightings es
sightings ((t, seen s) ∷ es) = s ∷ sightings es
sightings ((t, run_end) ∷ es) = sightings es

sightings-append : (xs ys : List (ℕ × Entry)) → sightings (xs ++ ys) ≡ sightings xs ++ sightings ys
sightings-append [] ys = refl
sightings-append ((t, run_start) ∷ es) ys = sightings-append es ys
sightings-append ((t, submit job) ∷ es) ys = sightings-append es ys
sightings-append ((t, submit_error) ∷ es) ys = sightings-append es ys
sightings-append ((t, poll_observe job s) ∷ es) ys = sightings-append es ys
sightings-append ((t, outcome job ns s) ∷ es) ys = sightings-append es ys
sightings-append ((t, fault l f) ∷ es) ys = sightings-append es ys
sightings-append ((t, seen s) ∷ es) ys = ap (◌∷◌ s) (sightings-append es ys)
sightings-append ((t, run_end) ∷ es) ys = sightings-append es ys

sightings-seen : (now : ℕ) (ss : List Seen) → sightings (map (λ s. (now, seen s)) ss) ≡ ss
sightings-seen now [] = refl
sightings-seen now (s ∷ ss) = ap (◌∷◌ s) (sightings-seen now ss)

sightings-entries : (now : ℕ) (w v : Workload) (s : Step w v) → sightings (entries now w v s) ≡ []
sightings-entries now w _ (Pools.fire _ p) = refl
sightings-entries now w _ (Pools.submit _ n job e) = refl
sightings-entries now w _ (Pools.submit_raises _ n e) = refl
sightings-entries now w _ (Pools.hand_over _ before after job p e) = refl
sightings-entries now w _ (Pools.poll_ends _ before after job t s e) = refl
sightings-entries now w _ (Pools.poll_raises _ before after job e) = refl
sightings-entries now w _ (Pools.close _ p) = refl
sightings-entries now w _ (Pools.drain _ p e h) = refl
sightings-entries now w _ (Pools.finish _ p e) = refl
sightings-entries now w _ (Pools.end_run _ p) = refl

-- The entries lead to the leader of the tracker's last scan, each to another than the one before.
abbrev pub IsTracked : List (ℕ × Entry) → Option String → Type 0
IsTracked es last = (after_records none (sightings es) ≡ last) × IsChanging none (sightings es)

after_records-append :
    (last : Option String) (xs ys : List Seen)
    → after_records last (xs ++ ys) ≡ after_records (after_records last xs) ys
after_records-append last [] ys = refl
after_records-append last (s ∷ xs) ys = after_records-append (told s) xs ys

IsChanging-append :
    (last : Option String) (xs ys : List Seen)
    → IsChanging last xs
    → IsChanging (after_records last xs) ys
    → IsChanging last (xs ++ ys)
IsChanging-append last [] ys h g = g
IsChanging-append last (s ∷ xs) ys (differs, h) g = (differs, IsChanging-append (told s) xs ys h g)

-- Entries of the other threads tell nothing of the leader.
aside-IsTracked :
    (c : Campaign) (es : List (ℕ × Entry))
    → sightings es ≡ []
    → IsTracked c.history c.last_leader
    → IsTracked (c.history ++ es) c.last_leader
aside-IsTracked c es none_seen h =
    subst (λ ss. (after_records none ss ≡ c.last_leader) × IsChanging none ss)
      (sym (
        sightings-append c.history es
        ∙ ap (λ ss. sightings c.history ++ ss) none_seen
        ∙ append-nil (sightings c.history)))
      h

track-IsTracked :
    (c : Campaign) (ss : List Seen) (es : List (ℕ × Entry)) (leader : Option String)
    → sightings es ≡ ss
    → (after_records c.last_leader ss ≡ leader) × IsChanging c.last_leader ss
    → IsTracked c.history c.last_leader
    → IsTracked (c.history ++ es) leader
track-IsTracked c ss es leader same (reaches, changes) (last, h) =
    subst (λ all. (after_records none all ≡ leader) × IsChanging none all)
      (sym (sightings-append c.history es ∙ ap (λ more. sightings c.history ++ more) same))
      (
        after_records-append none (sightings c.history) ss
            ∙ ap (λ l. after_records l ss) last
            ∙ reaches,
        IsChanging-append none (sightings c.history) ss h
            (subst (λ l. IsChanging l ss) (sym last) changes),
      )

kill_turn-IsTracked :
    (c : Campaign) (turn : Result Fault × List String)
    → IsTracked c.history c.last_leader
    → IsTracked (after_kill_turn turn c).history (after_kill_turn turn c).last_leader
kill_turn-IsTracked c (ok f, stopped) h = h
kill_turn-IsTracked c (raise e, stopped) h = h

Move-IsTracked :
    (kind : Kind) (c d : Campaign)
    → Move kind c d
    → IsTracked c.history c.last_leader
    → IsTracked d.history d.last_leader
Move-IsTracked kind c _ (works _ now v s m) h =
    aside-IsTracked c _ (sightings-entries now c.work v s) h
Move-IsTracked kind c _ (observes _ target now before after job status k e) h =
    aside-IsTracked c ((now, poll_observe job status) ∷ []) refl h
Move-IsTracked kind c _ (begins _ l p e) h = h
Move-IsTracked kind c _ (leaves _ l p e) h = h
Move-IsTracked kind c _ (kills _ host found k p) h = kill_turn-IsTracked c (kill_turn host found) h
Move-IsTracked kind c _ (kills_leader _ target host found k p) h = h
Move-IsTracked kind c _ (kills_follower _ host services found p) h = h
Move-IsTracked kind c _ (redelivers _ change receive p) h = h
Move-IsTracked kind c _ (records _ l now f e) h = aside-IsTracked c ((now, fault l f) ∷ []) refl h
Move-IsTracked kind c _ (tracks _ now peek) h =
    track-IsTracked c (track c.last_leader (peek ∷ [])) _ (scan_once peek)
      (sightings-seen now (track c.last_leader (peek ∷ [])))
      (track-IsChanging c.last_leader (peek ∷ [])) h
Move-IsTracked kind c _ (stops _ m) h = h
Move-IsTracked kind c _ (ends _ now e o) h = aside-IsTracked c ((now, run_end) ∷ []) refl h

-- At each point of a run of experiment 1 or 3, whatever the order of its threads' steps, the leader
-- entries of the history lead to the leader of the tracker's last scan, and each of them tells a leader,
-- or a gap, other than the one before.
pub Reaches-IsTracked :
    (kind : Kind) (now : ℕ) (c : Campaign)
    → Reaches kind (start kind now) c
    → IsTracked c.history c.last_leader
Reaches-IsTracked kind now _ here = (refl, tt)
Reaches-IsTracked kind now c (next r m) = Move-IsTracked kind _ c m (Reaches-IsTracked kind now _ r)
