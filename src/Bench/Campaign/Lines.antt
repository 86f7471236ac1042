-- ===== src/Bench/Campaign/Lines.antt =====
-- The entries of a history that the worker of a run under faults writes.
use driftless.Prelude.{ℕ, Bool, true, false, List, [], ◌∷◌, ◌++◌, ◌≡◌, refl, ap, arith, count_by}
use driftless.Bench.Chaos.{Fault}
use driftless.Bench.LeaderTracker.{Seen}
use driftless.Bench.Workload.{Line}
use driftless.Bench.Campaign.Entries.{
  Entry, run_start, submit, submit_error, poll_observe, outcome, fault, seen, run_end, Loop,
}
use mathlib.Core.List.{map}

-- The entries of the worker, as the lines of its workload.
abbrev pub bench_lines : List (ℕ × Entry) → List Line
bench_lines [] = []
bench_lines ((t, run_start) ∷ es) = Line.run_start ∷ bench_lines es
bench_lines ((t, submit job) ∷ es) = Line.submitted job ∷ bench_lines es
bench_lines ((t, submit_error) ∷ es) = bench_lines es
bench_lines ((t, poll_observe job s) ∷ es) = bench_lines es
bench_lines ((t, outcome job ns s) ∷ es) = Line.outcome job ns s ∷ bench_lines es
bench_lines ((t, fault l f) ∷ es) = bench_lines es
bench_lines ((t, seen s) ∷ es) = bench_lines es
bench_lines ((t, run_end) ∷ es) = bench_lines es

pub bench_lines-append :
    (xs ys : List (ℕ × Entry)) → bench_lines (xs ++ ys) ≡ bench_lines xs ++ bench_lines ys
bench_lines-append [] ys = refl
bench_lines-append ((t, run_start) ∷ es) ys = ap (◌∷◌ Line.run_start) (bench_lines-append es ys)
bench_lines-append ((t, submit job) ∷ es) ys =
    ap (◌∷◌ (Line.submitted job)) (bench_lines-append es ys)
bench_lines-append ((t, submit_error) ∷ es) ys = bench_lines-append es ys
bench_lines-append ((t, poll_observe job s) ∷ es) ys = bench_lines-append es ys
bench_lines-append ((t, outcome job ns s) ∷ es) ys =
    ap (◌∷◌ (Line.outcome job ns s)) (bench_lines-append es ys)
bench_lines-append ((t, fault l f) ∷ es) ys = bench_lines-append es ys
bench_lines-append ((t, seen s) ∷ es) ys = bench_lines-append es ys
bench_lines-append ((t, run_end) ∷ es) ys = bench_lines-append es ys

-- The attempts to submit: those that succeeded and those that raised.
abbrev pub is_try : ℕ × Entry → Bool
is_try (t, submit job) = true
is_try (t, submit_error) = true
is_try (t, e) = false

-- The entries of the other threads are none of the worker's.
abbrev pub IsAside : List (ℕ × Entry) → Type 0
IsAside es = (bench_lines es ≡ []) × (count_by is_try es ≡ 0)

pub faults-IsAside :
    (l : Loop) (now : ℕ) (fs : List Fault) → IsAside (map (λ f. (now, fault l f)) fs)
faults-IsAside l now [] = (refl, refl)
faults-IsAside l now (f ∷ fs) =
    let (lines, tries) = faults-IsAside l now fs in (lines, omega (arith, tries))

pub seen-IsAside : (now : ℕ) (ss : List Seen) → IsAside (map (λ s. (now, seen s)) ss)
seen-IsAside now [] = (refl, refl)
seen-IsAside now (s ∷ ss) =
    let (lines, tries) = seen-IsAside now ss in (lines, omega (arith, tries))
