-- ===== src/Bench/Repeat/Spread.antt =====
-- The figures of a summary.
use driftless.Prelude.{
  ℕ, ◌≤◌, ◌+◌, ◌*◌, suc, ltb, leb, String, length, ap, sym, ◌∙◌, true, List, [], ◌∷◌, ◌≡◌, refl,
  arith, contains, nat_eq, beq_self, flatten, get_elem?, sort, some, if◌then◌else◌, Bool-cases, inl,
  inr,
}
use driftless.Prelude.Round.{round_half_even}
use driftless.Bench.Result.{Result, ok, raise, ok-injective}
use mathlib.Core.Path.{subst}
use driftless.Bench.Analysis.{Analysis, pct, largest, total}
use driftless.Bench.Analysis.Pct.{contains-pct, pct_mono, pct_at_place}
use driftless.Bench.Repeat.{
  RepeatSummary, samples_of, fields_of, smallest, summary_of, summarise, Iteration,
  run_single_kill_iteration, run_exp1_repeat,
}
use mathlib.Core.List.{map}

pub largest-bound : (xs : List ℕ) (v : ℕ) → contains xs v ≡ true → v ≤ largest xs
largest-bound [] v h = absurd (cc)
largest-bound (x ∷ xs) v h = ground (arith, largest-bound xs v, nat_eq.same_iff v x)

pub smallest-bound : (xs : List ℕ) (v : ℕ) → contains xs v ≡ true → smallest xs ≤ v
smallest-bound [] v h = absurd (cc)
smallest-bound (x ∷ []) v h = ground (arith, nat_eq.same_iff v x)
smallest-bound (x ∷ y ∷ xs) v h = ground (arith, smallest-bound (y ∷ xs) v, nat_eq.same_iff v x)

largest-held : (x : ℕ) (xs : List ℕ) → contains (x ∷ xs) (largest (x ∷ xs)) ≡ true
largest-held x [] = ground (arith, beq_self x)
largest-held x (y ∷ ys) = ground (arith, largest-held y ys, beq_self x)

smallest-held : (x : ℕ) (xs : List ℕ) → contains (x ∷ xs) (smallest (x ∷ xs)) ≡ true
smallest-held x [] = ground (arith, beq_self x)
smallest-held x (y ∷ ys) = ground (arith, smallest-held y ys, beq_self x)

-- A bound of the samples that is one of them.
abbrev pub IsLeast : List ℕ → ℕ → Type 0
IsLeast xs v = (contains xs v ≡ true) × ((u : ℕ) → contains xs u ≡ true → v ≤ u)

abbrev pub IsGreatest : List ℕ → ℕ → Type 0
IsGreatest xs v = (contains xs v ≡ true) × ((u : ℕ) → contains xs u ≡ true → u ≤ v)

pub smallest-IsLeast : (x : ℕ) (xs : List ℕ) → IsLeast (x ∷ xs) (smallest (x ∷ xs))
smallest-IsLeast x xs = (smallest-held x xs, λ u h. smallest-bound (x ∷ xs) u h)

pub largest-IsGreatest : (x : ℕ) (xs : List ℕ) → IsGreatest (x ∷ xs) (largest (x ∷ xs))
largest-IsGreatest x xs = (largest-held x xs, λ u h. largest-bound (x ∷ xs) u h)

-- The samples that count: the medians of the iterations that did not raise and have a sample.
abbrev pub sample_of : Result Analysis → List ℕ
sample_of (raise e) = []
sample_of (ok r) = if ltb 0 r.convergence_samples then r.convergence_p50 ∷ [] else []

samples_of-flatten :
    (results : List (Result Analysis)) → samples_of results ≡ flatten (map sample_of results)
unfolding samples_of
samples_of-flatten [] = refl
samples_of-flatten (raise e ∷ results) = samples_of-flatten results
samples_of-flatten (ok r ∷ results) = elim (Bool-cases (ltb 0 r.convergence_samples)) [
  | inl some_sample ↦ rw some_sample (ap (◌∷◌ r.convergence_p50) (samples_of-flatten results))
  | inr no_sample ↦ rw no_sample (samples_of-flatten results)
]

-- The figures of some samples: the least, the samples at the places of the two percentiles in their
-- order, which rise, and the greatest; without samples they are 0.
abbrev pub IsSpread : List ℕ → RepeatSummary → Type 0
IsSpread [] s =
    (s.convergence_min ≡ 0)
    × (s.convergence_p50 ≡ 0)
    × (s.convergence_p95 ≡ 0)
    × (s.convergence_max ≡ 0)
IsSpread (x ∷ xs) s =
    IsLeast (x ∷ xs) s.convergence_min
    × IsGreatest (x ∷ xs) s.convergence_max
    × (get_elem? (sort leb (x ∷ xs)) (round_half_even (50 * length xs) 100)
        ≡ some s.convergence_p50)
    × (get_elem? (sort leb (x ∷ xs)) (round_half_even (95 * length xs) 100)
        ≡ some s.convergence_p95)
    × (s.convergence_min ≤ s.convergence_p50)
    × (s.convergence_p50 ≤ s.convergence_p95)
    × (s.convergence_p95 ≤ s.convergence_max)

spread :
    (group_name : String) (results : List (Result Analysis)) (samples : List ℕ)
    → samples_of results ≡ samples
    → (p50 : ℕ) × (p95 : ℕ) × (pct samples 50 ≡ ok p50)
      × (pct samples 95 ≡ ok p95)
      × IsSpread samples (summary_of group_name results p50 p95)
unfolding pct summary_of
spread group_name results [] e = (0, 0, refl, refl, (rw e (refl, refl, refl, refl)))
spread group_name results (x ∷ xs) e =
    let (p50, e50, at50) = pct_at_place x xs 50 (omega arith) in
    let (p95, e95, at95) = pct_at_place x xs 95 (omega arith) in
    let (_, same50, in50) = contains-pct x xs 50 in
    let (_, same95, in95) = contains-pct x xs 95 in
    (
      p50,
      p95,
      e50,
      e95,
      (rw e (
        smallest-IsLeast x xs,
        largest-IsGreatest x xs,
        at50,
        at95,
        smallest-bound (x ∷ xs) p50 (rw (ok-injective (sym e50 ∙ same50)) in50),
        pct_mono (x ∷ xs) 50 95 (omega arith) e50 e95,
        largest-bound (x ∷ xs) p95 (rw (ok-injective (sym e95 ∙ same95)) in95),
      )),
    )

length-map {ℓ κ} :
    {A : Type ℓ} {B : Type κ} (f : A → B) (xs : List A) → length (map f xs) ≡ length xs
length-map f [] = refl
length-map f (x ∷ xs) = ap suc (length-map f xs)

-- What an iteration adds to a total: nothing if it raised.
abbrev pub added : (Analysis → ℕ) → Result Analysis → ℕ
added field (raise e) = 0
added field (ok r) = field r

total-fields_of :
    (field : Analysis → ℕ) (results : List (Result Analysis))
    → total (fields_of field results) ≡ total (map (added field) results)
unfolding fields_of
total-fields_of field [] = refl
total-fields_of field (raise e ∷ results) = omega (arith, total-fields_of field results)
total-fields_of field (ok r ∷ results) = ap (◌+◌ (field r)) (total-fields_of field results)

-- The totals of a summary, by what each result adds.
abbrev pub IsTotalled : List (Result Analysis) → RepeatSummary → Type 0
IsTotalled results s =
    (s.submitted_total ≡ total (map (added (λ r. r.submitted)) results))
    × (s.completed_total ≡ total (map (added (λ r. r.completed)) results))
    × (s.lost_total ≡ total (map (added (λ r. r.lost)) results))

-- A repeated run always has a summary, whichever of its resets, runs and analyses raised. It tells the
-- results of all iterations and their number. Its samples are the medians of those that did not raise
-- and have a sample; its least and greatest figure are the least and the greatest sample, and its
-- percentiles the samples at their places in the order, which rise between them. Its totals are the
-- sums over the iterations, to which one that raised adds nothing.
pub run_exp1_repeat-IsSpread :
    (group_name : String) (services : List String) (its : List Iteration)
    → let results = map (run_single_kill_iteration services) its in
      (s : RepeatSummary) × (run_exp1_repeat group_name services its ≡ ok s)
      × (s.per_iteration ≡ results)
      × (s.iterations ≡ length its)
      × (s.convergence_samples ≡ flatten (map sample_of results))
      × IsSpread (flatten (map sample_of results)) s
      × IsTotalled results s
unfolding run_exp1_repeat summarise summary_of
run_exp1_repeat-IsSpread group_name services its =
    let results = map (run_single_kill_iteration services) its in
    let (p50, p95, e50, e95, figures) = spread group_name results (samples_of results) refl in
    (
      summary_of group_name results p50 p95,
      (rw e50 (rw e95 refl)),
      refl,
      length-map (run_single_kill_iteration services) its,
      samples_of-flatten results,
      subst (λ l. IsSpread l (summary_of group_name results p50 p95)) (samples_of-flatten results)
          figures,
      (
        total-fields_of (λ r. r.submitted) results,
        total-fields_of (λ r. r.completed) results,
        total-fields_of (λ r. r.lost) results,
      ),
    )
