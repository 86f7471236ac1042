-- ===== src/Bench/Repeat.antt =====
-- The repeated run: `run_exp1_repeat` of chaos-bench/exp1.py with its iterations, each a reset of the
-- cluster, a run and the analysis of its history. An iteration that raised is kept as its exception.
pub mod Spread
mod Tests
use driftless.Prelude.{ℕ, String, ltb, leb, List, [], ◌∷◌, if◌then◌else◌, length}
use driftless.Bench.Result.{Result, ok, raise, ◌>>=◌}
use driftless.Bench.Analysis.{Analysis, pct, total, largest, smaller, analyze}
use driftless.Bench.History.{Line}
use driftless.Bench.Reset.{Site, reset_cluster}
use mathlib.Core.List.{map}

-- `[r["convergence_p50_ms"] for r in results if r.get("convergence_samples", 0) > 0]`
unfoldable pub samples_of : List (Result Analysis) → List ℕ
samples_of [] = []
samples_of (raise e ∷ results) = samples_of results
samples_of (ok r ∷ results) =
    if ltb 0 r.convergence_samples
    then r.convergence_p50 ∷ samples_of results
    else samples_of results

-- `r.get(…, 0) for r in results if "error" not in r`
unfoldable pub fields_of : (Analysis → ℕ) → List (Result Analysis) → List ℕ
fields_of field [] = []
fields_of field (raise e ∷ results) = fields_of field results
fields_of field (ok r ∷ results) = field r ∷ fields_of field results

abbrev pub smallest : List ℕ → ℕ
smallest [] = 0
smallest (x ∷ []) = x
smallest (x ∷ y ∷ xs) = smaller x (smallest (y ∷ xs))

pub record RepeatSummary : Type 0 where
  pub group : String
  pub iterations : ℕ
  pub successful_kills : ℕ
  pub convergence_samples : List ℕ
  pub convergence_p50 : ℕ
  pub convergence_p95 : ℕ
  pub convergence_mean : ℕ × ℕ
  pub convergence_max : ℕ
  pub convergence_min : ℕ
  pub submitted_total : ℕ
  pub completed_total : ℕ
  pub lost_total : ℕ
  pub per_iteration : List (Result Analysis)

-- The summary with its two percentiles.
unfoldable pub summary_of : String → List (Result Analysis) → ℕ → ℕ → RepeatSummary
summary_of group_name results p50 p95 = record {
  group = group_name;
  iterations = length results;
  successful_kills = length (samples_of results);
  convergence_samples = samples_of results;
  convergence_p50 = p50;
  convergence_p95 = p95;
  convergence_mean = (total (samples_of results), length (samples_of results));
  convergence_max = largest (samples_of results);
  convergence_min = smallest (samples_of results);
  submitted_total = total (fields_of (λ r. r.submitted) results);
  completed_total = total (fields_of (λ r. r.completed) results);
  lost_total = total (fields_of (λ r. r.lost) results);
  per_iteration = results;
}

unfoldable pub summarise : String → List (Result Analysis) → Result RepeatSummary
unfolding samples_of summary_of
summarise group_name results = pct (samples_of results) 50 >>= λ p50.
    pct (samples_of results) 95 >>= λ p95. ok (summary_of group_name results p50 p95)

-- What an iteration meets: the cluster at its reset, and the lines of the history that `run_exp1`
-- leaves, or its exception.
pub record Iteration : Type 0 where
  pub site : Site
  pub run : Result (List Line)

-- `ready_timeout_s`
abbrev pub ready_timeout_ns : ℕ
ready_timeout_ns = 240000000000

unfoldable pub run_single_kill_iteration : List String → Iteration → Result Analysis
run_single_kill_iteration services it =
    (reset_cluster it.site services ready_timeout_ns).0 >>= λ u. it.run >>= λ lines. analyze lines

unfoldable pub run_exp1_repeat : String → List String → List Iteration → Result RepeatSummary
unfolding run_single_kill_iteration summarise
run_exp1_repeat group_name services its =
    summarise group_name (map (run_single_kill_iteration services) its)
