-- ===== src/Plots/Summary.antt =====
-- The bars of experiments/exp3/plot_exp3.py that show the verdict on a run: the summary dashboard, and
-- the checks below figure 4. A bar is its label, its value, its colour and the text above it.
pub mod Passes
mod Tests
use driftless.Prelude.{
  ℕ, String, Bool, true, false, ◌&&◌, List, [], ◌∷◌, ◌==◌, string_eq, if◌then◌else◌, ltb,
}
use driftless.Prelude.Int.{ℤ, pos, ℤ_beq, int_text}
use driftless.Prelude.Text.{concat}
use driftless.Bench.Faults.{Report}

pub record Bar : Type 0 where
  pub label : String
  pub value : ℤ
  pub color : String
  pub text : String

abbrev pub pass_green : String
pass_green = "#2ecc71"

abbrev pub fail_red : String
fail_red = "#e74c3c"

-- A bar whose text is its value.
unfoldable pub plain_bar : String → ℕ → String → Bar
plain_bar label n color = record {
  label = label;
  value = pos n;
  color = color;
  text = int_text (pos n);
}

-- `FAIL_RED if n > 0 else PASS_GREEN`
abbrev pub alarm : ℕ → String
alarm n = if ltb 0 n then fail_red else pass_green

-- Panel A.
unfoldable pub outcome_bars : Report → List Bar
unfolding plain_bar
outcome_bars summary =
    plain_bar "Submitted" summary.submitted "#3498db"
    ∷ plain_bar "Completed" summary.completed pass_green
    ∷ plain_bar "Timed Out" summary.timed_out (alarm summary.timed_out)
    ∷ plain_bar "Lost" summary.lost (alarm summary.lost)
    ∷ []

-- Panel B: a count whose target is 0.
unfoldable pub safety_bar : String → ℤ → Bar
safety_bar label v = record {
  label = label;
  value = v;
  color = if ℤ_beq v (pos 0) then pass_green else fail_red;
  text = concat (int_text v ∷ (if ℤ_beq v (pos 0) then " ✓" else " ✗") ∷ []);
}

unfoldable pub safety_bars : Report → List Bar
unfolding safety_bar
safety_bars summary =
    safety_bar "Duplicate\nDispatches" (pos summary.duplicate_dispatches)
    ∷ safety_bar "Linearizability\nViolations" summary.linearizability_violations
    ∷ safety_bar "Stuck\nPENDING" (pos summary.stuck_pending)
    ∷ safety_bar "Stuck\nASSIGNED" (pos summary.stuck_assigned)
    ∷ []

-- Panel C.
unfoldable pub fault_bars : Report → List Bar
unfolding plain_bar
fault_bars summary =
    plain_bar "Leader\nKills" summary.leader_kills "#e67e22"
    ∷ plain_bar "Follower\nKills" summary.follower_kills "#9b59b6"
    ∷ plain_bar "SQS\nRedeliveries" summary.sqs_redeliveries_injected "#3498db"
    ∷ []

-- The checks below figure 4, over bars of fixed totals.
unfoldable pub proof_bar : String → ℤ → Bar
proof_bar label v = record {
  label = label;
  value = v;
  color = if ℤ_beq v (pos 0) then pass_green else fail_red;
  text = if ℤ_beq v (pos 0) then "0 ✓" else concat (int_text v ∷ " ✗" ∷ []);
}

unfoldable pub proof_bars : Report → List Bar
unfolding proof_bar
proof_bars summary =
    proof_bar "Duplicate\nDispatches" (pos summary.duplicate_dispatches)
    ∷ proof_bar "Linearizability\nViolations" summary.linearizability_violations
    ∷ proof_bar "Stuck PENDING\n(post-run)" (pos summary.stuck_pending)
    ∷ proof_bar "Stuck ASSIGNED\n(post-run)" (pos summary.stuck_assigned)
    ∷ []
