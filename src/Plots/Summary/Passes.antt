-- ===== src/Plots/Summary/Passes.antt =====
-- When the bars of the safety checks are all green.
use driftless.Prelude.{
  ℕ, String, Bool, true, ◌&&◌, Option, List, [], ◌∷◌, ◌==◌, string_eq, ◌≡◌, ◌↔◌, refl, sym, ap, ◌∙◌,
  arith, length, Bool-cases, inl, inr, nat_beq_iff,
}
use driftless.Prelude.Int.{ℤ, pos, ℤ_beq, ℤ_beq_iff}
use driftless.Bench.Result.{ok}
use driftless.Bench.History.{Line, task_ids_from_history}
use driftless.Bench.Table.{Reply, Item, IsBatchGet}
use driftless.Bench.DupScan.Sound.{IsKeyed, redelivered}
use driftless.Bench.DivergenceScan.Sound.{with_status}
use driftless.Bench.Faults.{Report, Lincheck, lin_violations_of, analyze}
use driftless.Bench.Faults.Verdict.{Decided, IsVerdict, analyze-Decided}
use driftless.Plots.Summary.{Bar, pass_green, safety_bar, safety_bars, proof_bar, proof_bars}
use mathlib.Core.List.{filter_map}
use mathlib.Core.Path.{subst}

abbrev pub all_green : List Bar → Bool
all_green [] = true
all_green (b ∷ bars) = b.color == pass_green && all_green bars

pub green : ℤ → Bool
green v = ℤ_beq v (pos 0)

safety_bar-green : (label : String) (v : ℤ) → ((safety_bar label v).color == pass_green) ≡ green v
unfolding safety_bar green
safety_bar-green label v = elim (Bool-cases (ℤ_beq v (pos 0))) [
  | inl nothing ↦ rw nothing refl
  | inr some_found ↦ rw some_found refl
]

proof_bar-green : (label : String) (v : ℤ) → ((proof_bar label v).color == pass_green) ≡ green v
unfolding proof_bar green
proof_bar-green label v = elim (Bool-cases (ℤ_beq v (pos 0))) [
  | inl nothing ↦ rw nothing refl
  | inr some_found ↦ rw some_found refl
]

-- The four counts of a report are all 0.
abbrev green_report : Report → Bool
green_report r =
    green (pos r.duplicate_dispatches)
    && (green r.linearizability_violations
        && (green (pos r.stuck_pending) && (green (pos r.stuck_assigned) && true)))

safety_bars-green : (r : Report) → all_green (safety_bars r) ≡ green_report r
unfolding safety_bars
safety_bars-green r =
    rw
      (
        safety_bar-green "Duplicate\nDispatches" (pos r.duplicate_dispatches),
        safety_bar-green "Linearizability\nViolations" r.linearizability_violations,
        safety_bar-green "Stuck\nPENDING" (pos r.stuck_pending),
        safety_bar-green "Stuck\nASSIGNED" (pos r.stuck_assigned),
      )
      refl

proof_bars-green : (r : Report) → all_green (proof_bars r) ≡ green_report r
unfolding proof_bars
proof_bars-green r =
    rw
      (
        proof_bar-green "Duplicate\nDispatches" (pos r.duplicate_dispatches),
        proof_bar-green "Linearizability\nViolations" r.linearizability_violations,
        proof_bar-green "Stuck PENDING\n(post-run)" (pos r.stuck_pending),
        proof_bar-green "Stuck ASSIGNED\n(post-run)" (pos r.stuck_assigned),
      )
      refl

-- What a run with no violation leaves: no task was received twice, is PENDING or is ASSIGNED, and the
-- check found nothing.
pub record IsClean (rows : String → Option Item) (lin_violations : ℤ) (ids : List String)
    : Type 0 where
  pub once : filter_map (redelivered rows) ids ≡ []
  pub linear : lin_violations ≡ pos 0
  pub none_pending : filter_map (with_status rows "PENDING") ids ≡ []
  pub none_assigned : filter_map (with_status rows "ASSIGNED") ids ≡ []

empty_of_length {ℓ} : {A : Type ℓ} (xs : List A) → length xs ≡ 0 → xs ≡ []
empty_of_length [] h = refl
empty_of_length (x ∷ xs) h = absurd (omega (arith, h))

green-zero : (n : ℕ) → (green (pos n) ≡ true) ↔ (n ≡ 0)
unfolding green
green-zero n = nat_beq_iff n 0

green-pos : (v : ℤ) → (green v ≡ true) ↔ (v ≡ pos 0)
unfolding green
green-pos v = ℤ_beq_iff v (pos 0)

all_four :
    (a b c d : Bool)
    → (a && (b && (c && (d && true)))) ≡ true
    → (a ≡ true) × (b ≡ true) × (c ≡ true) × (d ≡ true)
all_four a b c d h = (ground arith, ground arith, ground arith, ground arith)

green_report_iff :
    (rows : String → Option Item) (lin_violations : ℤ) (lines : List Line) (ids : List String)
    (r : Report)
    → IsVerdict rows lin_violations lines ids r
    → (green_report r ≡ true) ↔ IsClean rows lin_violations ids
green_report_iff rows lin_violations lines ids r v = (passes, passed)
  where
    passes : green_report r ≡ true → IsClean rows lin_violations ids
    passes h =
        let (dups, lin, stuck, assigned) = all_four _ _ _ _ h in
        record {
          once = empty_of_length _ (sym v.duplicates ∙ (green-zero r.duplicate_dispatches).0 dups);
          linear = sym v.linearizability ∙ (green-pos r.linearizability_violations).0 lin;
          none_pending =
              empty_of_length _ (sym v.stuck_pending ∙ (green-zero r.stuck_pending).0 stuck);
          none_assigned =
              empty_of_length _ (sym v.stuck_assigned ∙ (green-zero r.stuck_assigned).0 assigned);
        }

    passed : IsClean rows lin_violations ids → green_report r ≡ true
    passed clean =
        rw
          (
            (green-zero r.duplicate_dispatches).1 (v.duplicates ∙ ap length clean.once),
            (green-pos r.linearizability_violations).1 (v.linearizability ∙ clean.linear),
            (green-zero r.stuck_pending).1 (v.stuck_pending ∙ ap length clean.none_pending),
            (green-zero r.stuck_assigned).1 (v.stuck_assigned ∙ ap length clean.none_assigned),
          )
          refl

module _ (rows : String → Option Item) (keyed : IsKeyed rows)
    (first second : ℕ → List String → Reply) where
  -- For a run whose verdict was reached on a table that does not change during the scans, with a result
  -- of the linearizability check, the safety bars of the dashboard are all green exactly if the check
  -- found nothing and no task of the history was received more than once, is PENDING or is ASSIGNED; the
  -- bars below figure 4 are all green exactly then, too.
  pub safety_bars-IsClean :
      IsBatchGet rows first
      → IsBatchGet rows second
      → (lincheck : Lincheck) (lin_violations : ℤ) (lines : List Line) (ids : List String)
        (r : Report)
      → lin_violations_of lincheck ≡ ok lin_violations
      → task_ids_from_history lines ≡ ok ids
      → analyze first second lincheck lines ≡ ok r
      → ((all_green (safety_bars r) ≡ true) ↔ IsClean rows lin_violations ids)
        × (all_green (proof_bars r) ≡ all_green (safety_bars r))
  safety_bars-IsClean laws₁ laws₂ lincheck lin_violations lines ids r linear read done =
      let verdict = subst (Decided rows lin_violations lines ids) done (
        analyze-Decided rows keyed first second laws₁ laws₂ lincheck lin_violations lines ids linear
          read) in
      (
        rw (safety_bars-green r) (green_report_iff rows lin_violations lines ids r verdict),
        proof_bars-green r ∙ sym (safety_bars-green r),
      )
