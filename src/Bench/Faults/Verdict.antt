-- ===== src/Bench/Faults/Verdict.antt =====
-- What the verdict on a run with faults says.
use driftless.Prelude.{
  ℕ, ◌+◌, ◌-◌, ◌≡◌, String, string_eq, false, Bool, ◌&&◌, Option-cases, inl, inr, Option, List, [],
  ◌∷◌, ◌==◌, count_by, length, refl, arith, ◌∙◌,
}
use driftless.Prelude.Perms.{length-Perm}
use driftless.Prelude.Int.{ℤ}
use driftless.Bench.Result.{Result, ok, raise, ok-injective, raise-ne-ok, client_error, ◌>>=◌}
use driftless.Bench.History.{
  Event, Line, blank, event, garbled, is_op, Ids, note_event, collect_ids, task_ids_from_history,
}
use driftless.Bench.Table.{Reply, Item, IsBatchGet}
use driftless.Bench.DupScan.{DupScanResult, scan as dup_scan}
use driftless.Bench.DupScan.Sound.{
  IsKeyed, redelivered, scan_dups-Reported, Reported as DupsReported,
}
use driftless.Bench.DivergenceScan.{DivergenceScanResult, scan as divergence_scan}
use driftless.Bench.DivergenceScan.Sound.{
  with_status, scan_divergence-Reported, Reported as DivergenceReported,
}
use driftless.Bench.Faults.{
  Counts, Report, count_event, count_all, no_counts, report, Lincheck, lin_violations_of, analyze,
}
use mathlib.Core.List.{filter_map}

-- The line is an event with the op.
abbrev pub has_op : String → Line → Bool
has_op op (event ev) = is_op op ev
has_op op l = false

-- The counts of some lines, added to those before them.
abbrev pub Adds : List Line → Counts → Counts → Type 0
Adds lines c c' =
    (c'.submitted ≡ c.submitted + count_by (has_op "submit") lines)
    × (c'.completed ≡ c.completed + count_by (has_op "complete") lines)
    × (c'.timed_out ≡ c.timed_out + count_by (has_op "timeout") lines)
    × (c'.leader_kills ≡ c.leader_kills + count_by (has_op "chaos.kill_leader") lines)
    × (c'.follower_kills ≡ c.follower_kills + count_by (has_op "chaos.kill_follower") lines)

-- The index of an op in the chain of tests.
one_op : (a b : String) (ev : Event) → (a == b) ≡ false → (is_op a ev && is_op b ev) ≡ false
one_op a b ev h = elim (Option-cases ev.op) [
  | inl missing ↦ rw (missing, is_op) refl
  | inr (op, present) ↦
      rw (present, is_op)
        (grind (arith, string_eq.same_iff op a, string_eq.same_iff op b, string_eq.same_iff a b))
]

count_event-Adds : (ev : Event) (c : Counts) → Adds (event ev ∷ []) c (count_event ev c)
unfolding count_event
count_event-Adds ev c = (
  ground arith,
  ground (arith, one_op "submit" "complete" ev refl),
  ground (arith, one_op "submit" "timeout" ev refl, one_op "complete" "timeout" ev refl),
  ground (
    arith,
    one_op "submit" "chaos.kill_leader" ev refl,
    one_op "complete" "chaos.kill_leader" ev refl,
    one_op "timeout" "chaos.kill_leader" ev refl,
  ),
  ground (
    arith,
    one_op "submit" "chaos.kill_follower" ev refl,
    one_op "complete" "chaos.kill_follower" ev refl,
    one_op "timeout" "chaos.kill_follower" ev refl,
    one_op "chaos.kill_leader" "chaos.kill_follower" ev refl,
  ),
)

Adds-cons :
    (l : Line) (lines : List Line) (c t c' : Counts)
    → Adds (l ∷ []) c t
    → Adds lines t c'
    → Adds (l ∷ lines) c c'
Adds-cons l lines c t c' (a₁, a₂, a₃, a₄, a₅) (b₁, b₂, b₃, b₄, b₅) = (
  omega (arith, a₁, b₁),
  omega (arith, a₂, b₂),
  omega (arith, a₃, b₃),
  omega (arith, a₄, b₄),
  omega (arith, a₅, b₅),
)

Adds-nothing : (c : Counts) → Adds [] c c
Adds-nothing c = (omega arith, omega arith, omega arith, omega arith, omega arith)

Adds-blank : (c : Counts) → Adds (blank ∷ []) c c
Adds-blank c = (omega arith, omega arith, omega arith, omega arith, omega arith)

pub count_all-Adds :
    (lines : List Line) (c : Counts) {c' : Counts} → count_all lines c ≡ ok c' → Adds lines c c'
unfolding count_all
count_all-Adds [] c h = rw (← ok-injective h) (Adds-nothing c)
count_all-Adds (blank ∷ lines) c {c'} h =
    Adds-cons blank lines c c c' (Adds-blank c) (count_all-Adds lines c h)
count_all-Adds (garbled ∷ lines) c h = absurd (raise-ne-ok h)
count_all-Adds (event ev ∷ lines) c {c'} h =
    Adds-cons (event ev) lines c (count_event ev c) c' (count_event-Adds ev c)
      (count_all-Adds lines (count_event ev c) h)

-- The report of a run over the ids of its history and a table of rows.
pub record IsVerdict (rows : String → Option Item) (lin_violations : ℤ) (lines : List Line)
    (ids : List String) (r : Report) : Type 0 where
  pub submitted : r.submitted ≡ count_by (has_op "submit") lines
  pub completed : r.completed ≡ count_by (has_op "complete") lines
  pub timed_out : r.timed_out ≡ count_by (has_op "timeout") lines
  pub leader_kills : r.leader_kills ≡ count_by (has_op "chaos.kill_leader") lines
  pub follower_kills : r.follower_kills ≡ count_by (has_op "chaos.kill_follower") lines
  pub linearizability : r.linearizability_violations ≡ lin_violations
  pub lost : r.lost ≡ r.submitted - r.completed - r.timed_out
  pub duplicates : r.duplicate_dispatches ≡ length (filter_map (redelivered rows) ids)
  pub stuck_pending : r.stuck_pending ≡ length (filter_map (with_status rows "PENDING") ids)
  pub stuck_assigned : r.stuck_assigned ≡ length (filter_map (with_status rows "ASSIGNED") ids)

report-IsVerdict :
    (rows : String → Option Item) (lines : List Line) (ids : List String) (lin_violations : ℤ)
    (dup_result : DupScanResult) (div_result : DivergenceScanResult) (c : Counts)
    → DupsReported rows ids (ok dup_result)
    → DivergenceReported rows ids (ok div_result)
    → Adds lines no_counts c
    → IsVerdict rows lin_violations lines ids (report dup_result div_result lin_violations c)
unfolding report
report-IsVerdict rows lines ids lin_violations dup_result div_result c (_, dups, same_dups)
      (_, p, same_p, a, same_a, _, _) (n₁, n₂, n₃, n₄, n₅) =
    record {
      submitted = omega (arith, n₁);
      completed = omega (arith, n₂);
      timed_out = omega (arith, n₃);
      leader_kills = omega (arith, n₄);
      follower_kills = omega (arith, n₅);
      linearizability = refl;
      lost = refl;
      duplicates = dups ∙ length-Perm same_dups;
      stuck_pending = p ∙ length-Perm same_p;
      stuck_assigned = a ∙ length-Perm same_a;
    }

-- What the analysis returns.
abbrev pub Decided : (String → Option Item) → ℤ → List Line → List String → Result Report → Type 0
Decided rows lin_violations lines ids (ok r) = IsVerdict rows lin_violations lines ids r
Decided rows lin_violations lines ids (raise e) = e ≡ client_error

-- A history that can be read for its ids can be counted.
count_all_total :
    (lines : List Line) (acc : Ids) (c : Counts) {ids : List String}
    → collect_ids lines acc ≡ ok ids
    → (c' : Counts) × (count_all lines c ≡ ok c')
unfolding collect_ids count_all
count_all_total [] acc c h = (c, refl)
count_all_total (blank ∷ lines) acc c h = count_all_total lines acc c h
count_all_total (garbled ∷ lines) acc c h = absurd (raise-ne-ok h)
count_all_total (event ev ∷ lines) acc c h =
    count_all_total lines (note_event ev acc) (count_event ev c) h

module _ (rows : String → Option Item) (keyed : IsKeyed rows)
    (first second : ℕ → List String → Reply) where
  -- On a table that does not change during the two scans, and for a history that can be read, the
  -- verdict on a run tells the violations of the linearizability check, if its result can be read,
  -- and counts the history's submit, complete, timeout, leader kill and follower kill events, and
  -- the tasks of the history whose row was received more than once, is PENDING or is ASSIGNED; the
  -- only other outcome is the exception of a refused call.
  pub analyze-Decided :
      IsBatchGet rows first
      → IsBatchGet rows second
      → (lincheck : Lincheck) (lin_violations : ℤ) (lines : List Line) (ids : List String)
      → lin_violations_of lincheck ≡ ok lin_violations
      → task_ids_from_history lines ≡ ok ids
      → Decided rows lin_violations lines ids (analyze first second lincheck lines)
  unfolding analyze task_ids_from_history
  analyze-Decided laws₁ laws₂ lincheck lin_violations lines ids linear read =
      with_dups (dup_scan first lines) (scan_dups-Reported rows keyed first laws₁ lines ids read)
    where
      with_divergence :
          (dup_result : DupScanResult) (d : Result DivergenceScanResult)
          → DupsReported rows ids (ok dup_result)
          → DivergenceReported rows ids d
          → Decided rows lin_violations lines ids (
              d >>= λ div_result. lin_violations_of lincheck >>= λ lin_violations.
              count_all lines no_counts >>= λ c. ok (report dup_result div_result lin_violations c))
      with_divergence dup_result (raise e) dups div = div
      with_divergence dup_result (ok div_result) dups div =
          let (c, counted) =
            count_all_total lines (record { ids = []; seen = [] }) no_counts read in
          rw (linear, counted, ◌>>=◌)
            (report-IsVerdict rows lines ids lin_violations dup_result div_result c dups div
              (count_all-Adds lines no_counts counted))

      with_dups :
          (d : Result DupScanResult)
          → DupsReported rows ids d
          → Decided rows lin_violations lines ids (
              d >>= λ dup_result. divergence_scan second lines >>= λ div_result.
              lin_violations_of lincheck >>= λ lin_violations.
              count_all lines no_counts >>= λ c. ok (report dup_result div_result lin_violations c))
      with_dups (raise e) dups = dups
      with_dups (ok dup_result) dups =
          with_divergence dup_result (divergence_scan second lines) dups
            (scan_divergence-Reported rows keyed second laws₂ lines ids read)
