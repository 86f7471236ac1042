-- ===== src/Bench/Analysis/Tasks.antt =====
-- The tasks that the analysis counts.
use driftless.Prelude.{
  ℕ, ◌-◌, suc, ◌≡◌, String, string_eq, true, Bool, not, ◌||◌, Bool-cases, Option-cases, inl, inr,
  none, some, List, [], ◌∷◌, ◌++◌, ◌==◌, contains, All, length, refl, arith, ◌∙◌, sym, ap,
  if◌then◌else◌, get_or,
}
use driftless.Prelude.Dict.{Dict, keys, insert}
use driftless.Bench.Result.{ok, ok-injective, raise-ne-ok, Result-cases, ◌>>=◌}
use driftless.Bench.History.{
  Event, Line, blank, event, garbled, is_op, Ids, note_id, note_event, collect_ids,
  task_ids_from_history,
}
use driftless.Bench.History.Submitted.{IsKept, note_event-IsKept}
use driftless.Bench.Analysis.Pct.{pct_total}
use driftless.Bench.Analysis.{
  Tally, Analysis, note, tally, empty, pct, convergence, summary, analyze,
}

pub length-keys : {V : Type 0} (d : Dict String V) → length (keys d) ≡ length d
length-keys [] = refl
length-keys (e ∷ d) = ap suc (length-keys d)

pub keys-insert :
    (k : String) (v : ℕ) (d : Dict String ℕ)
    → keys (insert k v d) ≡ (if contains (keys d) k then keys d else keys d ++ k ∷ [])
unfolding insert
keys-insert k v [] = refl
keys-insert k v ((j, w) ∷ d) = ground (arith, keys-insert k v d)

-- A line that submits a task names it.
abbrev pub names : Line → Bool
names (event ev) =
    not (is_op "submit" ev) || (elim ev.task_id [ none ↦ true | some tid ↦ not (tid == "") ])
names l = true

abbrev pub IsNamed : List Line → Type 0
IsNamed = All (λ l. names l ≡ true)

-- An event adds to the submitted tasks what it adds to the ids.
note-submits :
    (ev : Event) (t t' : Tally) (acc : Ids)
    → names (event ev) ≡ true
    → IsKept acc
    → keys t.submits ≡ acc.ids
    → note ev t ≡ ok t'
    → keys t'.submits ≡ (note_event ev acc).ids
unfolding note note_event note_id
note-submits ev t t' acc named kept same h = elim (Bool-cases (is_op "submit" ev)) [
  | inr other ↦ ground arith
  | inl submit ↦ elim (Option-cases ev.task_id) [
    | inl missing ↦ ground arith
    | inr (tid, present) ↦
        ground (arith, keys-insert tid (get_or ev.submitted_ns 0) t.submits, kept.same_ids tid)
  ]
]

tally-submits :
    (lines : List Line) (t : Tally) (acc : Ids) {t' : Tally} {ids : List String}
    → IsNamed lines
    → IsKept acc
    → keys t.submits ≡ acc.ids
    → tally lines t ≡ ok t'
    → collect_ids lines acc ≡ ok ids
    → keys t'.submits ≡ ids
unfolding tally collect_ids
tally-submits [] t acc named kept same h c = rw (← ok-injective h) (same ∙ ok-injective c)
tally-submits (blank ∷ lines) t acc named kept same h c =
    tally-submits lines t acc named.1 kept same h c
tally-submits (garbled ∷ lines) t acc named kept same h c = absurd (raise-ne-ok h)
tally-submits (event ev ∷ lines) t acc named kept same h c = elim (Result-cases (note ev t)) [
  | inr (e, failed) ↦ absurd (raise-ne-ok (rw failed at h))
  | inl (t₁, noted) ↦
      tally-submits lines t₁ (note_event ev acc) named.1 (note_event-IsKept ev acc kept)
        (note-submits ev t t₁ acc named.0 kept same noted) (rw noted at h) c
]

-- What the summary says of the tasks.
pub summary-tasks :
    (t : Tally) {r : Analysis}
    → summary t ≡ ok r
    → (r.submitted ≡ length t.submits)
      × (r.completed ≡ length t.completes)
      × (r.timed_out ≡ length t.timeouts)
      × (r.lost ≡ length t.submits - length t.completes - length t.timeouts)
      × (r.kill_count ≡ length t.kills)
unfolding summary
summary-tasks t h = elim (Result-cases (pct (convergence t.kills t.leader_events) 50)) [
  | inr (e, failed) ↦ absurd (raise-ne-ok (rw (failed, ◌>>=◌) at h))
  | inl (p50, at50) ↦ elim (Result-cases (pct (convergence t.kills t.leader_events) 95)) [
    | inr (e, failed) ↦ absurd (raise-ne-ok (rw (failed, ◌>>=◌) at (rw (at50, ◌>>=◌) at h)))
    | inl (p95, at95) ↦
        rw (← ok-injective (rw (at95, ◌>>=◌) at (rw (at50, ◌>>=◌) at h)))
          (refl, refl, refl, refl, refl)
  ]
]

-- A summary never fails.
pub summary_total : (t : Tally) → (r : Analysis) × (summary t ≡ ok r)
unfolding summary
summary_total t =
    let (p50, at50) = pct_total (convergence t.kills t.leader_events) 50 in
    let (p95, at95) = pct_total (convergence t.kills t.leader_events) 95 in
    elim (Result-cases (summary t)) [
      | inl done ↦ done
      | inr (e, failed) ↦
          absurd (raise-ne-ok (sym (rw (at95, ◌>>=◌) at (rw (at50, ◌>>=◌) at failed))))
    ]

-- On a history whose submit events all name a task, the analysis counts as submitted exactly the
-- tasks whose rows the two scans look up.
pub analyze-submitted :
    (lines : List Line) {r : Analysis} {ids : List String}
    → IsNamed lines
    → analyze lines ≡ ok r
    → task_ids_from_history lines ≡ ok ids
    → r.submitted ≡ length ids
unfolding analyze task_ids_from_history
analyze-submitted lines named h c = elim (Result-cases (tally lines empty)) [
  | inr (e, failed) ↦ absurd (raise-ne-ok (rw failed at h))
  | inl (t, tallied) ↦
      (summary-tasks t (rw tallied at h)).0
      ∙ sym (length-keys t.submits)
      ∙ ap length (
          tally-submits lines empty (record { ids = []; seen = [] }) named
            (record { unique = tt; same_ids = λ t. refl }) refl tallied c)
]
