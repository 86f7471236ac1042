-- ===== src/Plots/Timeline/Moves.antt =====
-- How a counter of the timeline moves, and how many tasks have a status.
use driftless.Prelude.{
  ℕ, ◌+◌, ◌-◌, ◌≤◌, zero, suc, String, Bool, true, false, ◌||◌, Option, none, some, [], ◌∷◌, ◌==◌,
  string_eq, ◌≡◌, refl, ap, ◌∙◌, arith, if◌then◌else◌, count_by, Bool-cases, inl, inr,
}
use driftless.Prelude.Dict.{Dict, lookup, insert}
use driftless.Prelude.Int.{ℤ, pos}
use driftless.Plots.Timeline.{Timeline, inc, dec, is_over, move}

abbrev pub is_pending : String → Bool
is_pending status = status == "PENDING"

abbrev pub is_assigned : String → Bool
is_assigned status = status == "ASSIGNED"

-- How many tasks have a status that passes the test.
abbrev pub tasks_in : (String → Bool) → Dict String String → ℕ
tasks_in test d = count_by (λ e. test e.1) d

-- How many of one optional status pass the test.
abbrev pub held : (String → Bool) → Option String → ℕ
held test none = 0
held test (some s) = if test s then 1 else 0

-- A write takes a task from its old status to the new one.
pub tasks_in-insert :
    (test : String → Bool) (tid status : String) (d : Dict String String)
    → tasks_in test (insert tid status d) + held test (lookup tid d)
      ≡ tasks_in test d + (if test status then 1 else 0)
unfolding insert lookup
tasks_in-insert test tid status [] = ground arith
tasks_in-insert test tid status ((k, s) ∷ d) = elim (Bool-cases (tid == k)) [
  | inl same ↦ rw (same, insert, lookup) (omega arith)
  | inr other ↦ rw (other, insert, lookup) (omega (arith, tasks_in-insert test tid status d))
]

-- A counter moves if the status passes its test.
abbrev pub moves : (String → Bool) → (ℤ → ℤ) → String → ℤ → ℤ
moves test step status n = if test status then step n else n

abbrev pub left : (String → Bool) → Option String → ℤ → ℤ
left test none n = n
left test (some old) n = moves test dec old n

pub literal_ne : (s a b : String) → (s == a) ≡ true → (a == b) ≡ false → (s == b) ≡ false
literal_ne s a b h ne = let same : s ≡ a = (string_eq.same_iff s a).0 h in rw same ne

pub move-counters :
    (step : ℤ → ℤ) (status : String) (t : Timeline)
    → ((move step status t).pending ≡ moves is_pending step status t.pending)
      × ((move step status t).assigned ≡ moves is_assigned step status t.assigned)
      × ((move step status t).completed ≡ moves is_over step status t.completed)
unfolding move is_over
move-counters step status t = elim (Bool-cases (status == "PENDING")) [
  | inl pend ↦
      let a = literal_ne status "PENDING" "ASSIGNED" pend refl in
      let c = literal_ne status "PENDING" "COMPLETED" pend refl in
      let f = literal_ne status "PENDING" "FAILED" pend refl in
      (rw (pend, move) refl, rw (pend, a, move) refl, rw (pend, c, f, move) refl)
  | inr no_pend ↦ elim (Bool-cases (status == "ASSIGNED")) [
    | inl assign ↦
        let c = literal_ne status "ASSIGNED" "COMPLETED" assign refl in
        let f = literal_ne status "ASSIGNED" "FAILED" assign refl in
        (
          rw (no_pend, assign, move) refl,
          rw (no_pend, assign, move) refl,
          rw (no_pend, assign, c, f, move) refl,
        )
    | inr no_assign ↦ elim (Bool-cases (status == "COMPLETED" || status == "FAILED")) [
      | inl over ↦ (
        rw (no_pend, no_assign, over, move) refl,
        rw (no_pend, no_assign, over, move) refl,
        rw (no_pend, no_assign, over, move) refl,
      )
      | inr unknown ↦ (
        rw (no_pend, no_assign, unknown, move) refl,
        rw (no_pend, no_assign, unknown, move) refl,
        rw (no_pend, no_assign, unknown, move) refl,
      )
    ]
  ]
]

enters :
    (test : String → Bool) (status : String) (n : ℤ) (before after : ℕ)
    → n ≡ pos before
    → after ≡ before + (if test status then 1 else 0)
    → moves test inc status n ≡ pos after
enters test status n before after e h = elim (Bool-cases (test status)) [
  | inl into ↦ rw (into, e) (ap pos (ground arith))
  | inr past ↦ rw (past, e) (ap pos (ground arith))
]

dec-pos : (n : ℕ) → 1 ≤ n → dec (pos n) ≡ pos (n - 1)
dec-pos zero h = absurd (omega arith)
dec-pos (suc n) h = ap pos (omega arith)

-- What a counter is after a task has gone from its old status to a new one.
pub moves-count :
    (test : String → Bool) (old : Option String) (status : String) (n : ℤ) (before after : ℕ)
    → n ≡ pos before
    → after + held test old ≡ before + (if test status then 1 else 0)
    → held test old ≤ before
    → moves test inc status (left test old n) ≡ pos after
moves-count test none status n before after e h small =
    enters test status n before after e (omega arith)
moves-count test (some old) status n before after e h small = elim (Bool-cases (test old)) [
  | inr elsewhere ↦ rw elsewhere (enters test status n before after e (ground arith))
  | inl from ↦ rw from (
      enters test status (dec n) (before - 1) after (ap dec e ∙ dec-pos before (ground arith))
        (ground arith))
]

pub held-le :
    (test : String → Bool) (tid : String) (d : Dict String String)
    → held test (lookup tid d) ≤ tasks_in test d
unfolding lookup
held-le test tid [] = omega arith
held-le test tid ((k, s) ∷ d) = elim (Bool-cases (tid == k)) [
  | inl same ↦ rw (same, lookup) (omega arith)
  | inr other ↦ rw (other, lookup) (omega (arith, held-le test tid d))
]
