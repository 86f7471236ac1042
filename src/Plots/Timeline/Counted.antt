-- ===== src/Plots/Timeline/Counted.antt =====
-- The counters are the numbers of tasks in each state.
use driftless.Prelude.{
  ℕ, ◌+◌, ◌≤◌, String, Bool, Option, none, some, List, [], ◌∷◌, ◌==◌, string_eq, ◌≡◌, refl, ap, ◌∙◌,
  arith, if◌then◌else◌, length, All, All-append, Bool-cases, inl, inr, sort,
}
use driftless.Prelude.Dict.{Dict, lookup, insert}
use driftless.Prelude.Int.{ℤ, pos}
use driftless.Plots.Timeline.{
  Event, Observation, Point, Timeline, inc, dec, is_over, move, leave, is_old, see, see_all, empty,
  timeline, observations, tuple_leb,
}
use driftless.Plots.Timeline.Moves.{
  tasks_in, is_pending, is_assigned, tasks_in-insert, moves, left, literal_ne, move-counters,
  moves-count, held-le,
}

-- The counters are numbers of tasks, so none is negative, and no task counts twice.
pub record IsCounted (d : Dict String String) (pending assigned completed : ℤ) : Type 0 where
  pub of_pending : pending ≡ pos (tasks_in is_pending d)
  pub of_assigned : assigned ≡ pos (tasks_in is_assigned d)
  pub of_completed : completed ≡ pos (tasks_in is_over d)

-- The counters and every point: a point's counts are not negative, and together at most the number
-- of tasks.
abbrev pub IsPoint : ℕ → Point → Type 0
IsPoint tasks p =
    (a : ℕ) × (b : ℕ) × (c : ℕ) × (p.pending ≡ pos a)
    × (p.assigned ≡ pos b)
    × (p.completed ≡ pos c)
    × (a + b + c ≤ tasks)

abbrev one_if : Bool → ℕ
one_if b = if b then 1 else 0

one_state : (s : String) → one_if (is_pending s) + one_if (is_assigned s) + one_if (is_over s) ≤ 1
unfolding is_over
one_state s = elim (Bool-cases (s == "PENDING")) [
  | inl pend ↦
      let a = literal_ne s "PENDING" "ASSIGNED" pend refl in
      let c = literal_ne s "PENDING" "COMPLETED" pend refl in
      let f = literal_ne s "PENDING" "FAILED" pend refl in rw (pend, a, c, f) (omega arith)
  | inr no_pend ↦ elim (Bool-cases (s == "ASSIGNED")) [
    | inl assign ↦
        let c = literal_ne s "ASSIGNED" "COMPLETED" assign refl in
        let f = literal_ne s "ASSIGNED" "FAILED" assign refl in
        rw (no_pend, assign, c, f) (omega arith)
    | inr no_assign ↦ rw (no_pend, no_assign) (ground arith)
  ]
]

tasks_in-sum :
    (d : Dict String String)
    → tasks_in is_pending d + tasks_in is_assigned d + tasks_in is_over d ≤ length d
tasks_in-sum [] = omega arith
tasks_in-sum ((k, s) ∷ d) = omega (arith, tasks_in-sum d, one_state s)

pub record IsTimeline (t : Timeline) : Type 0 where
  pub counted : IsCounted t.task_status t.pending t.assigned t.completed
  pub drawn : All (IsPoint (length t.task_status)) t.points

length-insert :
    (tid status : String) (d : Dict String String) → length d ≤ length (insert tid status d)
unfolding insert
length-insert tid status [] = omega arith
length-insert tid status ((k, s) ∷ d) = ground (arith, length-insert tid status d)

IsPoint-more : (m n : ℕ) (ps : List Point) → m ≤ n → All (IsPoint m) ps → All (IsPoint n) ps
IsPoint-more m n [] h all = tt
IsPoint-more m n (p ∷ ps) h all =
    let (a, b, c, ea, eb, ec, small) = all.0 in
    ((a, b, c, ea, eb, ec, omega arith), IsPoint-more m n ps h all.1)

leave-counters :
    (old : Option String) (t : Timeline)
    → ((leave old t).pending ≡ left is_pending old t.pending)
      × ((leave old t).assigned ≡ left is_assigned old t.assigned)
      × ((leave old t).completed ≡ left is_over old t.completed)
unfolding leave
leave-counters none t = (refl, refl, refl)
leave-counters (some old) t = move-counters dec old t

-- A step of the loop, where the status is a new one.
moved-IsCounted :
    (o : Observation) (t : Timeline)
    → IsCounted t.task_status t.pending t.assigned t.completed
    → let m = move inc o.status (leave (lookup o.task_id t.task_status) t) in
      IsCounted (insert o.task_id o.status t.task_status) m.pending m.assigned m.completed
moved-IsCounted o t h =
    let old = lookup o.task_id t.task_status in
    let (p, a, c) = move-counters inc o.status (leave old t) in
    let (lp, la, lc) = leave-counters old t in
    record {
      of_pending =
          p ∙ ap (moves is_pending inc o.status) lp ∙ counts is_pending t.pending h.of_pending;
      of_assigned =
          a ∙ ap (moves is_assigned inc o.status) la ∙ counts is_assigned t.assigned h.of_assigned;
      of_completed =
          c ∙ ap (moves is_over inc o.status) lc ∙ counts is_over t.completed h.of_completed;
    }
  where
    counts :
        (test : String → Bool) (n : ℤ)
        → n ≡ pos (tasks_in test t.task_status)
        → moves test inc o.status (left test (lookup o.task_id t.task_status) n)
          ≡ pos (tasks_in test (insert o.task_id o.status t.task_status))
    counts test n e =
        moves-count test (lookup o.task_id t.task_status) o.status n (tasks_in test t.task_status)
          (tasks_in test (insert o.task_id o.status t.task_status)) e
          (tasks_in-insert test o.task_id o.status t.task_status)
          (held-le test o.task_id t.task_status)

see-IsTimeline :
    (run_start_ns : ℕ) (o : Observation) (t : Timeline)
    → IsTimeline t
    → IsTimeline (see run_start_ns o t)
unfolding see
see-IsTimeline run_start_ns o t h =
    elim (Bool-cases (is_old (lookup o.task_id t.task_status) o.status)) [
      | inl same ↦ rw same h
      | inr new ↦
          let d = insert o.task_id o.status t.task_status in
          let now = moved-IsCounted o t h.counted in
          rw new (record {
            counted = now;
            drawn =
                All-append (IsPoint (length d)) t.points _
                  (IsPoint-more (length t.task_status) (length d) t.points
                    (length-insert o.task_id o.status t.task_status) h.drawn)
                  (
                    (
                      tasks_in is_pending d,
                      tasks_in is_assigned d,
                      tasks_in is_over d,
                      now.of_pending,
                      now.of_assigned,
                      now.of_completed,
                      tasks_in-sum d,
                    ),
                    tt,
                  );
          })
    ]

see_all-IsTimeline :
    (run_start_ns : ℕ) (os : List Observation) (t : Timeline)
    → IsTimeline t
    → IsTimeline (see_all run_start_ns os t)
unfolding see_all
see_all-IsTimeline run_start_ns [] t h = h
see_all-IsTimeline run_start_ns (o ∷ os) t h =
    see_all-IsTimeline run_start_ns os (see run_start_ns o t) (see-IsTimeline run_start_ns o t h)

-- The counters of the timeline are the numbers of tasks that are pending, assigned, and completed or
-- failed by their latest status, and at no point is a count negative or their sum above the number
-- of tasks.
pub timeline-IsTimeline :
    (run_start_ns : ℕ) (events : List Event) → IsTimeline (timeline run_start_ns events)
unfolding timeline
timeline-IsTimeline run_start_ns events =
    see_all-IsTimeline run_start_ns (sort tuple_leb (observations events)) empty (record {
      counted = record { of_pending = refl; of_assigned = refl; of_completed = refl };
      drawn = tt;
    })
