-- ===== src/Plots/Throughput/Counts.antt =====
-- What the counts of a history are.
use driftless.Prelude.{
  ℕ, ◌+◌, ◌≤◌, String, Bool, true, false, ◌||◌, ◌&&◌, Option, none, some, List, [], ◌∷◌, ◌==◌,
  string_eq, ◌≡◌, refl, ap, ◌∙◌, arith, if◌then◌else◌, get_or, count_by, length, length-append,
  Bool-cases, Option-cases, inl, inr, is_some, All,
}
use driftless.Prelude.Dict.{Dict, lookup, insert, lookup-insert}
use driftless.Prelude.Int.{ℤ, sub_ℕ, ℤ_eq}
use driftless.Bench.Result.{ok, Result-cases, ok-injective, raise-ne-ok}
use driftless.Bench.History.{Event, is_op}
use driftless.Plots.Throughput.{
  Stats, Outcomes, bump, whole_seconds, note_complete, note, note_all, outcomes, analyze,
}

-- The sum of the counts of a dict.
abbrev pub total : Dict ℤ ℕ → ℕ
total [] = 0
total ((k, n) ∷ d) = n + total d

total-insert :
    (k : ℤ) (n : ℕ) (d : Dict ℤ ℕ) → total (insert k n d) + get_or (lookup k d) 0 ≡ total d + n
unfolding insert lookup
total-insert k n [] = omega arith
total-insert k n ((j, m) ∷ d) = elim (Bool-cases (k == j)) [
  | inl same ↦ rw (same, insert, lookup) (omega arith)
  | inr other ↦ rw (other, insert, lookup) (omega (arith, total-insert k n d))
]

total-bump : (k : ℤ) (d : Dict ℤ ℕ) → total (bump k d) ≡ total d + 1
unfolding bump
total-bump k d = omega (arith, total-insert k (get_or (lookup k d) 0 + 1) d)

abbrev count_of : String → Dict String ℕ → ℕ
count_of st d = get_or (lookup st d) 0

count_of-bump :
    (st k : String) (d : Dict String ℕ)
    → count_of st (bump k d) ≡ count_of st d + (if st == k then 1 else 0)
unfolding bump
count_of-bump st k d =
    ground (arith, lookup-insert k st (get_or (lookup k d) 0 + 1) d, string_eq.same_iff st k)

-- An outcome of the status: an event of one of the two kinds, where a missing status counts as "?".
abbrev pub ends_as : String → Event → Bool
ends_as st e = (is_op "complete" e || is_op "timeout" e) && (st == get_or e.status "?")

abbrev one_if : Bool → ℕ
one_if b = if b then 1 else 0

-- What a step does to the counts.
record IsNoted (e : Event) (s t : Stats) : Type 0 where
  counts :
      (st : String)
      → count_of st t.status_counts ≡ count_of st s.status_counts + one_if (ends_as st e)
  latencies : length t.latencies_ns ≡ length s.latencies_ns + one_if (is_op "complete" e)
  throughput : total t.completions_by_sec ≤ total s.completions_by_sec + one_if (is_op "complete" e)

is_op_ne : (a b : String) (e : Event) → is_op a e ≡ true → (a == b) ≡ false → is_op b e ≡ false
is_op_ne a b e h ne = elim (Option-cases e.op) [
  | inl missing ↦ rw (missing, is_op) refl
  | inr (o, has) ↦
      let same : o ≡ a = (string_eq.same_iff o a).0 (rw (has, is_op) at h) in
      rw (has, is_op) (rw same ne)
]

-- What the part for a completion does.
record IsCompleted (s t : Stats) : Type 0 where
  counts : t.status_counts ≡ s.status_counts
  latencies : length t.latencies_ns ≡ length s.latencies_ns + 1
  throughput : total t.completions_by_sec ≤ total s.completions_by_sec + 1

note_complete-IsCompleted : (e : Event) (s t : Stats) → note_complete e s ≡ ok t → IsCompleted s t
unfolding note_complete
note_complete-IsCompleted e s t h = elim (Option-cases e.completed_ns) [
  | inl missing ↦ absurd (raise-ne-ok (rw (missing, note_complete) at h))
  | inr (c, done) ↦ elim (Option-cases e.submitted_ns) [
    | inl missing ↦ absurd (raise-ne-ok (rw (done, note_complete, missing) at h))
    | inr (b, begun) ↦ rw (← ok-injective (rw (done, note_complete, begun) at h)) (record {
      counts = refl;
      latencies = length-append s.latencies_ns (sub_ℕ c b ∷ []);
      throughput = rises s.run_start_ns c;
    })
  ]
]
  where
    rises :
        (start : Option ℕ) (c : ℕ)
        → total (elim start [
          | none ↦ s.completions_by_sec
          | some t₀ ↦ bump (whole_seconds (sub_ℕ c t₀)) s.completions_by_sec
        ])
          ≤ total s.completions_by_sec + 1
    rises none c = omega arith
    rises (some t₀) c = omega (arith, total-bump (whole_seconds (sub_ℕ c t₀)) s.completions_by_sec)

note-IsNoted : (e : Event) (s t : Stats) → note e s ≡ ok t → IsNoted e s t
unfolding note
note-IsNoted e s t h = elim (Bool-cases (is_op "run_start" e)) [
  | inl starts ↦
      let c = is_op_ne "run_start" "complete" e starts refl in
      let o = is_op_ne "run_start" "timeout" e starts refl in
      rw (← ok-injective (rw (starts, note) at h)) (record {
        counts = λ st. rw (c, o) (omega arith);
        latencies = rw c (omega arith);
        throughput = rw c (omega arith);
      })
  | inr later ↦ elim (Bool-cases (is_op "complete" e)) [
    | inl completes ↦
        let done = note_complete-IsCompleted e _ t (rw (later, note, completes) at h) in
        record {
          counts = λ st. rw completes (
              ap (count_of st) done.counts
              ∙ count_of-bump st (get_or e.status "?") s.status_counts);
          latencies = rw completes done.latencies;
          throughput = rw completes done.throughput;
        }
    | inr incomplete ↦ elim (Bool-cases (is_op "timeout" e)) [
      | inl late ↦ rw (← ok-injective (rw (later, note, incomplete, late) at h)) (record {
        counts =
            λ st. rw (incomplete, late) (count_of-bump st (get_or e.status "?") s.status_counts);
        latencies = rw incomplete (omega arith);
        throughput = rw incomplete (omega arith);
      })
      | inr other ↦ rw (← ok-injective (rw (later, note, incomplete, other) at h)) (record {
        counts = λ st. rw (incomplete, other) (omega arith);
        latencies = rw incomplete (omega arith);
        throughput = rw incomplete (omega arith);
      })
    ]
  ]
]

-- What the analysis tells of a history: how many of its outcomes have each status, a latency for each
-- completion, and no more completions per second, in all, than there are completions.
pub record IsTallied (events : List Event) (o : Outcomes) : Type 0 where
  pub completed : o.completed_count ≡ count_by (ends_as "COMPLETED") events
  pub failed : o.failed_count ≡ count_by (ends_as "FAILED") events
  pub timed_out : o.timeout_count ≡ count_by (ends_as "TIMEOUT") events
  pub latencies : length o.latencies_ns ≡ count_by (is_op "complete") events
  pub throughput : total o.completions_by_sec ≤ count_by (is_op "complete") events

record IsNotedAll (events : List Event) (s t : Stats) : Type 0 where
  counts :
      (st : String)
      → count_of st t.status_counts ≡ count_of st s.status_counts + count_by (ends_as st) events
  latencies : length t.latencies_ns ≡ length s.latencies_ns + count_by (is_op "complete") events
  throughput :
      total t.completions_by_sec ≤ total s.completions_by_sec + count_by (is_op "complete") events

note_all-IsNotedAll :
    (events : List Event) (s t : Stats) → note_all events s ≡ ok t → IsNotedAll events s t
unfolding note_all
note_all-IsNotedAll [] s t h =
    rw (← ok-injective h)
      (record { counts = λ st. omega arith; latencies = omega arith; throughput = omega arith })
note_all-IsNotedAll (e ∷ events) s t h = elim (Result-cases (note e s)) [
  | inr (err, failed) ↦ absurd (raise-ne-ok (rw (failed, note_all) at h))
  | inl (u, noted) ↦
      let first = note-IsNoted e s u noted in
      let rest = note_all-IsNotedAll events u t (rw (noted, note_all) at h) in
      record {
        counts = λ st. omega (arith, first.counts st, rest.counts st);
        latencies = omega (arith, first.latencies, rest.latencies);
        throughput = omega (arith, first.throughput, rest.throughput);
      }
]

-- A completion tells both of its times.
abbrev pub IsTimed : Event → Type 0
IsTimed e =
    is_op "complete" e ≡ true → (is_some e.completed_ns ≡ true) × (is_some e.submitted_ns ≡ true)

note-ok : (e : Event) (s : Stats) → IsTimed e → (t : Stats) × (note e s ≡ ok t)
unfolding note note_complete
note-ok e s timed = elim (Bool-cases (is_op "run_start" e)) [
  | inl starts ↦ rw (starts, note) (_, refl)
  | inr later ↦ elim (Bool-cases (is_op "complete" e)) [
    | inr incomplete ↦ elim (Bool-cases (is_op "timeout" e)) [
      | inl late ↦ rw (later, note, incomplete, late) (_, refl)
      | inr other ↦ rw (later, note, incomplete, other) (_, refl)
    ]
    | inl completes ↦ elim (Option-cases e.completed_ns) [
      | inl missing ↦ absurd (ground (arith, (timed completes).0))
      | inr (c, done) ↦ elim (Option-cases e.submitted_ns) [
        | inl missing ↦ absurd (ground (arith, (timed completes).1))
        | inr (b, begun) ↦ rw (later, note, completes) (rw (done, note_complete, begun) (_, refl))
      ]
    ]
  ]
]

note_all-ok :
    (events : List Event) (s : Stats)
    → All IsTimed events
    → (t : Stats) × (note_all events s ≡ ok t)
unfolding note_all
note_all-ok [] s timed = (s, refl)
note_all-ok (e ∷ events) s timed =
    let (u, noted) = note-ok e s timed.0 in rw (noted, note_all) (note_all-ok events u timed.1)

abbrev start : Stats
start = record {
  run_start_ns = none;
  status_counts = [];
  latencies_ns = [];
  completions_by_sec = [];
}

outcomes-IsTallied :
    (events : List Event) (t : Stats) → IsNotedAll events start t → IsTallied events (outcomes t)
unfolding outcomes lookup
outcomes-IsTallied events t n = record {
  completed = n.counts "COMPLETED" ∙ omega arith;
  failed = n.counts "FAILED" ∙ omega arith;
  timed_out = n.counts "TIMEOUT" ∙ omega arith;
  latencies = n.latencies ∙ omega arith;
  throughput = omega (arith, n.throughput);
}

-- The analysis of a history whose completions tell both of their times succeeds. It counts the
-- outcomes with status COMPLETED, FAILED and TIMEOUT, has one latency for each completion, and counts
-- no completion in two seconds.
pub analyze-IsTallied :
    (events : List Event)
    → All IsTimed events
    → (o : Outcomes) × (analyze events ≡ ok o) × IsTallied events o
unfolding analyze
analyze-IsTallied events timed =
    let (t, noted) = note_all-ok events start timed in
    (
      outcomes t,
      rw (noted, analyze) refl,
      outcomes-IsTallied events t (note_all-IsNotedAll events start t noted),
    )
