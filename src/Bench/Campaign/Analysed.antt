-- ===== src/Bench/Campaign/Analysed.antt =====
-- What the analysis of experiment 1 counts as lost.
use driftless.Prelude.{
  ℕ, ◌+◌, ◌≤◌, String, Bool, true, List, [], ◌≡◌, sym, ap, ◌∙◌, arith, count_by, count_by-all,
  length-filter_by, length, string_eq,
}
use driftless.Prelude.Dict.{keys}
use driftless.Bench.Result.{ok}
use driftless.Bench.Analysis.{Tally, Analysis, empty, analyze}
use driftless.Bench.Analysis.Tasks.{length-keys, summary-tasks, summary_total}
use driftless.Bench.Analysis.Sets.{set_adds, times, length-set_adds}
use driftless.Bench.Workload.{Job}
use driftless.Bench.Workload.Accounts.{submissions, outcomes}
use driftless.Bench.Campaign.Entries.{record_line}
use driftless.Bench.Campaign.Lines.{bench_lines}
use driftless.Bench.Campaign.Held.{pending}
use driftless.Bench.Campaign.Lone.{is_kill, count-kills}
use driftless.Bench.Campaign.{exp1, Campaign, start, Reaches}
use driftless.Bench.Campaign.Submits.{IsSteady, Reaches-IsSteady}
use mathlib.Core.List.{map}
use driftless.Bench.Campaign.Tallied.{
  submitted_ids, late_ids, done_ids, IsTallied, tally-written, is_task, submitted_ids-IsCounted,
  ended_ids-IsCounted,
}

-- No two submissions of a history got the same id.
abbrev pub IsFresh : Campaign → Type 0
IsFresh c = (tid : String) → count_by (is_task tid) (submissions (bench_lines c.history)) ≤ 1

length-made :
    (set tids : List String)
    → set ≡ set_adds [] tids
    → ((tid : String) → times tid tids ≤ 1)
    → length set ≡ length tids
length-made set tids e once =
    ap length e ∙ omega (arith, length-set_adds [] tids (λ tid. omega (arith, once tid)))

-- What a run says of its submitted tasks, in the history itself.
accounts :
    (c : Campaign)
    → IsSteady exp1 c
    → (test : Job → Bool)
    → count_by test (submissions (bench_lines c.history))
      ≡ count_by test (outcomes (bench_lines c.history))
        + count_by test c.work.handing
        + count_by test c.work.polling
        + count_by test c.work.raised
accounts c a test = rw a.same (a.accounted.accounts test)

accounts-length :
    (c : Campaign)
    → IsSteady exp1 c
    → length (submissions (bench_lines c.history))
      ≡ length (outcomes (bench_lines c.history))
        + length c.work.handing
        + length c.work.polling
        + length c.work.raised
accounts-length c a = omega (
  arith,
  accounts c a (λ j. true),
  count_by-all (submissions (bench_lines c.history)),
  count_by-all (outcomes (bench_lines c.history)),
  count_by-all c.work.handing,
  count_by-all c.work.polling,
  count_by-all c.work.raised,
)

-- The sizes of the sets that the analysis makes of a run.
tallied-lengths :
    (c : Campaign)
    → IsSteady exp1 c
    → IsFresh c
    → (t : Tally) → IsTallied c.history empty t
    → (length t.submits ≡ length (submissions (bench_lines c.history)))
      × (length t.completes + length t.timeouts ≡ length (outcomes (bench_lines c.history)))
tallied-lengths c a fresh t (run, submits, completes, timeouts, kills) =
    let ls = bench_lines c.history in
    let (len, count) = submitted_ids-IsCounted ls in
    let (len', count') = ended_ids-IsCounted ls in
    let once : (tid : String) → times tid (done_ids ls) + times tid (late_ids ls) ≤ 1 =
      λ tid. omega (arith, count' tid, accounts c a (is_task tid), fresh tid) in
    (
      sym (length-keys t.submits)
          ∙ length-made (keys t.submits) (submitted_ids ls) submits
              (λ tid. omega (arith, count tid, fresh tid))
          ∙ len,
      omega (
        arith,
        len',
        length-keys t.completes,
        length-made (keys t.completes) (done_ids ls) completes (λ tid. omega (arith, once tid)),
        length-made t.timeouts (late_ids ls) timeouts (λ tid. omega (arith, once tid)),
      ),
    )

-- At each point of a run of experiment 1 whose submissions got different ids, the history can be
-- analysed; the analysis counts the submitted tasks and those with an outcome; as lost exactly the
-- tasks whose poll raised together with those whose poll has not ended; and as kills the tasks that
-- the fault loop stopped, less one whose kill it is about to record.
pub exp1-analysed :
    (now : ℕ) (c : Campaign)
    → Reaches exp1 (start exp1 now) c
    → IsFresh c
    → (r : Analysis) × (analyze (map record_line c.history) ≡ ok r)
      × (r.submitted ≡ length (submissions (bench_lines c.history)))
      × (r.completed + r.timed_out ≡ length (outcomes (bench_lines c.history)))
      × (r.lost ≡ length c.work.raised + length c.work.handing + length c.work.polling)
      × (r.kill_count + length (pending c.loops.leader_kill) ≡ length c.killed)
unfolding analyze
exp1-analysed now c r fresh =
    let a = Reaches-IsSteady exp1 now c r in
    let (t, told) = tally-written c.history empty in
    let (s, summed) = summary_total t in
    let (submitted, completed, timed_out, lost, kill_count) = summary-tasks t summed in
    let (submits, ended) = tallied-lengths c a fresh t told in
    (
      s,
      (rw told.0 summed),
      submitted ∙ submits,
      omega (arith, completed, timed_out, ended),
      omega (arith, lost, submits, ended, accounts-length c a),
      omega (arith, kill_count, told.4, length-filter_by is_kill c.history, count-kills now c r),
    )
