-- ===== src/Bench/Exp4/Tests.antt =====
-- A run of experiment 4 on a small cluster, whose log reaches the target at the second turn.
use driftless.Prelude.{
  ℕ, ◌+◌, ◌*◌, zero, suc, String, false, Option, none, some, [], ◌∷◌, ◌≡◌, refl, arith, string_eq,
  ◌⊎◌, inl, inr,
}
use driftless.Prelude.Int.{parse_int, pos}
use driftless.Prelude.Split.{split, push}
use driftless.Prelude.Text.{join, ends_with, concat}
use driftless.Bench.Result.{ok, raise, Error}
use driftless.Bench.Deadline.{IsPaced}
use driftless.Bench.LeaderDetect.{LeaderInfo}
use driftless.Bench.FollowerRecovery.{LogEvent}
use driftless.Bench.Chaos.{Host, stop_random_task, stop_one}
use driftless.Bench.Chaos.Kills.{IsChoice}
use driftless.Bench.CommitWait.{
  Wait, newer, see_events, see_pages, query, latest_leader_commit, look, progress, after_look,
  wait_from, wait_for_commit,
}
use driftless.Bench.Exp4.{
  Exp4, Summary, pick_follower, node_id_of, bucket_of, snapshot_s3_object, fresh_or, size_of,
  recover, after_kill, kill_cold, strike, run_exp4,
}
use driftless.Bench.Exp4.Spared.{IsRun, run_exp4-IsRun}
use driftless.Bench.Exp4.Returns.{IsWorking, run_exp4-returns}

node_id_of_service : node_id_of "raft-coordinator-dev-coordinator-b" ≡ "coordinator-b"
unfolding node_id_of split push join
node_id_of_service = refl

-- The samples' messages are the numbers alone.
abbrev number : String → Option ℕ
number s = elim (parse_int s) [ some (pos n) ↦ some n | _ ↦ none ]

abbrev at : ℕ → String → LogEvent
at timestamp message = record { timestamp = timestamp; message = message }

abbrev leader_a : LeaderInfo
leader_a = record {
  node_id = "node-a";
  http_addr = "http://h1";
  ecs_service = "rc-node-a";
  term = 0;
}

abbrev seen_from : ℕ → Option LeaderInfo
seen_from zero = none
seen_from (suc k) = some leader_a

abbrev wait : Wait
wait = record {
  started = 10;
  checked = λ k. 11 + k * 5;
  find_leader = λ k. ok (seen_from k);
  logs = λ k q. ok ((at 1 "40" ∷ at 2 "x" ∷ []) ∷ (at 3 "120" ∷ []) ∷ []);
  compared_ns = λ k. 40000000000;
  noted_ns = λ k. 40000000001;
}

abbrev host : Host
host = record {
  list_tasks = λ service. ok ("arn-1" ∷ "arn-2" ∷ []);
  stop_task = λ arn. ok tt;
  time_ns = 7;
  choice = λ x xs. x;
}

host-IsChoice : IsChoice host
host-IsChoice x xs = ground (arith, string_eq.same_iff x x)

abbrev exp4 : Exp4
exp4 = record {
  run_name = "r1";
  coordinator_services = "rc-node-a" ∷ "rc-node-b" ∷ [];
  account_id = "123";
  bucket = none;
  duration_ns = 50;
  target_commit = 100;
  wait = wait;
  host = host;
  head_before = λ bucket key. none;
  head_after = λ bucket key. none;
  logs = λ q. ok ((at 4 "130" ∷ []) ∷ []);
  turns = [];
}

wait-IsPaced : IsPaced wait.started wait.checked
wait-IsPaced = record { first = omega arith; later = λ k. omega arith }

program : Unit {0}
unfolding newer see_events see_pages query latest_leader_commit look progress after_look wait_from
    wait_for_commit stop_one stop_random_task pick_follower node_id_of split push join concat
    ends_with bucket_of snapshot_s3_object fresh_or size_of recover after_kill kill_cold strike
    run_exp4 parse_int
program = tt

stopped_one : (run_exp4 number number number exp4).stopped ≡ "arn-1" ∷ []
unfolding program
stopped_one = refl

looks : (k : ℕ) → (look number wait k ≡ ok none) ⊎ (look number wait k ≡ ok (some (leader_a, 120)))
unfolding program
looks zero = inl refl
looks (suc k) = inr refl

-- No look of the sample fails.
looks_well : (i : ℕ) (e : Error) → look number wait i ≡ raise e → ⊥
unfolding program
looks_well zero e h = absurd (cc)
looks_well (suc i) e h = absurd (cc)

service_b : ends_with "rc-node-b" "node-a" ≡ false
unfolding program
service_b = refl

looks_at_a :
    (i : ℕ) (leader : LeaderInfo) (ci : ℕ)
    → look number wait i ≡ ok (some (leader, ci))
    → leader_a ≡ leader
unfolding program
looks_at_a zero leader ci h = absurd (cc)
looks_at_a (suc i) leader ci h = cc

exp4-IsWorking : IsWorking number exp4
exp4-IsWorking = record {
  others = λ i leader ci h. ("rc-node-b", refl, rw (← looks_at_a i leader ci h) service_b);
  runs = λ s h. ("arn-1", "arn-2" ∷ [], refl);
  stops = λ arn. refl;
  answers = λ q. (_, refl);
}

second_look : look number wait 1 ≡ ok (some (leader_a, 120))
unfolding program
second_look = refl

run_exp4-returns_example : (s : Summary) × ((run_exp4 number number number exp4).result ≡ ok s)
run_exp4-returns_example =
    run_exp4-returns number number number exp4 exp4-IsWorking 1 leader_a 120 wait-IsPaced looks_well
      (omega arith) second_look (omega arith)

run_exp4-IsRun_example :
    ((e : Error) × ((wait_for_commit number exp4.wait exp4.target_commit exp4.duration_ns).0
        ≡ raise e)
      × ((run_exp4 number number number exp4).result ≡ raise e)
      × ((run_exp4 number number number exp4).stopped ≡ []))
    ⊎ ((leader_id : String) × (commit : ℕ) × ((wait_for_commit number exp4.wait exp4.target_commit
            exp4.duration_ns).0
          ≡ ok (leader_id, commit))
        × IsRun number number number exp4 leader_id (run_exp4 number number number exp4))
run_exp4-IsRun_example = run_exp4-IsRun number number number exp4 host-IsChoice
