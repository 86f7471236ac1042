-- ===== src/Bench/Command/Tests.antt =====
-- Faults from the command line on a small cluster.
use driftless.Prelude.Text.{concat}
use driftless.Prelude.{String, none, some, List, [], ◌∷◌, string_eq, ◌≡◌, refl, arith}
use driftless.Bench.Result.{ok}
use driftless.Bench.LeaderDetect.{LeaderInfo}
use driftless.Bench.Chaos.{Host, kill_follower, stop_random_task, stop_one}
use driftless.Bench.Chaos.Kills.{IsChoice}
use driftless.Bench.Command.{Args, cmd_chaos, run_target, after_look}
use driftless.Bench.Command.Spares.{Spared, cmd_chaos-Follows}

abbrev host : Host
host = record {
  list_tasks = λ service. ok (concat (service ∷ "/1" ∷ []) ∷ []);
  stop_task = λ arn. ok tt;
  time_ns = 7;
  choice = λ x xs. x;
}

host-IsChoice : IsChoice host
host-IsChoice x xs = ground (arith, string_eq.same_iff x x)

abbrev services : List String
services = "svc-a" ∷ "svc-b" ∷ []

abbrev leader_a : LeaderInfo
leader_a = record { node_id = "a"; http_addr = "http://h1"; ecs_service = "svc-a"; term = 0 }

abbrev args : Args
args = record { target = "kill_follower"; leader_service = none }

kills_b : (cmd_chaos host services "worker" (ok (some leader_a)) args).1 ≡ "svc-b/1" ∷ []
unfolding cmd_chaos run_target after_look kill_follower stop_random_task stop_one concat
kills_b = refl

cmd_chaos-Follows_example :
    Spared host services "svc-a" (cmd_chaos host services "worker" (ok (some leader_a)) args)
cmd_chaos-Follows_example =
    cmd_chaos-Follows host host-IsChoice services "worker" (ok (some leader_a)) none
