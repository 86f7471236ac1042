-- ===== src/Bench/Chaos/Tests.antt =====
-- The faults on a small cluster.
use driftless.Prelude.Text.{concat}
use driftless.Prelude.{
  ℕ, String, true, false, some, List, [], ◌∷◌, ◌==◌, string_eq, ◌≡◌, refl, arith, take,
}
use driftless.Bench.Result.{ok}
use driftless.Bench.LeaderDetect.{LeaderInfo}
use driftless.Bench.Chaos.{
  Host, Change, changed, failed, kill_follower_turn, is_gone, redeliver, inject_sqs_redelivery,
}
use driftless.Bench.Chaos.Kills.{IsChoice, IsSpared, kill_follower_turn-IsSpared}

abbrev host : Host
host = record {
  list_tasks = λ service. ok (concat (service ∷ "/1" ∷ []) ∷ concat (service ∷ "/2" ∷ []) ∷ []);
  stop_task = λ arn. ok tt;
  time_ns = 7;
  choice = λ x xs. x;
}

host-IsChoice : IsChoice host
host-IsChoice x xs = ground (arith, string_eq.same_iff x x)

abbrev services : List String
services = "svc-a" ∷ "svc-b" ∷ "svc-c" ∷ []

abbrev leader_a : LeaderInfo
leader_a = record { node_id = "a"; http_addr = "http://h1"; ecs_service = "svc-a"; term = 0 }

kill_follower_turn-IsSpared_example :
    IsSpared host services leader_a (kill_follower_turn host services (ok (some leader_a)))
kill_follower_turn-IsSpared_example =
    kill_follower_turn-IsSpared host host-IsChoice services leader_a

abbrev change : String → Change
change handle = elim (handle == "h2") [ true ↦ failed "ReceiptHandleIsInvalid" | false ↦ changed ]

abbrev receive : ℕ → List String
receive n = take n ("h1" ∷ "h2" ∷ "h3" ∷ [])

two_redelivered : inject_sqs_redelivery change receive 5 ≡ ok 2
unfolding inject_sqs_redelivery redeliver is_gone
two_redelivered = refl
