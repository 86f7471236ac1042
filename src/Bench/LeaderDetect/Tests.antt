-- ===== src/Bench/LeaderDetect/Tests.antt =====
-- The leader of a small cluster, by the answer of a node.
use driftless.Prelude.{◌⊎◌, String, true, false, Option, some, List, [], ◌∷◌, ◌≡◌, refl}
use driftless.Prelude.Dict.{lookup}
use driftless.Prelude.Text.{concat, ends_with}
use driftless.Bench.Table.{Item, text, bool, get_s, get_bool}
use driftless.Bench.LeaderDetect.{
  LeaderInfo, State, ecs_service_for, row_of, marked, polled, first_found, find_leader,
}
use driftless.Bench.LeaderDetect.Found.{IsServed, IsMarked, SaysSo, Some, find_leader-IsServed}

program : Unit {0}
unfolding lookup concat ends_with get_s get_bool ecs_service_for row_of marked polled first_found
    find_leader
program = tt

abbrev row : String → String → Item
row node_id addr =
    ("node_id", text node_id) ∷ ("http_addr", text addr) ∷ ("is_leader", bool false) ∷ []

abbrev fetch : String → Option State
fetch url = elim (ends_with url "h2") [
  | true ↦ some (record { state = some "leader"; current_term = 4 })
  | false ↦ some (record { state = some "follower"; current_term = 4 })
]

abbrev services : List String
services = "raft-coordinator-a" ∷ "raft-coordinator-b" ∷ []

abbrev leader_b : LeaderInfo
leader_b = record {
  node_id = "coordinator-b";
  http_addr = "http://h2";
  ecs_service = "raft-coordinator-b";
  term = 4;
}

b_leads :
    find_leader services fetch (row "coordinator-a" "h1" ∷ row "coordinator-b" "h2" ∷ [])
    ≡ some leader_b
unfolding program
b_leads = refl

abbrev rows : List Item
rows = row "coordinator-a" "h1" ∷ row "coordinator-b" "h2" ∷ []

find_leader-IsServed_example :
    IsServed services leader_b × (Some (IsMarked leader_b) rows ⊎ Some (SaysSo fetch leader_b) rows)
find_leader-IsServed_example = find_leader-IsServed services fetch rows b_leads
