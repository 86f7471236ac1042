-- ===== src/Bench/LeaderTracker/Tests.antt =====
-- The tracker over a change of the leader whose old row stays for a while.
use driftless.Prelude.{String, true, none, some, List, [], ◌∷◌, ◌≡◌, refl}
use driftless.Prelude.Dict.{lookup}
use driftless.Prelude.Int.{parse_int}
use driftless.Bench.Table.{Item, text, number, bool, get_s, get_n, get_bool}
use driftless.Bench.LeaderTracker.{
  Peek, leader_observed, leader_gap, is_stale, is_fresh, leader_of, first_leader, scan_once, track,
}

program : Unit {0}
unfolding lookup parse_int get_s get_n get_bool is_stale is_fresh leader_of first_leader scan_once
    track
program = tt

abbrev row : String → String → Item
row node_id hb =
    ("node_id", text node_id) ∷ ("is_leader", bool true) ∷ ("heartbeat_ts", number hb) ∷ []

abbrev peeks : List Peek
peeks =
    (some (row "a" "10" ∷ []), 11000000000)
    ∷ (some (row "a" "10" ∷ []), 14000000000)
    ∷ (some (row "a" "10" ∷ row "b" "14" ∷ []), 15000000000)
    ∷ (some (row "a" "10" ∷ row "b" "14" ∷ []), 16000000000)
    ∷ []

seen : track none peeks ≡ leader_observed "a" ∷ leader_gap ∷ leader_observed "b" ∷ []
unfolding program
seen = refl
