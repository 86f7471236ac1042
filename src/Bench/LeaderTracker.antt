-- ===== src/Bench/LeaderTracker.antt =====
-- chaos-bench/leader_tracker.py: the changes of the leader that the peers table shows. Times are in
-- nanoseconds; a heartbeat is in seconds, as the table holds it.
pub mod Changes
mod Tests
use driftless.Prelude.{
  ℕ, ◌+◌, ◌*◌, suc, ltb, String, Bool, true, false, not, ◌&&◌, Option, none, some, List, [], ◌∷◌,
  ◌==◌, string_eq, if◌then◌else◌,
}
use driftless.Prelude.Int.{ℤ, pos, negsuc, parse_int}
use driftless.Bench.Table.{Item, get_s, get_n, get_bool}

-- `STALE_HB_S`
abbrev pub stale_hb : ℕ
stale_hb = 3000000000

abbrev second : ℕ
second = 1000000000

-- `now - int(hb_v) > self.STALE_HB_S`
unfoldable pub is_stale : ℕ → ℤ → Bool
is_stale now (pos s) = ltb (s * second + stale_hb) now
is_stale now (negsuc s) = ltb stale_hb (now + suc s * second)

-- The row passes the gate on its heartbeat; one that is no number does not.
unfoldable pub is_fresh : ℕ → Item → Bool
unfolding is_stale
is_fresh now item = elim (get_n "heartbeat_ts" item) [
  | none ↦ true
  | some hb ↦ elim (parse_int hb) [ none ↦ false | some s ↦ not (is_stale now s) ]
]

-- The node id of a row that counts as the leader's.
unfoldable pub leader_of : ℕ → Item → Option String
unfolding is_fresh
leader_of now item =
    if get_bool "is_leader" item && is_fresh now item
    then (elim (get_s "node_id" item) [
      | none ↦ none
      | some node_id ↦ if node_id == "" then none else some node_id
    ])
    else none

unfoldable pub first_leader : ℕ → List Item → Option String
unfolding leader_of
first_leader now [] = none
first_leader now (item ∷ items) = elim (leader_of now item) [
  | some node_id ↦ some node_id
  | none ↦ first_leader now items
]

-- One scan of the peers table: its rows, if it did not fail, and the clock after it.
abbrev pub Peek : Type 0
Peek = Option (List Item) × ℕ

-- `_scan_once`
unfoldable pub scan_once : Peek → Option String
unfolding first_leader
scan_once (none, now) = none
scan_once (some items, now) = first_leader now items

-- What the tracker records.
pub data Seen : Type 0 where
  leader_observed : String → Seen
  leader_gap : Seen

abbrev pub seen_of : Option String → Seen
seen_of none = leader_gap
seen_of (some node_id) = leader_observed node_id

-- `leader == last_leader`
abbrev pub same_leader : Option String → Option String → Bool
same_leader none none = true
same_leader none (some b) = false
same_leader (some a) none = false
same_leader (some a) (some b) = a == b

-- `_run` over the scans that it makes before it is stopped.
unfoldable pub track : Option String → List Peek → List Seen
unfolding scan_once
track last_leader [] = []
track last_leader (peek ∷ peeks) =
    let leader = scan_once peek in
    if same_leader leader last_leader
    then track last_leader peeks
    else seen_of leader ∷ track leader peeks
