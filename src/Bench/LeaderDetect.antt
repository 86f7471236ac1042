-- ===== src/Bench/LeaderDetect.antt =====
-- chaos-bench/leader_detect.py: the coordinator that leads, and its service. The scan of the peers
-- table gives the rows; the GET of a node's /state is a parameter.
pub mod Found
mod Tests
use driftless.Prelude.{
  ℕ, String, Bool, true, false, ◌&&◌, ◌||◌, Option, none, some, List, [], ◌∷◌, ◌++◌, ◌==◌,
  string_eq, if◌then◌else◌, any_by,
}
use driftless.Prelude.Text.{concat, ends_with}
use driftless.Bench.Table.{Item, get_s, get_bool}

pub record LeaderInfo : Type 0 where
  pub node_id : String
  pub http_addr : String
  pub ecs_service : String
  pub term : ℕ

-- The answer of a node: the keys of its document that are read.
pub record State : Type 0 where
  pub state : Option String
  pub current_term : ℕ

-- `_ecs_service_for`
unfoldable pub ecs_service_for : String → List String → Option String
ecs_service_for node_id [] = none
ecs_service_for node_id (s ∷ services) =
    if ends_with s node_id then some s else ecs_service_for node_id services

-- A row that has both a node id and an address.
unfoldable pub row_of : Item → Option (String × String)
row_of item = elim (get_s "node_id" item) [
  | none ↦ none
  | some node_id ↦ elim (get_s "http_addr" item) [
    | none ↦ none
    | some addr ↦ if node_id == "" || addr == "" then none else some (node_id, addr)
  ]
]

abbrev url : String → String
url addr = concat ("http://" ∷ addr ∷ [])

-- The leader that a row marks, if one of the services is its.
unfoldable pub marked : List String → Item → Option LeaderInfo
unfolding row_of ecs_service_for
marked services item = elim (row_of item) [
  | none ↦ none
  | some (node_id, addr) ↦
      if get_bool "is_leader" item
      then (elim (ecs_service_for node_id services) [
        | none ↦ none
        | some svc ↦
            some (record { node_id = node_id; http_addr = url addr; ecs_service = svc; term = 0 })
      ])
      else none
]

-- The leader that a node says it is.
unfoldable pub polled : List String → (String → Option State) → Item → Option LeaderInfo
unfolding row_of ecs_service_for
polled services fetch_state item = elim (row_of item) [
  | none ↦ none
  | some (node_id, addr) ↦ elim (fetch_state (url addr)) [
    | none ↦ none
    | some st ↦
        if (elim st.state [ none ↦ false | some s ↦ s == "leader" ])
        then (elim (ecs_service_for node_id services) [
          | none ↦ none
          | some svc ↦ some (record {
            node_id = node_id;
            http_addr = url addr;
            ecs_service = svc;
            term = st.current_term;
          })
        ])
        else none
  ]
]

-- The first item for which the test finds something: each of the two loops.
unfoldable pub first_found : (Item → Option LeaderInfo) → List Item → Option LeaderInfo
first_found find [] = none
first_found find (item ∷ items) = elim (find item) [
  | some info ↦ some info
  | none ↦ first_found find items
]

unfoldable pub find_leader : List String → (String → Option State) → List Item → Option LeaderInfo
unfolding first_found marked polled
find_leader services fetch_state items = elim (first_found (marked services) items) [
  | some info ↦ some info
  | none ↦ first_found (polled services fetch_state) items
]
