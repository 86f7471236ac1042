-- ===== src/Observer/Panels.antt =====
-- state-observer/dashboard.py: the panels of a snapshot and of the alerts, as texts with their styles.
-- Rich, which draws them, is left out.
pub mod Words
pub mod Lags
mod Tests
use driftless.Prelude.{
  ℕ, ◌+◌, zero, suc, ltb, leb, String, Bool, true, false, ◌||◌, Option, none, some, List, [], ◌∷◌,
  ◌++◌, ◌==◌, nat_eq, string_eq, if◌then◌else◌, get_or, length, sort,
}
use driftless.Prelude.Dict.{Dict, lookup, keys}
use driftless.Prelude.Text.{decimal, concat, str_leb}
use driftless.Observer.Cluster.{
  NodeState, ClusterSnapshot, is_leader, leader, leaders, reachable_count, replication_lags,
}
use mathlib.Core.List.{map}
use text.Mathlib.Text.{starts_with}
use Prim.Native.String as NativeString

-- A text and its style.
pub record Span : Type 0 where
  pub text : String
  pub style : String

abbrev pub span : String → String → Span
span text style = record { text = text; style = style }

-- The start of `_summary`: who leads.
unfoldable pub leader_text : ClusterSnapshot → List Span
leader_text snap = elim (leader snap) [
  | some n ↦
      span "Leader: " "dim"
      ∷ span n.node_id "bold green"
      ∷ span "  ·  Term: " "dim"
      ∷ span (decimal n.current_term) "bold white"
      ∷ []
  | none ↦
      (if ltb 1 (length (leaders snap))
        then span "⚠  SPLIT-BRAIN — multiple leaders" "bold red"
        else span "⚠  No leader elected" "bold yellow")
      ∷ []
]

unfoldable pub up_text : ClusterSnapshot → List Span
up_text snap =
    span "  ·  Nodes up: " "dim"
    ∷ span (concat (decimal (reachable_count snap) ∷ "/" ∷ decimal (length snap.nodes) ∷ []))
        (if reachable_count snap == length snap.nodes then "bold green" else "bold yellow")
    ∷ []

-- `_summary`
unfoldable pub summary : Option ClusterSnapshot → List Span
unfolding leader_text up_text
summary none = span "Waiting for first poll…" "dim" ∷ []
summary (some snap) = leader_text snap ++ up_text snap

-- `_format_state`
unfoldable pub format_state : String → Span
format_state state =
    if state == "leader"
    then span "★ LEADER" "bold green"
    else if state == "candidate"
    then span "◆ candidate" "bold yellow"
    else if state == "follower"
    then span "  follower" ""
    else if state == "unreachable"
    then span "  unreachable" "dim red"
    else span state "dim"

-- A row of the table of nodes; plain cells have no style.
unfoldable pub node_row : NodeState → List Span
unfolding format_state
node_row n =
    span n.node_id (if is_leader n then "bold" else "")
    ∷ format_state n.state
    ∷ span (decimal n.current_term) ""
    ∷ span (decimal n.commit_index) ""
    ∷ span (decimal n.last_applied) ""
    ∷ span (decimal n.log_length) ""
    ∷ (if n.reachable then span "✓ up" "green" else span "✗ down" "red")
    ∷ []

-- `_node_table`
unfoldable pub node_table : Option ClusterSnapshot → List (List Span)
unfolding node_row
node_table none = []
node_table (some snap) = map node_row (sort (λ a b. str_leb a.node_id b.node_id) snap.nodes)

-- `"█" * n`
unfoldable pub bar : ℕ → String
bar zero = ""
bar (suc n) = NativeString.◌++◌ "█" (bar n)

-- What a row of the table of lags shows: the peer, its match index and its lag, with the style and
-- the length of its bar.
pub record LagRow : Type 0 where
  pub peer : String
  pub matched : ℕ
  pub lag : ℕ
  pub style : String
  pub blocks : ℕ

unfoldable pub lag_style : ℕ → String
lag_style lag = if lag == 0 then "green" else if leb lag 3 then "yellow" else "red"

-- A peer is one of the keys of `lags`.
unfoldable pub lag_row : NodeState → Dict String ℕ → String → LagRow
unfolding lag_style
lag_row n lags peer =
    let lag = get_or (lookup peer lags) 0 in
    record {
      peer = peer;
      matched = get_or (lookup peer (get_or n.match_index [])) 0;
      lag = lag;
      style = lag_style lag;
      blocks = if leb lag 20 then lag else 20;
    }

pub data Replication : Type 0 where
  no_leader : Replication
  no_peers : (leader : String) → Replication
  lag_table : (leader : String) → List LagRow → Replication

unfoldable pub lag_rows : NodeState → Dict String ℕ → List LagRow
unfolding lag_row
lag_rows n lags = map (lag_row n lags) (sort str_leb (keys lags))

abbrev pub table_of : NodeState → Dict String ℕ → Replication
table_of n [] = no_peers n.node_id
table_of n (p ∷ lags) = lag_table n.node_id (lag_rows n (p ∷ lags))

-- `_replication_table`
unfoldable pub replication_table : Option ClusterSnapshot → Replication
unfolding lag_rows
replication_table none = no_leader
replication_table (some snap) = elim (leader snap) [
  | none ↦ no_leader
  | some n ↦ table_of n (replication_lags n)
]

-- The cells of a row.
unfoldable pub lag_cells : LagRow → List Span
unfolding bar
lag_cells r =
    span r.peer ""
    ∷ span (decimal r.matched) ""
    ∷ span (decimal r.lag) r.style
    ∷ span (bar r.blocks) r.style
    ∷ []

-- `part in text`
unfoldable pub is_in : String → String → Bool
is_in part NativeString.[] = part == ""
is_in part (NativeString.◌∷◌ c s) = starts_with (NativeString.◌∷◌ c s) part || is_in part s

unfoldable pub alert_span : String → Span
unfolding is_in
alert_span alert =
    span (concat ("⚠  " ∷ alert ∷ "\n" ∷ []))
      (if is_in "SPLIT-BRAIN" alert || is_in "Quorum" alert then "red" else "yellow")

-- `_alerts_panel`: the texts and the style of the border.
unfoldable pub alerts_panel : List String → List Span × String
unfolding alert_span
alerts_panel [] = (span "✓  No active alerts" "green" ∷ [], "blue")
alerts_panel (a ∷ alerts) = (map alert_span (a ∷ alerts), "red")
