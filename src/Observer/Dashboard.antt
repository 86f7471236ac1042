-- ===== src/Observer/Dashboard.antt =====
-- state-observer/dashboard.py: the samples of the leader's commit index, the commit rate that they
-- show, and the dashboard's update and view. The header with the time of day is left out. Times are
-- in nanoseconds.
pub mod History
pub mod Rates
mod Tests
use driftless.Prelude.{
  ℕ, ◌+◌, ◌-◌, ◌*◌, ◌/◌, ◌%◌, ltb, leb, String, Bool, true, false, Option, none, some, List, [],
  ◌∷◌, ◌++◌, if◌then◌else◌, length, drop, filter_by,
}
use driftless.Prelude.Round.{round_half_even}
use driftless.Prelude.Text.{decimal, concat}
use driftless.Observer.Alerts.{second}
use driftless.Observer.Cluster.{ClusterSnapshot, leader}
use driftless.Observer.Panels.{
  Span, span, Replication, summary, node_table, replication_table, alerts_panel,
}

-- A reading of the clock and the leader's commit index.
pub record Sample : Type 0 where
  pub at : ℕ
  pub commit : ℕ

-- `dc / dt` as its two numbers, where a fall of the index counts as no entries.
pub record Rate : Type 0 where
  pub entries : ℕ
  pub ns : ℕ

pub record Dashboard : Type 0 where
  pub commit_history : List Sample
  pub latest_snapshot : Option ClusterSnapshot
  pub latest_alerts : List String

abbrev pub init : Dashboard
init = record { commit_history = []; latest_snapshot = none; latest_alerts = [] }

-- `deque(maxlen=64).append(x)`
unfoldable pub push_64 : Sample → List Sample → List Sample
push_64 x history = let longer = history ++ x ∷ [] in drop (length longer - 64) longer

-- The fields that `update` sets; `now` is what it reads from the clock.
unfoldable pub update : ℕ → ClusterSnapshot → List String → Dashboard → Dashboard
unfolding push_64
update now snapshot alerts d = record {
  commit_history = elim (leader snapshot) [
    | none ↦ d.commit_history
    | some n ↦ push_64 (record { at = now; commit = n.commit_index }) d.commit_history
  ];
  latest_snapshot = some snapshot;
  latest_alerts = alerts;
}

-- The updates of a run, each with its reading of the clock.
unfoldable pub update_all :
    (ℕ → ℕ) → ℕ → List (ClusterSnapshot × List String) → Dashboard → Dashboard
unfolding update
update_all clock k [] d = d
update_all clock k ((snapshot, alerts) ∷ shown) d =
    update_all clock (k + 1) shown (update (clock k) snapshot alerts d)

abbrev pub throughput_window : ℕ
throughput_window = 10 * second

-- The last element after a first one.
abbrev pub last_of : Sample → List Sample → Sample
last_of x [] = x
last_of x (y ∷ ys) = last_of y ys

-- `t >= cutoff`, for the cutoff `now - _THROUGHPUT_WINDOW`.
unfoldable pub window_of : ℕ → List Sample → List Sample
window_of now history = filter_by (λ s. leb now (s.at + throughput_window)) history

-- The rate over a window.
unfoldable pub rate_over : List Sample → Option Rate
rate_over [] = none
rate_over (x ∷ []) = none
rate_over (x ∷ y ∷ ys) =
    let z = last_of y ys in
    if leb z.at x.at
    then none
    else some (record { entries = z.commit - x.commit; ns = z.at - x.at })

unfoldable pub commit_rate : ℕ → List Sample → Option Rate
unfolding window_of rate_over
commit_rate now history = if ltb (length history) 2 then none else rate_over (window_of now history)

-- `{rate:.1f}`
unfoldable pub rate_text : Rate → String
rate_text r =
    let tenths = round_half_even (r.entries * 10 * second) r.ns in
    concat (decimal (tenths / 10) ∷ "." ∷ decimal (tenths % 10) ∷ " entries/s" ∷ [])

unfoldable pub throughput_panel : Option Rate → List Span
unfolding rate_text
throughput_panel none = span "Commit rate: " "dim" ∷ span "calculating…" "dim italic" ∷ []
throughput_panel (some r) =
    span "Commit rate: " "dim"
    ∷ span (rate_text r) (if ltb 0 r.entries then "bold green" else "bold dim")
    ∷ []

-- The panels below the header, and the height of the last.
pub record View : Type 0 where
  pub summary : List Span
  pub nodes : List (List Span)
  pub replication : Replication
  pub throughput : List Span
  pub alerts : List Span × String
  pub alerts_size : ℕ

-- `_render`, for the reading of the clock that the commit rate takes.
unfoldable pub render : ℕ → List Sample → Option ClusterSnapshot → List String → View
unfolding summary node_table replication_table commit_rate throughput_panel alerts_panel
render now history snap alerts = record {
  summary = summary snap;
  nodes = node_table snap;
  replication = replication_table snap;
  throughput = throughput_panel (commit_rate now history);
  alerts = alerts_panel alerts;
  alerts_size = if leb (length alerts + 2) 3 then 3 else length alerts + 2;
}
