-- ===== src/Observer/Panels/Tests.antt =====
-- The panels of small clusters.
use driftless.Prelude.{some, none, [], ◌∷◌, ◌≡◌, refl}
use driftless.Prelude.Dict.{lookup, insert}
use driftless.Prelude.Text.{decimal, concat}
use driftless.Observer.Cluster.{
  is_leader, leader, leaders, single, replication_lags, lag_of, conflict_text, split_brain_message,
  first_conflict, leaders_by_term, append_leader, reachable_count,
}
use driftless.Observer.Cluster.Samples.{healthy, split, leader_a, snapshot, node}
use driftless.Observer.Panels.{
  span, summary, leader_text, up_text, replication_table, lag_rows, lag_row, lag_style, lag_table,
  bar, lag_cells, is_in, alert_span, alerts_panel,
}
use driftless.Observer.Panels.Words.{split_brain-leader_text}
use driftless.Observer.Panels.Lags.{IsTable, replication_table-IsTable}

program : Unit {0}
unfolding is_leader single leaders leader reachable_count lag_of replication_lags lookup decimal
    concat leader_text up_text summary lag_style lag_row lag_rows replication_table bar lag_cells
    is_in alert_span alerts_panel
program = tt

summary_of_healthy :
    summary (some healthy)
    ≡ span "Leader: " "dim"
      ∷ span "a" "bold green"
      ∷ span "  ·  Term: " "dim"
      ∷ span "3" "bold white"
      ∷ span "  ·  Nodes up: " "dim"
      ∷ span "3/3" "bold green"
      ∷ []
unfolding program
summary_of_healthy = refl

two_terms_warned :
    leader_text (snapshot (leader_a ∷ node "b" "leader" 4 17 none ∷ []))
    ≡ span "⚠  SPLIT-BRAIN — multiple leaders" "bold red" ∷ []
unfolding program
two_terms_warned = refl

lags_of_healthy :
    replication_table (some healthy)
    ≡ lag_table "a" (
        record { peer = "b"; matched = 17; lag = 0; style = "green"; blocks = 0 }
        ∷ record { peer = "c"; matched = 12; lag = 5; style = "red"; blocks = 5 }
        ∷ [])
unfolding program
lags_of_healthy = refl

quorum_in_red :
    alerts_panel ("Quorum loss: 1/3" ∷ []) ≡ (span "⚠  Quorum loss: 1/3\n" "red" ∷ [], "red")
unfolding program
quorum_in_red = refl

replication_table-IsTable_example : IsTable healthy (replication_table (some healthy))
replication_table-IsTable_example = replication_table-IsTable healthy

split_message : split_brain_message split ≡ some (conflict_text (3, "b" ∷ "a" ∷ []))
unfolding split_brain_message leaders_by_term append_leader first_conflict is_leader insert lookup
split_message = refl

split_brain-leader_text_example :
    leader_text split ≡ span "⚠  SPLIT-BRAIN — multiple leaders" "bold red" ∷ []
split_brain-leader_text_example = split_brain-leader_text split split_message
