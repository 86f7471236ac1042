-- ===== src/Observer/Run/Reaches.antt =====
-- What the publishers' theorems say of a run of the observer.
use driftless.Prelude.{
  ℕ, String, Bool, false, List, [], ◌∷◌, string_eq, ◌≡◌, arith, Bool-cases, inl, inr,
}
use driftless.Observer.Cluster.{ClusterSnapshot}
use driftless.Observer.Cluster.Poll.{poll}
use driftless.Observer.Alerts.{Publish, init as init_alerts}
use driftless.Observer.Metrics.{Datum, init as init_metrics}
use driftless.Observer.Run.{
  Row, Step, round, refreshed, Observer, is_empty, resolve_addrs, first_resolved,
  resolve_initial_addrs, refresh, one_round, step, observe,
}

-- The observer as it starts.
abbrev pub start :
    List String → String → Bool → (ℕ → List Datum → Bool) → String → ℕ → Bool → Observer
start addrs topic_arn disable_sns cw namespace cw_interval disable_cloudwatch = record {
  addrs = addrs;
  alerts = init_alerts topic_arn disable_sns;
  metrics = init_metrics cw namespace cw_interval disable_cloudwatch;
  shown = [];
}

first_resolved_some :
    (nids : List String) (tries : List (String → Row)) (static : List String)
    → is_empty static ≡ false
    → is_empty (first_resolved nids tries static) ≡ false
unfolding first_resolved
first_resolved_some nids [] static h = h
first_resolved_some nids (get_item ∷ tries) static h =
    elim (Bool-cases (is_empty (resolve_addrs get_item nids))) [
      | inl nobody ↦ rw nobody (first_resolved_some nids tries static h)
      | inr somebody ↦ rw somebody somebody
    ]

refresh_some :
    (new_addrs addrs : List String)
    → is_empty addrs ≡ false
    → is_empty (refresh new_addrs addrs) ≡ false
unfolding refresh
refresh_some new_addrs addrs h = ground arith

module _ (alert_clock : ℕ → ℕ) (accepts : Publish → Bool) (metric_clock : ℕ → ℕ)
    (stamps : ℕ → String) (nids : List String) where
  -- The snapshots that the rounds of some steps poll.
  abbrev pub snapshots : List Step → List String → List ClusterSnapshot
  snapshots [] addrs = []
  snapshots (round r ∷ steps) addrs = poll r.http_get r.clock addrs r.now ∷ snapshots steps addrs
  snapshots (refreshed get_item ∷ steps) addrs =
      snapshots steps (refresh (resolve_addrs get_item nids) addrs)

  observe-addrs :
      (steps : List Step) (o : Observer)
      → is_empty o.addrs ≡ false
      → is_empty (observe alert_clock accepts metric_clock stamps nids steps o).addrs ≡ false
  unfolding observe step one_round
  observe-addrs [] o h = h
  observe-addrs (round r ∷ steps) o h =
      observe-addrs steps (one_round alert_clock accepts metric_clock stamps nids r o) h
  observe-addrs (refreshed get_item ∷ steps) o h =
      observe-addrs steps _ (refresh_some (resolve_addrs get_item nids) o.addrs h)

  -- An observer that has a static address always has an address to poll: after the addresses were
  -- resolved at the start, and after any steps of its run.
  pub observe-addrs_some :
      (peers_table : String) (static : List String) (tries : List (String → Row))
      (topic_arn : String) (disable_sns : Bool) (cw : ℕ → List Datum → Bool) (namespace : String)
      (cw_interval : ℕ) (disable_cloudwatch : Bool) (steps : List Step)
      → is_empty static ≡ false
      → is_empty
          (observe alert_clock accepts metric_clock stamps nids steps (
            start
              (resolve_initial_addrs peers_table nids static tries)
              topic_arn
              disable_sns
              cw
              namespace
              cw_interval
              disable_cloudwatch)).addrs
        ≡ false
  unfolding resolve_initial_addrs
  observe-addrs_some peers_table static tries topic_arn disable_sns cw namespace cw_interval
        disable_cloudwatch steps h =
      observe-addrs steps _ (ground (arith, first_resolved_some nids tries static h))
