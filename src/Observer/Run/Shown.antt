-- ===== src/Observer/Run/Shown.antt =====
-- What the dashboard holds after a run of the observer.
use driftless.Prelude.{
  ℕ, ◌+◌, String, Bool, List, [], ◌∷◌, ◌++◌, ◌≡◌, refl, sym, ap, ◌∙◌, string_eq,
}
use mathlib.Core.List.{map, append_assoc, append-nil, map-append}
use driftless.Observer.Cluster.{ClusterSnapshot}
use driftless.Observer.Cluster.Poll.{poll}
use driftless.Observer.Alerts.{Publish}
use driftless.Observer.Metrics.{Datum}
use driftless.Observer.Dashboard.{Sample, init, update_all}
use driftless.Observer.Dashboard.History.{latest_64, sample_of, samples, update_all-history}
use driftless.Observer.Run.{Step, round, refreshed, Observer, one_round, step, observe}
use driftless.Observer.Run.Reaches.{start, snapshots}

-- The samples of some snapshots, the `k`-th at the `k`-th reading of the clock.
abbrev pub samples_of : (ℕ → ℕ) → ℕ → List ClusterSnapshot → List Sample
samples_of clock k [] = []
samples_of clock k (snapshot ∷ snaps) =
    sample_of (clock k) snapshot ++ samples_of clock (k + 1) snaps

abbrev polled : List (ClusterSnapshot × List String) → List ClusterSnapshot
polled shown = map (λ s. s.0) shown

samples-polled :
    (clock : ℕ → ℕ) (k : ℕ) (shown : List (ClusterSnapshot × List String))
    → samples clock k shown ≡ samples_of clock k (polled shown)
samples-polled clock k [] = refl
samples-polled clock k ((snapshot, alerts) ∷ shown) =
    ap (λ l. sample_of (clock k) snapshot ++ l) (samples-polled clock (k + 1) shown)

module _ (alert_clock : ℕ → ℕ) (accepts : Publish → Bool) (metric_clock : ℕ → ℕ)
    (stamps : ℕ → String) (nids : List String) where
  observe-polled :
      (steps : List Step) (o : Observer)
      → polled (observe alert_clock accepts metric_clock stamps nids steps o).shown
        ≡ polled o.shown ++ snapshots alert_clock accepts metric_clock stamps nids steps o.addrs
  unfolding observe step one_round
  observe-polled [] o = sym (append-nil (polled o.shown))
  observe-polled (round r ∷ steps) o =
      let o' = one_round alert_clock accepts metric_clock stamps nids r o in
      let rest = snapshots alert_clock accepts metric_clock stamps nids steps o.addrs in
      let snap = poll r.http_get r.clock o.addrs r.now in
      observe-polled steps o'
      ∙ ap (λ l. l ++ rest) (map-append (λ s. s.0) o.shown ((snap, _) ∷ []))
      ∙ append_assoc (polled o.shown) (snap ∷ []) rest
  observe-polled (refreshed get_item ∷ steps) o = observe-polled steps _

  -- A dashboard that is shown what a run of the observer gives it, each at a reading of its clock,
  -- holds the last 64 of the samples of the polled snapshots that had a leader, in their order.
  pub observe-history :
      (clock : ℕ → ℕ) (addrs : List String) (topic_arn : String) (disable_sns : Bool)
      (cw : ℕ → List Datum → Bool) (namespace : String) (cw_interval : ℕ)
      (disable_cloudwatch : Bool) (steps : List Step)
      → let o =
          observe alert_clock accepts metric_clock stamps nids steps
            (start addrs topic_arn disable_sns cw namespace cw_interval disable_cloudwatch) in
        (update_all clock 0 o.shown init).commit_history
        ≡ latest_64 (
            samples_of clock 0 (snapshots alert_clock accepts metric_clock stamps nids steps addrs))
  observe-history clock addrs topic_arn disable_sns cw namespace cw_interval disable_cloudwatch
        steps =
      update_all-history clock _
      ∙ ap latest_64 (
          samples-polled clock 0 _
          ∙ ap (samples_of clock 0) (
              observe-polled steps
                (start addrs topic_arn disable_sns cw namespace cw_interval disable_cloudwatch)))
