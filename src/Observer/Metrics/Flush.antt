-- ===== src/Observer/Metrics/Flush.antt =====
-- The CloudWatch buffer over a run of updates: what is put, when, and what CloudWatch gets of it.
use driftless.Prelude.{ℕ, ◌+◌, ◌<◌, String, ◌⊎◌, List, [], ◌∷◌, ◌++◌, ◌≡◌, nat_eq, flatten}
use driftless.Observer.Cluster.{ClusterSnapshot}
use driftless.Observer.Metrics.{Datum, MetricsPublisher, nodes_data, cluster_data, accepted}

-- What was put, and then what is pending.
abbrev pub traffic : MetricsPublisher → List Datum
traffic s = flatten s.puts ++ s.pending

module _ (clock : ℕ → ℕ) (stamps : ℕ → String) where
  -- The data that a run of updates stages, from the count of stamps on.
  abbrev pub staged : ℕ → List ClusterSnapshot → List Datum
  staged k [] = []
  staged k (snap ∷ snaps) =
      (nodes_data (stamps k) snap.nodes ++ cluster_data (stamps k) snap) ++ staged (k + 1) snaps

  -- Nothing is pending, or the last reading of the clock came before the interval was over; and what
  -- CloudWatch has is what it accepted of the batches put.
  pub record IsCurrent (s : MetricsPublisher) : Type 0 where
    pub flushed :
        (s.pending ≡ [])
        ⊎ ((k : ℕ) × (s.reads ≡ k + 1) × (clock k < s.last_cw_publish + s.cw_interval))
    pub answered : s.published ≡ accepted s.cw 0 s.puts
