-- ===== src/Observer/Metrics/Batches.antt =====
-- The sizes of the batches that are put to CloudWatch.
use driftless.Prelude.{
  ℕ, ◌+◌, ◌≤◌, ◌<◌, String, Bool, List, [], ◌∷◌, arith, inl, inr, ◌==◌, nat_eq, leb, length, All,
  All-append, chunks_bounds, Bool-cases,
}
use driftless.Observer.Cluster.{ClusterSnapshot}
use driftless.Observer.Metrics.{
  Datum, MetricsPublisher, init, buffer_cloudwatch, flush_cloudwatch, flush_if_due, update,
  update_all,
}

module _ (clock : ℕ → ℕ) (stamps : ℕ → String) where
  abbrev IsBatched : MetricsPublisher → Type 0
  IsBatched s = All (λ b. (0 < length b) × (length b ≤ 1000)) s.puts

  flush_cloudwatch-IsBatched :
      (s : MetricsPublisher) → IsBatched s → IsBatched (flush_cloudwatch clock stamps s)
  unfolding flush_cloudwatch
  flush_cloudwatch-IsBatched s h = elim (Bool-cases (length s.pending == 0)) [
    | inl empty ↦ rw empty h
    | inr some_data ↦
        rw some_data (All-append _ s.puts _ h (chunks_bounds 1000 s.pending (omega arith)))
  ]

  update-IsBatched :
      (snap : ClusterSnapshot) (s : MetricsPublisher)
      → IsBatched s
      → IsBatched (update clock stamps snap s)
  unfolding update flush_if_due buffer_cloudwatch
  update-IsBatched snap s h = elim (Bool-cases s.disable_cw) [
    | inl disabled ↦ rw disabled h
    | inr enabled ↦ elim (Bool-cases (leb (s.last_cw_publish + s.cw_interval) (clock s.reads))) [
      | inl due ↦ rw (enabled) (rw due (flush_cloudwatch-IsBatched _ h))
      | inr early ↦ rw enabled (rw early h)
    ]
  ]

  update_all-keeps-IsBatched :
      (snaps : List ClusterSnapshot) (s : MetricsPublisher)
      → IsBatched s
      → IsBatched (update_all clock stamps snaps s)
  unfolding update_all
  update_all-keeps-IsBatched [] s h = h
  update_all-keeps-IsBatched (snap ∷ snaps) s h =
      update_all-keeps-IsBatched snaps _ (update-IsBatched snap s h)

  -- No batch put over any run of updates from a fresh publisher is empty or larger than the 1000
  -- data that CloudWatch takes.
  pub update_all-IsBatched :
      (cw : ℕ → List Datum → Bool) (namespace : String) (interval : ℕ) (disable_cw : Bool)
      (snaps : List ClusterSnapshot)
      → All
          (λ b. (0 < length b) × (length b ≤ 1000))
          (update_all clock stamps snaps (init cw namespace interval disable_cw)).puts
  unfolding init
  update_all-IsBatched cw namespace interval disable_cw snaps =
      update_all-keeps-IsBatched snaps _ tt
