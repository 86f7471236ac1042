-- ===== src/Observer/Dashboard/Tests.antt =====
-- The dashboard over a few updates.
use driftless.Prelude.{ℕ, ◌+◌, ◌*◌, String, some, List, [], ◌∷◌, ◌≡◌, refl, arith}
use driftless.Observer.Cluster.{ClusterSnapshot, is_leader, leader, leaders, single}
use driftless.Observer.Cluster.Samples.{healthy, leaderless}
use driftless.Observer.Dashboard.{
  Sample, init, push_64, update, update_all, window_of, rate_over, commit_rate,
}
use driftless.Observer.Dashboard.Rates.{IsSplit, IsRate, commit_rate-IsRate}

abbrev clock : ℕ → ℕ
clock k = 1000 + k * 500

abbrev shown : List (ClusterSnapshot × List String)
shown = (healthy, []) ∷ (leaderless, "No leader" ∷ []) ∷ (healthy, []) ∷ []

abbrev at : ℕ → ℕ → Sample
at t c = record { at = t; commit = c }

two_samples : (update_all clock 0 shown init).commit_history ≡ at 1000 17 ∷ at 2000 17 ∷ []
unfolding update_all update push_64 leader leaders single is_leader
two_samples = refl

abbrev history : List Sample
history = at 1000000000 5 ∷ at 4000000000 8 ∷ at 9000000000 20 ∷ []

rate_of_last_two : commit_rate 12000000000 history ≡ some (record { entries = 12; ns = 5000000000 })
unfolding commit_rate window_of rate_over
rate_of_last_two = refl

commit_rate-IsRate_example :
    (old : List Sample) × (recent : List Sample) × IsSplit 12000000000 history old recent
    × IsRate recent (commit_rate 12000000000 history)
commit_rate-IsRate_example =
    commit_rate-IsRate 12000000000 history
      (
        ((omega arith, omega arith), ((omega arith, omega arith), tt)),
        (((omega arith, omega arith), tt), (tt, tt)),
      )
      (omega arith, (omega arith, (omega arith, tt)))
