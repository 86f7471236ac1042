-- ===== src/Observer/Run/Tests.antt =====
-- A run of two rounds with a refresh of the addresses between them.
use driftless.Prelude.{
  ℕ, ◌+◌, ◌*◌, String, Bool, true, false, some, List, [], ◌∷◌, ◌≡◌, refl, ◌==◌, nat_eq, string_eq,
  if◌then◌else◌,
}
use driftless.Observer.Cluster.Samples.{network}
use driftless.Observer.Alerts.{Publish}
use driftless.Observer.Metrics.{Datum}
use driftless.Observer.Run.{
  Row, row, absent, Step, round, refreshed, resolve_addrs, refresh, observe, Observer,
}
use driftless.Observer.Dashboard.{init, update_all}
use driftless.Observer.Dashboard.History.{latest_64}
use driftless.Observer.Run.Shown.{samples_of, observe-history}
use driftless.Observer.Run.Reaches.{start, snapshots}

abbrev peers : String → Row
peers nid = if nid == "b" then row (some "h:2") else absent

abbrev steps : List Step
steps =
    round (record { http_get = network; clock = λ a. 7; now = 8 })
    ∷ refreshed peers
    ∷ round (record { http_get = network; clock = λ a. 9; now = 10 })
    ∷ []

abbrev nids : List String
nids = "a" ∷ "b" ∷ []

abbrev clock : ℕ → ℕ
clock i = (200 + 11 * i) * 1000000000

abbrev accepts : Publish → Bool
accepts p = true

abbrev stamps : ℕ → String
stamps i = "2026-04-21T00:15:13Z"

-- CloudWatch refuses each put after the first.
abbrev takes_first : ℕ → List Datum → Bool
takes_first k batch = k == 0

abbrev ran : Observer
ran =
    observe clock accepts clock stamps nids steps
      (start ("h:1" ∷ []) "arn" false takes_first "Driftless/Raft" 60 false)

resolved : refresh (resolve_addrs peers nids) ("h:1" ∷ []) ≡ "h:2" ∷ []
unfolding refresh resolve_addrs
resolved = refl

observe-history_example :
    (update_all clock 0 ran.shown init).commit_history
    ≡ latest_64 (samples_of clock 0 (snapshots clock accepts clock stamps nids steps ("h:1" ∷ [])))
observe-history_example =
    observe-history clock accepts clock stamps nids clock ("h:1" ∷ []) "arn" false takes_first
      "Driftless/Raft" 60 false steps
