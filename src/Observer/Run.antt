-- ===== src/Observer/Run.antt =====
-- The observer's run (state-observer/main.py) and the addresses that it polls (state-observer/peers.py).
-- The loop of `observe` and the task that refreshes the addresses run beside each other: a run is the
-- sequence of their steps. The peers table, the HTTP library, the clocks and SNS are parameters.
pub mod Reaches
pub mod Shown
mod Tests
use driftless.Prelude.{
  ℕ, String, Bool, true, false, not, ◌&&◌, ◌||◌, Option, none, some, List, [], ◌∷◌, ◌++◌, ◌==◌,
  string_eq, if◌then◌else◌, contains, length, nat_eq,
}
use driftless.Observer.Cluster.{ClusterSnapshot}
use driftless.Observer.Cluster.Poll.{Fetch, poll}
use driftless.Observer.Alerts.{AlertManager, Publish, check}
use driftless.Observer.Metrics.{MetricsPublisher, update}

-- One `get_item`: an exception, no row, or a row with its address, if that is a text.
pub data Row : Type 0 where
  failed absent : Row
  row : Option String → Row

abbrev pub addr_of : Row → Option String
addr_of failed = none
addr_of absent = none
addr_of (row none) = none
addr_of (row (some addr)) = if addr == "" then none else some addr

unfoldable pub resolve_addrs : (String → Row) → List String → List String
resolve_addrs get_item [] = []
resolve_addrs get_item (nid ∷ nids) = elim (addr_of (get_item nid)) [
  | none ↦ resolve_addrs get_item nids
  | some addr ↦ addr ∷ resolve_addrs get_item nids
]

abbrev pub is_empty : List String → Bool
is_empty [] = true
is_empty (a ∷ addrs) = false

-- The first resolution that gives an address, among those made before the deadline.
unfoldable pub first_resolved : List String → List (String → Row) → List String → List String
unfolding resolve_addrs
first_resolved nids [] static = static
first_resolved nids (get_item ∷ tries) static =
    let addrs = resolve_addrs get_item nids in
    if is_empty addrs then first_resolved nids tries static else addrs

unfoldable pub resolve_initial_addrs :
    String → List String → List String → List (String → Row) → List String
unfolding first_resolved
resolve_initial_addrs peers_table nids static tries =
    if peers_table == "" || is_empty nids then static else first_resolved nids tries static

abbrev pub all_in : List String → List String → Bool
all_in [] ys = true
all_in (x ∷ xs) ys = contains ys x && all_in xs ys

-- `set(xs) == set(ys)`
abbrev pub same_set : List String → List String → Bool
same_set xs ys = all_in xs ys && all_in ys xs

-- The addresses after a refresh.
unfoldable pub refresh : List String → List String → List String
refresh new_addrs addrs =
    if not (is_empty new_addrs) && not (same_set new_addrs addrs) then new_addrs else addrs

-- What a poll round sees: the answers, and the clock's readings.
pub record Round : Type 0 where
  pub http_get : String → Fetch
  pub clock : String → ℕ
  pub now : ℕ

-- A step of the loop, or of the task that refreshes, with what the peers table answers to it.
pub data Step : Type 0 where
  round : Round → Step
  refreshed : (get_item : String → Row) → Step

-- The client's addresses, the two publishers, and what the dashboard was shown.
pub record Observer : Type 0 where
  pub addrs : List String
  pub alerts : AlertManager
  pub metrics : MetricsPublisher
  pub shown : List (ClusterSnapshot × List String)

module _ (alert_clock : ℕ → ℕ) (accepts : Publish → Bool) (metric_clock : ℕ → ℕ)
    (stamps : ℕ → String) (nids : List String) where
  -- The body of the loop: poll, check, update, show.
  unfoldable pub one_round : Round → Observer → Observer
  one_round r o =
      let snap = poll r.http_get r.clock o.addrs r.now in
      let (alerts, active) = check alert_clock accepts snap o.alerts in
      record o {
        alerts = alerts;
        metrics = update metric_clock stamps snap o.metrics;
        shown = o.shown ++ (snap, active) ∷ [];
      }

  unfoldable pub step : Step → Observer → Observer
  unfolding one_round refresh
  step (round r) o = one_round r o
  step (refreshed get_item) o = record o { addrs = refresh (resolve_addrs get_item nids) o.addrs }

  unfoldable pub observe : List Step → Observer → Observer
  unfolding step
  observe [] o = o
  observe (s ∷ steps) o = observe steps (step s o)
