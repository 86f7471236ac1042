-- ===== src/Observer/Alerts.antt =====
-- state-observer/alerts.py: `AlertManager`, the three detectors and the dispatch with a cooldown.
-- Time is in nanoseconds. The clock gives its readings in order, one to each call of
-- `time.monotonic`; the SNS client accepts a message or raises.
pub mod Keeps
pub mod Cooldown
pub mod Detectors
pub mod Timer
mod Tests
use driftless.Prelude.{
  ℕ, ◌+◌, ◌-◌, ◌*◌, ◌/◌, ◌%◌, suc, String, Bool, true, false, not, ◌||◌, Option, none, some, List,
  [], ◌∷◌, ◌++◌, ◌==◌, nat_eq, string_eq, if◌then◌else◌, ltb, leb, get_or, length, filter_by, sort,
}
use driftless.Prelude.Dict.{Dict, lookup, insert}
use driftless.Prelude.Round.{round_half_even}
use driftless.Prelude.Text.{decimal, concat, join, prefix, repr, str_leb}
use driftless.Observer.Cluster.{
  NodeState, ClusterSnapshot, leaders_by_term, split_brain_message, leader, current_term,
  reachable_count,
}
use mathlib.Core.List.{map}

abbrev pub second : ℕ
second = 1_000_000_000

abbrev pub cooldown : ℕ
cooldown = 120 * second

abbrev pub no_leader_timeout : ℕ
no_leader_timeout = 10 * second

-- A message handed to SNS, with the alert key and the reading that let it pass.
pub record Publish : Type 0 where
  pub subject : String
  pub message : String
  pub key : String
  pub at : ℕ

-- The fields of the manager; then how many readings of the clock were taken, and the messages
-- handed to SNS so far, the latest first.
pub record AlertManager : Type 0 where
  pub topic_arn : String
  pub disable_sns : Bool
  pub last_sent : Dict String ℕ
  pub leaderless_since : Option ℕ
  pub reads : ℕ
  pub published : List Publish

unfoldable pub init : String → Bool → AlertManager
init topic_arn disable_sns = record {
  topic_arn = topic_arn;
  disable_sns = disable_sns || topic_arn == "";
  last_sent = [];
  leaderless_since = none;
  reads = 0;
  published = [];
}

-- `{t:.1f}` and `{t:.0f}` of a time in seconds.
tenths_text : ℕ → String
tenths_text t =
    let n = round_half_even t (second / 10) in
    concat (decimal (n / 10) ∷ "." ∷ decimal (n % 10) ∷ [])

seconds_text : ℕ → String
seconds_text t = decimal (round_half_even t second)

abbrev pub outcome_text : String → Bool → String
outcome_text msg fired = concat (msg ∷ (if fired then " [alert sent]" else " [suppressed]") ∷ [])

split_brain_key : ℕ → List String → String
split_brain_key term ids =
    concat ("split-brain:term=" ∷ decimal term ∷ ":leaders=" ∷ join "," (sort str_leb ids) ∷ [])

split_brain_body : String → ClusterSnapshot → String
split_brain_body msg snap = concat (
    msg
    ∷ "\n\nThis means the Raft safety invariant (at most one leader per term) "
    ∷ "has been violated.  Immediate investigation required.\n\nNodes queried: "
    ∷ repr (map (λ n. n.node_id) snap.nodes)
    ∷ [])

no_leader_body : ℕ → ClusterSnapshot → String
no_leader_body elapsed snap = concat (
    "No leader has been elected for "
    ∷ tenths_text elapsed
    ∷ "s.\nReachable nodes: "
    ∷ repr (map (λ n. n.node_id) (filter_by (λ n. n.reachable) snap.nodes))
    ∷ "\nHighest term seen: "
    ∷ decimal (current_term snap)
    ∷ "\n\nPossible causes: network partition, all nodes crashed, persistent split-vote."
    ∷ [])

unfoldable pub quorum_of : ℕ → ℕ
quorum_of total = total / 2 + 1

-- `up/total`, as the key, the body and the text have it.
up_of : ℕ → ℕ → String
up_of up total = concat (decimal up ∷ "/" ∷ decimal total ∷ [])

quorum_body : ℕ → ℕ → String
quorum_body up total = concat (
    "Only "
    ∷ up_of up total
    ∷ " nodes are reachable; quorum requires "
    ∷ decimal (quorum_of total)
    ∷ ".\nThe cluster cannot commit new log entries until enough nodes are restored."
    ∷ [])

module _ (clock : ℕ → ℕ) (accepts : Publish → Bool) where
  -- `now - last < _COOLDOWN_S` is written as a sum. The key is noted before the message is sent.
  unfoldable pub maybe_send : String → String → String → AlertManager → AlertManager × Bool
  maybe_send key subject body s =
      let now = clock s.reads in
      let last = get_or (lookup key s.last_sent) 0 in
      let p : Publish = record {
        subject = prefix 100 subject;
        message = body;
        key = key;
        at = now;
      } in
      let read = record s { reads = s.reads + 1 } in
      let noted = record read { last_sent = insert key now s.last_sent } in
      if ltb now (last + cooldown)
      then (read, false)
      else if s.disable_sns
      then (noted, false)
      else (record noted { published = p ∷ s.published }, accepts p)

  -- One alert: the dispatch, and the text that the caller shows.
  unfoldable pub raise_alert :
      String → String → String → String → AlertManager → AlertManager × List String
  raise_alert key subject body msg s =
      let (s', fired) = maybe_send key subject body s in (s', outcome_text msg fired ∷ [])

  -- The loop over `leaders_by_term.items()`.
  unfoldable pub alert_conflicts :
      String → ClusterSnapshot → Dict ℕ (List String) → AlertManager → AlertManager × List String
  unfolding split_brain_key split_brain_body
  alert_conflicts msg snap [] s = (s, [])
  alert_conflicts msg snap ((term, ids) ∷ d) s =
      let (s₁, first) =
        if ltb 1 (length ids)
        then raise_alert (split_brain_key term ids)
            (concat ("[Driftless] SPLIT-BRAIN DETECTED in term " ∷ decimal term ∷ []))
            (split_brain_body msg snap) msg s
        else (s, []) in
      let (s₂, rest) = alert_conflicts msg snap d s₁ in (s₂, first ++ rest)

  unfoldable pub check_split_brain : ClusterSnapshot → AlertManager → AlertManager × List String
  check_split_brain snap s = elim (split_brain_message snap) [
    | none ↦ (s, [])
    | some msg ↦ alert_conflicts msg snap (leaders_by_term snap.nodes []) s
  ]

  -- The part of `_check_no_leader` behind the reading of the clock.
  unfoldable pub leaderless_at : ℕ → ClusterSnapshot → AlertManager → AlertManager × List String
  unfolding no_leader_body tenths_text seconds_text
  leaderless_at now snap s = elim s.leaderless_since [
    | none ↦ (record s { leaderless_since = some now }, [])
    | some since ↦
        if ltb now (since + no_leader_timeout)
        then (s, [])
        else raise_alert (concat ("no-leader:" ∷ decimal (current_term snap) ∷ []))
            "[Driftless] No Raft leader elected" (no_leader_body (now - since) snap)
            (concat (
              "No leader for "
              ∷ seconds_text (now - since)
              ∷ "s (term="
              ∷ decimal (current_term snap)
              ∷ ")"
              ∷ []))
            s
  ]

  unfoldable pub check_no_leader : ClusterSnapshot → AlertManager → AlertManager × List String
  unfolding leaderless_at
  check_no_leader snap s = elim (leader snap) [
    | some n ↦ (record s { leaderless_since = none }, [])
    | none ↦ leaderless_at (clock s.reads) snap (record s { reads = s.reads + 1 })
  ]

  unfoldable pub check_quorum_loss : ClusterSnapshot → AlertManager → AlertManager × List String
  unfolding quorum_of up_of quorum_body
  check_quorum_loss snap s =
      let total = length snap.nodes in
      let up = reachable_count snap in
      if total == 0
      then (s, [])
      else if leb (quorum_of total) up
      then (s, [])
      else raise_alert (concat ("quorum-loss:" ∷ up_of up total ∷ []))
          "[Driftless] Quorum loss — cluster cannot make progress" (quorum_body up total)
          (concat (
            "Quorum loss: "
            ∷ up_of up total
            ∷ " nodes up (need "
            ∷ decimal (quorum_of total)
            ∷ ")"
            ∷ []))
          s

  unfoldable pub check : ClusterSnapshot → AlertManager → AlertManager × List String
  check snap s =
      let (s₁, a) = check_split_brain snap s in
      let (s₂, b) = check_no_leader snap s₁ in
      let (s₃, c) = check_quorum_loss snap s₂ in (s₃, a ++ b ++ c)

  -- The calls that the observer makes, one for each snapshot.
  unfoldable pub check_all : List ClusterSnapshot → AlertManager → AlertManager
  check_all [] s = s
  check_all (snap ∷ snaps) s = check_all snaps (check snap s).0
