-- ===== src/Observer/Alerts/Tests.antt =====
-- Runs of the alert manager, and its theorems at concrete inputs.
use driftless.Prelude.{
  ℕ, ◌+◌, ◌*◌, ◌≤◌, ◌<◌, ◌≡◌, ◌≢◌, ◌↔◌, refl, String, Bool, true, false, none, some, List, [], ◌∷◌,
  length, arith,
}
use driftless.Prelude.Dict.{lookup, insert}
use driftless.Prelude.Round.{round_half_even}
use driftless.Prelude.Text.{decimal, concat, join, prefix, repr}
use driftless.Observer.Cluster.{
  is_leader, leader, reachable_count, current_term, append_leader, leaders_by_term, first_conflict,
  conflict_text, split_brain_message,
}
use driftless.Observer.Cluster.Samples.{healthy, split, leaderless, leader_a}
use driftless.Observer.Alerts.{
  AlertManager, Publish, second, no_leader_timeout, init, maybe_send, raise_alert, alert_conflicts,
  check_split_brain, check_no_leader, check_quorum_loss, check, check_all,
}
use driftless.Observer.Alerts.Cooldown.{IsSpaced, check_all-IsSpaced, check_all-IsSilent}
use driftless.Observer.Alerts.Detectors.{check_quorum_loss_iff, check_no_leader_iff}
use driftless.Observer.Alerts.Timer.{check_all-leaderless_since}

program : Unit {0}
unfolding leader is_leader append_leader leaders_by_term first_conflict conflict_text
    split_brain_message decimal concat join prefix repr reachable_count current_term lookup insert
    round_half_even init maybe_send raise_alert alert_conflicts check_split_brain check_no_leader
    check_quorum_loss check check_all
program = tt

-- The n-th reading of a clock that starts at 200 s and advances by 11 s between two readings.
abbrev clock : ℕ → ℕ
clock i = (200 + 11 * i) * second

abbrev accepts : Publish → Bool
accepts p = true

abbrev fresh : AlertManager
fresh = record {
  topic_arn = "arn";
  disable_sns = false;
  last_sent = [];
  leaderless_since = none;
  reads = 0;
  published = [];
}

abbrev texts : AlertManager × List String → List String
texts r = r.1

split_alert :
    texts (check clock accepts split fresh)
    ≡ "SPLIT-BRAIN DETECTED: term=3 multiple leaders: a, b [alert sent]" ∷ []
unfolding program
split_alert = refl

no_leader_alert :
    texts (check clock accepts leaderless (check clock accepts leaderless fresh).0)
    ≡ "No leader for 11s (term=4) [alert sent]" ∷ []
unfolding program
no_leader_alert = refl

-- The same alert again within the cooldown. Two leaders also count as no leader.
suppressed_alert :
    texts (check clock accepts split (check clock accepts split fresh).0)
    ≡ "SPLIT-BRAIN DETECTED: term=3 multiple leaders: a, b [suppressed]"
      ∷ "No leader for 22s (term=3) [alert sent]" ∷ []
unfolding program
suppressed_alert = refl

check_all-IsSpaced_example :
    IsSpaced
      (check_all clock accepts (split ∷ leaderless ∷ split ∷ []) (init "arn" false)).published
check_all-IsSpaced_example =
    check_all-IsSpaced clock accepts "arn" false (split ∷ leaderless ∷ split ∷ [])

check_all-IsSilent_example :
    ((check_all (λ i. 7) accepts (split ∷ split ∷ []) (init "arn" false)).last_sent ≡ [])
    × ((check_all (λ i. 7) accepts (split ∷ split ∷ []) (init "arn" false)).published ≡ [])
check_all-IsSilent_example =
    check_all-IsSilent (λ i. 7) accepts (λ i. omega arith) "arn" false (split ∷ split ∷ [])

check_quorum_loss_iff_example :
    ((check_quorum_loss clock accepts leaderless fresh).1 ≢ [])
    ↔ ((0 < length leaderless.nodes) × (2 * reachable_count leaderless ≤ length leaderless.nodes))
check_quorum_loss_iff_example = check_quorum_loss_iff clock accepts leaderless fresh

check_no_leader_iff_example : ((check_no_leader clock accepts leaderless fresh).1 ≢ []) ↔ (
    (leader leaderless ≡ none)
    × ((since : ℕ) × (fresh.leaderless_since ≡ some since)
        × (since + no_leader_timeout ≤ clock fresh.reads)))
check_no_leader_iff_example = check_no_leader_iff clock accepts leaderless fresh

leaderless-no_leader : leader leaderless ≡ none
unfolding program
leaderless-no_leader = refl

healthy-leader : leader healthy ≡ some leader_a
unfolding program
healthy-leader = refl

check_all-leaderless_since_example :
    (check_all clock accepts (healthy ∷ leaderless ∷ leaderless ∷ []) fresh).leaderless_since
    ≡ some (
        clock
          (check_split_brain clock accepts leaderless
            (check clock accepts healthy fresh).0).0.reads)
check_all-leaderless_since_example =
    check_all-leaderless_since clock accepts healthy leaderless (leaderless ∷ []) fresh
      healthy-leader leaderless-no_leader (leaderless-no_leader, tt)
