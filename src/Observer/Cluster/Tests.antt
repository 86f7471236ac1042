-- ===== src/Observer/Cluster/Tests.antt =====
-- Runs of the cluster model on small inputs, and its theorems at concrete inputs.
use driftless.Prelude.{◌≡◌, refl, String, some, List, [], ◌∷◌, string_eq}
use driftless.Prelude.Dict.{lookup, insert}
use driftless.Prelude.Text.{decimal, concat, join}
use driftless.Observer.Cluster.{
  is_leader, leader, from_dict, unreachable, reachable_count, current_term, replication_lags,
  append_leader, leaders_by_term, first_conflict, conflict_text, split_brain_message,
}
use driftless.Observer.Cluster.Brain.{Verdict, split_brain_message-Verdict}
use driftless.Observer.Cluster.Poll.{poll_one, poll}
use driftless.Observer.Cluster.Samples.{leader_a, healthy, split, doc_a, network}

abbrev addrs : List String
addrs = "h:1" ∷ "h:2" ∷ []

program : Unit {0}
unfolding leader is_leader replication_lags append_leader leaders_by_term first_conflict
    conflict_text split_brain_message poll poll_one from_dict unreachable decimal concat join
    reachable_count current_term lookup insert
program = tt

split_text : split_brain_message split ≡ some "SPLIT-BRAIN DETECTED: term=3 multiple leaders: a, b"
unfolding program
split_text = refl

healthy-leader : leader healthy ≡ some leader_a
unfolding program
healthy-leader = refl

lags_of_a : replication_lags leader_a ≡ ("b", 0) ∷ ("c", 5) ∷ []
unfolding program
lags_of_a = refl

split_brain_message-Verdict_example : Verdict split.nodes (split_brain_message split)
split_brain_message-Verdict_example = split_brain_message-Verdict split

up_at_h1 : reachable_count (poll network (λ _. 7) addrs 8) ≡ 1
unfolding program
up_at_h1 = refl

leader_at_h1 : leader (poll network (λ _. 7) addrs 8) ≡ some (from_dict doc_a "h:1" 7)
unfolding program
leader_at_h1 = refl
