-- ===== src/Collector/Lags.antt =====
-- The collector's lags against the observer's.
use driftless.Prelude.{
  ℕ, ◌-◌, leb, String, false, Bool-cases, inl, inr, Option, none, some, [], ◌∷◌, ◌==◌, string_eq,
  ◌≡◌, refl, ◌∙◌, arith, get_or,
}
use driftless.Prelude.Dict.{Dict}
use driftless.Prelude.Int.{ℤ, pos_part, sub_ℕ}
use driftless.Observer.Cluster.{StateDoc, from_dict, is_leader, lag_of, replication_lags}
use driftless.Collector.{is_leading, lag_from, collect_replication_lag}
use mathlib.Core.List.{map}

-- A lag that is below zero counts as none.
abbrev pub floored : Dict String ℤ → Dict String ℕ
floored = map (λ e. (e.0, pos_part e.1))

pos_part-sub : (a b : ℕ) → pos_part (sub_ℕ a b) ≡ a - b
pos_part-sub a b = elim (Bool-cases (leb b a)) [
  | inl enough ↦ rw (enough, sub_ℕ) refl
  | inr short ↦ rw (short, sub_ℕ) (ground arith)
]

floored_lags :
    (commit : ℕ) (matched : Dict String ℕ)
    → floored (map (lag_from commit) matched) ≡ map (lag_of commit) matched
unfolding lag_of
floored_lags commit [] = refl
floored_lags commit ((peer, m) ∷ matched) = cc (pos_part-sub commit m, floored_lags commit matched)

leading :
    (state : Option String)
    → (get_or state "unknown" == "leader") ≡ (elim state [ none ↦ false | some s ↦ s == "leader" ])
leading none = refl
leading (some s) = refl

-- From the same answer of a node, the collector's lags are the observer's, except that the collector
-- gives a peer that is ahead of the leader's commit index a lag below zero, and the observer none.
pub collect_replication_lag_lem :
    (url addr : String) (now : ℕ) (doc : StateDoc)
    → (url == "") ≡ false
    → floored (collect_replication_lag url (some doc)) ≡ replication_lags (from_dict doc addr now)
unfolding collect_replication_lag replication_lags from_dict is_leader
collect_replication_lag_lem url addr now doc named = elim (Bool-cases (is_leading doc)) [
  | inl leads ↦
      rw (named, collect_replication_lag)
        (rw leads (
          rw (leading doc.state ∙ leads)
            (floored_lags (get_or doc.commit_index 0) (get_or doc.match_index []))))
  | inr other ↦ rw (named, collect_replication_lag) (rw other (rw (leading doc.state ∙ other) refl))
]
