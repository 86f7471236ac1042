-- ===== src/Observer/Dashboard/History.antt =====
-- The samples that the dashboard holds.
use driftless.Prelude.{
  ℕ, ◌+◌, ◌-◌, ◌≤◌, zero, suc, String, none, some, List, [], ◌∷◌, ◌++◌, ◌≡◌, refl, sym, ap, ◌∙◌,
  arith, length, drop, length-append, length-drop, Option-cases, inl, inr,
}
use mathlib.Core.List.{append_assoc, append-nil}
use driftless.Observer.Cluster.{ClusterSnapshot, leader}
use driftless.Observer.Dashboard.{Sample, Dashboard, init, push_64, update, update_all}

-- The last 64 elements.
abbrev pub latest_64 : List Sample → List Sample
latest_64 xs = drop (length xs - 64) xs

-- The samples of all updates: one for each snapshot that has a leader.
abbrev pub sample_of : ℕ → ClusterSnapshot → List Sample
sample_of now snapshot = elim (leader snapshot) [
  | none ↦ []
  | some n ↦ record { at = now; commit = n.commit_index } ∷ []
]

abbrev pub samples : (ℕ → ℕ) → ℕ → List (ClusterSnapshot × List String) → List Sample
samples clock k [] = []
samples clock k ((snapshot, alerts) ∷ shown) =
    sample_of (clock k) snapshot ++ samples clock (k + 1) shown

drop_nil : (n : ℕ) → drop {A = Sample} n [] ≡ []
drop_nil zero = refl
drop_nil (suc n) = refl

drop-drop : (a b : ℕ) (xs : List Sample) → drop a (drop b xs) ≡ drop (b + a) xs
drop-drop a zero xs = ap (λ n. drop n xs) (omega arith)
drop-drop a (suc b) [] = drop_nil a ∙ sym (drop_nil (suc b + a))
drop-drop a (suc b) (x ∷ xs) =
    let same : suc (b + a) ≡ suc b + a = omega arith in
    drop-drop a b xs ∙ ap (λ n. drop n (x ∷ xs)) same

drop-append : (n : ℕ) (xs ys : List Sample) → n ≤ length xs → drop n (xs ++ ys) ≡ drop n xs ++ ys
drop-append zero xs ys h = refl
drop-append (suc n) [] ys h = absurd (omega arith)
drop-append (suc n) (x ∷ xs) ys h = drop-append n xs ys (omega arith)

-- The bounded queue holds the last 64 of all samples.
push_64-latest_64 :
    (x : Sample) (all : List Sample) → push_64 x (latest_64 all) ≡ latest_64 (all ++ x ∷ [])
unfolding push_64
push_64-latest_64 x all =
    ap (λ l. drop (length l - 64) l)
      (sym (drop-append (length all - 64) all (x ∷ []) (omega arith)))
    ∙ drop-drop _ (length all - 64) (all ++ x ∷ [])
    ∙ ap (λ n. drop n (all ++ x ∷ []))
        (omega (arith, length-append all (x ∷ []), length-drop (length all - 64) (all ++ x ∷ [])))

update-history :
    (now : ℕ) (snapshot : ClusterSnapshot) (alerts : List String) (d : Dashboard)
    (all : List Sample)
    → d.commit_history ≡ latest_64 all
    → (update now snapshot alerts d).commit_history ≡ latest_64 (all ++ sample_of now snapshot)
unfolding update
update-history now snapshot alerts d all h = elim (Option-cases (leader snapshot)) [
  | inl nobody ↦ rw (nobody, update, sample_of) (h ∙ ap latest_64 (sym (append-nil all)))
  | inr (n, leads) ↦
      rw (leads, update, sample_of)
        (ap (push_64 (record { at = now; commit = n.commit_index })) h
          ∙ push_64-latest_64 (record { at = now; commit = n.commit_index }) all)
]

update_all-from :
    (clock : ℕ → ℕ) (k : ℕ) (shown : List (ClusterSnapshot × List String)) (d : Dashboard)
    (all : List Sample)
    → d.commit_history ≡ latest_64 all
    → (update_all clock k shown d).commit_history ≡ latest_64 (all ++ samples clock k shown)
unfolding update_all
update_all-from clock k [] d all h = h ∙ ap latest_64 (sym (append-nil all))
update_all-from clock k ((snapshot, alerts) ∷ shown) d all h =
    update_all-from clock (k + 1) shown _ (all ++ sample_of (clock k) snapshot)
      (update-history (clock k) snapshot alerts d all h)
    ∙ ap latest_64 (append_assoc all (sample_of (clock k) snapshot) (samples clock (k + 1) shown))

-- After any updates of a new dashboard, it holds the last 64 of the samples taken from the snapshots
-- that had a leader, in their order.
pub update_all-history :
    (clock : ℕ → ℕ) (shown : List (ClusterSnapshot × List String))
    → (update_all clock 0 shown init).commit_history ≡ latest_64 (samples clock 0 shown)
update_all-history clock shown = update_all-from clock 0 shown init [] refl
