-- ===== src/Bench/Analysis/Gaps.antt =====
-- How long after a kill the leader was seen again.
use driftless.Prelude.{
  ℕ, ◌+◌, ◌-◌, ◌≤◌, ◌<◌, ◌≡◌, ltb, String, true, Bool-cases, inl, inr, Option, none, some, List, [],
  ◌∷◌, nat_eq, contains, All, arith,
}
use driftless.Bench.Analysis.{first_after}
use mathlib.Core.List.{map}

-- The events stand in the order of their times.
abbrev pub Ordered : List (ℕ × String) → Type 0
Ordered [] = Unit
Ordered (e ∷ events) = All (λ e'. e.0 ≤ e'.0) events × Ordered events

abbrev pub times : List (ℕ × String) → List ℕ
times = map (λ e. e.0)

-- The outcome is the least time from `k` to an event after it.
abbrev pub IsGap : ℕ → List (ℕ × String) → Option ℕ → Type 0
IsGap k events none = All (λ e. e.0 ≤ k) events
IsGap k events (some d) =
    (0 < d) × (contains (times events) (k + d) ≡ true) × All (λ e. k < e.0 → k + d ≤ e.0) events

All-mono {ℓ κ} :
    {A : Type ℓ} (P Q : A → Type κ) (xs : List A) → ((x : A) → P x → Q x) → All P xs → All Q xs
All-mono P Q [] f h = tt
All-mono P Q (x ∷ xs) f h = (f x h.0, All-mono P Q xs f h.1)

-- On events in the order of their times, the sample of a kill is the time to the earliest leader
-- event strictly after it, and there is none exactly if no leader event is after the kill.
pub first_after-IsGap :
    (k : ℕ) (events : List (ℕ × String)) → Ordered events → IsGap k events (first_after k events)
unfolding first_after
first_after-IsGap k [] h = tt
first_after-IsGap k ((ts, nid) ∷ events) h = elim (Bool-cases (ltb k ts)) [
  | inl after ↦
      rw (after, first_after)
        (
          ground arith,
          ground arith,
          (
            (λ a. ground arith),
            All-mono (λ e. ts ≤ e.0) (λ e. k < e.0 → k + (ts - k) ≤ e.0) events
                (λ e a b. ground arith) h.0,
          ),
        )
  | inr before ↦ rw (before, first_after) (later _ (ground arith) (first_after-IsGap k events h.1))
]
  where
    later : (o : Option ℕ) → ts ≤ k → IsGap k events o → IsGap k ((ts, nid) ∷ events) o
    later none before a = (before, a)
    later (some d) before (p, m, a) = (p, ground arith, ((λ b. absurd (omega arith)), a))
