-- ===== src/Bench/Chaos/Redelivery.antt =====
-- How many messages a redelivery resets.
use driftless.Prelude.{
  ℕ, ◌+◌, ◌≤◌, String, Bool, true, false, not, List, [], ◌∷◌, string_eq, ◌≡◌, refl, arith,
  if◌then◌else◌, count_by, any_by, length, ap, ◌⊎◌, inl, inr,
}
use driftless.Bench.Result.{Result, ok, raise, client_error}
use driftless.Bench.Chaos.{
  Change, changed, failed, is_gone, redeliver, asked, inject_sqs_redelivery,
}

abbrev pub is_changed : Change → Bool
is_changed changed = true
is_changed (failed code) = false

-- The failure is not the one of a deleted message.
abbrev pub is_broken : Change → Bool
is_broken changed = false
is_broken (failed code) = not (is_gone code)

-- What the loop gives for the messages.
abbrev pub redelivered_of : (String → Change) → List String → Result ℕ
redelivered_of change handles =
    if any_by (λ h. is_broken (change h)) handles
    then raise client_error
    else ok (count_by (λ h. is_changed (change h)) handles)

Change-cases : (c : Change) → (c ≡ changed) ⊎ ((code : String) × (c ≡ failed code))
Change-cases changed = inl refl
Change-cases (failed code) = inr (code, refl)

redeliver_lem :
    (change : String → Change) (handles : List String) (n : ℕ)
    → redeliver change handles n ≡ (
        if any_by (λ h. is_broken (change h)) handles
        then raise client_error
        else ok (n + count_by (λ h. is_changed (change h)) handles))
unfolding redeliver
redeliver_lem change [] n = ap ok (omega arith)
redeliver_lem change (handle ∷ handles) n = elim (Change-cases (change handle)) [
  | inl done ↦ ground (arith, redeliver_lem change handles (n + 1))
  | inr (code, refused) ↦ ground (arith, redeliver_lem change handles n)
]

-- The injection returns how many of the received messages had their visibility reset, if every
-- other one was already deleted, and raises the first other failure; where `receive` gives at most
-- as many messages as asked for, it never resets more than `count`, nor more than ten.
pub inject_sqs_redelivery_lem :
    (change : String → Change) (receive : ℕ → List String) (count : ℕ)
    → ((n : ℕ) → length (receive n) ≤ n)
    → (inject_sqs_redelivery change receive count ≡ redelivered_of change (receive (asked count)))
      × (length (receive (asked count)) ≤ count)
      × (length (receive (asked count)) ≤ 10)
unfolding inject_sqs_redelivery
inject_sqs_redelivery_lem change receive count limited = (
  ground (arith, redeliver_lem change (receive (asked count)) 0),
  ground (arith, limited (asked count)),
  ground (arith, limited (asked count)),
)
