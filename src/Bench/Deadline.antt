-- ===== src/Bench/Deadline.antt =====
-- The loops `while time.time() < deadline` of chaos-bench/bench.py, exp1.py, exp3.py and exp4.py: how a
-- loop ends that looks for something in each turn, returns once it has found it, and else sleeps.
use driftless.Prelude.{
  ℕ, ◌+◌, ◌-◌, sym, ◌∙◌, ◌≤◌, ◌<◌, zero, suc, ltb, Option, none, some, ◌≡◌, arith, ◌⊎◌, inl, inr,
  Bool-cases, Option-cases,
}

-- A sleep of a positive length, on a clock that is not set back: the test after the sleep reads a
-- later time. The turns are numbered from 0, and `checked k` is what the test before turn `k` reads.
pub record IsPaced (started : ℕ) (checked : ℕ → ℕ) : Type 0 where
  pub first : started ≤ checked 0
  pub later : (k : ℕ) → checked k < checked (k + 1)

-- Later turns are tested later.
pub checked-le :
    {started : ℕ} (checked : ℕ → ℕ)
    → IsPaced started checked
    → (j n : ℕ) → checked j ≤ checked (j + n)
checked-le checked paced j zero = let same : j + 0 ≡ j = omega arith in rw same (omega arith)
checked-le checked paced j (suc n) =
    let same : j + suc n ≡ (j + n) + 1 = omega arith in
    rw same (omega (arith, checked-le checked paced j n, paced.later (j + n)))

none-ne-some : {A : Type 0} {a : A} → none ≡ some a → ⊥
none-ne-some h = cc

module _ {A : Type 0} (checked : ℕ → ℕ) (found : ℕ → Option A) (deadline : ℕ) where
  -- The turns from `j` up to `k`, that one excluded, were made in time and found nothing.
  pub record IsWaiting (j k : ℕ) : Type 0 where
    pub after : j ≤ k
    pub in_time : (i : ℕ) → j ≤ i → i < k → checked i < deadline
    pub unfound : (i : ℕ) → j ≤ i → i < k → found i ≡ none

  pub waits_none : (j : ℕ) → IsWaiting j j
  waits_none j = record {
    after = omega arith;
    in_time = λ i a b. absurd (omega arith);
    unfound = λ i a b. absurd (omega arith);
  }

  pub waits_more :
      (j k : ℕ) → checked j < deadline → found j ≡ none → IsWaiting (j + 1) k → IsWaiting j k
  waits_more j k h o w = record {
    after = omega (arith, w.after);
    in_time = λ i a b. elim (first_or_later i a) [ inl e ↦ rw e h | inr l ↦ w.in_time i l b ];
    unfound = λ i a b. elim (first_or_later i a) [ inl e ↦ rw e o | inr l ↦ w.unfound i l b ];
  }
    where
      first_or_later : (i : ℕ) → j ≤ i → (i ≡ j) ⊎ (j + 1 ≤ i)
      first_or_later i a = elim (Bool-cases (ltb j i)) [
        | inl more ↦ inr (ground arith)
        | inr less ↦ inl (ground arith)
      ]

  module _ {κ} (P : ℕ → ℕ → Type κ) (over : (f j : ℕ) → deadline ≤ checked j → P (suc f) j)
      (finds : (f j : ℕ) (a : A) → checked j < deadline → found j ≡ some a → P (suc f) j)
      (waits : (f j : ℕ) → checked j < deadline → found j ≡ none → P f (j + 1) → P (suc f) j) where
    one_turn : (f j : ℕ) → (checked j < deadline → P f (j + 1)) → P (suc f) j
    one_turn f j rest = elim (Bool-cases (ltb (checked j) deadline)) [
      | inr late ↦ over f j (ground arith)
      | inl early ↦ elim (Option-cases (found j)) [
        | inr (a, here) ↦ finds f j a (ground arith) here
        | inl still ↦ waits f j (ground arith) still (rest (ground arith))
      ]
    ]

    -- What holds of a loop's turns on fuel `f` from turn `j`, given what the last turn and each
    -- other turn do: enough fuel is one more than the time that is left.
    pub timed_loop :
        {started : ℕ} → IsPaced started checked → (f j : ℕ) → deadline ≤ checked j + f → P (suc f) j
    timed_loop paced zero j enough = one_turn zero j (λ early. absurd (omega arith))
    timed_loop paced (suc f) j enough =
        one_turn (suc f) j (λ early. timed_loop paced f (j + 1) (omega (arith, paced.later j)))

  module _ (late : A) where
    -- How a loop that is at turn `j` ends: with what the first turn that finds something finds, in
    -- time, or else with `late` at the first test after the deadline.
    pub data IsEnded (j : ℕ) : A → Type 0 where
      finds :
          (k : ℕ) (a : A) → IsWaiting j k → checked k < deadline → found k ≡ some a → IsEnded j a
      expires : (k : ℕ) → IsWaiting j k → deadline ≤ checked k → IsEnded j late

    IsEnded-later :
        (j : ℕ) (a : A) → checked j < deadline → found j ≡ none → IsEnded (j + 1) a → IsEnded j a
    IsEnded-later j a h o (finds k _ w c e) = finds k a (waits_more j k h o w) c e
    IsEnded-later j _ h o (expires k w c) = expires k (waits_more j k h o w) c

    -- A loop ends so if each of its turns does what it should.
    pub loop-IsEnded :
        {started : ℕ} (loop : ℕ → ℕ → A → Type 0)
        → ((f j : ℕ) (a : A) → deadline ≤ checked j → loop (suc f) j a → a ≡ late)
        → ((f j : ℕ) (a b : A) → checked j < deadline → found j ≡ some b → loop (suc f) j a → a ≡ b)
        → ((f j : ℕ) (a : A)
            → checked j < deadline
            → found j ≡ none
            → loop (suc f) j a
            → loop f (j + 1) a)
        → IsPaced started checked
        → (f j : ℕ) → deadline ≤ checked j + f
        → (a : A) → loop (suc f) j a
        → IsEnded j a
    loop-IsEnded loop over finding waiting paced f j enough =
        timed_loop (λ f j. (a : A) → loop f j a → IsEnded j a)
          (λ f j past a l. rw (over f j a past l) (expires j (waits_none j) past))
          (λ f j b early here a l.
            rw (finding f j a b early here l) (finds j b (waits_none j) early here))
          (λ f j early still later a l.
            IsEnded-later j a early still (later a (waiting f j a early still l)))
          paced f j enough

    -- If some turn before the deadline would find something, the loop ends with what one finds.
    pub IsEnded-found :
        {started : ℕ}
        → IsPaced started checked
        → (k : ℕ) {a b : A} → checked k < deadline
        → found k ≡ some a
        → IsEnded 0 b
        → (i : ℕ) × (found i ≡ some b)
    IsEnded-found paced k soon here (finds i _ w c e) = (i, e)
    IsEnded-found paced k soon here (expires i w past) = absurd (elim (Bool-cases (ltb k i)) [
      | inl before ↦ none-ne-some (sym (w.unfound k (omega arith) (ground arith)) ∙ here)
      | inr after ↦
          let same : i + (k - i) ≡ k = ground arith in
          let grown : checked i ≤ checked k = rw (← same) (checked-le checked paced i (k - i)) in
          omega arith
    ])
