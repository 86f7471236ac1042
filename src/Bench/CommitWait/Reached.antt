-- ===== src/Bench/CommitWait/Reached.antt =====
-- How the wait for a commit index ends.
use driftless.Prelude.{
  ℕ, ◌+◌, ◌≤◌, ◌<◌, suc, ltb, leb, String, true, false, Option, none, some, List, ◌≡◌, refl, sym,
  arith, inl, inr, Bool-cases, ◌∙◌,
}
use driftless.Bench.Result.{Result, ok, raise, Error, timeout_error}
use driftless.Bench.Deadline.{IsPaced, IsEnded, loop-IsEnded, IsEnded-found}
use driftless.Bench.LeaderDetect.{LeaderInfo}
use driftless.Bench.CommitWait.{
  Wait, Progress, look, progress, after_look, wait_from, wait_for_commit,
}

some-injective : {A : Type 0} {a b : A} → some a ≡ some b → a ≡ b
some-injective h = cc

none-ne-some : {A : Type 0} {a : A} → none ≡ some a → ⊥
none-ne-some h = cc

module _ (commit_of : String → Option ℕ) (w : Wait) (target deadline : ℕ) where
  -- What a look ends the wait with, if it does.
  abbrev pub verdict : Result (Option (LeaderInfo × ℕ)) → Option (Result (String × ℕ))
  verdict (raise e) = some (raise e)
  verdict (ok none) = none
  verdict (ok (some (leader, ci))) = elim (leb target ci) [
    | true ↦ some (ok (leader.node_id, ci))
    | false ↦ none
  ]

  abbrev pub found : ℕ → Option (Result (String × ℕ))
  found k = verdict (look commit_of w k)

  -- A turn that finds an end gives it.
  after_look-found :
      (k last : ℕ) (rest : ℕ → Result (String × ℕ) × List Progress)
      (o : Result (Option (LeaderInfo × ℕ))) {r : Result (String × ℕ)}
      → verdict o ≡ some r
      → (after_look commit_of w target k last rest o).0 ≡ r
  unfolding after_look
  after_look-found k last rest (raise e) h = some-injective h
  after_look-found k last rest (ok none) h = absurd (cc)
  after_look-found k last rest (ok (some (leader, ci))) h = elim (Bool-cases (leb target ci)) [
    | inl enough ↦ rw (enough, after_look) (some-injective (rw (enough, verdict) at h))
    | inr short ↦ absurd (none-ne-some (rw (short, verdict) at h))
  ]

  -- A turn that finds none hands over to the turns after it.
  after_look-none :
      (k last : ℕ) (rest : ℕ → Result (String × ℕ) × List Progress)
      (o : Result (Option (LeaderInfo × ℕ)))
      → verdict o ≡ none
      → (logged : ℕ) × ((after_look commit_of w target k last rest o).0 ≡ (rest logged).0)
  unfolding after_look
  after_look-none k last rest (raise e) h = absurd (cc)
  after_look-none k last rest (ok none) h = (last, refl)
  after_look-none k last rest (ok (some (leader, ci))) h = elim (Bool-cases (leb target ci)) [
    | inl enough ↦ absurd (none-ne-some (sym (rw (enough, verdict) at h)))
    | inr short ↦ ((progress commit_of w target k leader ci last).1, rw (short, after_look) refl)
  ]

  wait_from-IsEnded :
      (f j last : ℕ)
      → IsPaced w.started w.checked
      → deadline ≤ w.checked j + f
      → IsEnded w.checked found deadline
          (raise timeout_error)
          j
          (wait_from commit_of w target deadline (suc f) j last).0
  unfolding wait_from
  wait_from-IsEnded f j last paced enough =
      loop-IsEnded w.checked found deadline (raise timeout_error)
        (λ f j r. (last : ℕ) × (r ≡ (wait_from commit_of w target deadline f j last).0))
        (λ f j r late (last, e).
          let past : ltb (w.checked j) deadline ≡ false = ground arith in
          e ∙ rw (past, wait_from) refl)
        (λ f j r r' early over (last, e).
          let soon : ltb (w.checked j) deadline ≡ true = ground arith in
          e
          ∙ rw (soon, wait_from)
              (after_look-found j last (wait_from commit_of w target deadline f (j + 1))
                (look commit_of w j) over))
        (λ f j r early still (last, e).
          let soon : ltb (w.checked j) deadline ≡ true = ground arith in
          let (logged, same) =
            after_look-none j last (wait_from commit_of w target deadline f (j + 1))
              (look commit_of w j) still in
          (logged, e ∙ rw (soon, wait_from) same))
        paced f j enough _ (last, refl)

module _ (commit_of : String → Option ℕ) (w : Wait) (target max_wait_ns : ℕ)
    (paced : IsPaced w.started w.checked) where
  -- The wait, where each sleep lets the clock go on, ends: with the first look in time that fails or
  -- shows a leader whose commit index has reached the target, or else with the timeout at the first
  -- test after the deadline.
  pub wait_for_commit-IsEnded :
      IsEnded w.checked
        (found commit_of w target (w.started + max_wait_ns))
        (w.started + max_wait_ns)
        (raise timeout_error)
        0
        (wait_for_commit commit_of w target max_wait_ns).0
  unfolding wait_for_commit
  wait_for_commit-IsEnded =
      wait_from-IsEnded commit_of w target (w.started + max_wait_ns) max_wait_ns 0 0 paced
        (omega (arith, paced.first))

  found_ok :
      (o : Result (Option (LeaderInfo × ℕ))) {r : Result (String × ℕ)}
      → ((e : Error) → o ≡ raise e → ⊥)
      → verdict commit_of w target (w.started + max_wait_ns) o ≡ some r
      → (leader : LeaderInfo) × (ci : ℕ) × (o ≡ ok (some (leader, ci)))
        × (r ≡ ok (leader.node_id, ci))
        × (target ≤ ci)
  found_ok (raise e) works h = absurd (works e refl)
  found_ok (ok none) works h = absurd (cc)
  found_ok (ok (some (leader, ci))) works h = elim (Bool-cases (leb target ci)) [
    | inl enough ↦
        (leader, ci, refl, sym (some-injective (rw (enough, verdict) at h)), ground arith)
    | inr short ↦ absurd (none-ne-some (rw (short, verdict) at h))
  ]

  -- If no look fails, and the one of some turn before the deadline shows a leader whose commit index
  -- has reached the target, then the wait returns the leader of some look and its commit index, which
  -- has reached the target.
  pub wait_for_commit-returns :
      (k : ℕ) (leader : LeaderInfo) (ci : ℕ)
      → ((i : ℕ) (e : Error) → look commit_of w i ≡ raise e → ⊥)
      → w.checked k < w.started + max_wait_ns
      → look commit_of w k ≡ ok (some (leader, ci))
      → target ≤ ci
      → (i : ℕ) × (elected : LeaderInfo) × (commit : ℕ) × (look commit_of w i
          ≡ ok (some (elected, commit)))
        × ((wait_for_commit commit_of w target max_wait_ns).0 ≡ ok (elected.node_id, commit))
        × (target ≤ commit)
  wait_for_commit-returns k leader ci works soon seen enough =
      let (i, over) = IsEnded-found w.checked _ _ _ paced k soon shown wait_for_commit-IsEnded in
      let (elected, commit, shows, same, high) = found_ok (look commit_of w i) (works i) over in
      (i, elected, commit, shows, same, high)
    where
      shown :
          verdict commit_of w target (w.started + max_wait_ns) (look commit_of w k)
          ≡ some (ok (leader.node_id, ci))
      shown =
          let reached : leb target ci ≡ true = ground arith in rw (seen, verdict) (rw reached refl)
