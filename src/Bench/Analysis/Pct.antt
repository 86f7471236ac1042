-- ===== src/Bench/Analysis/Pct.antt =====
-- The percentiles of the convergence times.
use driftless.Prelude.{
  ℕ, ◌-◌, ◌*◌, ◌≤◌, zero, suc, ◌≡◌, leb, true, some, List, [], ◌∷◌, nat_eq, contains, length,
  length-sort, sort, get_elem?, refl, arith, ◌∙◌, sym,
}
use mathlib.Core.Path.{subst}
use driftless.Prelude.Round.{round_half_even, round_half_even_mono}
use driftless.Prelude.Sorted.{
  sort-Rising, contains-sort, contains-get_elem, get_elem-some, get_elem_mono,
}
use driftless.Bench.Result.{ok, ok-injective}
use driftless.Bench.Analysis.{pct, smaller}

mul_mono : (p q n : ℕ) → p ≤ q → p * n ≤ q * n
mul_mono p q zero h = omega arith
mul_mono p q (suc n) h = omega (arith, mul_mono p q n h, h)

-- The place that `pct` reads, in a list with last index `last`.
abbrev place : ℕ → ℕ → ℕ
place last p = smaller last (round_half_even (p * last) 100)

pct_at :
    (x : ℕ) (xs : List ℕ) (p : ℕ)
    → (v : ℕ) × (pct (x ∷ xs) p ≡ ok v)
      × (get_elem? (sort leb (x ∷ xs)) (place (length (sort leb (x ∷ xs)) - 1) p) ≡ some v)
unfolding pct
pct_at x xs p =
    let sorted = sort leb (x ∷ xs) in
    let (v, e) =
      get_elem-some sorted (place (length sorted - 1) p)
        (ground (arith, length-sort leb (x ∷ xs))) in
    (v, (rw (e, pct) refl), e)

-- A percentile of samples never fails, and it is one of the samples.
pub contains-pct :
    (x : ℕ) (xs : List ℕ) (p : ℕ) → (v : ℕ) × (pct (x ∷ xs) p ≡ ok v) × (contains (x ∷ xs) v ≡ true)
contains-pct x xs p =
    let (v, e, at) = pct_at x xs p in
    (v, e, sym (contains-sort (x ∷ xs) v) ∙ contains-get_elem (sort leb (x ∷ xs)) _ at)

-- A higher percentile of the same samples is never smaller.
pub pct_mono : (xs : List ℕ) (p q : ℕ) {v w : ℕ} → p ≤ q → pct xs p ≡ ok v → pct xs q ≡ ok w → v ≤ w
unfolding pct
pct_mono [] p q h a b = rw (← ok-injective a) (rw (← ok-injective b) (omega arith))
pct_mono (x ∷ xs) p q h a b =
    let last = length (sort leb (x ∷ xs)) - 1 in
    let (v, e, at) = pct_at x xs p in
    let (w, e', at') = pct_at x xs q in
    rw (ok-injective (sym a ∙ e)) (
      rw (ok-injective (sym b ∙ e')) (
        get_elem_mono (sort leb (x ∷ xs)) (place last p) (place last q) (sort-Rising (x ∷ xs))
          (places last) at at'))
  where
    places : (last : ℕ) → place last p ≤ place last q
    places last = ground (arith, round_half_even_mono (p * last) (q * last) (mul_mono p q last h))

pub pct_total : (xs : List ℕ) (p : ℕ) → (v : ℕ) × (pct xs p ≡ ok v)
unfolding pct
pct_total [] p = (0, refl)
pct_total (x ∷ xs) p = let (v, e, _) = contains-pct x xs p in (v, e)

round-whole : (n : ℕ) → round_half_even (100 * n) 100 ≡ n
unfolding round_half_even
round-whole n = ground arith

place-round : (last p : ℕ) → p ≤ 100 → place last p ≡ round_half_even (p * last) 100
place-round last p h =
    ground (
      arith,
      round_half_even_mono (p * last) (100 * last) (mul_mono p 100 last h),
      round-whole last,
    )

-- A percentile of at most 100 is the sample at the rounded place, which is never past the last.
pub pct_at_place :
    (x : ℕ) (xs : List ℕ) (p : ℕ)
    → p ≤ 100
    → (v : ℕ) × (pct (x ∷ xs) p ≡ ok v)
      × (get_elem? (sort leb (x ∷ xs)) (round_half_even (p * length xs) 100) ≡ some v)
pct_at_place x xs p h =
    let (v, e, at) = pct_at x xs p in
    let last : length (sort leb (x ∷ xs)) - 1 ≡ length xs =
      omega (arith, length-sort leb (x ∷ xs)) in
    let at_last : get_elem? (sort leb (x ∷ xs)) (place (length xs) p) ≡ some v =
      subst (λ n. get_elem? (sort leb (x ∷ xs)) (place n p) ≡ some v) last at in
    (
      v,
      e,
      subst (λ n. get_elem? (sort leb (x ∷ xs)) n ≡ some v) (place-round (length xs) p h) at_last,
    )
