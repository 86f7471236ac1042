-- ===== src/Collector/Latencies.antt =====
-- The latencies that are collected, and their percentiles.
use driftless.Prelude.{
  ℕ, ◌-◌, ◌*◌, ◌/◌, ◌≤◌, zero, suc, ◌≡◌, inl, inr, Option, some, String, List, [], ◌∷◌, nat_eq,
  length, get_elem?, refl, arith,
}
use driftless.Prelude.Sorted.{Rising, sort-Rising, get_elem-some, get_elem_mono}
use driftless.Bench.Result.{Result, ok, ok-injective, raise-ne-ok, Result-cases}
use driftless.Bench.Table.{Item}
use driftless.Bench.Analysis.{smaller}
use driftless.Collector.{pct, gather, collect_latencies}

pub collect_latencies-Rising :
    (parse_ts : String → Result ℕ) (since limit : Option ℕ) (items : List Item) {latencies : List ℕ}
    → collect_latencies parse_ts since limit items ≡ ok latencies
    → Rising latencies
unfolding collect_latencies
collect_latencies-Rising parse_ts since limit items h =
    elim (Result-cases (gather parse_ts since limit items)) [
      | inl (found, gathered) ↦ rw (← ok-injective (rw gathered at h)) (sort-Rising found)
      | inr (e, failed) ↦ absurd (raise-ne-ok (rw failed at h))
    ]

mul_mono : (p q n : ℕ) → p ≤ q → n * p ≤ n * q
mul_mono p q zero h = omega arith
mul_mono p q (suc n) h = omega (arith, mul_mono p q n h, h)

-- The place that `pct` reads in a list of the length.
abbrev pub place : ℕ → ℕ → ℕ
place n p = smaller (n * p / 100) (n - 1)

pub place_mono : (n p q : ℕ) → p ≤ q → place n p ≤ place n q
place_mono n p q h = ground (arith, mul_mono p q n h)

pub pct_at :
    (x : ℕ) (xs : List ℕ) (p : ℕ)
    → (v : ℕ) × (pct (x ∷ xs) p ≡ ok v) × (get_elem? (x ∷ xs) (place (length (x ∷ xs)) p) ≡ some v)
unfolding pct
pct_at x xs p =
    let (v, e) = get_elem-some (x ∷ xs) (place (length (x ∷ xs)) p) (ground arith) in
    (v, (rw (e, pct) refl), e)

-- Percentiles of the latencies that were collected never fail, and a higher one is never smaller.
pub collect_latencies-pct :
    (parse_ts : String → Result ℕ) (since limit : Option ℕ) (items : List Item) (latencies : List ℕ)
    (p q : ℕ)
    → p ≤ q
    → collect_latencies parse_ts since limit items ≡ ok latencies
    → (v : ℕ) × (w : ℕ) × (pct latencies p ≡ ok v) × (pct latencies q ≡ ok w) × (v ≤ w)
unfolding pct
collect_latencies-pct parse_ts since limit items [] p q h c = (0, 0, refl, refl, omega arith)
collect_latencies-pct parse_ts since limit items (x ∷ xs) p q h c =
    let (v, e, at) = pct_at x xs p in
    let (w, e', at') = pct_at x xs q in
    (
      v,
      w,
      e,
      e',
      get_elem_mono (x ∷ xs) (place (length (x ∷ xs)) p) (place (length (x ∷ xs)) q)
          (collect_latencies-Rising parse_ts since limit items c)
          (place_mono (length (x ∷ xs)) p q h) at at',
    )
