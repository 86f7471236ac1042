-- ===== src/Prelude/Sorted.antt =====
-- Sorted lists of numbers, and what stands at their indices.
use driftless.Prelude.Tests.{leb, nat_eq, ◌==◌, Bool-cases}
use driftless.Prelude.Lists.{contains, All, length, sort, insert_sorted, get_elem?}
use Prim.Native.Nat.{ℕ, zero, suc, ◌≤◌, ◌<◌}
use mathlib.Core.Bool.{true, ◌||◌}
use mathlib.Core.List.{List, [], ◌∷◌}
use mathlib.Core.Logic.{inl, inr}
use mathlib.Core.Option.{some}
use mathlib.Core.Path.{◌≡◌, refl}
use native.Mathlib.Omega.{arith}

-- The elements never fall.
abbrev pub Rising : List ℕ → Type 0
Rising [] = Unit
Rising (x ∷ xs) = All (λ y. x ≤ y) xs × Rising xs

All-insert_sorted :
    (m x : ℕ) (xs : List ℕ)
    → m ≤ x
    → All (λ y. m ≤ y) xs
    → All (λ y. m ≤ y) (insert_sorted leb x xs)
All-insert_sorted m x [] h a = (h, tt)
All-insert_sorted m x (y ∷ ys) h a = elim (Bool-cases (leb x y)) [
  | inl below ↦ rw (below, insert_sorted) (h, a)
  | inr above ↦ rw (above, insert_sorted) (a.0, All-insert_sorted m x ys h a.1)
]

All-le : (m n : ℕ) (xs : List ℕ) → m ≤ n → All (λ y. n ≤ y) xs → All (λ y. m ≤ y) xs
All-le m n [] h a = tt
All-le m n (x ∷ xs) h a = (omega (arith, a.0), All-le m n xs h a.1)

insert_sorted-Rising : (x : ℕ) (xs : List ℕ) → Rising xs → Rising (insert_sorted leb x xs)
insert_sorted-Rising x [] h = (tt, tt)
insert_sorted-Rising x (y ∷ ys) h = elim (Bool-cases (leb x y)) [
  | inl below ↦ rw (below, insert_sorted) ((ground arith, All-le x y ys (ground arith) h.0), h)
  | inr above ↦
      rw (above, insert_sorted)
        (All-insert_sorted y x ys (ground arith) h.0, insert_sorted-Rising x ys h.1)
]

pub sort-Rising : (xs : List ℕ) → Rising (sort leb xs)
sort-Rising [] = tt
sort-Rising (x ∷ xs) = insert_sorted-Rising x (sort leb xs) (sort-Rising xs)

contains-insert_sorted :
    (x : ℕ) (xs : List ℕ) (a : ℕ) → contains (insert_sorted leb x xs) a ≡ (a == x || contains xs a)
contains-insert_sorted x [] a = refl
contains-insert_sorted x (y ∷ ys) a = ground (arith, contains-insert_sorted x ys a)

pub contains-sort : (xs : List ℕ) (a : ℕ) → contains (sort leb xs) a ≡ contains xs a
contains-sort [] a = refl
contains-sort (x ∷ xs) a =
    ground (arith, contains-insert_sorted x (sort leb xs) a, contains-sort xs a)

pub contains-get_elem :
    (xs : List ℕ) (i : ℕ) {v : ℕ} → get_elem? xs i ≡ some v → contains xs v ≡ true
contains-get_elem [] i h = absurd (cc)
contains-get_elem (x ∷ xs) zero {v} h = ground (arith, nat_eq.same_iff v x)
contains-get_elem (x ∷ xs) (suc i) h = ground (arith, contains-get_elem xs i h)

pub get_elem-some : (xs : List ℕ) (i : ℕ) → i < length xs → (v : ℕ) × (get_elem? xs i ≡ some v)
get_elem-some [] i h = absurd (omega arith)
get_elem-some (x ∷ xs) zero h = (x, refl)
get_elem-some (x ∷ xs) (suc i) h = get_elem-some xs i (omega arith)

All-get_elem :
    (m : ℕ) (xs : List ℕ) (i : ℕ) {v : ℕ} → All (λ y. m ≤ y) xs → get_elem? xs i ≡ some v → m ≤ v
All-get_elem m [] i a h = absurd (cc)
All-get_elem m (x ∷ xs) zero a h = ground (arith, a.0)
All-get_elem m (x ∷ xs) (suc i) a h = All-get_elem m xs i a.1 h

pub get_elem_mono :
    (xs : List ℕ) (i j : ℕ) {v w : ℕ}
    → Rising xs
    → i ≤ j
    → get_elem? xs i ≡ some v
    → get_elem? xs j ≡ some w
    → v ≤ w
get_elem_mono [] i j r h a b = absurd (cc)
get_elem_mono (x ∷ xs) zero zero r h a b = ground arith
get_elem_mono (x ∷ xs) zero (suc j) r h a b = ground (arith, All-get_elem x xs j r.0 b)
get_elem_mono (x ∷ xs) (suc i) zero r h a b = absurd (omega arith)
get_elem_mono (x ∷ xs) (suc i) (suc j) r h a b = get_elem_mono xs i j r.1 (omega arith) a b
