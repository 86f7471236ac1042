-- ===== src/Prelude/Lists.antt =====
-- Lists measured and filtered by native numbers and Boolean tests, under the library's names.
use Prim.Native.Nat.{ℕ, zero, suc, ◌+◌, ◌-◌, ◌≤◌, ◌<◌}
use mathlib.Core.Path.{◌≡◌, refl, sym, ap, ◌∙◌}
use mathlib.Core.Bool.{Bool, true, false, ◌||◌}
use mathlib.Core.List.{List, [], ◌∷◌, ◌++◌, append_assoc}
use mathlib.Core.Option.{Option, none, some}
use native.Mathlib.Omega.{arith}
use driftless.Prelude.Tests.{if◌then◌else◌, Eq, ◌==◌, Bool-cases}
use mathlib.Core.Logic.{inl, inr}

module _ {ℓ} {A : Type ℓ} where
  abbrev pub length : List A → ℕ
  length [] = 0
  length (x ∷ xs) = suc (length xs)

  abbrev pub get_elem? : List A → ℕ → Option A
  get_elem? [] i = none
  get_elem? (x ∷ xs) zero = some x
  get_elem? (x ∷ xs) (suc i) = get_elem? xs i

  abbrev pub take : ℕ → List A → List A
  take zero xs = []
  take (suc n) [] = []
  take (suc n) (x ∷ xs) = x ∷ take n xs

  abbrev pub drop : ℕ → List A → List A
  drop zero xs = xs
  drop (suc n) [] = []
  drop (suc n) (x ∷ xs) = drop n xs

  pub length-append : (xs ys : List A) → length (xs ++ ys) ≡ length xs + length ys
  length-append [] ys = omega arith
  length-append (x ∷ xs) ys = omega (arith, length-append xs ys)

  pub take-append-drop : (n : ℕ) (xs : List A) → take n xs ++ drop n xs ≡ xs
  take-append-drop zero xs = refl
  take-append-drop (suc n) [] = refl
  take-append-drop (suc n) (x ∷ xs) = ap (◌∷◌ x) (take-append-drop n xs)

  pub length-take-le : (n : ℕ) (xs : List A) → length (take n xs) ≤ n
  length-take-le zero xs = omega arith
  length-take-le (suc n) [] = omega arith
  length-take-le (suc n) (x ∷ xs) = omega (arith, length-take-le n xs)

  pub length-drop : (n : ℕ) (xs : List A) → length (drop n xs) ≡ length xs - n
  length-drop zero xs = omega arith
  length-drop (suc n) [] = omega arith
  length-drop (suc n) (x ∷ xs) = omega (arith, length-drop n xs)

  -- `[x for x in xs if keep(x)]`
  abbrev pub filter_by : (A → Bool) → List A → List A
  filter_by keep [] = []
  filter_by keep (x ∷ xs) = if keep x then x ∷ filter_by keep xs else filter_by keep xs

  -- How many elements pass the test.
  abbrev pub count_by : (A → Bool) → List A → ℕ
  count_by test [] = 0
  count_by test (x ∷ xs) = (if test x then 1 else 0) + count_by test xs

  pub length-filter_by :
      (test : A → Bool) (xs : List A) → length (filter_by test xs) ≡ count_by test xs
  length-filter_by test [] = refl
  length-filter_by test (x ∷ xs) = ground (arith, length-filter_by test xs)

  pub count_by-le-length : (test : A → Bool) (xs : List A) → count_by test xs ≤ length xs
  count_by-le-length test [] = omega arith
  count_by-le-length test (x ∷ xs) = ground (arith, count_by-le-length test xs)

  pub count_by-append :
      (test : A → Bool) (xs ys : List A)
      → count_by test (xs ++ ys) ≡ count_by test xs + count_by test ys
  count_by-append test [] ys = omega arith
  count_by-append test (x ∷ xs) ys = omega (arith, count_by-append test xs ys)

  pub count_by-all : (xs : List A) → count_by (λ x. true) xs ≡ length xs
  count_by-all [] = refl
  count_by-all (x ∷ xs) = omega (arith, count_by-all xs)

  abbrev pub any_by : (A → Bool) → List A → Bool
  any_by test [] = false
  any_by test (x ∷ xs) = test x || any_by test xs

  -- Every element satisfies the predicate.
  abbrev pub All {κ} : (A → Type κ) → List A → Type κ
  All P [] = Unit
  All P (x ∷ xs) = P x × All P xs

  pub All-append {κ} : (P : A → Type κ) (xs ys : List A) → All P xs → All P ys → All P (xs ++ ys)
  All-append P [] ys hx hy = hy
  All-append P (x ∷ xs) ys hx hy = (hx.0, All-append P xs ys hx.1 hy)

-- `sorted(xs)`, for the order that the elements have.
module _ {ℓ} {A : Type ℓ} (le : A → A → Bool) where
  abbrev pub insert_sorted : A → List A → List A
  insert_sorted x [] = x ∷ []
  insert_sorted x (y ∷ ys) = if le x y then x ∷ y ∷ ys else y ∷ insert_sorted x ys

  abbrev pub sort : List A → List A
  sort [] = []
  sort (x ∷ xs) = insert_sorted x (sort xs)

  pub length-insert_sorted : (x : A) (xs : List A) → length (insert_sorted x xs) ≡ suc (length xs)
  length-insert_sorted x [] = refl
  length-insert_sorted x (y ∷ ys) = ground (arith, length-insert_sorted x ys)

  pub length-sort : (xs : List A) → length (sort xs) ≡ length xs
  length-sort [] = refl
  length-sort (x ∷ xs) = ground (arith, length-insert_sorted x (sort xs), length-sort xs)

-- What holds of every element holds of every element in another order, or among those that are kept.
module _ {ℓ κ} {A : Type ℓ} (P : A → Type κ) where
  All-insert_sorted :
      (le : A → A → Bool) (x : A) (xs : List A) → P x → All P xs → All P (insert_sorted le x xs)
  All-insert_sorted le x [] h all = (h, tt)
  All-insert_sorted le x (y ∷ ys) h all = elim (Bool-cases (le x y)) [
    | inl first ↦ rw (first, insert_sorted) (h, all)
    | inr later ↦ rw (later, insert_sorted) (all.0, All-insert_sorted le x ys h all.1)
  ]

  pub All-sort : (le : A → A → Bool) (xs : List A) → All P xs → All P (sort le xs)
  All-sort le [] all = tt
  All-sort le (x ∷ xs) all = All-insert_sorted le x (sort le xs) all.0 (All-sort le xs all.1)

  pub All-filter_by : (keep : A → Bool) (xs : List A) → All P xs → All P (filter_by keep xs)
  All-filter_by keep [] h = tt
  All-filter_by keep (x ∷ xs) h = elim (Bool-cases (keep x)) [
    | inl kept ↦ rw (kept, filter_by) (h.0, All-filter_by keep xs h.1)
    | inr gone ↦ rw (gone, filter_by) (All-filter_by keep xs h.1)
  ]

-- `x in xs`
module _ {ℓ} {A : Type ℓ} ⦃e : Eq A⦄ where
  abbrev pub contains : List A → A → Bool
  contains [] a = false
  contains (x ∷ xs) a = a == x || contains xs a

-- `[xs[i : i + n] for i in range(0, len(xs), n)]`; a round takes one element at least, so the
-- length is fuel enough.
module _ {ℓ} {A : Type ℓ} where
  chunks_fuel : ℕ → ℕ → List A → List (List A)
  chunks_fuel zero n xs = []
  chunks_fuel (suc f) n [] = []
  chunks_fuel (suc f) n (x ∷ xs) = take n (x ∷ xs) ∷ chunks_fuel f n (drop n (x ∷ xs))

  unfoldable pub chunks : ℕ → List A → List (List A)
  unfolding chunks_fuel
  chunks n xs = chunks_fuel (length xs) n xs

  abbrev pub flatten : List (List A) → List A
  flatten [] = []
  flatten (xs ∷ xss) = xs ++ flatten xss

  pub flatten-append : (xss yss : List (List A)) → flatten (xss ++ yss) ≡ flatten xss ++ flatten yss
  flatten-append [] yss = refl
  flatten-append (xs ∷ xss) yss =
      rw (flatten-append xss yss) (sym (append_assoc xs (flatten xss) (flatten yss)))

  flatten-chunks_fuel :
      (f n : ℕ) (xs : List A) → 0 < n → length xs ≤ f → flatten (chunks_fuel f n xs) ≡ xs
  unfolding chunks_fuel
  flatten-chunks_fuel zero n [] h k = refl
  flatten-chunks_fuel zero n (x ∷ xs) h k = absurd (omega arith)
  flatten-chunks_fuel (suc f) n [] h k = refl
  flatten-chunks_fuel (suc f) n (x ∷ xs) h k =
      ap (λ l. take n (x ∷ xs) ++ l)
        (flatten-chunks_fuel f n (drop n (x ∷ xs)) h (omega (arith, length-drop n (x ∷ xs))))
      ∙ take-append-drop n (x ∷ xs)

  -- The chunks make up the list.
  pub flatten-chunks : (n : ℕ) (xs : List A) → 0 < n → flatten (chunks n xs) ≡ xs
  unfolding chunks
  flatten-chunks n xs h = flatten-chunks_fuel (length xs) n xs h (omega arith)

  length-take-pos : (n : ℕ) (x : A) (xs : List A) → 0 < n → 0 < length (take n (x ∷ xs))
  length-take-pos zero x xs h = absurd (omega arith)
  length-take-pos (suc n) x xs h = omega arith

  chunks_fuel_bounds :
      (f n : ℕ) (xs : List A)
      → 0 < n
      → All (λ c. (0 < length c) × (length c ≤ n)) (chunks_fuel f n xs)
  unfolding chunks_fuel
  chunks_fuel_bounds zero n xs h = tt
  chunks_fuel_bounds (suc f) n [] h = tt
  chunks_fuel_bounds (suc f) n (x ∷ xs) h =
      ((length-take-pos n x xs h, length-take-le n (x ∷ xs)), chunks_fuel_bounds f n _ h)

  -- No chunk is empty, and none is longer than `n`.
  pub chunks_bounds :
      (n : ℕ) (xs : List A) → 0 < n → All (λ c. (0 < length c) × (length c ≤ n)) (chunks n xs)
  unfolding chunks
  chunks_bounds n xs h = chunks_fuel_bounds (length xs) n xs h

module _ {ℓ} {A : Type ℓ} ⦃e : Eq A⦄ where
  -- No element stands twice.
  abbrev pub Unique : List A → Type 0
  Unique [] = Unit
  Unique (x ∷ xs) = (contains xs x ≡ false) × Unique xs

  pub contains-append :
      (xs ys : List A) (a : A) → contains (xs ++ ys) a ≡ (contains xs a || contains ys a)
  contains-append [] ys a = refl
  contains-append (x ∷ xs) ys a = ground (arith, contains-append xs ys a)

  pub append_Unique :
      (xs : List A) (a : A) → Unique xs → contains xs a ≡ false → Unique (xs ++ a ∷ [])
  append_Unique [] a u h = (refl, tt)
  append_Unique (x ∷ xs) a u h = (
    ground (arith, contains-append xs (a ∷ []) x, e.same_iff a x, e.same_iff x a, u.0),
    append_Unique xs a u.1 (ground arith),
  )
