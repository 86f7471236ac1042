-- ===== src/Bench/Table/Reads.antt =====
-- The scan over a table reads each key's item once, whatever the service leaves unprocessed, and
-- never runs out of fuel.
use driftless.Prelude.{
  ℕ, ◌+◌, ◌≤◌, zero, suc, String, Option, some, List, [], ◌∷◌, ◌++◌, ◌≡◌, refl, sym, inl, inr,
  arith, length, All, chunks, flatten, flatten-chunks,
}
use driftless.Bench.Result.{Result, ok, raise, Error, client_error, Result-cases}
use driftless.Bench.Table.{
  Item, Reply, IsBatchGet, Reply-cases, visit_all, drain, scan_chunks, scan_table,
}
use mathlib.Core.List.Perm
use mathlib.Core.List.{Perm, filter_map, filter_map-append}

-- The outcome of reading the keys: the items of the keys were visited, each once and in some order,
-- or the service refused a call.
module _ {S : Type 0} (rows : String → Option Item) (visit : Item → S → Result S) where
  abbrev pub Scanned : List String → S → Result S → Type 0
  Scanned keys s (ok s') =
      (items : List Item) × Perm items (filter_map rows keys) × (visit_all visit items s ≡ ok s')
  Scanned keys s (raise e) = e ≡ client_error

  -- A visit of any item of the table succeeds.
  abbrev pub IsTotal : Type 0
  IsTotal = (k : String) (i : Item) (s : S) → rows k ≡ some i → (s' : S) × (visit i s ≡ ok s')

  -- The state of the outcome of `drain`.
  abbrev state_of : Result (ℕ × S) → Result S
  state_of (ok (n, s)) = ok s
  state_of (raise e) = raise e

  visit_all_total :
      IsTotal
      → (items : List Item) (s : S) → All (λ i. (k : String) × (rows k ≡ some i)) items
      → (s' : S) × (visit_all visit items s ≡ ok s')
  unfolding visit_all
  visit_all_total total [] s h = (s, refl)
  visit_all_total total (i ∷ items) s ((k, row), h) =
      let (s₁, first) = total k i s row in
      let (s₂, rest) = visit_all_total total items s₁ h in (s₂, rw first rest)

  visit_all-append :
      (xs ys : List Item) (s s₁ s₂ : S)
      → visit_all visit xs s ≡ ok s₁
      → visit_all visit ys s₁ ≡ ok s₂
      → visit_all visit (xs ++ ys) s ≡ ok s₂
  unfolding visit_all
  visit_all-append [] ys s s₁ s₂ p q = cc
  visit_all-append (x ∷ xs) ys s s₁ s₂ p q = elim (Result-cases (visit x s)) [
    | inl (t, seen) ↦ rw seen (visit_all-append xs ys t s₁ s₂ (rw seen at p) q)
    | inr (e, failed) ↦ absurd (fails e (rw failed at p))
  ]
    where
      fails : (e : Error) → raise e ≡ ok s₁ → ⊥
      fails e h = cc

  -- Reading some keys and then the others reads them all.
  Scanned-append :
      (done others keys : List String) (items : List Item) (s s₁ : S) (r : Result S)
      → Perm (done ++ others) keys
      → Perm items (filter_map rows done)
      → visit_all visit items s ≡ ok s₁
      → Scanned others s₁ r
      → Scanned keys s r
  Scanned-append done others keys items s s₁ (raise e) split found seen h = h
  Scanned-append done others keys items s s₁ (ok s₂) split found seen (items', found', seen') = (
    items ++ items',
    Perm.trans (Perm.append found found')
        (rw (sym (filter_map-append rows done others)) (Perm.filter_map rows split)),
    visit_all-append items items' s s₁ s₂ seen seen',
  )

  module _ (batch_get : ℕ → List String → Reply) (laws : IsBatchGet rows batch_get)
      (total : IsTotal) where
    drain-Scanned :
        (f n : ℕ) (keys : List String) (s : S)
        → length keys ≤ f
        → Scanned keys s (state_of (drain batch_get visit f n keys s))
    unfolding drain filter_map visit_all
    drain-Scanned f n [] s h = ([], Perm.rfl, refl)
    drain-Scanned zero n (k ∷ keys) s h = absurd (omega arith)
    drain-Scanned (suc f) n (k ∷ keys) s h = elim (Reply-cases (batch_get n (k ∷ keys))) [
      | inl e ↦ rw (e, drain) refl
      | inr (items, others, e) ↦
          let (done, split, found) = laws.served n (k ∷ keys) items others e in
          let (s₁, seen) = visit_all_total total items s (laws.held n (k ∷ keys) items others e) in
          let short = laws.fewer n k keys items others e in
          rw (e, drain)
            (rw seen (
              Scanned-append done others (k ∷ keys) items s s₁ _ split found seen
                (drain-Scanned f (n + 1) others s₁ (omega arith))))
    ]

    scan_chunks-Scanned :
        (n : ℕ) (cs : List (List String)) (s : S)
        → Scanned (flatten cs) s (scan_chunks batch_get visit n cs s)
    unfolding scan_chunks filter_map visit_all
    scan_chunks-Scanned n [] s = ([], Perm.rfl, refl)
    scan_chunks-Scanned n (c ∷ cs) s =
        elim (Result-cases (drain batch_get visit (length c) n c s)) [
          | inl ((n', s'), done) ↦
              let (items, found, seen) =
                rw done at (drain-Scanned (length c) n c s (omega arith)) in
              rw done (
                Scanned-append c (flatten cs) (flatten (c ∷ cs)) items s s' _ Perm.rfl found seen
                  (scan_chunks-Scanned n' cs s'))
          | inr (e, failed) ↦
              rw failed (rw failed at (drain-Scanned (length c) n c s (omega arith)))
        ]

    -- Reading a table visits the item of every key that has one, each once, in some order; the only
    -- other outcome is the exception of a refused call, so no loop runs out of fuel.
    pub scan_table-Scanned :
        (keys : List String) (s : S) → Scanned keys s (scan_table batch_get visit keys s)
    unfolding scan_table
    scan_table-Scanned keys s =
        rw (flatten-chunks 100 keys (omega arith)) at (scan_chunks-Scanned 0 (chunks 100 keys) s)
