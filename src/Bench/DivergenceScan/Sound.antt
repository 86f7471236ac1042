-- ===== src/Bench/DivergenceScan/Sound.antt =====
-- What the scan for divergence reports.
use driftless.Prelude.{
  ℕ, String, false, not, ◌&&◌, Option, none, some, List, [], ◌∷◌, ◌++◌, ◌≡◌, refl, sym, ap, ◌∙◌,
  arith, inl, inr, ◌==◌, string_eq, if◌then◌else◌, length, filter_by, contains, is_some, get_or,
  Option-cases,
}
use driftless.Prelude.Perms.{contains-Perm, filter_by_congr}
use driftless.Bench.Result.{
  Result, ok, raise, client_error, ◌>>=◌, Result-cases, ok-injective, raise-ne-ok,
}
use driftless.Bench.History.{Line, task_ids_from_history}
use driftless.Bench.Table.{Item, Reply, IsBatchGet, get_s, visit_all}
use driftless.Bench.Table.Reads.{Scanned, IsTotal, scan_table-Scanned}
use driftless.Bench.DupScan.Sound.{IsKeyed}
use driftless.Bench.DivergenceScan.{
  DivergenceScanResult, Stuck, add_status, visit_status, report, start, scan,
}
use mathlib.Core.List.Perm
use mathlib.Core.List.{
  Perm, filter_map, append-nil, append_assoc, filter_map-append, filter_map-filter_map,
}
use mathlib.Core.Option as Option
use mathlib.Core.Path.{fun_ext}

-- The task has a row with the status.
abbrev pub with_status : (String → Option Item) → String → String → Option String
with_status rows status k = elim (rows k) [
  | none ↦ none
  | some i ↦ if get_or (get_s "status" i) "" == status then some k else none
]

-- The id of an item with the status.
abbrev id_with : String → Item → Option String
id_with status i = if get_or (get_s "status" i) "" == status then get_s "task_id" i else none

visit_status_total : (rows : String → Option Item) → IsKeyed rows → IsTotal rows visit_status
unfolding visit_status
visit_status_total rows keyed k i s row =
    (add_status k (get_or (get_s "status" i) "") s, ground (arith, keyed k i row))

-- What a visit appends to each of the three collections.
abbrev Grows : List Item → Stuck → Stuck → Type 0
Grows items s s' =
    (s'.stuck_pending ≡ s.stuck_pending ++ filter_map (id_with "PENDING") items)
    × (s'.stuck_assigned ≡ s.stuck_assigned ++ filter_map (id_with "ASSIGNED") items)
    × (s'.found ≡ s.found ++ filter_map (get_s "task_id") items)

one_status : (st : String) → (st == "PENDING" && st == "ASSIGNED") ≡ false
one_status st = ground (
  arith,
  string_eq.same_iff st "PENDING",
  string_eq.same_iff st "ASSIGNED",
  string_eq.same_iff "PENDING" "ASSIGNED",
)

visit_status-Grows : (i : Item) (s s' : Stuck) → visit_status i s ≡ ok s' → Grows (i ∷ []) s s'
unfolding visit_status filter_map
visit_status-Grows i s s' h = (
  ground (arith, append-nil s.stuck_pending),
  ground (arith, append-nil s.stuck_assigned, one_status (get_or (get_s "status" i) "")),
  ground (arith, append-nil s.found),
)

Grows-cons :
    (i : Item) (items : List Item) (s t s' : Stuck)
    → Grows (i ∷ []) s t
    → Grows items t s'
    → Grows (i ∷ items) s s'
Grows-cons i items s t s' (p, a, f) (p', a', f') = (
  joined (id_with "PENDING") _ _ _ p p',
  joined (id_with "ASSIGNED") _ _ _ a a',
  joined (get_s "task_id") _ _ _ f f',
)
  where
    joined :
        (g : Item → Option String) (xs ys zs : List String)
        → ys ≡ xs ++ filter_map g (i ∷ [])
        → zs ≡ ys ++ filter_map g items
        → zs ≡ xs ++ filter_map g (i ∷ items)
    joined g xs ys zs one more =
        more
        ∙ ap (λ l. l ++ filter_map g items) one
        ∙ append_assoc xs (filter_map g (i ∷ [])) (filter_map g items)
        ∙ ap (λ l. xs ++ l) (sym (filter_map-append g (i ∷ []) items))

visit_all-Grows :
    (items : List Item) (s s' : Stuck) → visit_all visit_status items s ≡ ok s' → Grows items s s'
unfolding visit_all filter_map
visit_all-Grows [] s s' h =
    rw (← ok-injective h) (
      sym (append-nil s.stuck_pending),
      sym (append-nil s.stuck_assigned),
      sym (append-nil s.found),
    )
visit_all-Grows (i ∷ items) s s' h = elim (Result-cases (visit_status i s)) [
  | inl (t, seen) ↦
      Grows-cons i items s t s' (visit_status-Grows i s t seen)
        (visit_all-Grows items t s' (rw seen at h))
  | inr (e, failed) ↦ absurd (raise-ne-ok (rw failed at h))
]

-- What the scan returns for the ids of the history.
abbrev pub Reported : (String → Option Item) → List String → Result DivergenceScanResult → Type 0
Reported rows ids (ok r) =
    (r.total_scanned ≡ length ids)
    × (r.stuck_pending ≡ length r.stuck_pending_sample)
    × Perm r.stuck_pending_sample (filter_map (with_status rows "PENDING") ids)
    × (r.stuck_assigned ≡ length r.stuck_assigned_sample)
    × Perm r.stuck_assigned_sample (filter_map (with_status rows "ASSIGNED") ids)
    × (r.missing ≡ length r.missing_sample)
    × (r.missing_sample ≡ filter_by (λ k. not (is_some (rows k))) ids)
Reported rows ids (raise e) = e ≡ client_error

module _ (rows : String → Option Item) (keyed : IsKeyed rows) where
  -- A key that has a row.
  abbrev held : String → Option String
  held k = elim (rows k) [ none ↦ none | some i ↦ some k ]

  status_of_row :
      (status k : String) → Option.bind (rows k) (id_with status) ≡ with_status rows status k
  unfolding Option.bind
  status_of_row status k = elim (Option-cases (rows k)) [
    | inl absent ↦ ground arith
    | inr (i, row) ↦ ground (arith, keyed k i row)
  ]

  held_of_row : (k : String) → Option.bind (rows k) (get_s "task_id") ≡ held k
  unfolding Option.bind
  held_of_row k = elim (Option-cases (rows k)) [
    | inl absent ↦ ground arith
    | inr (i, row) ↦ ground (arith, keyed k i row)
  ]

  -- A collection that the visits filled holds what the rows of the ids give.
  of_rows :
      (g : Item → Option String) (f : String → Option String) (items : List Item)
      (ids : List String)
      → ((k : String) → Option.bind (rows k) g ≡ f k)
      → Perm items (filter_map rows ids)
      → Perm (filter_map g items) (filter_map f ids)
  of_rows g f items ids e found =
      rw (filter_map-filter_map rows g ids ∙ ap (λ h. filter_map h ids) (fun_ext e)) at
        (Perm.filter_map g found)

  contains-held :
      (ids : List String) (k : String)
      → contains (filter_map held ids) k ≡ (contains ids k && is_some (rows k))
  unfolding filter_map
  contains-held [] k = refl
  contains-held (j ∷ ids) k = elim (Option-cases (rows j)) [
    | inl absent ↦ ground (arith, contains-held ids k, string_eq.same_iff k j)
    | inr (i, row) ↦ ground (arith, contains-held ids k, string_eq.same_iff k j)
  ]

  missing_of_found :
      (found ids : List String)
      → Perm found (filter_map held ids)
      → filter_by (λ k. not (contains found k)) ids ≡ filter_by (λ k. not (is_some (rows k))) ids
  missing_of_found found ids h =
      filter_by_congr (λ k. not (contains found k)) (λ k. not (is_some (rows k))) ids
        λ k m. ground (arith, contains-Perm k h, contains-held ids k, m)

  module _ (batch_get : ℕ → List String → Reply) (laws : IsBatchGet rows batch_get) where
    outcome :
        (ids : List String) (r : Result Stuck)
        → Scanned rows visit_status ids start r
        → Reported rows ids (r >>= λ acc. ok (report ids acc))
    unfolding report
    outcome ids (raise e) h = h
    outcome ids (ok acc) (items, found, seen) =
        let (pending, assigned, ids_found) = visit_all-Grows items start acc seen in
        (
          refl,
          refl,
          rw (sym pending) at (
              of_rows (id_with "PENDING") (with_status rows "PENDING") items ids
                (status_of_row "PENDING") found),
          refl,
          rw (sym assigned) at (
              of_rows (id_with "ASSIGNED") (with_status rows "ASSIGNED") items ids
                (status_of_row "ASSIGNED") found),
          refl,
          missing_of_found acc.found ids
              (rw (sym ids_found) at (of_rows (get_s "task_id") held items ids held_of_row found)),
        )

    -- On a table that does not change during the scan, the scan for divergence reports exactly the
    -- ids of the history whose row is PENDING, those whose row is ASSIGNED, and, in the order of
    -- the history, those without a row, and counts each of the three; the only other outcome is
    -- the exception of a refused call.
    pub scan_divergence-Reported :
        (lines : List Line) (ids : List String)
        → task_ids_from_history lines ≡ ok ids
        → Reported rows ids (scan batch_get lines)
    unfolding scan filter_map
    scan_divergence-Reported lines [] read =
        rw read (refl, refl, Perm.rfl, refl, Perm.rfl, refl, refl)
    scan_divergence-Reported lines (k ∷ ids) read = rw read (
        outcome (k ∷ ids) _ (
          scan_table-Scanned rows visit_status batch_get laws (visit_status_total rows keyed)
            (k ∷ ids) start))
