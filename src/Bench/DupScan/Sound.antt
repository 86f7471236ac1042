-- ===== src/Bench/DupScan/Sound.antt =====
-- What the scan for duplicates reports.
use driftless.Prelude.{
  ℕ, String, Bool, false, Option, none, some, List, [], ◌∷◌, ◌++◌, ◌≡◌, refl, sym, ap, ◌∙◌, arith,
  inl, inr, if◌then◌else◌, length, Bool-cases, Option-cases,
}
use driftless.Prelude.Int.{pos, ltb_ℤ}
use driftless.Bench.Result.{
  Result, ok, raise, client_error, ◌>>=◌, Result-cases, ok-injective, raise-ne-ok,
}
use driftless.Bench.History.{Line, task_ids_from_history}
use driftless.Bench.Table.{Item, Reply, IsBatchGet, get_s, visit_all}
use driftless.Bench.Table.Reads.{Scanned, IsTotal, scan_table-Scanned}
use driftless.Bench.DupScan.{DupScanResult, Dups, receive_count, more, visit_dup, report, scan}
use mathlib.Core.List.Perm
use mathlib.Core.List.{
  Perm, filter_map, append-nil, append_assoc, filter_map-append, filter_map-filter_map,
}
use mathlib.Core.Option as Option
use mathlib.Core.Path.{fun_ext}

-- The row was received more than once.
abbrev pub is_redelivered : Item → Bool
is_redelivered item = elim (receive_count item) [ none ↦ false | some rc ↦ ltb_ℤ (pos 1) rc ]

-- The table: a row, if there is one, holds its key.
abbrev pub IsKeyed : (String → Option Item) → Type 0
IsKeyed rows = (k : String) (i : Item) → rows k ≡ some i → get_s "task_id" i ≡ some k

-- The task has a row that was received more than once.
abbrev pub redelivered : (String → Option Item) → String → Option String
redelivered rows k = elim (rows k) [
  | none ↦ none
  | some i ↦ if is_redelivered i then some k else none
]

abbrev dup_of : Item → Option String
dup_of i = if is_redelivered i then get_s "task_id" i else none

visit_dup_total : (rows : String → Option Item) → IsKeyed rows → IsTotal rows visit_dup
unfolding visit_dup
visit_dup_total rows keyed k i s row = elim (Option-cases (receive_count i)) [
  | inl missing ↦ rw (missing, visit_dup) (s, refl)
  | inr (rc, counted) ↦ elim (Bool-cases (ltb_ℤ (pos 1) rc)) [
    | inl dup ↦ (
      record { dup_ids = s.dup_ids ++ k ∷ []; max_rc = more rc s.max_rc },
      ground (arith, keyed k i row),
    )
    | inr once ↦ (record s { max_rc = more rc s.max_rc }, ground arith)
  ]
]

-- A visit appends the id of the item exactly if the item was received more than once.
visit_dup-ids :
    (i : Item) (s s' : Dups)
    → visit_dup i s ≡ ok s'
    → s'.dup_ids ≡ s.dup_ids ++ filter_map dup_of (i ∷ [])
unfolding visit_dup filter_map
visit_dup-ids i s s' h = ground (arith, append-nil s.dup_ids)

visit_all-dup_ids :
    (items : List Item) (s s' : Dups)
    → visit_all visit_dup items s ≡ ok s'
    → s'.dup_ids ≡ s.dup_ids ++ filter_map dup_of items
unfolding visit_all filter_map
visit_all-dup_ids [] s s' h = rw (← ok-injective h) (sym (append-nil s.dup_ids))
visit_all-dup_ids (i ∷ items) s s' h = elim (Result-cases (visit_dup i s)) [
  | inl (t, seen) ↦
      visit_all-dup_ids items t s' (rw seen at h)
      ∙ ap (λ l. l ++ filter_map dup_of items) (visit_dup-ids i s t seen)
      ∙ append_assoc s.dup_ids (filter_map dup_of (i ∷ [])) (filter_map dup_of items)
      ∙ ap (λ l. s.dup_ids ++ l) (sym (filter_map-append dup_of (i ∷ []) items))
  | inr (e, failed) ↦ absurd (raise-ne-ok (rw failed at h))
]

-- What the scan returns for the ids of the history.
abbrev pub Reported : (String → Option Item) → List String → Result DupScanResult → Type 0
Reported rows ids (ok r) =
    (r.total_scanned ≡ length ids)
    × (r.duplicate_count ≡ length r.duplicate_task_ids)
    × Perm r.duplicate_task_ids (filter_map (redelivered rows) ids)
Reported rows ids (raise e) = e ≡ client_error

module _ (rows : String → Option Item) (keyed : IsKeyed rows) where
  redelivered_of_row : (k : String) → Option.bind (rows k) dup_of ≡ redelivered rows k
  unfolding Option.bind
  redelivered_of_row k = elim (Option-cases (rows k)) [
    | inl absent ↦ ground arith
    | inr (i, row) ↦ ground (arith, keyed k i row)
  ]

  dups_of_items :
      (items : List Item) (ids : List String)
      → Perm items (filter_map rows ids)
      → Perm (filter_map dup_of items) (filter_map (redelivered rows) ids)
  dups_of_items items ids found =
      rw
        (filter_map-filter_map rows dup_of ids
          ∙ ap (λ f. filter_map f ids) (fun_ext redelivered_of_row))
        at (Perm.filter_map dup_of found)

  module _ (batch_get : ℕ → List String → Reply) (laws : IsBatchGet rows batch_get) where
    -- On a table that does not change during the scan, the scan for duplicates counts the ids of
    -- the history, and reports exactly those with a row that was received more than once, each as
    -- often as it stands in the history's ids, whatever BatchGetItem leaves unprocessed; the only
    -- other outcome is the exception of a refused call.
    pub scan_dups-Reported :
        (lines : List Line) (ids : List String)
        → task_ids_from_history lines ≡ ok ids
        → Reported rows ids (scan batch_get lines)
    unfolding scan
    scan_dups-Reported lines ids read = rw read (
        reported _
          (scan_table-Scanned rows visit_dup batch_get laws (visit_dup_total rows keyed) ids start))
      where
        start : Dups
        start = record { dup_ids = []; max_rc = pos 0 }

        reported :
            (r : Result Dups)
            → Scanned rows visit_dup ids start r
            → Reported rows ids (r >>= λ acc. ok (report ids acc))
        reported (raise e) h = h
        reported (ok acc) (items, found, seen) = (
          refl,
          refl,
          rw (sym (visit_all-dup_ids items start acc seen)) at (dups_of_items items ids found),
        )
