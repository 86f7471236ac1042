-- ===== src/Bench/Reset/Quorum.antt =====
-- When a scan shows the quorum that the reset waits for.
use driftless.Prelude.{
  ℕ, ◌+◌, ◌≤◌, String, Bool, true, ◌&&◌, Option, none, List, [], ◌∷◌, ◌≡◌, refl, ◌∙◌, arith, ◌↔◌,
  is_some, count_by, filter_by, Bool-cases, inl, inr,
}
use driftless.Bench.Table.{Item, get_s, get_bool}
use driftless.Bench.Reset.{is_beating, Seen, see_item, see_items, has_quorum}

-- The rows of leaders with a fresh heartbeat.
abbrev pub is_leading : ℕ → Item → Bool
is_leading now it = is_beating now it && get_bool "is_leader" it

-- The node id of the last of the rows, or what was there before.
abbrev pub last_id : List Item → Option String → Option String
last_id [] before = before
last_id (it ∷ items) before = last_id items (get_s "node_id" it)

see_items-Seen :
    (now : ℕ) (items : List Item) (s : Seen)
    → ((see_items now items s).fresh ≡ s.fresh + count_by (is_beating now) items)
      × ((see_items now items s).leader ≡ last_id (filter_by (is_leading now) items) s.leader)
unfolding see_items
see_items-Seen now [] s = (omega arith, refl)
see_items-Seen now (it ∷ items) s =
    let (count, last) = see_items-Seen now items (see_item now it s) in
    (count ∙ counted, last ∙ told)
  where
    counted :
        (see_item now it s).fresh + count_by (is_beating now) items
        ≡ s.fresh + count_by (is_beating now) (it ∷ items)
    counted = elim (Bool-cases (is_beating now it)) [
      | inl beats ↦ rw (beats, see_item) (omega arith)
      | inr late ↦ rw (late, see_item) (omega arith)
    ]

    told :
        last_id (filter_by (is_leading now) items) (see_item now it s).leader
        ≡ last_id (filter_by (is_leading now) (it ∷ items)) s.leader
    told = elim (Bool-cases (is_beating now it)) [
      | inr late ↦ rw (late, see_item) refl
      | inl beats ↦ elim (Bool-cases (get_bool "is_leader" it)) [
        | inl leads ↦ rw (beats, see_item) (rw (leads, see_item) refl)
        | inr follows ↦ rw (beats, see_item) (rw (follows, see_item) refl)
      ]
    ]

-- A scan shows the quorum exactly if at least as many rows as wanted have a heartbeat less than 3 s
-- old, and the last of these that is marked as a leader has a node id.
pub has_quorum_iff :
    (want now : ℕ) (items : List Item)
    → (has_quorum want now items ≡ true) ↔ (
        (want ≤ count_by (is_beating now) items)
        × (is_some (last_id (filter_by (is_leading now) items) none) ≡ true))
unfolding has_quorum
has_quorum_iff want now items =
    let (count, last) = see_items-Seen now items (record { fresh = 0; leader = none }) in
    rw (count, last) (λ h. ground arith, λ h. ground arith)
