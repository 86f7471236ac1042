-- ===== src/Bench/LeaderTracker/Changes.antt =====
-- What the tracker's records say of the scans.
use driftless.Prelude.{
  ℕ, String, true, false, Option, none, some, List, [], ◌∷◌, ◌++◌, ◌==◌, string_eq, ◌≡◌, ◌≢◌, refl,
  inl, inr, arith, Bool-cases, Option-cases, All, ap,
}
use driftless.Bench.Table.{Item, get_bool, get_s}
use driftless.Bench.LeaderTracker.{
  Peek, Seen, leader_observed, leader_gap, seen_of, same_leader, is_fresh, leader_of, first_leader,
  scan_once, track,
}

-- The leader that a record tells.
abbrev pub told : Seen → Option String
told (leader_observed node_id) = some node_id
told leader_gap = none

-- The leader after some records, and after some scans.
abbrev pub after_records : Option String → List Seen → Option String
after_records last [] = last
after_records last (s ∷ seen) = after_records (told s) seen

abbrev pub after_scans : Option String → List Peek → Option String
after_scans last [] = last
after_scans last (peek ∷ peeks) = after_scans (scan_once peek) peeks

-- Each record tells a leader other than the one before.
abbrev pub IsChanging : Option String → List Seen → Type 0
IsChanging last [] = Unit
IsChanging last (s ∷ seen) = (told s ≢ last) × IsChanging (told s) seen

same_leader_lem : (a b : Option String) → same_leader a b ≡ true → a ≡ b
same_leader_lem none none h = refl
same_leader_lem none (some b) h = absurd (cc)
same_leader_lem (some a) none h = absurd (cc)
same_leader_lem (some a) (some b) h = ap some ((string_eq.same_iff a b).0 h)

same_leader_self : (a : Option String) → same_leader a a ≡ true
same_leader_self none = refl
same_leader_self (some a) = (string_eq.same_iff a a).1 refl

-- A record put before others that start from the leader it tells.
IsChanging-cons :
    (leader last end : Option String) (seen : List Seen)
    → leader ≢ last
    → (after_records leader seen ≡ end) × IsChanging leader seen
    → (after_records last (seen_of leader ∷ seen) ≡ end) × IsChanging last (seen_of leader ∷ seen)
IsChanging-cons none last end seen differs (ends, changing) = (ends, (differs, changing))
IsChanging-cons (some a) last end seen differs (ends, changing) = (ends, (differs, changing))

-- The records tell every change of the leader that the scans show and nothing else: after them the
-- leader is the one of the last scan, and each record tells a leader other than the one before.
pub track-IsChanging :
    (last : Option String) (peeks : List Peek)
    → (after_records last (track last peeks) ≡ after_scans last peeks)
      × IsChanging last (track last peeks)
unfolding track
track-IsChanging last [] = (refl, tt)
track-IsChanging last (peek ∷ peeks) = elim (Bool-cases (same_leader (scan_once peek) last)) [
  | inl same ↦
      let unchanged = same_leader_lem (scan_once peek) last same in
      rw same (rw unchanged (track-IsChanging last peeks))
  | inr other ↦ rw other (
      IsChanging-cons (scan_once peek) last _ (track (scan_once peek) peeks) (λ e. differs e other)
        (track-IsChanging (scan_once peek) peeks))
]
  where
    differs : scan_once peek ≡ last → same_leader (scan_once peek) last ≡ false → ⊥
    differs e h = absurd (grind (arith, same_leader_self last, e, h))

-- The row is the one of a node that holds the leader bit and whose heartbeat is fresh.
abbrev pub Leads : ℕ → Item → String → Type 0
Leads now item node_id =
    (get_bool "is_leader" item ≡ true)
    × (is_fresh now item ≡ true)
    × (get_s "node_id" item ≡ some node_id)
    × ((node_id == "") ≡ false)

abbrev pub IsIdle : ℕ → Item → Type 0
IsIdle now item = (node_id : String) → Leads now item node_id → ⊥

-- The outcome of one scan of the rows: the node of the first row that leads, or none does.
pub data IsFirst (now : ℕ) : List Item → Option String → Type 0 where
  found :
      (before after : List Item) (item : Item) (node_id : String)
      → All (IsIdle now) before
      → Leads now item node_id
      → IsFirst now (before ++ item ∷ after) (some node_id)
  missing : (items : List Item) → All (IsIdle now) items → IsFirst now items none

leader_of-Leads :
    (now : ℕ) (item : Item) (node_id : String)
    → leader_of now item ≡ some node_id
    → Leads now item node_id
unfolding leader_of
leader_of-Leads now item node_id h = (ground arith, ground arith, ground arith, ground arith)

leader_of-IsIdle : (now : ℕ) (item : Item) → leader_of now item ≡ none → IsIdle now item
unfolding leader_of
leader_of-IsIdle now item h node_id (bit, fresh, named, nonempty) = absurd (ground arith)

first_leader-IsFirst : (now : ℕ) (items : List Item) → IsFirst now items (first_leader now items)
unfolding first_leader
first_leader-IsFirst now [] = missing [] tt
first_leader-IsFirst now (item ∷ items) = elim (Option-cases (leader_of now item)) [
  | inr (node_id, leads) ↦
      rw (leads, first_leader)
        (found [] items item node_id tt (leader_of-Leads now item node_id leads))
  | inl idle ↦
      rw (idle, first_leader)
        (later items (first_leader now items) (leader_of-IsIdle now item idle)
          (first_leader-IsFirst now items))
]
  where
    later :
        (rest : List Item) (o : Option String)
        → IsIdle now item
        → IsFirst now rest o
        → IsFirst now (item ∷ rest) o
    later _ _ idle (found before after i n all leads) =
        found (item ∷ before) after i n (idle, all) leads
    later _ _ idle (missing rest all) = missing (item ∷ rest) (idle, all)

-- A scan finds the node of the first row that holds the leader bit, has a node id, and whose
-- heartbeat is missing or at most three seconds old, and finds none exactly if there is no such row.
pub scan_once-IsFirst :
    (items : List Item) (now : ℕ) → IsFirst now items (scan_once (some items, now))
unfolding scan_once
scan_once-IsFirst items now = first_leader-IsFirst now items
