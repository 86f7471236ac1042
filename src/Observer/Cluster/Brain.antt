-- ===== src/Observer/Cluster/Brain.antt =====
-- When a snapshot has a leader, and when it counts as a split brain.
use driftless.Prelude.{
  ℕ, ◌≤◌, ◌<◌, String, Bool, ◌&&◌, Option, none, some, List, [], ◌∷◌, ◌++◌, ◌≡◌, refl, sym, ap, ◌∙◌,
  inl, inr, arith, ◌==◌, nat_eq, nat_beq_iff, if◌then◌else◌, get_or, ltb, length, count_by,
  filter_by, Bool-cases,
}
use driftless.Prelude.Dict.{Dict, lookup, lookup-insert, Distinct, insert-Distinct}
use mathlib.Core.List.{map, append-nil, append_assoc}
use driftless.Observer.Cluster.{
  NodeState, ClusterSnapshot, is_leader, leaders, leader, single, append_leader, leaders_by_term,
  first_conflict, conflict_text, split_brain_message,
}

-- How many nodes report to lead the term.
abbrev pub leads : ℕ → NodeState → Bool
leads t n = is_leader n && (t == n.current_term)

-- The ids of the nodes that report to lead the term, in the order of the poll.
abbrev pub leader_ids : ℕ → List NodeState → List String
leader_ids t ns = map (λ n. n.node_id) (filter_by (leads t) ns)

abbrev ids_at : ℕ → Dict ℕ (List String) → List String
ids_at t d = get_or (lookup t d) []

ids_at-append_leader :
    (t u : ℕ) (id : String) (d : Dict ℕ (List String))
    → ids_at t (append_leader u id d) ≡ (if t == u then ids_at t d ++ id ∷ [] else ids_at t d)
unfolding append_leader
ids_at-append_leader t u id d =
    ground (arith, lookup-insert u t (ids_at u d ++ id ∷ []) d, nat_beq_iff t u)

-- The dict holds, for each term, the ids of its leaders in the order of the nodes.
ids_at-leaders_by_term :
    (t : ℕ) (ns : List NodeState) (d : Dict ℕ (List String))
    → ids_at t (leaders_by_term ns d) ≡ ids_at t d ++ leader_ids t ns
unfolding leaders_by_term
ids_at-leaders_by_term t [] d = sym (append-nil _)
ids_at-leaders_by_term t (n ∷ ns) d = elim (Bool-cases (is_leader n)) [
  | inr not_leading ↦ rw not_leading (ids_at-leaders_by_term t ns d)
  | inl leading ↦ rw leading (
      ground (
        arith,
        ids_at-leaders_by_term t ns (append_leader n.current_term n.node_id d),
        ids_at-append_leader t n.current_term n.node_id d,
        append_assoc (ids_at t d) (n.node_id ∷ []) (leader_ids t ns),
      ))
]

leaders_by_term-Distinct :
    (ns : List NodeState) (d : Dict ℕ (List String)) → Distinct d → Distinct (leaders_by_term ns d)
unfolding leaders_by_term append_leader
leaders_by_term-Distinct [] d h = h
leaders_by_term-Distinct (n ∷ ns) d h = elim (Bool-cases (is_leader n)) [
  | inr not_leading ↦ rw not_leading (leaders_by_term-Distinct ns d h)
  | inl leading ↦ rw leading (leaders_by_term-Distinct ns _ (insert-Distinct _ _ d h))
]

-- What the scan over the dict returns: an entry with two ids or more, if there is one.
abbrev Conflict : Dict ℕ (List String) → Option (ℕ × List String) → Type 0
Conflict d none = (t : ℕ) → length (ids_at t d) ≤ 1
Conflict d (some (t, ids)) = (ids ≡ ids_at t d) × (1 < length ids)

Conflict-cons :
    (u : ℕ) (ids : List String) (d : Dict ℕ (List String)) (o : Option (ℕ × List String))
    → lookup u d ≡ none
    → length ids ≤ 1
    → Conflict d o
    → Conflict ((u, ids) ∷ d) o
unfolding lookup
Conflict-cons u ids d none fresh short h = λ t. ground (arith, h t)
Conflict-cons u ids d (some (t, js)) fresh short h =
    (ground (arith, nat_beq_iff t u, h.0, h.1), h.1)

first_conflict_lem : (d : Dict ℕ (List String)) → Distinct d → Conflict d (first_conflict d)
unfolding first_conflict lookup
first_conflict_lem [] h = λ t. omega arith
first_conflict_lem ((u, ids) ∷ d) h = elim (Bool-cases (ltb 1 (length ids))) [
  | inl long ↦ rw long (ground (arith, nat_beq_iff u u), ground arith)
  | inr short ↦ rw short (Conflict-cons u ids d _ h.0 (ground arith) (first_conflict_lem d h.1))
]

-- What the message says of the nodes: nothing, and no term has two leaders; or the term and the
-- ids of its leaders, of which there are two or more.
abbrev pub Verdict : List NodeState → Option String → Type 0
Verdict ns none = (t : ℕ) → count_by (leads t) ns ≤ 1
Verdict ns (some m) =
    (t : ℕ) × (m ≡ conflict_text (t, leader_ids t ns)) × (1 < count_by (leads t) ns)

length-leader_ids : (t : ℕ) (ns : List NodeState) → length (leader_ids t ns) ≡ count_by (leads t) ns
length-leader_ids t [] = refl
length-leader_ids t (n ∷ ns) = ground (arith, length-leader_ids t ns)

scan_sound :
    (ns : List NodeState) (o : Option (ℕ × List String))
    → Conflict (leaders_by_term ns []) o
    → Verdict ns (elim o [ none ↦ none | some c ↦ some (conflict_text c) ])
unfolding lookup
scan_sound ns none h =
    λ t. omega (arith, h t, length-leader_ids t ns, ap length (ids_at-leaders_by_term t ns []))
scan_sound ns (some (t, ids)) h =
    let e : ids ≡ leader_ids t ns = h.0 ∙ ids_at-leaders_by_term t ns [] in
    (t, ap (λ l. conflict_text (t, l)) e, omega (arith, h.1, ap length e, length-leader_ids t ns))

-- `split_brain_message` is None exactly when no term has two reported leaders, over all terms that
-- the nodes report; otherwise it names a term with two leaders or more and lists the ids of all
-- its leaders.
pub split_brain_message-Verdict :
    (snap : ClusterSnapshot) → Verdict snap.nodes (split_brain_message snap)
unfolding split_brain_message
split_brain_message-Verdict snap =
    scan_sound snap.nodes _ (first_conflict_lem _ (leaders_by_term-Distinct snap.nodes [] tt))

leader_some : (ns : List NodeState) (n : NodeState) → single ns ≡ some n → ns ≡ n ∷ []
unfolding single
leader_some [] n h = cc
leader_some (m ∷ []) n h = cc
leader_some (m ∷ m' ∷ ns) n h = cc

pub count-leads-le :
    (t : ℕ) (ns : List NodeState) → count_by (leads t) ns ≤ length (filter_by is_leader ns)
count-leads-le t [] = omega arith
count-leads-le t (n ∷ ns) = ground (arith, count-leads-le t ns)

-- A snapshot with a leader has that one node in the state "leader" and no other, so it is never a
-- split brain.
pub leader-no_split_brain :
    (snap : ClusterSnapshot) {n : NodeState}
    → leader snap ≡ some n
    → (leaders snap ≡ n ∷ []) × (split_brain_message snap ≡ none)
unfolding leader
leader-no_split_brain snap {n} h =
    let e = leader_some (leaders snap) n h in
    (e, unsplit (split_brain_message snap) (split_brain_message-Verdict snap) e)
  where
    unsplit : (o : Option String) → Verdict snap.nodes o → leaders snap ≡ n ∷ [] → o ≡ none
    unsplit none v e = refl
    unsplit (some m) (t, _, many) e =
        absurd (omega (arith, many, count-leads-le t snap.nodes, ap length e))
