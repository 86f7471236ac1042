-- ===== src/Bench/LeaderDetect/Found.antt =====
-- The service of the leader that was found.
use driftless.Prelude.{
  String, true, Option, some, List, [], ◌∷◌, ◌==◌, string_eq, ◌≡◌, refl, ap, ◌∙◌, arith, contains,
  Option-cases, Bool-cases, inl, inr, ◌⊎◌, ◌||◌,
}
use driftless.Prelude.Text.{concat, ends_with}
use driftless.Bench.Table.{Item, get_s, get_bool}
use driftless.Bench.LeaderDetect.{
  LeaderInfo, State, ecs_service_for, row_of, marked, polled, first_found, find_leader,
}

-- The service is one of the known ones, and its name ends in the node's id.
abbrev pub IsServed : List String → LeaderInfo → Type 0
IsServed services info =
    (contains services info.ecs_service ≡ true) × (ends_with info.ecs_service info.node_id ≡ true)

ecs_service_for_lem :
    (node_id : String) (services : List String) (svc : String)
    → ecs_service_for node_id services ≡ some svc
    → (contains services svc ≡ true) × (ends_with svc node_id ≡ true)
unfolding ecs_service_for
ecs_service_for_lem node_id [] svc h = absurd (cc)
ecs_service_for_lem node_id (s ∷ services) svc h = elim (Bool-cases (ends_with s node_id)) [
  | inl ends ↦ (ground (arith, string_eq.same_iff svc s), ground arith)
  | inr differs ↦
      let (held, ends) =
        ecs_service_for_lem node_id services svc (rw (differs, ecs_service_for) at h) in
      (ground arith, ends)
]

some-injective : {a b : LeaderInfo} → some a ≡ some b → a ≡ b
some-injective h = cc

-- One of the items is such.
abbrev pub Some : (Item → Type 0) → List Item → Type 0
Some P [] = ⊥
Some P (item ∷ items) = P item ⊎ Some P items

-- The row of the node.
abbrev pub IsRow : LeaderInfo → Item → Type 0
IsRow info item =
    (get_s "node_id" item ≡ some info.node_id)
    × ((addr : String) × (get_s "http_addr" item ≡ some addr)
        × (info.http_addr ≡ concat ("http://" ∷ addr ∷ [])))

-- The node's row has the leader bit.
abbrev pub IsMarked : LeaderInfo → Item → Type 0
IsMarked info item = IsRow info item × (get_bool "is_leader" item ≡ true) × (info.term ≡ 0)

-- The node answers that it leads.
abbrev pub SaysSo : (String → Option State) → LeaderInfo → Item → Type 0
SaysSo fetch_state info item =
    IsRow info item
    × ((st : State) × (fetch_state info.http_addr ≡ some st)
        × (st.state ≡ some "leader")
        × (info.term ≡ st.current_term))

row_of-IsRow :
    (item : Item) {node_id addr : String}
    → row_of item ≡ some (node_id, addr)
    → (get_s "node_id" item ≡ some node_id) × (get_s "http_addr" item ≡ some addr)
unfolding row_of
row_of-IsRow item {node_id} {addr} h = elim (Option-cases (get_s "node_id" item)) [
  | inl absent ↦ absurd (ground arith)
  | inr (n, named) ↦ elim (Option-cases (get_s "http_addr" item)) [
    | inl absent ↦ absurd (ground arith)
    | inr (a, located) ↦ elim (Bool-cases (n == "" || a == "")) [
      | inl empty ↦ absurd (cc (rw (named, located, empty, row_of) at h))
      | inr full ↦
          let same : some (n, a) ≡ some (node_id, addr) = rw (named, located, full, row_of) at h in
          (rw named (cc), rw located (cc))
    ]
  ]
]

marked-IsServed :
    (services : List String) (item : Item) {info : LeaderInfo}
    → marked services item ≡ some info
    → IsServed services info × IsMarked info item
unfolding marked
marked-IsServed services item h = elim (Option-cases (row_of item)) [
  | inl absent ↦ absurd (ground arith)
  | inr ((node_id, addr), row) ↦ elim (Option-cases (ecs_service_for node_id services)) [
    | inl unknown ↦ absurd (ground arith)
    | inr (svc, known) ↦ elim (Bool-cases (get_bool "is_leader" item)) [
      | inr unmarked ↦ absurd (ground arith)
      | inl bit ↦
          let (named, located) = row_of-IsRow item row in
          rw (← some-injective (rw (row, marked, known, bit) at h)) (
            ecs_service_for_lem node_id services svc known,
            ((named, (addr, located, refl)), bit, refl),
          )
    ]
  ]
]

polled-IsServed :
    (services : List String) (fetch_state : String → Option State) (item : Item) {info : LeaderInfo}
    → polled services fetch_state item ≡ some info
    → IsServed services info × SaysSo fetch_state info item
unfolding polled
polled-IsServed services fetch_state item h = elim (Option-cases (row_of item)) [
  | inl absent ↦ absurd (ground arith)
  | inr ((node_id, addr), row) ↦
      elim (Option-cases (fetch_state (concat ("http://" ∷ addr ∷ [])))) [
        | inl silent ↦ absurd (ground arith)
        | inr (st, answered) ↦ elim (Option-cases (ecs_service_for node_id services)) [
          | inl unknown ↦ absurd (ground arith)
          | inr (svc, known) ↦ elim (Option-cases st.state) [
            | inl missing ↦ absurd (ground arith)
            | inr (name, told) ↦ elim (Bool-cases (name == "leader")) [
              | inr other ↦ absurd (ground arith)
              | inl leads ↦
                  let (named, located) = row_of-IsRow item row in
                  rw (← some-injective (rw (row, polled, answered, told, leads, known) at h)) (
                    ecs_service_for_lem node_id services svc known,
                    (
                      (named, (addr, located, refl)),
                      (
                        st,
                        answered,
                        (rw told (ap some ((string_eq.same_iff name "leader").0 leads))),
                        refl,
                      ),
                    ),
                  )
            ]
          ]
        ]
      ]
]

module _ (services : List String) (find : Item → Option LeaderInfo)
    (P : LeaderInfo → Item → Type 0) where
  first_found_lem :
      (items : List Item) {info : LeaderInfo}
      → ((item : Item) (i : LeaderInfo) → find item ≡ some i → IsServed services i × P i item)
      → first_found find items ≡ some info
      → IsServed services info × Some (P info) items
  unfolding first_found
  first_found_lem [] holds h = absurd (cc)
  first_found_lem (item ∷ items) holds h = elim (Option-cases (find item)) [
    | inl absent ↦
        let (served, later) = first_found_lem items holds (rw (absent, first_found) at h) in
        (served, inr later)
    | inr (i, present) ↦
        let (served, now) = holds item _ (present ∙ (rw (present, first_found) at h)) in
        (served, inl now)
  ]

-- The service of a leader that is found is a known one whose name ends in the node's id. Its id and
-- address are those of a row that has the leader bit, and then its term is given as 0; or else those
-- of a row whose node answers that it leads, in the term that is given.
pub find_leader-IsServed :
    (services : List String) (fetch_state : String → Option State) (items : List Item)
    {info : LeaderInfo}
    → find_leader services fetch_state items ≡ some info
    → IsServed services info × (Some (IsMarked info) items ⊎ Some (SaysSo fetch_state info) items)
unfolding find_leader
find_leader-IsServed services fetch_state items h =
    elim (Option-cases (first_found (marked services) items)) [
      | inl none_marked ↦
          let (served, says) =
            first_found_lem services (polled services fetch_state) (SaysSo fetch_state) items
              (λ item i e. polled-IsServed services fetch_state item e)
              (rw (none_marked, find_leader) at h) in
          (served, inr says)
      | inr (i, one_marked) ↦
          let (served, bit) =
            first_found_lem services (marked services) IsMarked items
              (λ item i e. marked-IsServed services item e)
              (one_marked ∙ (rw (one_marked, find_leader) at h)) in
          (served, inl bit)
    ]
