-- ===== src/Bench/Exp4/Node.antt =====
-- The follower that is picked, and its node id.
use driftless.Prelude.{
  suc, ◌-◌, ◌≤◌, ◌++◌, ◌⊎◌, ap, sym, ◌∙◌, tests, leb, String, true, false, some, List, [], ◌∷◌,
  string_eq, ◌≡◌, refl, arith, Bool-cases, inl, inr, contains, length, drop, beq_self,
}
use driftless.Prelude.Text.{join, ends_with}
use driftless.Prelude.Split.{split, join-split}
use driftless.Bench.Exp4.{pick_follower, node_id_of}

pub pick_follower_lem :
    (services : List String) (leader_node_id : String) {s : String}
    → pick_follower services leader_node_id ≡ some s
    → (contains services s ≡ true) × (ends_with s leader_node_id ≡ false)
unfolding pick_follower
pick_follower_lem [] leader_node_id h = absurd (cc)
pick_follower_lem (x ∷ services) leader_node_id {s} h =
    elim (Bool-cases (ends_with x leader_node_id)) [
      | inl leads ↦
          let (held, other) =
            pick_follower_lem services leader_node_id (rw (leads, pick_follower) at h) in
          (ground arith, other)
      | inr follows ↦
          let same : x ≡ s = some-injective (rw (follows, pick_follower) at h) in
          rw (← same) (ground (arith, beq_self {K = String} x), follows)
    ]
  where
    some-injective : {a b : String} → some a ≡ some b → a ≡ b
    some-injective e = cc

-- A service whose name does not end in the leader's id makes the pick succeed.
pub pick_follower-some :
    (services : List String) (leader_node_id s : String)
    → contains services s ≡ true
    → ends_with s leader_node_id ≡ false
    → (t : String) × (pick_follower services leader_node_id ≡ some t)
unfolding pick_follower
pick_follower-some [] leader_node_id s held other = absurd (cc)
pick_follower-some (x ∷ services) leader_node_id s held other =
    elim (Bool-cases (ends_with x leader_node_id)) [
      | inr follows ↦ rw (follows, pick_follower) (x, refl)
      | inl leads ↦
          rw (leads, pick_follower)
            (pick_follower-some services leader_node_id s (grind (arith, string_eq.same_iff s x))
              other)
    ]

-- The node id of a service: the last two parts of its name, or all of a name without a dash.
abbrev pub IsNodeOf : String → String → Type 0
IsNodeOf service node =
    ((before : List String) × (a : String) × (b : String) × (split "-" service
        ≡ before ++ a ∷ b ∷ [])
      × (service ≡ join "-" (before ++ a ∷ b ∷ []))
      × (node ≡ join "-" (a ∷ b ∷ [])))
    ⊎ ((length (split "-" service) ≤ 1) × (node ≡ service))

last_two :
    (xs : List String)
    → 2 ≤ length xs
    → (before : List String) × (a : String) × (b : String) × (xs ≡ before ++ a ∷ b ∷ [])
      × (drop (length xs - 2) xs ≡ a ∷ b ∷ [])
last_two [] h = absurd (omega arith)
last_two (x ∷ []) h = absurd (omega arith)
last_two (a ∷ b ∷ []) h = ([], a, b, refl, refl)
last_two (x ∷ y ∷ z ∷ xs) h =
    let (before, a, b, same, dropped) = last_two (y ∷ z ∷ xs) (omega arith) in
    let less : length (x ∷ y ∷ z ∷ xs) - 2 ≡ suc (length (y ∷ z ∷ xs) - 2) = omega arith in
    (x ∷ before, a, b, ap (◌∷◌ x) same, ap (λ n. drop n (x ∷ y ∷ z ∷ xs)) less ∙ dropped)

-- The run gives the follower the node id of its service.
pub node_id_of-IsNodeOf : (service : String) → IsNodeOf service (node_id_of service)
unfolding node_id_of
node_id_of-IsNodeOf service = elim (Bool-cases (leb 2 (length (split "-" service)))) [
  | inl many ↦
      let (before, a, b, same, dropped) = last_two (split "-" service) (omega (tests, many)) in
      inl (
        before,
        a,
        b,
        same,
        sym (join-split "-" service) ∙ ap (join "-") same,
        rw (many, node_id_of) (ap (join "-") dropped),
      )
  | inr few ↦ inr (ground (arith, few), rw (few, node_id_of) refl)
]
