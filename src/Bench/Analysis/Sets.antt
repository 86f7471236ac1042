-- ===== src/Bench/Analysis/Sets.antt =====
-- The tasks that the analysis keeps, as sets of ids that grow one by one.
use driftless.Prelude.{
  ℕ, ◌+◌, ◌≤◌, ◌≡◌, String, string_eq, Bool-cases, inl, inr, List, [], ◌∷◌, ◌++◌, ◌==◌, contains,
  contains-append, count_by, length, length-append, arith, if◌then◌else◌, beq_self,
}
use driftless.Bench.Analysis.{set_add}

abbrev pub set_adds : List String → List String → List String
set_adds set [] = set
set_adds set (tid ∷ tids) = set_adds (set_add tid set) tids

-- How often an id stands in a list.
abbrev pub times : String → List String → ℕ
times tid tids = count_by (λ t. t == tid) tids

-- An id stands in a list at most once, and not if it is in the set.
abbrev IsNew : List String → List String → Type 0
IsNew set tids = (tid : String) → times tid tids + (if contains set tid then 1 else 0) ≤ 1

-- New ids make the set longer, each by one.
pub length-set_adds :
    (set tids : List String)
    → IsNew set tids
    → length (set_adds set tids) ≡ length set + length tids
unfolding set_add
length-set_adds set [] new = omega arith
length-set_adds set (t ∷ tids) new = elim (Bool-cases (contains set t)) [
  | inl old ↦ absurd (ground (arith, new t, beq_self t, old))
  | inr fresh ↦ rw fresh (
      omega (
        arith,
        length-set_adds (set ++ t ∷ []) tids (λ tid. ground (
          arith,
          new tid,
          contains-append set (t ∷ []) tid,
          string_eq.same_iff t tid,
          string_eq.same_iff tid t,
        )),
        length-append set (t ∷ []),
      ))
]
