-- ===== src/Prelude/Split.antt =====
-- `text.split(sep)` at a character, and `sep.join(parts)`, its inverse.
use Prim.Native.Char.{Char, code}
use Prim.Native.String as NativeString
use Prim.Native.String.{String, ◌++◌}
use mathlib.Core.List.{List, [], ◌∷◌}
use mathlib.Core.Path.{◌≡◌, refl, sym, ap, ◌∙◌}
use mathlib.Core.Logic.{inl, inr}
use text.Mathlib.TextEquality.{Char-path}
use text.Mathlib.TextLemmas.{cons-append, nil-append}
use driftless.Prelude.Tests.{nat_beq, nat_beq_iff, if◌then◌else◌, string_eq, Bool-cases}
use driftless.Prelude.Text.{join}

-- A character in front of the first part.
unfoldable pub push : Char → List String → List String
push c [] = NativeString.◌∷◌ c "" ∷ []
push c (p ∷ ps) = NativeString.◌∷◌ c p ∷ ps

-- There is always a part, the last of which may be empty.
unfoldable pub split : Char → String → List String
unfolding push
split sep NativeString.[] = "" ∷ []
split sep (NativeString.◌∷◌ c s) =
    if nat_beq (code c) (code sep) then "" ∷ split sep s else push c (split sep s)

abbrev IsNonempty : List String → Type 0
IsNonempty [] = ⊥
IsNonempty (p ∷ ps) = Unit

abbrev pub one : Char → String
one c = NativeString.◌∷◌ c ""

join-push :
    (sep : String) (c : Char) (ps : List String)
    → join sep (push c ps) ≡ NativeString.◌∷◌ c (join sep ps)
unfolding join push
join-push sep c [] = refl
join-push sep c (p ∷ []) = refl
join-push sep c (p ∷ q ∷ ps) = cons-append c p (sep ++ join sep (q ∷ ps))

join_empty_part :
    (sep : String) (ps : List String) → IsNonempty ps → join sep ("" ∷ ps) ≡ sep ++ join sep ps
unfolding join
join_empty_part sep [] h = absurd h
join_empty_part sep (p ∷ ps) h = nil-append (sep ++ join sep (p ∷ ps))

push-IsNonempty : (c : Char) (ps : List String) → IsNonempty (push c ps)
unfolding push
push-IsNonempty c [] = tt
push-IsNonempty c (p ∷ ps) = tt

split-IsNonempty : (sep : Char) (s : String) → IsNonempty (split sep s)
unfolding split
split-IsNonempty sep NativeString.[] = tt
split-IsNonempty sep (NativeString.◌∷◌ c s) = elim (Bool-cases (nat_beq (code c) (code sep))) [
  | inl here ↦ rw here tt
  | inr other ↦ rw other (push-IsNonempty c (split sep s))
]

join_one : (sep s : String) → join sep (s ∷ []) ≡ s
unfolding join
join_one sep s = refl

-- Joining what was split gives the text again.
pub join-split : (sep : Char) (s : String) → join (one sep) (split sep s) ≡ s
unfolding split
join-split sep NativeString.[] = join_one (one sep) ""
join-split sep (NativeString.◌∷◌ c s) = elim (Bool-cases (nat_beq (code c) (code sep))) [
  | inl here ↦ rw here (
      join_empty_part (one sep) (split sep s) (split-IsNonempty sep s)
      ∙ (rw (join-split sep s) (
          cons-append sep "" s
          ∙ rw (nil-append s) (
              ap (λ d. NativeString.◌∷◌ d s)
                (sym (Char-path c sep ((nat_beq_iff (code c) (code sep)).0 here)))))))
  | inr other ↦
      rw other (join-push (one sep) c (split sep s) ∙ ap (NativeString.◌∷◌ c) (join-split sep s))
]

split_runs : split "-" "a-b--c" ≡ "a" ∷ "b" ∷ "" ∷ "c" ∷ []
unfolding split push
split_runs = refl
