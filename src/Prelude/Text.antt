-- ===== src/Prelude/Text.antt =====
-- Texts built by the source: `str(n)` of a whole number, f-strings, `sep.join(xs)`, and the order
-- of texts, which is that of their code points.
use Prim.Native.Nat.{ℕ, zero, suc, ◌+◌, ◌/◌, ◌%◌}
use Prim.Native.String as NativeString
use Prim.Native.String.{String, ◌++◌}
use mathlib.Core.Bool.{Bool, true, false, ◌||◌}
use mathlib.Core.List.{List, [], ◌∷◌, map}
use mathlib.Core.Path.{◌≡◌, refl}
use driftless.Prelude.Tests.{ltb, nat_beq, if◌then◌else◌, ◌==◌, string_eq}

digit : ℕ → String
digit d =
    if nat_beq d 0
    then "0"
    else if nat_beq d 1
    then "1"
    else if nat_beq d 2
    then "2"
    else if nat_beq d 3
    then "3"
    else if nat_beq d 4
    then "4"
    else if nat_beq d 5
    then "5"
    else if nat_beq d 6
    then "6"
    else if nat_beq d 7
    then "7"
    else if nat_beq d 8
    then "8"
    else "9"

decimal_fuel : ℕ → ℕ → String
decimal_fuel zero n = ""
decimal_fuel (suc f) n =
    let rest = decimal_fuel f (n / 10) in if ltb n 10 then digit n else rest ++ digit (n % 10)

-- `str(n)`
unfoldable pub decimal : ℕ → String
unfolding decimal_fuel digit
decimal n = decimal_fuel (suc n) n

-- An f-string, or a sum of texts, piece by piece.
unfoldable pub concat : List String → String
concat [] = ""
concat (s ∷ ss) = s ++ concat ss

-- `sep.join(xs)`
unfoldable pub join : String → List String → String
join sep [] = ""
join sep (s ∷ []) = s
join sep (s ∷ t ∷ ss) = s ++ (sep ++ join sep (t ∷ ss))

-- `a <= b`
abbrev pub str_leb : String → String → Bool
str_leb a b = elim (NativeString.compare a b) [ Prim.Native.Nat.Ordering.gt ↦ false | _ ↦ true ]

-- `s[:n]`
unfoldable pub prefix : ℕ → String → String
prefix zero s = ""
prefix (suc n) NativeString.[] = ""
prefix (suc n) (NativeString.◌∷◌ c s) = NativeString.◌∷◌ c (prefix n s)

-- `s.endswith(t)`
unfoldable pub ends_with : String → String → Bool
ends_with NativeString.[] t = "" == t
ends_with (NativeString.◌∷◌ c s) t = NativeString.◌∷◌ c s == t || ends_with s t

quote : String → String
quote s = concat ("'" ∷ s ∷ "'" ∷ [])

-- `{xs}` of a list of texts in an f-string, for texts with no quote or backslash in them.
unfoldable pub repr : List String → String
unfolding quote
repr xs = concat ("[" ∷ join ", " (map quote xs) ∷ "]" ∷ [])

decimal_runs : decimal 1207 ≡ "1207"
unfolding decimal
decimal_runs = refl

join_runs : join ", " ("a" ∷ "b" ∷ "c" ∷ []) ≡ "a, b, c"
unfolding join
join_runs = refl

ends_with_runs : ends_with "raft-coordinator-a" "coordinator-a" ≡ true
unfolding ends_with
ends_with_runs = refl
