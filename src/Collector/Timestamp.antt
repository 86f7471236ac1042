-- ===== src/Collector/Timestamp.antt =====
-- `parse_ts` of experiments/metrics-collector/collect.py: what it does to the text of a timestamp before
-- `datetime.fromisoformat`, a parameter, reads it. A text is the list of its code points.
pub mod Zones
use driftless.Prelude.{
  ℕ, ◌+◌, ◌-◌, zero, suc, String, Bool, true, false, ◌||◌, Option, none, some, List, [], ◌∷◌, ◌++◌,
  leb, nat_beq, if◌then◌else◌, length, take, drop, get_elem?,
}
use driftless.Bench.Result.{Result, ok, raise, index_error, ◌>>=◌}
use Prim.Native.String as NativeString
use Prim.Native.Char.{code}

abbrev pub codes : String → List ℕ
codes NativeString.[] = []
codes (NativeString.◌∷◌ c s) = code c ∷ codes s

-- `+00:00`
abbrev pub utc : List ℕ
utc = b'+' ∷ b'0' ∷ b'0' ∷ b':' ∷ b'0' ∷ b'0' ∷ []

-- `s.replace("Z", "+00:00")`
unfoldable pub replace_z : List ℕ → List ℕ
replace_z [] = []
replace_z (c ∷ s) = let rest = replace_z s in if nat_beq c b'Z' then utc ++ rest else c ∷ rest

-- `s.split(".", 1)`, if there is a dot.
unfoldable pub split_dot : List ℕ → Option (List ℕ × List ℕ)
split_dot [] = none
split_dot (c ∷ s) =
    if nat_beq c b'.'
    then some ([], s)
    else (elim (split_dot s) [ none ↦ none | some (base, rest) ↦ some (c ∷ base, rest) ])

-- `s[-6]`, which raises on a text of less than six characters.
unfoldable pub sixth_last : List ℕ → Option ℕ
sixth_last s = if leb 6 (length s) then get_elem? s (length s - 6) else none

abbrev pub is_sign : ℕ → Bool
is_sign c = nat_beq c b'+' || nat_beq c b'-'

-- `s.ljust(n, "0")`
abbrev pub ljust : ℕ → List ℕ → List ℕ
ljust zero s = s
ljust (suc n) [] = b'0' ∷ ljust n []
ljust (suc n) (c ∷ s) = c ∷ ljust n s

-- `frac[:6].ljust(6, "0")`
abbrev pub micros : List ℕ → List ℕ
micros frac = ljust 6 (take 6 frac)

-- The fraction and the zone of what stands behind the dot, by its sixth character from the end.
unfoldable pub with_sign : List ℕ → List ℕ → ℕ → List ℕ
with_sign base rest c =
    let zoned = length rest - 6 in
    let tz = if is_sign c then drop zoned rest else utc in
    let frac = if is_sign c then take zoned rest else rest in base ++ (b'.' ∷ (micros frac ++ tz))

unfoldable pub with_zone : List ℕ → List ℕ → Result (List ℕ)
unfolding sixth_last with_sign
with_zone base rest = elim (sixth_last rest) [
  | none ↦ raise index_error
  | some c ↦ ok (with_sign base rest c)
]

unfoldable pub normalise : List ℕ → Result (List ℕ)
unfolding replace_z split_dot with_zone
normalise s = elim (split_dot (replace_z s)) [
  | none ↦ ok (replace_z s)
  | some (base, rest) ↦ with_zone base rest
]

unfoldable pub parse_ts : (fromisoformat : List ℕ → Result ℕ) → String → Result ℕ
unfolding normalise
parse_ts fromisoformat s = normalise (codes s) >>= fromisoformat
