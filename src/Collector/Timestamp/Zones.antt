-- ===== src/Collector/Timestamp/Zones.antt =====
-- What the timestamps of each form of the zone become.
use driftless.Prelude.{
  ℕ, ◌-◌, ◌<◌, zero, suc, true, false, none, some, List, [], ◌∷◌, ◌++◌, ◌≡◌, refl, ap, ◌∙◌, arith,
  leb, ltb, nat_beq, if◌then◌else◌, length, length-append, take, drop, get_elem?, All, Bool-cases,
  inl, inr,
}
use driftless.Bench.Result.{Result, ok, raise, index_error}
use driftless.Collector.Timestamp.{
  utc, replace_z, split_dot, sixth_last, is_sign, micros, with_sign, with_zone, normalise,
}
use mathlib.Core.List.{append-nil}

-- A character that is no dot and no Z.
abbrev pub IsPlain : ℕ → Type 0
IsPlain c = (nat_beq c b'Z' ≡ false) × (nat_beq c b'.' ≡ false)

-- A digit, or another character that is no sign either.
abbrev pub IsDigit : ℕ → Type 0
IsDigit c = IsPlain c × (is_sign c ≡ false)

-- The forms of a zone: a Z, a sign with five more characters (+hh:mm), or none.
pub data Zone : Type 0 where
  z : Zone
  offset : (sign a b c d e : ℕ) → Zone
  absent : Zone

abbrev pub written : Zone → List ℕ
written z = b'Z' ∷ []
written (offset sign a b c d e) = sign ∷ a ∷ b ∷ c ∷ d ∷ e ∷ []
written absent = []

abbrev pub IsZone : Zone → Type 0
IsZone z = Unit
IsZone (offset sign a b c d e) = (is_sign sign ≡ true) × All IsPlain (sign ∷ a ∷ b ∷ c ∷ d ∷ e ∷ [])
IsZone absent = Unit

-- What the text becomes: six digits of the fraction, and an offset.
abbrev pub expected : List ℕ → List ℕ → Zone → Result (List ℕ)
expected base frac z = ok (base ++ (b'.' ∷ (micros frac ++ utc)))
expected base frac (offset sign a b c d e) =
    ok (base ++ (b'.' ∷ (micros frac ++ (sign ∷ a ∷ b ∷ c ∷ d ∷ e ∷ []))))
expected base frac absent =
    if ltb (length frac) 6 then raise index_error else ok (base ++ (b'.' ∷ (micros frac ++ utc)))

replace_z-plain : (s t : List ℕ) → All IsPlain s → replace_z (s ++ t) ≡ s ++ replace_z t
unfolding replace_z
replace_z-plain [] t h = refl
replace_z-plain (c ∷ s) t (p, h) = rw (p.0, replace_z-plain s t h) refl

split_dot-plain :
    (base rest : List ℕ) → All IsPlain base → split_dot (base ++ (b'.' ∷ rest)) ≡ some (base, rest)
unfolding split_dot
split_dot-plain [] rest h = refl
split_dot-plain (c ∷ base) rest (p, h) = rw (p.1, split_dot-plain base rest h) refl

-- The sixth character from the end of a text that ends in six given ones.
get_elem?-append : (s : List ℕ) (c : ℕ) (t : List ℕ) → get_elem? (s ++ (c ∷ t)) (length s) ≡ some c
get_elem?-append [] c t = refl
get_elem?-append (x ∷ s) c t = get_elem?-append s c t

take-append : (s t : List ℕ) → take (length s) (s ++ t) ≡ s
take-append [] [] = refl
take-append [] (x ∷ t) = refl
take-append (x ∷ s) t = ap (◌∷◌ x) (take-append s t)

drop-append : (s t : List ℕ) → drop (length s) (s ++ t) ≡ t
drop-append [] t = refl
drop-append (x ∷ s) t = drop-append s t

sixth_last-append :
    (frac : List ℕ) (sign a b c d e : ℕ)
    → sixth_last (frac ++ (sign ∷ a ∷ b ∷ c ∷ d ∷ e ∷ [])) ≡ some sign
unfolding sixth_last
sixth_last-append frac sign a b c d e =
    let tail : List ℕ = sign ∷ a ∷ b ∷ c ∷ d ∷ e ∷ [] in
    let size : length (frac ++ tail) - 6 ≡ length frac = omega (arith, length-append frac tail) in
    let big : leb 6 (length (frac ++ tail)) ≡ true = ground (arith, length-append frac tail) in
    rw (big, size) (get_elem?-append frac sign (a ∷ b ∷ c ∷ d ∷ e ∷ []))

with_sign-append :
    (base frac : List ℕ) (sign a b c d e : ℕ)
    → is_sign sign ≡ true
    → with_sign base (frac ++ (sign ∷ a ∷ b ∷ c ∷ d ∷ e ∷ [])) sign
      ≡ base ++ (b'.' ∷ (micros frac ++ (sign ∷ a ∷ b ∷ c ∷ d ∷ e ∷ [])))
unfolding with_sign
with_sign-append base frac sign a b c d e h =
    let tail : List ℕ = sign ∷ a ∷ b ∷ c ∷ d ∷ e ∷ [] in
    let size : length (frac ++ tail) - 6 ≡ length frac = omega (arith, length-append frac tail) in
    rw (h, size) (rw (take-append frac tail, drop-append frac tail) refl)

All-get_elem? :
    {P : ℕ → Type 0} (s : List ℕ) (i : ℕ)
    → All P s
    → i < length s
    → (c : ℕ) × (get_elem? s i ≡ some c) × P c
All-get_elem? [] i h lt = absurd (omega arith)
All-get_elem? (c ∷ s) zero h lt = (c, refl, h.0)
All-get_elem? (c ∷ s) (suc i) h lt = All-get_elem? s i h.1 (omega arith)

sixth_last-short : (s : List ℕ) → ltb (length s) 6 ≡ true → sixth_last s ≡ none
unfolding sixth_last
sixth_last-short s short = let small : leb 6 (length s) ≡ false = ground arith in rw small refl

sixth_last-long :
    (s : List ℕ)
    → All IsDigit s
    → ltb (length s) 6 ≡ false
    → (c : ℕ) × (sixth_last s ≡ some c) × IsDigit c
unfolding sixth_last
sixth_last-long s h long =
    let big : leb 6 (length s) ≡ true = ground arith in
    let (c, at, digit) = All-get_elem? {P = IsDigit} s (length s - 6) h (ground arith) in
    (c, rw big at, digit)

with_zone-absent :
    (base frac : List ℕ) → All IsDigit frac → with_zone base frac ≡ expected base frac absent
unfolding with_zone
with_zone-absent base frac h = elim (Bool-cases (ltb (length frac) 6)) [
  | inl short ↦ rw (sixth_last-short frac short, with_zone) (rw short refl)
  | inr long ↦
      let (c, at, digit) = sixth_last-long frac h long in
      rw (at, with_zone) (rw (long, digit.1, with_sign) refl)
]

Plain-of_Digit : (s : List ℕ) → All IsDigit s → All IsPlain s
Plain-of_Digit [] h = tt
Plain-of_Digit (c ∷ s) (p, h) = (p.0, Plain-of_Digit s h)

-- A timestamp with a fraction, whatever the number of its digits, becomes one with six digits: the first
-- six, or all of them and zeros. Its zone stays, and Z and no zone become +00:00; but with no zone and
-- less than six digits the look at the sign raises an IndexError.
pub normalise-expected :
    (base frac : List ℕ) (zone : Zone)
    → All IsPlain base
    → All IsDigit frac
    → IsZone zone
    → normalise (base ++ (b'.' ∷ (frac ++ written zone))) ≡ expected base frac zone
unfolding normalise replace_z
normalise-expected base frac zone pb pf pz = by_zone zone pz
  where
    behind :
        (rest : List ℕ)
        → replace_z (base ++ (b'.' ∷ (frac ++ rest))) ≡ base ++ (b'.' ∷ (frac ++ replace_z rest))
    behind rest =
        replace_z-plain base (b'.' ∷ (frac ++ rest)) pb
        ∙ ap (λ (t : List ℕ). base ++ (b'.' ∷ t))
            (replace_z-plain frac rest (Plain-of_Digit frac pf))

    parted :
        (rest rest' : List ℕ)
        → replace_z rest ≡ rest'
        → normalise (base ++ (b'.' ∷ (frac ++ rest))) ≡ with_zone base (frac ++ rest')
    parted rest rest' e =
        rw (behind rest, e, normalise) (rw (split_dot-plain base (frac ++ rest') pb) refl)

    by_zone :
        (zn : Zone)
        → IsZone zn
        → normalise (base ++ (b'.' ∷ (frac ++ written zn))) ≡ expected base frac zn
    by_zone z h =
        parted (written z) utc refl
        ∙ rw (sixth_last-append frac b'+' b'0' b'0' b':' b'0' b'0', with_zone)
            (ap ok (with_sign-append base frac b'+' b'0' b'0' b':' b'0' b'0' refl))
    by_zone (offset sign a b c d e) (s, plain) =
        parted (written (offset sign a b c d e)) _
          (replace_z-plain (written (offset sign a b c d e)) [] plain)
        ∙ rw (sixth_last-append frac sign a b c d e, with_zone)
            (ap ok (with_sign-append base frac sign a b c d e s))
    by_zone absent h = parted [] [] refl ∙ rw (append-nil frac) (with_zone-absent base frac pf)
