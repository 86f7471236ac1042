-- ===== src/Prelude/Int.antt =====
-- Whole numbers with a sign, over the native numbers.
use Prim.Native.Nat.{ℕ, zero, suc, ◌+◌, ◌-◌, ◌*◌}
use Prim.Native.Char.{code}
use Prim.Native.String.{String}
use mathlib.Core.Bool.{Bool, true, false, ◌&&◌}
use mathlib.Core.Logic.{◌↔◌}
use native.Mathlib.Omega.{arith}
use mathlib.Core.List.{[], ◌∷◌}
use mathlib.Core.Option as Option
use mathlib.Core.Option.{Option, none, some}
use mathlib.Core.Path.{◌≡◌, refl, ap}
use driftless.Prelude.Text.{decimal, concat}
use driftless.Prelude.Tests.{ltb, leb, nat_beq, nat_beq_iff, Eq, if◌then◌else◌}

-- `negsuc n` is -(n + 1).
pub data ℤ : Type 0 where
  pos : ℕ → ℤ
  negsuc : ℕ → ℤ

abbrev pub pos_part : ℤ → ℕ
pos_part (pos n) = n
pos_part (negsuc n) = 0

abbrev pub neg_part : ℤ → ℕ
neg_part (pos n) = 0
neg_part (negsuc n) = suc n

-- a - b, as an integer.
abbrev pub sub_ℕ : ℕ → ℕ → ℤ
sub_ℕ a b = if leb b a then pos (a - b) else negsuc (b - a - 1)

abbrev pub ltb_ℤ : ℤ → ℤ → Bool
ltb_ℤ a b = ltb (pos_part a + neg_part b) (pos_part b + neg_part a)

-- `int(text)` for an optional sign and decimal digits, which is how DynamoDB writes a whole
-- number; any other text is a ValueError.
digits_from : ℕ → String → Option ℕ
digits_from n String.[] = some n
digits_from n (String.◌∷◌ c s) =
    let d = code c in if leb b'0' d && leb d b'9' then digits_from (n * 10 + (d - b'0')) s else none

natural : String → Option ℕ
unfolding digits_from
natural String.[] = none
natural (String.◌∷◌ c s) = digits_from 0 (String.◌∷◌ c s)

abbrev pub negate : ℕ → ℤ
negate zero = pos 0
negate (suc n) = negsuc n

unfoldable pub parse_int : String → Option ℤ
unfolding natural
parse_int String.[] = none
parse_int (String.◌∷◌ c s) =
    if nat_beq (code c) b'-'
    then Option.map negate (natural s)
    else if nat_beq (code c) b'+'
    then Option.map pos (natural s)
    else Option.map pos (natural (String.◌∷◌ c s))

parse_int_runs : parse_int "-12" ≡ some (negsuc 11)
unfolding parse_int
parse_int_runs = refl

parse_int_refuses : parse_int "1.5" ≡ none
unfolding parse_int
parse_int_refuses = refl

-- `str(n)`
unfoldable pub int_text : ℤ → String
int_text (pos n) = decimal n
int_text (negsuc n) = concat ("-" ∷ decimal (n + 1) ∷ [])

abbrev pub ℤ_beq : ℤ → ℤ → Bool
ℤ_beq (pos m) (pos n) = nat_beq m n
ℤ_beq (negsuc m) (negsuc n) = nat_beq m n
ℤ_beq (pos m) (negsuc n) = false
ℤ_beq (negsuc m) (pos n) = false

pub ℤ_beq_iff : (a b : ℤ) → (ℤ_beq a b ≡ true) ↔ (a ≡ b)
ℤ_beq_iff (pos m) (pos n) =
    (λ h. ap pos ((nat_beq_iff m n).0 h), λ h. (nat_beq_iff m n).1 (ap pos_part h))
ℤ_beq_iff (negsuc m) (negsuc n) = (
  λ h. ap negsuc ((nat_beq_iff m n).0 h),
  λ h. (nat_beq_iff m n).1 (suc_injective (ap neg_part h)),
)
  where
    suc_injective : suc m ≡ suc n → m ≡ n
    suc_injective h = omega arith
ℤ_beq_iff (pos m) (negsuc n) = (λ h. absurd (cc), λ h. absurd (cc))
ℤ_beq_iff (negsuc m) (pos n) = (λ h. absurd (cc), λ h. absurd (cc))

instance abbrev pub ℤ_eq : Eq ℤ
ℤ_eq = record { same = ℤ_beq; same_iff = ℤ_beq_iff }
