-- ===== src/Prelude/Names.antt =====
-- `text.strip()`, and the lists of names that the environment
-- gives: `[s.strip() for s in raw.split(",") if s.strip()]`.
use Prim.Native.Nat.{ℕ}
use Prim.Native.Char.{Char, code}
use Prim.Native.String as NativeString
use Prim.Native.String.{String, ◌++◌}
use mathlib.Core.Bool.{Bool, false, ◌&&◌, ◌||◌}
use mathlib.Core.List.{List, [], ◌∷◌}
use mathlib.Core.Path.{◌≡◌, refl, ap, ◌∙◌}
use native.Mathlib.Omega.{arith}
use text.Mathlib.TextLemmas.{cons-append, nil-append}
use driftless.Prelude.Tests.{nat_beq, leb, if◌then◌else◌, ◌==◌, string_eq}
use driftless.Prelude.Lists.{All}
use driftless.Prelude.Text.{join}
use driftless.Prelude.Split.{one, push, split}

abbrev between : ℕ → ℕ → ℕ → Bool
between low high n = leb low n && leb n high

-- `c.isspace()`
abbrev is_space : Char → Bool
is_space c =
    let n = code c in
    between 9 13 n
    || between 28 32 n
    || nat_beq n 133
    || nat_beq n 160
    || nat_beq n 5760
    || between 8192 8202 n
    || between 8232 8233 n
    || nat_beq n 8239
    || nat_beq n 8287
    || nat_beq n 12288

unfoldable pub lstrip : String → String
lstrip NativeString.[] = ""
lstrip (NativeString.◌∷◌ c s) = if is_space c then lstrip s else NativeString.◌∷◌ c s

unfoldable pub rstrip : String → String
rstrip NativeString.[] = ""
rstrip (NativeString.◌∷◌ c s) =
    let rest = rstrip s in if rest == "" && is_space c then "" else NativeString.◌∷◌ c rest

-- `s.strip()`
unfoldable pub strip : String → String
unfolding lstrip rstrip
strip s = rstrip (lstrip s)

unfoldable pub stripped : List String → List String
unfolding strip
stripped [] = []
stripped (s ∷ ss) = if strip s == "" then stripped ss else strip s ∷ stripped ss

unfoldable pub names_of : String → List String
unfolding stripped
names_of raw = stripped (split "," raw)

-- The character does not stand in the text.
abbrev pub Lacks : Char → String → Type 0
Lacks sep NativeString.[] = Unit
Lacks sep (NativeString.◌∷◌ c s) = (nat_beq (code c) (code sep) ≡ false) × Lacks sep s

-- A name has no comma in it, no white space around it, and is not empty.
abbrev pub IsName : String → Type 0
IsName s = Lacks "," s × (strip s ≡ s) × ((s == "") ≡ false)

split-Lacks : (sep : Char) (s : String) → Lacks sep s → split sep s ≡ s ∷ []
unfolding split push
split-Lacks sep NativeString.[] h = refl
split-Lacks sep (NativeString.◌∷◌ c s) h = rw (h.0, split-Lacks sep s h.1) refl

split-append :
    (sep : Char) (s t : String) → Lacks sep s → split sep (s ++ (one sep ++ t)) ≡ s ∷ split sep t
unfolding split push
split-append sep NativeString.[] t h =
    rw (nil-append (one sep ++ t), cons-append sep "" t, nil-append t) (starts sep t)
  where
    starts : (sep : Char) (t : String) → split sep (NativeString.◌∷◌ sep t) ≡ "" ∷ split sep t
    starts sep t = ground arith
split-append sep (NativeString.◌∷◌ c s) t h =
    rw (cons-append c s (one sep ++ t), split, h.0, split-append sep s t h.1) refl

split-join :
    (sep : Char) (s : String) (ss : List String)
    → All (Lacks sep) (s ∷ ss)
    → split sep (join (one sep) (s ∷ ss)) ≡ s ∷ ss
unfolding join
split-join sep s [] h = split-Lacks sep s h.0
split-join sep s (t ∷ ss) h =
    split-append sep s (join (one sep) (t ∷ ss)) h.0 ∙ ap (◌∷◌ s) (split-join sep t ss h.1)

stripped-names : (ss : List String) → All IsName ss → stripped ss ≡ ss
unfolding stripped
stripped-names [] h = refl
stripped-names (s ∷ ss) h =
    let (lacks, kept, some) = h.0 in rw (kept, some) (ap (◌∷◌ s) (stripped-names ss h.1))

All-Lacks : (ss : List String) → All IsName ss → All (Lacks ",") ss
All-Lacks [] h = tt
All-Lacks (s ∷ ss) h = (h.0.0, All-Lacks ss h.1)

names_of_none : stripped (split "," (join "," [])) ≡ []
unfolding join split stripped
names_of_none = refl

-- Names that were joined by commas are read again.
pub names_of-join : (ss : List String) → All IsName ss → names_of (join "," ss) ≡ ss
unfolding names_of
names_of-join [] h = names_of_none
names_of-join (s ∷ ss) h =
    ap stripped (split-join "," s ss (All-Lacks (s ∷ ss) h)) ∙ stripped-names (s ∷ ss) h

names_run : names_of " a, b ,,c" ≡ "a" ∷ "b" ∷ "c" ∷ []
unfolding names_of split push
names_run = refl
