-- ===== src/Prelude/Perms.antt =====
-- Reorderings of a list keep what a Boolean membership test and a filter see.
use driftless.Prelude.Tests.{Eq}
use driftless.Prelude.Lists.{contains, filter_by, length}
use Prim.Native.Nat.{ℕ, suc}
use mathlib.Core.Bool.{Bool, true}
use mathlib.Core.List.{List, [], ◌∷◌, Perm, Permᴰ}
use mathlib.Core.Logic.{∥∥₁_elim}
use mathlib.Core.Path.{◌≡◌, refl, ◌∙◌, ap}
use native.Mathlib.Omega.{arith}

Bool_set : IsSet Bool
Bool_set = hlevel

module _ {ℓ} {A : Type ℓ} ⦃e : Eq A⦄ where
  contains-Permᴰ : (a : A) {xs ys : List A} → Permᴰ xs ys → contains xs a ≡ contains ys a
  contains-Permᴰ a Permᴰ.nil = refl
  contains-Permᴰ a (Permᴰ.cons p h) = cc (contains-Permᴰ a h)
  contains-Permᴰ a (Permᴰ.swap {l = l} p q) = ground arith
  contains-Permᴰ a (Permᴰ.trans h k) = contains-Permᴰ a h ∙ contains-Permᴰ a k

  pub contains-Perm : (a : A) {xs ys : List A} → Perm xs ys → contains xs a ≡ contains ys a
  contains-Perm a {xs} {ys} h =
      ∥∥₁_elim h (Bool_set (contains xs a) (contains ys a)) (contains-Permᴰ a)

  -- Two tests that agree on the elements keep the same ones.
  pub filter_by_congr :
      (p q : A → Bool) (xs : List A)
      → ((x : A) → contains xs x ≡ true → p x ≡ q x)
      → filter_by p xs ≡ filter_by q xs
  filter_by_congr p q [] h = refl
  filter_by_congr p q (x ∷ xs) h =
      ground (arith, h x, e.same_iff x x, filter_by_congr p q xs (λ y m. h y (ground arith)))

ℕ_set : IsSet ℕ
ℕ_set = hlevel

module _ {ℓ} {A : Type ℓ} where
  length-Permᴰ : {xs ys : List A} → Permᴰ xs ys → length xs ≡ length ys
  length-Permᴰ Permᴰ.nil = refl
  length-Permᴰ (Permᴰ.cons p h) = ap suc (length-Permᴰ h)
  length-Permᴰ (Permᴰ.swap {l = l} p q) = ground arith
  length-Permᴰ (Permᴰ.trans h k) = length-Permᴰ h ∙ length-Permᴰ k

  pub length-Perm : {xs ys : List A} → Perm xs ys → length xs ≡ length ys
  length-Perm {xs} {ys} h = ∥∥₁_elim h (ℕ_set (length xs) (length ys)) length-Permᴰ
