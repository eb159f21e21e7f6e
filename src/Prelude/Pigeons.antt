-- ===== src/Prelude/Pigeons.antt =====
-- Distinct entries of a list are not more than the list is long.
use Prim.Native.Nat.{◌≤◌, ◌<◌}
use mathlib.Core.Path.{◌≡◌}
use mathlib.Core.Logic.{inl, inr}
use mathlib.Core.Bool.{true, false, not}
use mathlib.Core.List.{List, [], ◌∷◌}
use native.Mathlib.Omega.{arith}
use agentplace.Prelude.Tests.{Eq, ◌===◌, Bool-cases}
use agentplace.Prelude.Lists.{length, filter, includes, Distinct, All}

module _ {ℓ} {A : Type ℓ} ⦃e : Eq A⦄ where
  abbrev without : A → List A → List A
  without a ys = filter (λ y. not (y === a)) ys

  length-without-le : (a : A) (ys : List A) → length (without a ys) ≤ length ys
  length-without-le a [] = omega arith
  length-without-le a (y ∷ ys) = ground (arith, length-without-le a ys)

  length-without : (a : A) (ys : List A) → includes ys a ≡ true → length (without a ys) < length ys
  length-without a [] h = cc
  length-without a (y ∷ ys) h = elim (Bool-cases (y === a)) [
    | inl p ↦ rw p (ground (arith, length-without-le a ys))
    | inr n ↦ rw n (ground (arith, length-without a ys))
  ]

  includes-without :
      (a b : A) (ys : List A)
      → includes ys b ≡ true
      → (b === a) ≡ false
      → includes (without a ys) b ≡ true
  includes-without a b [] h n = h
  includes-without a b (y ∷ ys) h n = elim (Bool-cases (y === a)) [
    | inl p ↦
        rw p (
          includes-without a b ys (ground (arith, e.same_iff y a, e.same_iff y b, e.same_iff b a))
            n)
    | inr q ↦ rw q (ground (arith, includes-without a b ys))
  ]

  All-without :
      (a : A) (xs ys : List A)
      → includes xs a ≡ false
      → All (λ x. includes ys x ≡ true) xs
      → All (λ x. includes (without a ys) x ≡ true) xs
  All-without a [] ys f _ = tt
  All-without a (x ∷ xs) ys f (h, hs) =
      (includes-without a x ys h (ground arith), All-without a xs ys (ground arith) hs)

  pub Distinct-length :
      (xs ys : List A) → Distinct xs → All (λ x. includes ys x ≡ true) xs → length xs ≤ length ys
  Distinct-length [] ys _ _ = omega arith
  Distinct-length (x ∷ xs) ys (f, d) (h, hs) =
      omega (
        arith,
        Distinct-length xs (without x ys) d (All-without x xs ys f hs),
        length-without x ys h,
      )
