-- ===== src/Prelude/Members.antt =====
-- Membership, and what a list passes on to its first entry, to a filtered and to a rearranged list.
use Prim.Native.Nat.{ℕ, ◌≤◌}
use mathlib.Core.Path.{◌≡◌, refl, sym, subst}
use mathlib.Core.Logic.{inl, inr}
use mathlib.Core.Bool.{Bool, true, false}
use mathlib.Core.Option.{some}
use mathlib.Core.List.{List, [], ◌∷◌, Permᴰ, Memᴰ}
use native.Mathlib.Omega.{arith}
use agentplace.Prelude.Tests.{Bool-cases}
use agentplace.Prelude.Lists.{All, filter, head?}
use agentplace.Prelude.Sort.{Ranked}

module _ {ℓ} {A : Type ℓ} where
  more_members : (x : A) (xs ys : List A) → All (λ y. Memᴰ y xs) ys → All (λ y. Memᴰ y (x ∷ xs)) ys
  more_members x xs [] _ = tt
  more_members x xs (y ∷ ys) (h, hs) = (Memᴰ.tail h, more_members x xs ys hs)

  pub All-members : (xs : List A) → All (λ y. Memᴰ y xs) xs
  All-members [] = tt
  All-members (x ∷ xs) = (Memᴰ.head refl, more_members x xs xs (All-members xs))

  -- What every entry has, a member has.
  pub All-member {κ} : (P : A → Type κ) (xs : List A) (x : A) → All P xs → Memᴰ x xs → P x
  All-member P [] x h m = elim m [ ]
  All-member P (y ∷ xs) x (h, hs) (Memᴰ.head e) = subst P (sym e) h
  All-member P (y ∷ xs) x (h, hs) (Memᴰ.tail m) = All-member P xs x hs m

  pub All-filter_both {κ} :
      (P : A → Type κ) (q : A → Bool) (xs : List A)
      → All P xs
      → All (λ x. P x × (q x ≡ true)) (filter q xs)
  All-filter_both P q [] _ = tt
  All-filter_both P q (x ∷ xs) (h, hs) = elim (Bool-cases (q x)) [
    | inl y ↦ rw y ((h, y), All-filter_both P q xs hs)
    | inr n ↦ rw n (All-filter_both P q xs hs)
  ]

  pub head-All {κ} : (P : A → Type κ) (xs : List A) (x : A) → All P xs → head? xs ≡ some x → P x
  head-All P [] x _ e = cc
  head-All P (y ∷ ys) x (h, _) e = let same : y ≡ x = ground arith in subst P same h

  -- The first entry that passes a test has the least rank of those that pass.
  pub head-Ranked :
      (f : A → ℕ) (q : A → Bool) (xs : List A) (x : A)
      → Ranked f xs
      → head? (filter q xs) ≡ some x
      → All (λ d. q d ≡ true → f x ≤ f d) xs
  head-Ranked f q [] x _ e = tt
  head-Ranked f q (y ∷ ys) x (h, hs) e = elim (Bool-cases (q y)) [
    | inl t ↦ let same : y ≡ x = ground arith in (λ _. ground arith, lower ys (rw same at h))
    | inr n ↦ (λ t. absurd (never (sym n) t), head-Ranked f q ys x hs (rw n at e))
  ]
    where
      lower : (zs : List A) → All (λ z. f x ≤ f z) zs → All (λ d. q d ≡ true → f x ≤ f d) zs
      lower [] _ = tt
      lower (z ∷ zs) (k, ks) = (λ _. k, lower zs ks)

      never : false ≡ q y → q y ≡ true → ⊥
      never a b = ground arith

  pub All-perm {κ} : (P : A → Type κ) {xs ys : List A} → Permᴰ xs ys → All P ys → All P xs
  All-perm P Permᴰ.nil h = h
  All-perm P (Permᴰ.cons e p) (h, hs) = (subst P (sym e) h, All-perm P p hs)
  All-perm P (Permᴰ.swap d e) (h, (k, hs)) = (subst P (sym d) k, (subst P (sym e) h, hs))
  All-perm P (Permᴰ.trans p q) h = All-perm P p (All-perm P q h)
