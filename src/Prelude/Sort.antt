-- ===== src/Prelude/Sort.antt =====
-- `Array.prototype.sort` with a comparison, which is stable: it is insertion, and an element goes
-- before the first that the comparison does not put before it.
use Prim.Native.Nat.{ℕ, ◌≤◌, Ordering}
use mathlib.Core.Path.{◌≡◌, refl}
use mathlib.Core.Logic.{inl, inr}
use mathlib.Core.Bool.{Bool, true, false}
use mathlib.Core.List.{List, [], ◌∷◌, Permᴰ}
use mathlib.Core.List.Permᴰ as PermD
use native.Mathlib.Omega.{arith}
use agentplace.Prelude.Tests.{if◌then◌else◌, Bool-cases}
use agentplace.Prelude.Lists.{All}

-- A comparison answers with a sign; these are its parts.
abbrev pub is_lt : Ordering → Bool
is_lt Ordering.lt = true
is_lt _ = false

unfoldable pub or_else : Ordering → Ordering → Ordering
or_else Ordering.eq next = next
or_else Ordering.lt next = Ordering.lt
or_else Ordering.gt next = Ordering.gt

unfoldable pub true_first : Bool → Bool → Ordering
true_first true false = Ordering.lt
true_first false true = Ordering.gt
true_first _ _ = Ordering.eq

module _ {ℓ} {A : Type ℓ} (order : A → A → Ordering) where
  unfoldable pub insert_by : A → List A → List A
  insert_by x [] = x ∷ []
  insert_by x (y ∷ ys) =
      let rest = insert_by x ys in if is_lt (order y x) then y ∷ rest else x ∷ y ∷ ys

  unfoldable pub sort_by : List A → List A
  sort_by [] = []
  sort_by (x ∷ xs) = insert_by x (sort_by xs)

  All-insert_by {κ} :
      (P : A → Type κ) (x : A) (ys : List A) → P x → All P ys → All P (insert_by x ys)
  unfolding insert_by
  All-insert_by P x [] h _ = (h, tt)
  All-insert_by P x (y ∷ ys) h (k, ks) = elim (Bool-cases (is_lt (order y x))) [
    | inl e ↦ rw e (k, All-insert_by P x ys h ks)
    | inr e ↦ rw e (h, (k, ks))
  ]

  pub All-sort_by {κ} : (P : A → Type κ) (xs : List A) → All P xs → All P (sort_by xs)
  unfolding sort_by
  All-sort_by P [] _ = tt
  All-sort_by P (x ∷ xs) (h, hs) = All-insert_by P x (sort_by xs) h (All-sort_by P xs hs)

  insert_by-Perm : (x : A) (ys : List A) → Permᴰ (x ∷ ys) (insert_by x ys)
  unfolding insert_by
  insert_by-Perm x [] = PermD.refl (x ∷ [])
  insert_by-Perm x (y ∷ ys) = elim (Bool-cases (is_lt (order y x))) [
    | inl e ↦ rw e (Permᴰ.trans (Permᴰ.swap refl refl) (Permᴰ.cons refl (insert_by-Perm x ys)))
    | inr e ↦ rw e (PermD.refl (x ∷ y ∷ ys))
  ]

  pub sort_by-Perm : (xs : List A) → Permᴰ xs (sort_by xs)
  unfolding sort_by
  sort_by-Perm [] = Permᴰ.nil
  sort_by-Perm (x ∷ xs) =
      Permᴰ.trans (Permᴰ.cons refl (sort_by-Perm xs)) (insert_by-Perm x (sort_by xs))

-- The list is in the order of the ranks.
module _ {ℓ} {A : Type ℓ} (rank : A → ℕ) where
  abbrev pub Ranked : List A → Type 0
  Ranked [] = Unit {0}
  Ranked (x ∷ xs) = All (λ y. rank x ≤ rank y) xs × Ranked xs

  raise :
      (x y : A) (ys : List A)
      → rank x ≤ rank y
      → All (λ z. rank y ≤ rank z) ys
      → All (λ z. rank x ≤ rank z) ys
  raise x y [] le _ = tt
  raise x y (z ∷ zs) le (h, hs) = (omega arith, raise x y zs le hs)

  -- A comparison that goes by the rank first sorts by it.
  module _ (order : A → A → Ordering)
      (first : (x y : A) → is_lt (order x y) ≡ true → rank x ≤ rank y)
      (not_first : (x y : A) → is_lt (order x y) ≡ false → rank y ≤ rank x) where
    insert_by-Ranked : (x : A) (ys : List A) → Ranked ys → Ranked (insert_by order x ys)
    unfolding insert_by
    insert_by-Ranked x [] _ = (tt, tt)
    insert_by-Ranked x (y ∷ ys) (h, hs) = elim (Bool-cases (is_lt (order y x))) [
      | inl e ↦ rw e (All-insert_by order _ x ys (first y x e) h, insert_by-Ranked x ys hs)
      | inr e ↦ let le = not_first y x e in rw e ((le, raise x y ys le h), (h, hs))
    ]

    pub sort_by-Ranked : (xs : List A) → Ranked (sort_by order xs)
    unfolding sort_by
    sort_by-Ranked [] = tt
    sort_by-Ranked (x ∷ xs) = insert_by-Ranked x (sort_by order xs) (sort_by-Ranked xs)
