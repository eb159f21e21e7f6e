-- ===== src/Prelude/Lists.antt =====
-- Lists over the native numbers, and the list operations of JavaScript that the packages use:
-- `length`, `slice(0, n)`, `filter`, `some`, `every`, `find`, `includes`, `[...new Set(xs)]`.
use Prim.Native.Nat.{ℕ, zero, suc, ◌+◌, ◌≤◌}
use mathlib.Core.Path.{◌≡◌, refl, ap}
use mathlib.Core.Logic.{inl, inr}
use mathlib.Core.Bool.{Bool, true, false, ◌&&◌, ◌||◌, not}
use mathlib.Core.Option.{Option, none, some}
use mathlib.Core.List.{List, [], ◌∷◌, ◌++◌, map}
use native.Mathlib.Omega.{arith}
use agentplace.Prelude.Tests.{if◌then◌else◌, Eq, ◌===◌, ===-refl, Bool-cases}

module _ {ℓ} {A : Type ℓ} where
  abbrev pub length : List A → ℕ
  length [] = 0
  length (_ ∷ xs) = suc (length xs)

  abbrev pub take : ℕ → List A → List A
  take zero _ = []
  take (suc n) [] = []
  take (suc n) (x ∷ xs) = x ∷ take n xs

  abbrev pub drop : ℕ → List A → List A
  drop zero xs = xs
  drop (suc n) [] = []
  drop (suc n) (x ∷ xs) = drop n xs

  abbrev pub filter : (A → Bool) → List A → List A
  filter p [] = []
  filter p (x ∷ xs) = let rest = filter p xs in if p x then x ∷ rest else rest

  abbrev pub any : (A → Bool) → List A → Bool
  any p [] = false
  any p (x ∷ xs) = p x || any p xs

  abbrev pub all : (A → Bool) → List A → Bool
  all p [] = true
  all p (x ∷ xs) = p x && all p xs

  abbrev pub find : (A → Bool) → List A → Option A
  find p [] = none
  find p (x ∷ xs) = let rest = find p xs in if p x then some x else rest

  abbrev pub head? : List A → Option A
  head? [] = none
  head? (x ∷ _) = some x

  pub length-append : (xs ys : List A) → length (xs ++ ys) ≡ length xs + length ys
  length-append [] ys = omega arith
  length-append (x ∷ xs) ys = omega (arith, length-append xs ys)

  pub length-take-le : (n : ℕ) (xs : List A) → length (take n xs) ≤ n
  length-take-le zero xs = omega arith
  length-take-le (suc n) [] = omega arith
  length-take-le (suc n) (x ∷ xs) = omega (arith, length-take-le n xs)

  pub take-append-drop : (n : ℕ) (xs : List A) → take n xs ++ drop n xs ≡ xs
  take-append-drop zero xs = refl
  take-append-drop (suc n) [] = refl
  take-append-drop (suc n) (x ∷ xs) = ap (◌∷◌ x) (take-append-drop n xs)

  pub filter-append :
      (p : A → Bool) (xs ys : List A) → filter p (xs ++ ys) ≡ filter p xs ++ filter p ys
  filter-append p [] ys = refl
  filter-append p (x ∷ xs) ys = ground (arith, filter-append p xs ys)

-- A predicate of every entry, as a nested pair that the tactics read and build.
module _ {ℓ κ} {A : Type ℓ} (P : A → Type κ) where
  abbrev pub All : List A → Type κ
  All [] = Unit
  All (x ∷ xs) = P x × All xs

  pub All-append : (xs ys : List A) → All xs → All ys → All (xs ++ ys)
  All-append [] ys _ k = k
  All-append (x ∷ xs) ys (p, h) k = (p, All-append xs ys h k)

  pub All-take : (n : ℕ) (xs : List A) → All xs → All (take n xs)
  All-take zero xs _ = tt
  All-take (suc n) [] _ = tt
  All-take (suc n) (x ∷ xs) (p, h) = (p, All-take n xs h)

  pub All-filter : (q : A → Bool) (xs : List A) → All xs → All (filter q xs)
  All-filter q [] _ = tt
  All-filter q (x ∷ xs) (p, h) = pick (q x) (All-filter q xs h)
    where
      pick : (b : Bool) → All (filter q xs) → All (if b then x ∷ filter q xs else filter q xs)
      pick true k = (p, k)
      pick false k = k

module _ {ℓ κ} {A : Type ℓ} {P : A → Type κ} where
  -- What a filter keeps has the property that its test decides.
  pub All-filter_test :
      (q : A → Bool) (xs : List A) → ((a : A) → q a ≡ true → P a) → All P (filter q xs)
  All-filter_test q [] f = tt
  All-filter_test q (x ∷ xs) f = pick (q x) refl (All-filter_test q xs f)
    where
      pick :
          (b : Bool)
          → q x ≡ b
          → All P (filter q xs)
          → All P (if b then x ∷ filter q xs else filter q xs)
      pick true e k = (f x e, k)
      pick false _ k = k

module _ {ℓ} {A : Type ℓ} ⦃e : Eq A⦄ where
  abbrev pub includes : List A → A → Bool
  includes [] a = false
  includes (x ∷ xs) a = (x === a) || includes xs a

  -- No entry stands twice.
  abbrev pub Distinct : List A → Type 0
  Distinct [] = Unit {0}
  Distinct (x ∷ xs) = (includes xs x ≡ false) × Distinct xs

  -- `[...new Set(xs)]`: a value is kept where it stands first; `seen` holds those kept.
  abbrev pub dedup_from : List A → List A → List A
  dedup_from seen [] = []
  dedup_from seen (x ∷ xs) =
      if includes seen x then dedup_from seen xs else x ∷ dedup_from (x ∷ seen) xs

  abbrev pub dedup : List A → List A
  dedup xs = dedup_from [] xs

  pub includes-append :
      (xs ys : List A) (a : A) → includes (xs ++ ys) a ≡ (includes xs a || includes ys a)
  includes-append [] ys a = refl
  includes-append (x ∷ xs) ys a = ground (arith, includes-append xs ys a)

  pub includes-take :
      (n : ℕ) (xs : List A) (a : A) → includes xs a ≡ false → includes (take n xs) a ≡ false
  includes-take zero xs a h = refl
  includes-take (suc n) [] a h = refl
  includes-take (suc n) (x ∷ xs) a h = ground (arith, includes-take n xs a)

  pub includes-filter :
      (p : A → Bool) (xs : List A) (a : A)
      → includes xs a ≡ false
      → includes (filter p xs) a ≡ false
  includes-filter p [] a h = refl
  includes-filter p (x ∷ xs) a h = ground (arith, includes-filter p xs a)

  pub Distinct-take : (n : ℕ) (xs : List A) → Distinct xs → Distinct (take n xs)
  Distinct-take zero xs _ = tt
  Distinct-take (suc n) [] _ = tt
  Distinct-take (suc n) (x ∷ xs) (h, k) = (includes-take n xs x h, Distinct-take n xs k)

  pub Distinct-filter : (p : A → Bool) (xs : List A) → Distinct xs → Distinct (filter p xs)
  Distinct-filter p [] _ = tt
  Distinct-filter p (x ∷ xs) (h, k) = pick (p x) (Distinct-filter p xs k)
    where
      pick :
          (b : Bool)
          → Distinct (filter p xs)
          → Distinct (if b then x ∷ filter p xs else filter p xs)
      pick true d = (includes-filter p xs x h, d)
      pick false d = d

  pub Distinct-concat :
      (xs : List A) (a : A) → Distinct xs → includes xs a ≡ false → Distinct (xs ++ a ∷ [])
  Distinct-concat [] a _ _ = (refl, tt)
  Distinct-concat (x ∷ xs) a (h, d) f = (
    ground (arith, includes-append xs (a ∷ []) x, e.same_iff x a, e.same_iff a x),
    Distinct-concat xs a d (ground arith),
  )

  -- The copy holds what the list holds, apart from what was seen before.
  pub includes-dedup_from :
      (seen xs : List A) (a : A)
      → includes (dedup_from seen xs) a ≡ (includes xs a && not (includes seen a))
  includes-dedup_from seen [] a = refl
  includes-dedup_from seen (x ∷ xs) a = elim (Bool-cases (x === a)) [
    | inl h ↦
        let p : x ≡ a = (e.same_iff x a).0 h in
        ground (arith, ap (includes seen) p, includes-dedup_from seen xs a)
    | inr h ↦ ground (arith, includes-dedup_from seen xs a, includes-dedup_from (x ∷ seen) xs a)
  ]

  pub Distinct-dedup_from : (seen xs : List A) → Distinct (dedup_from seen xs)
  Distinct-dedup_from seen [] = tt
  Distinct-dedup_from seen (x ∷ xs) =
      pick (includes seen x) (Distinct-dedup_from seen xs) (Distinct-dedup_from (x ∷ seen) xs)
    where
      kept : includes (dedup_from (x ∷ seen) xs) x ≡ false
      kept = ground (arith, includes-dedup_from (x ∷ seen) xs x, ===-refl x)

      pick :
          (b : Bool)
          → Distinct (dedup_from seen xs)
          → Distinct (dedup_from (x ∷ seen) xs)
          → Distinct (if b then dedup_from seen xs else x ∷ dedup_from (x ∷ seen) xs)
      pick true d _ = d
      pick false _ d = (kept, d)

module _ {ℓ κ} {A : Type ℓ} (P : A → Type κ) where
  -- What `find` finds passes the test, and has what every entry has.
  pub find-All :
      (q : A → Bool) (xs : List A) (a : A) → All P xs → find q xs ≡ some a → P a × (q a ≡ true)
  find-All q [] a _ e = cc
  find-All q (x ∷ xs) a (p, h) e = elim (Bool-cases (q x)) [
    | inl y ↦ let same : x ≡ a = ground arith in (rw same at p, rw same at y)
    | inr n ↦ find-All q xs a h (rw n at e)
  ]

  pub All-map : {B : Type ℓ} (f : B → A) (xs : List B) → All (λ b. P (f b)) xs → All P (map f xs)
  All-map f [] h = tt
  All-map f (x ∷ xs) (h, hs) = (h, All-map f xs hs)

-- Where `find` finds nothing, no entry passes the test.
pub find-none-All {ℓ} :
    {A : Type ℓ} (q : A → Bool) (xs : List A) → find q xs ≡ none → All (λ a. q a ≡ false) xs
find-none-All q [] e = tt
find-none-All q (x ∷ xs) e = elim (Bool-cases (q x)) [
  | inl y ↦ let e' : some x ≡ none = rw y at e in cc
  | inr n ↦ (n, find-none-All q xs (rw n at e))
]
