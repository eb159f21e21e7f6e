-- ===== src/Prelude/Results.antt =====
-- Code that can throw: a value, or the error that it throws. The type of errors is a parameter,
-- so each package has its own codes.
use mathlib.Core.Path.{◌≡◌, refl}
use mathlib.Core.Bool.{Bool, true, false}
use mathlib.Core.Option.{Option, none, some}

pub data Result {ℓ κ} (E : Type ℓ) (A : Type κ) : Type (ℓ ⊔ κ) where
  ok : A → Result E A
  throw : E → Result E A

infixl 5 ◌>>=◌ ◌>>◌
unfoldable pub ◌>>=◌ {ℓ κ ι} :
    {E : Type ℓ} {A : Type κ} {B : Type ι} → Result E A → (A → Result E B) → Result E B
ok a >>= f = f a
throw e >>= f = throw e

unfoldable pub ◌>>◌ {ℓ ι} :
    {E : Type ℓ} {B : Type ι} → Result E (Unit {0}) → Result E B → Result E B
unfolding ◌>>=◌
m >> k = m >>= λ _. k

-- `if (b) throw new Error(e)`
unfoldable pub throw_if {ℓ} : {E : Type ℓ} → Bool → E → Result E (Unit {0})
throw_if true e = throw e
throw_if false e = ok tt

unfoldable pub or_throw {ℓ κ} : {E : Type ℓ} {A : Type κ} → Option A → E → Result E A
or_throw none e = throw e
or_throw (some a) e = ok a

module _ {ℓ κ ι} {E : Type ℓ} {A : Type κ} {B : Type ι} where
  pub >>=-eq-ok :
      (m : Result E A) (f : A → Result E B) {b : B}
      → (m >>= f) ≡ ok b
      → (a : A) × (m ≡ ok a) × (f a ≡ ok b)
  unfolding ◌>>=◌
  >>=-eq-ok (ok a) f h = (a, refl, h)
  >>=-eq-ok (throw e) f h = cc

pub throw_if-eq-ok {ℓ ι} :
    {E : Type ℓ} {B : Type ι} (b : Bool) (e : E) (k : Result E B) {r : B}
    → (throw_if b e >> k) ≡ ok r
    → (b ≡ false) × (k ≡ ok r)
unfolding throw_if ◌>>◌
throw_if-eq-ok true e k h = cc
throw_if-eq-ok false e k h = (refl, h)

pub >>-eq-ok {ℓ ι} :
    {E : Type ℓ} {B : Type ι} (m : Result E (Unit {0})) (k : Result E B) {r : B}
    → (m >> k) ≡ ok r
    → (u : Unit {0}) × (m ≡ ok u) × (k ≡ ok r)
unfolding ◌>>◌
>>-eq-ok (ok u) k h = (u, refl, h)
>>-eq-ok (throw e) k h = cc

pub ok-injective {ℓ κ} :
    {E : Type ℓ} {A : Type κ} {a b : A} → ◌≡◌ {A = Result E A} (ok a) (ok b) → a ≡ b
ok-injective p = cc

-- A step that succeeds goes on to a result where the rest does.
pub >>=-commits {ℓ κ ι} :
    {E : Type ℓ} {A : Type κ} {B : Type ι} (m : Result E A) (f : A → Result E B) (a : A)
    → m ≡ ok a
    → (r : B) × (f a ≡ ok r)
    → (r : B) × ((m >>= f) ≡ ok r)
unfolding ◌>>=◌
>>=-commits m f a h (r, e) = (r, rw h e)

pub >>-commits {ℓ ι} :
    {E : Type ℓ} {B : Type ι} (m : Result E (Unit {0})) (k : Result E B)
    → m ≡ ok tt
    → (r : B) × (k ≡ ok r)
    → (r : B) × ((m >> k) ≡ ok r)
unfolding ◌>>◌
>>-commits m k h (r, e) = (r, rw h e)

pub throw_if-false {ℓ} : {E : Type ℓ} (b : Bool) (e : E) → b ≡ false → throw_if b e ≡ ok tt
unfolding throw_if
throw_if-false b e h = rw h refl
