-- ===== src/Authority/Evaluate/Inversion.antt =====
-- What a verdict that goes on says of the checks that it passed.
use agentplace.Prelude.{◌≡◌, refl, ◌≢◌, Bool, true, false, List, [], ◌∷◌, Result, ok, throw, arith}
use agentplace.Text.{Text}
use agentplace.Decimal.{DecimalError}
use agentplace.Authority.Types.{AuthorityReason, AuthorityPolicyEvaluation, allowed, denied}
use agentplace.Authority.Evaluate.Checks.{Verdict, go, deny, fail, ◌>>=◌, ◌>>◌, deny_if, lift}
use agentplace.Authority.Evaluate.Decide.{settle, push_if}

pub deny_if-eq-go : (b : Bool) (r : AuthorityReason) → deny_if b r ≡ go tt → b ≡ false
unfolding deny_if
deny_if-eq-go true r h = cc
deny_if-eq-go false r h = refl

module _ {ℓ} {B : Type ℓ} where
  pub deny_if->>-eq-go :
      (b : Bool) (r : AuthorityReason) (k : Verdict B) {x : B}
      → (deny_if b r >> k) ≡ go x
      → (b ≡ false) × (k ≡ go x)
  unfolding deny_if ◌>>◌
  deny_if->>-eq-go true r k h = cc
  deny_if->>-eq-go false r k h = (refl, h)

  pub >>-eq-go :
      (m : Verdict (Unit {0})) (k : Verdict B) {x : B} → (m >> k) ≡ go x → (m ≡ go tt) × (k ≡ go x)
  unfolding ◌>>◌
  >>-eq-go (go tt) k h = (refl, h)
  >>-eq-go (deny r) k h = cc
  >>-eq-go (fail e) k h = cc

module _ {ℓ κ} {A : Type ℓ} {B : Type κ} where
  pub >>=-eq-go :
      (m : Verdict A) (f : A → Verdict B) {x : B}
      → (m >>= f) ≡ go x
      → (a : A) × (m ≡ go a) × (f a ≡ go x)
  unfolding ◌>>=◌
  >>=-eq-go (go a) f h = (a, refl, h)
  >>=-eq-go (deny r) f h = cc
  >>=-eq-go (fail e) f h = cc

  pub lift->>=-eq-go :
      (m : Result DecimalError A) (f : A → Verdict B) {x : B}
      → (lift m >>= f) ≡ go x
      → (a : A) × (m ≡ ok a) × (f a ≡ go x)
  unfolding lift ◌>>=◌
  lift->>=-eq-go (ok a) f h = (a, refl, h)
  lift->>=-eq-go (throw e) f h = cc

-- A flag that a check of an execution computes, and the reasons that a list has without it.
pub push_if-eq-nil :
    (b : Bool) (r : AuthorityReason) (rs : List AuthorityReason)
    → push_if b r rs ≡ []
    → (b ≡ false) × (rs ≡ [])
unfolding push_if
push_if-eq-nil true r rs h = cc
push_if-eq-nil false r rs h = (refl, h)

module _ (spent : Text) {e : AuthorityPolicyEvaluation} where
  settle-deny : (r : AuthorityReason) → settle spent (deny r) ≡ ok e → e.decision ≡ denied
  unfolding settle
  settle-deny r h = ground arith

  -- An answer that is no denial comes from a review that went on.
  pub settle_not_denied :
      (v : Verdict (List AuthorityReason))
      → settle spent v ≡ ok e
      → e.decision ≢ denied
      → (rs : List AuthorityReason) × (v ≡ go rs)
  unfolding settle
  settle_not_denied (fail x) h n = cc
  settle_not_denied (deny r) h n = absurd (n (settle-deny r h))
  settle_not_denied (go rs) h n = (rs, refl)

  -- An answer that allows comes from a review with no reason to ask.
  pub settle_allowed :
      (v : Verdict (List AuthorityReason))
      → settle spent v ≡ ok e
      → e.decision ≡ allowed
      → v ≡ go []
  unfolding settle
  settle_allowed (fail x) h a = cc
  settle_allowed (deny r) h a = ground arith
  settle_allowed (go []) h a = refl
  settle_allowed (go (r ∷ rs)) h a = ground arith
