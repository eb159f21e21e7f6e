-- ===== src/Authority/Mandates/Invariant.antt =====
-- What holds of every mandate whatever calls were made, packages/authority/src/index.ts.
use agentplace.Prelude.{
  ℕ, suc, ◌≡◌, refl, true, false, List, [], ◌∷◌, Option, some, ok, arith, All, ◌&&◌, throw_if-eq-ok,
  if◌then◌else◌, Bool-cases, inl, inr,
}
use agentplace.Authority.Types.{
  AuthorityEnvironment, AuthorityLevel, WalletMode, MandatePolicyInput, act_within_mandate, is_act,
}
use agentplace.Text.{Text}
use agentplace.Authority.Inputs.{Outcome}
use agentplace.Authority.Normalize.{normalize_policy}
use agentplace.Authority.Normalize.Ready.{IsReady, normalize_policy-IsReady}
use agentplace.Authority.Store.{Mandate, Store, expire_one, is_standing, is_revoked, runs_out}
use agentplace.Authority.Mandates.{
  CreateMandateInput, new_mandate, revised, NextStatus, to_active, to_paused, to_revoked,
  with_status, transition, activation_checks, revoke_one, is_to_active, Call, step, run, to_revoke,
}
use agentplace.Authority.Mandates.Rows.{step-All}

-- The earlier revisions are numbered downwards from the one before the current.
abbrev pub Numbered : ℕ → List (ℕ × MandatePolicyInput) → Type 0
Numbered n [] = n ≡ 1
Numbered n ((k, p) ∷ past) = (n ≡ suc k) × Numbered k past

-- A mandate of level ACT WITHIN MANDATE that is active or paused has its allow-list, hard limits
-- and end, and no revision is missing from the history.
pub record IsSound (m : Mandate) : Type 0 where
  pub ready :
      is_standing m.status ≡ true → m.policy.authority_level ≡ act_within_mandate → IsReady m.policy
  pub numbered : Numbered m.current_revision m.past

expire_one-IsSound : (now : ℕ) (m : Mandate) → IsSound m → IsSound (expire_one now m)
unfolding expire_one
expire_one-IsSound now m s = elim (Bool-cases (runs_out now m)) [
  | inl h ↦ rw h (record { ready = λ a b. cc; numbered = s.numbered })
  | inr h ↦ rw h s
]

revoke_one-IsSound :
    (e : Option AuthorityEnvironment) (now : ℕ) (m : Mandate)
    → IsSound m
    → IsSound (revoke_one e now m)
unfolding revoke_one
revoke_one-IsSound e now m s = elim (Bool-cases (to_revoke e m)) [
  | inl h ↦ rw h (record { ready = λ a b. cc; numbered = s.numbered })
  | inr h ↦ rw h s
]

new_mandate-IsSound :
    (now : ℕ) (i : CreateMandateInput) (id : Text) (mode : WalletMode) (q : MandatePolicyInput)
    → normalize_policy i.policy (some mode) i.activate now ≡ ok q
    → IsSound (new_mandate i id q now)
new_mandate-IsSound now i id mode q h = record {
  ready =
      λ a b. (normalize_policy-IsReady i.policy q (some mode) i.activate now h).4 (ground arith) b;
  numbered = refl;
}

revised-standing :
    (m : Mandate) (q : MandatePolicyInput)
    → is_standing (revised q m).status ≡ true
    → is_standing m.status ≡ true
unfolding revised
revised-standing m q h = ground arith

revised-IsSound :
    (now : ℕ) (m : Mandate) (p q : MandatePolicyInput) (mode : WalletMode)
    → IsSound m
    → is_revoked m.status ≡ false
    → normalize_policy p (some mode) (is_standing m.status) now ≡ ok q
    → IsSound (revised q m)
unfolding revised
revised-IsSound now m p q mode s live h = record {
  ready = λ a b.
      (normalize_policy-IsReady p q (some mode) (is_standing m.status) now h).4
        (revised-standing m q a) b;
  numbered = (refl, s.numbered);
}

activation_checks-IsReady :
    (mode : WalletMode) (p : MandatePolicyInput) → activation_checks mode p ≡ ok tt → IsReady p
unfolding activation_checks
activation_checks-IsReady mode p h =
    let (_, h₁) = throw_if-eq-ok _ _ _ h in
    let (listed, h₂) = throw_if-eq-ok _ _ _ h₁ in
    let (limits, h₃) = throw_if-eq-ok _ _ _ h₂ in
    let (ends, _) = throw_if-eq-ok _ _ _ h₃ in
    record {
      listed = ground arith;
      assets = λ e. ground arith;
      per_action = λ e. ground arith;
      period = λ e. ground arith;
      end = λ e. ground arith;
    }

checked_to_act :
    (l : AuthorityLevel) (checks : Outcome (Unit {0}))
    → l ≡ act_within_mandate
    → (if is_act l then checks else ok tt) ≡ ok tt
    → checks ≡ ok tt
checked_to_act l checks a h = elim (Bool-cases (is_act l)) [
  | inl y ↦ rw y at h
  | inr n ↦ ground arith
]

with_status-IsSound :
    (now : ℕ) (m : Mandate) (next : NextStatus) (mode : WalletMode)
    → IsSound m
    → transition m.status next ≡ true
    → (if is_to_active next && is_act m.policy.authority_level
        then activation_checks mode m.policy
        else ok tt)
      ≡ ok tt
    → IsSound (with_status next now m)
unfolding with_status transition
with_status-IsSound now m to_active mode s t c = record {
  ready = λ a b.
      activation_checks-IsReady mode m.policy
        (checked_to_act m.policy.authority_level (activation_checks mode m.policy) b c);
  numbered = s.numbered;
}
with_status-IsSound now m to_paused mode s t c = record {
  ready = λ a b. s.ready (ground arith) b;
  numbered = s.numbered;
}
with_status-IsSound now m to_revoked mode s t c = record {
  ready = λ a b. cc;
  numbered = s.numbered;
}

step-IsSound :
    (now : ℕ) (c : Call) (s : Store) → All IsSound s.mandates → All IsSound (step now c s).mandates
step-IsSound now =
    step-All IsSound now (expire_one-IsSound now) (λ e m. revoke_one-IsSound e now m)
      (new_mandate-IsSound now) (revised-IsSound now) (with_status-IsSound now)

-- Whatever calls are made, and at whatever times, a mandate that is active or paused and delegates
-- acting has an asset allow-list, both hard limits and an end; and the revisions of every mandate
-- are numbered from 1 on with none missing.
pub run-IsSound :
    (cs : List (ℕ × Call)) (s : Store) → All IsSound s.mandates → All IsSound (run cs s).mandates
unfolding run
run-IsSound [] s h = h
run-IsSound ((now, c) ∷ cs) s h = run-IsSound cs (step now c s) (step-IsSound now c s h)
