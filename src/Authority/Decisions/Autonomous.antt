-- ===== src/Authority/Decisions/Autonomous.antt =====
-- What an allowed decision of `evaluateAuthority` (packages/authority/src/index.ts) means on the
-- tables: the mandate it read, the pause, and what was spent.
use agentplace.Prelude.{
  ℕ, ◌≡◌, refl, Bool, false, Option, none, some, ok, throw, >>=-eq-ok, throw_if-eq-ok, ok-injective,
  if◌then◌else◌, ===-refl, subst, sym, ap, ◌∙◌, Result,
}
use agentplace.Text.{Text, text_eq}
use agentplace.Decimal.{DecimalError}
use agentplace.Authority.Types.{
  AuthorityEnvironment, mainnet, testnet, is_mainnet, ActionEnvelope, MandatePolicySnapshot,
  allowed, execute,
}
use agentplace.Authority.Inputs.{Outcome, syntax}
use agentplace.Authority.Evaluate.Spec.{IsWithin, IsAutonomous}
use agentplace.Authority.Evaluate.Allowed.{evaluate-IsAutonomous}
use agentplace.Authority.Store.{Mandate, Store, find_mandate, expire_mandates, get_mandate}
use agentplace.Authority.Mandates.Rows.{found_id}
use agentplace.Authority.Envelope.{normalize_envelope}
use agentplace.Authority.Numeric.{Numeric}
use agentplace.Authority.Decisions.{
  DecisionRow, AuthorityTables, DurableAuthorityDecision, Columns, to_snapshot, snapshot_of,
  is_paused, get_authority_control_state, find_decision, read_mandate, mandate_for, period_spent,
  stored_value, evaluation_input, decision_row, decide, decided, evaluate_normalized,
  evaluate_authority,
}

-- An execution that `evaluateAuthority` allowed: the mandate stands in the tables, the decision is
-- logged for its current revision, and with what is spent in the period the policy admits the
-- action without a human.
pub record IsAuthorized (n : Numeric) (c : Columns) (enabled : Bool) (now : ℕ)
    (t t' : AuthorityTables) (d : DurableAuthorityDecision) : Type 0 where
  pub mandate : Mandate
  pub standing : find_mandate mandate.id t'.store.mandates ≡ some mandate
  pub running : is_paused d.environment t.controls ≡ false
  pub spent : Text
  pub spending : period_spent n (some mandate) now t.usages ≡ ok spent
  pub within :
      IsWithin
        (evaluation_input n c enabled d.action_envelope
          (some mandate)
          spent
          now
          (record t { store = expire_mandates now t.store }))
        (to_snapshot c mandate)
  pub autonomous :
      IsAutonomous
        (evaluation_input n c enabled d.action_envelope
          (some mandate)
          spent
          now
          (record t { store = expire_mandates now t.store }))
        (to_snapshot c mandate)
  pub row : DecisionRow
  pub logged : find_decision d.id t'.decisions ≡ some row
  pub row_decision : row.decision ≡ allowed
  pub row_mandate : row.mandate_id ≡ some mandate.id
  pub row_revision : row.mandate_revision ≡ some mandate.current_revision

syntax-ok : {A : Type 0} (m : Result DecimalError A) (a : A) → syntax m ≡ ok a → m ≡ ok a
syntax-ok (ok b) a h = let same : b ≡ a = cc in ap ok same
syntax-ok (throw e) a h = cc

not_paused :
    (e : AuthorityEnvironment) (t : AuthorityTables)
    → (if is_mainnet e
        then (get_authority_control_state t).mainnet_paused
        else (get_authority_control_state t).testnet_paused)
      ≡ false
    → is_paused e t.controls ≡ false
unfolding get_authority_control_state
not_paused mainnet t h = h
not_paused testnet t h = h

decide-IsAuthorized :
    (n : Numeric) (c : Columns) (enabled : Bool) (e : ActionEnvelope) (m : Option Mandate)
    (id : Text) (now : ℕ) (s : Store) (t : AuthorityTables)
    (r : AuthorityTables × DurableAuthorityDecision)
    → ((k : Mandate) → m ≡ some k → find_mandate k.id s.mandates ≡ some k)
    → decide n c enabled e m id now s (record t { store = expire_mandates now t.store }) ≡ ok r
    → (r.1).decision ≡ allowed
    → (r.1).action_envelope.operation ≡ execute
    → IsAuthorized n c enabled now t r.0 r.1
unfolding decide find_decision snapshot_of
decide-IsAuthorized n c enabled e none id now s t r read h a x =
    let (spent, _, h₁) = >>=-eq-ok (period_spent n _ _ _) _ h in
    let (evaluation, evaluated, h₂) = >>=-eq-ok (syntax _) _ h₁ in
    let (_, h₃) = throw_if-eq-ok _ _ _ h₂ in
    let (value, _, h₄) = >>=-eq-ok (stored_value n _) _ h₃ in
    let is_allowed =
      ap (λ (p : AuthorityTables × DurableAuthorityDecision). (p.1).decision) (ok-injective h₄)
      ∙ a in
    let executes =
      ap (λ (p : AuthorityTables × DurableAuthorityDecision). (p.1).action_envelope.operation)
        (ok-injective h₄)
      ∙ x in
    let (v, within, _) =
      evaluate-IsAutonomous _ evaluation (syntax-ok _ evaluation evaluated) is_allowed executes in
    absurd (never v within.mandate)
  where
    never : (v : MandatePolicySnapshot) → none ≡ some v → ⊥
    never v p = cc
decide-IsAuthorized n c enabled e (some k) id now s t r read h a x =
    let t₁ = record t { store = expire_mandates now t.store } in
    let (spent, spending, h₁) = >>=-eq-ok (period_spent n _ _ _) _ h in
    let (evaluation, evaluated, h₂) = >>=-eq-ok (syntax _) _ h₁ in
    let (_, h₃) = throw_if-eq-ok _ _ _ h₂ in
    let (value, _, h₄) = >>=-eq-ok (stored_value n _) _ h₃ in
    let made = ok-injective h₄ in
    let is_allowed =
      ap (λ (p : AuthorityTables × DurableAuthorityDecision). (p.1).decision) made ∙ a in
    let i = evaluation_input n c enabled e (some k) spent now t₁ in
    let executes =
      ap (λ (p : AuthorityTables × DurableAuthorityDecision). (p.1).action_envelope.operation)
        (ok-injective h₄)
      ∙ x in
    let (v, within, autonomous) =
      evaluate-IsAutonomous i evaluation (syntax-ok _ evaluation evaluated) is_allowed executes in
    let same = snapshot_is v within.mandate in
    subst
      (λ (p : AuthorityTables × DurableAuthorityDecision). IsAuthorized n c enabled now t p.0 p.1)
      made
      (record {
        mandate = k;
        standing = read k refl;
        running = not_paused e.environment t₁ autonomous.running;
        spent = spent;
        spending = spending;
        within = subst (IsWithin i) (sym same) within;
        autonomous = subst (IsAutonomous i) (sym same) autonomous;
        row = decision_row id e (some k) evaluation value now;
        logged = rw (===-refl id) refl;
        row_decision = is_allowed;
        row_mandate = refl;
        row_revision = refl;
      })
  where
    snapshot_is :
        (v : MandatePolicySnapshot) → some (to_snapshot c k) ≡ some v → to_snapshot c k ≡ v
    snapshot_is v p = cc

decided-eq-ok :
    (n : Numeric) (c : Columns) (enabled : Bool) (s : Store) (t : AuthorityTables)
    (o : Outcome (AuthorityTables × DurableAuthorityDecision)) (d : DurableAuthorityDecision)
    → (decided n c enabled s t o).1 ≡ ok d
    → (t' : AuthorityTables) × (o ≡ ok (t', d)) × ((decided n c enabled s t o).0 ≡ t')
unfolding decided
decided-eq-ok n c enabled s t (throw e) d h = cc
decided-eq-ok n c enabled s t (ok (t', d')) d h =
    (t', ap (λ (x : DurableAuthorityDecision). ok (t', x)) (ok-injective h), refl)

read_mandate-standing :
    (o : Option Mandate) (now : ℕ) (s : Store) (k : Mandate)
    → (read_mandate o now s).1 ≡ some k
    → find_mandate k.id (read_mandate o now s).0.mandates ≡ some k
unfolding read_mandate get_mandate
read_mandate-standing none now s k h = cc
read_mandate-standing (some m) now s k h =
    subst (λ i. find_mandate i (expire_mandates now s).mandates ≡ some k)
      (sym (found_id m.id (expire_mandates now s).mandates k h)) h

-- An execution that `evaluateAuthority` allows is authorized: the mandate that it read stands in the
-- tables and belongs to the Worker, account and environment; with the current pause, account and
-- spending of the period the policy of its current revision admits the action, and needs no human;
-- and the decision is logged as allowed, for that mandate and revision.
pub evaluate_authority-IsAuthorized :
    (n : Numeric) (c : Columns) (enabled : Bool) (raw : ActionEnvelope) (id : Text) (now : ℕ)
    (t : AuthorityTables) (d : DurableAuthorityDecision)
    → (evaluate_authority n c enabled raw id now t).1 ≡ ok d
    → d.decision ≡ allowed
    → d.action_envelope.operation ≡ execute
    → IsAuthorized n c enabled now t (evaluate_authority n c enabled raw id now t).0 d
unfolding evaluate_authority evaluate_normalized decided
evaluate_authority-IsAuthorized n c enabled raw id now t d h a x =
    normalized (normalize_envelope raw) h
  where
    normalized :
        (o : Outcome ActionEnvelope)
        → (evaluate_normalized n c enabled o id now t).1 ≡ ok d
        → IsAuthorized n c enabled now t (evaluate_normalized n c enabled o id now t).0 d
    normalized (throw e) h = absurd (never h)
      where
        never : ◌≡◌ {A = Outcome DurableAuthorityDecision} (throw e) (ok d) → ⊥
        never p = cc
    normalized (ok e) h =
        let s = expire_mandates now t.store in
        let read = read_mandate (mandate_for c e s) now s in
        let o = decide n c enabled e read.1 id now read.0 (record t { store = s }) in
        let (t', done, left) = decided-eq-ok n c enabled read.0 (record t { store = s }) o d h in
        subst (λ u. IsAuthorized n c enabled now t u d) (sym left)
          (decide-IsAuthorized n c enabled e read.1 id now read.0 t (t', d)
            (λ k is. read_mandate-standing (mandate_for c e s) now s k is) done a x)
