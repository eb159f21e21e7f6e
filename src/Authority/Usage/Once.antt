-- ===== src/Authority/Usage/Once.antt =====
-- No decision is counted twice, and only what was allowed is counted,
-- packages/authority/src/index.ts.
use agentplace.Prelude.{
  ℕ, ◌≡◌, refl, Bool, true, false, List, [], ◌∷◌, Option, none, some, ok, throw, arith, >>=-eq-ok,
  >>-eq-ok, throw_if-eq-ok, or_throw, ok-injective, any, map, includes, All, Distinct, ◌===◌,
  Bool-cases, inl, inr, subst, sym, ap, ◌∙◌,
}
use agentplace.Text.{Text, text_eq}
use agentplace.Authority.Types.{ActionEnvelope, allowed}
use agentplace.Authority.Inputs.{Outcome, is_present, syntax}
use agentplace.Authority.Store.{Mandate, Store, expire_mandates}
use agentplace.Authority.Envelope.{normalize_envelope}
use agentplace.Authority.Numeric.{Numeric}
use agentplace.Authority.Decisions.{
  DecisionRow, BudgetUsage, AuthorityTables, find_decision, Columns, decide, decided,
  evaluate_normalized, evaluate_authority, DurableAuthorityDecision, read_mandate, mandate_for,
  period_spent, stored_value, set_autonomous_execution_paused,
}
use agentplace.Authority.Usage.{
  recordable, counts, record_new, record_once, record_authority_usage, committed_usage,
  current_mandate, AuthorityCall, changes, evaluates, pauses, records, authority_step,
  run_authority,
}
use agentplace.Authority.Usage.Within.{recordable-ok}
use agentplace.Authority.Usage.Counted.{or_throw-eq-ok}

-- The decision that a usage counts: allowed, for the mandate, revision and value of the usage.
pub record IsGranted (ds : List DecisionRow) (u : BudgetUsage) : Type 0 where
  pub decision : DecisionRow
  pub found : find_decision u.authority_decision_id ds ≡ some decision
  pub is_allowed : decision.decision ≡ allowed
  pub same_mandate : decision.mandate_id ≡ some u.mandate_id
  pub same_revision : decision.mandate_revision ≡ some u.mandate_revision
  pub same_value : decision.evaluated_value_usd ≡ some u.value_usd

abbrev pub decision_ids : List BudgetUsage → List Text
decision_ids us = map (λ (u : BudgetUsage). u.authority_decision_id) us

pub record IsAccounted (t : AuthorityTables) : Type 0 where
  pub once : Distinct (decision_ids t.usages)
  pub granted : All (IsGranted t.decisions) t.usages

uncounted :
    (id : Text) (us : List BudgetUsage)
    → any (counts id) us ≡ false
    → includes (decision_ids us) id ≡ false
uncounted id [] h = refl
uncounted id (u ∷ us) h = ground (arith, uncounted id us)

find-new :
    (d : DecisionRow) (ds : List DecisionRow) (id : Text) (e : DecisionRow)
    → find_decision d.id ds ≡ none
    → find_decision id ds ≡ some e
    → find_decision id (d ∷ ds) ≡ some e
unfolding find_decision
find-new d ds id e free h = elim (Bool-cases (d.id === id)) [
  | inl y ↦
      let same = (text_eq.same_iff d.id id).0 y in
      absurd (never (sym (subst (λ i. find_decision i ds ≡ none) same free) ∙ h))
  | inr n ↦ rw n h
]
  where
    never : none ≡ some e → ⊥
    never p = cc

IsGranted-new :
    (d : DecisionRow) (ds : List DecisionRow) (us : List BudgetUsage)
    → find_decision d.id ds ≡ none
    → All (IsGranted ds) us
    → All (IsGranted (d ∷ ds)) us
IsGranted-new d ds [] free h = tt
IsGranted-new d ds (u ∷ us) free (h, hs) = (
  record {
    decision = h.decision;
    found = find-new d ds u.authority_decision_id h.decision free h.found;
    is_allowed = h.is_allowed;
    same_mandate = h.same_mandate;
    same_revision = h.same_revision;
    same_value = h.same_value;
  },
  IsGranted-new d ds us free hs,
)

-- An evaluation adds a decision of a new id at most.
data IsLogged (t t' : AuthorityTables) : Type 0 where
  unlogged : t'.decisions ≡ t.decisions → t'.usages ≡ t.usages → IsLogged t t'
  logged :
      (d : DecisionRow)
      → find_decision d.id t.decisions ≡ none
      → t'.decisions ≡ d ∷ t.decisions
      → t'.usages ≡ t.usages
      → IsLogged t t'

module _ (n : Numeric) (c : Columns) where
  decide-IsLogged :
      (enabled : Bool) (e : ActionEnvelope) (m : Option Mandate) (id : Text) (now : ℕ) (s : Store)
      (t : AuthorityTables) (r : AuthorityTables × DurableAuthorityDecision)
      → decide n c enabled e m id now s t ≡ ok r
      → IsLogged t r.0
  unfolding decide
  decide-IsLogged enabled e m id now s t r h =
      let (spent, _, h₁) = >>=-eq-ok (period_spent n _ _ _) _ h in
      let (evaluation, _, h₂) = >>=-eq-ok (syntax _) _ h₁ in
      let (free, h₃) = throw_if-eq-ok _ _ _ h₂ in
      let (value, _, h₄) = >>=-eq-ok (stored_value n _) _ h₃ in
      let same =
        ap (λ (p : AuthorityTables × DurableAuthorityDecision). p.0) (sym (ok-injective h₄)) in
      logged _ (absent (find_decision id t.decisions) free)
        (ap (λ (x : AuthorityTables). x.decisions) same)
        (ap (λ (x : AuthorityTables). x.usages) same)
    where
      absent : (o : Option DecisionRow) → is_present o ≡ false → o ≡ none
      absent none p = refl
      absent (some d) p = cc

  decided-IsLogged :
      (enabled : Bool) (t : AuthorityTables) (s s' : Store)
      (o : Outcome (AuthorityTables × DurableAuthorityDecision))
      → ((r : AuthorityTables × DurableAuthorityDecision)
          → o ≡ ok r
          → IsLogged (record t { store = s }) r.0)
      → IsLogged t (decided n c enabled s' (record t { store = s }) o).0
  unfolding decided
  decided-IsLogged enabled t s s' (throw e) k = unlogged refl refl
  decided-IsLogged enabled t s s' (ok r) k = elim (k r refl) [
    | unlogged d u ↦ unlogged d u
    | logged x f d u ↦ logged x f d u
  ]

  evaluate_normalized-IsLogged :
      (enabled : Bool) (o : Outcome ActionEnvelope) (id : Text) (now : ℕ) (t : AuthorityTables)
      → IsLogged t (evaluate_normalized n c enabled o id now t).0
  unfolding evaluate_normalized decided
  evaluate_normalized-IsLogged enabled (throw e) id now t = unlogged refl refl
  evaluate_normalized-IsLogged enabled (ok e) id now t =
      let s = expire_mandates now t.store in
      let read = read_mandate (mandate_for c e s) now s in
      decided-IsLogged enabled t s read.0
        (decide n c enabled e read.1 id now read.0 (record t { store = s }))
        (λ r h. decide-IsLogged enabled e read.1 id now read.0 (record t { store = s }) r h)

  evaluate_authority-IsLogged :
      (enabled : Bool) (raw : ActionEnvelope) (id : Text) (now : ℕ) (t : AuthorityTables)
      → IsLogged t (evaluate_authority n c enabled raw id now t).0
  unfolding evaluate_authority
  evaluate_authority-IsLogged enabled raw id now t =
      evaluate_normalized-IsLogged enabled (normalize_envelope raw) id now t

  IsLogged-IsAccounted : (t t' : AuthorityTables) → IsLogged t t' → IsAccounted t → IsAccounted t'
  IsLogged-IsAccounted t t' (unlogged d u) h = record {
    once = subst (λ us. Distinct (decision_ids us)) (sym u) h.once;
    granted =
        subst (λ us. All (IsGranted t'.decisions) us) (sym u)
          (subst (λ ds. All (IsGranted ds) t.usages) (sym d) h.granted);
  }
  IsLogged-IsAccounted t t' (logged x free d u) h = record {
    once = subst (λ us. Distinct (decision_ids us)) (sym u) h.once;
    granted =
        subst (λ us. All (IsGranted t'.decisions) us) (sym u)
          (subst (λ ds. All (IsGranted ds) t.usages) (sym d)
            (IsGranted-new x t.decisions t.usages free h.granted));
  }

  record_new-IsAccounted :
      (d : DecisionRow) (id mandate_id : Text) (revision value now : ℕ) (t t' : AuthorityTables)
      → any (counts id) t.usages ≡ false
      → find_decision id t.decisions ≡ some d
      → recordable d ≡ ok (mandate_id, revision, value)
      → record_new n id mandate_id revision value now t ≡ ok t'
      → IsAccounted t
      → IsAccounted t'
  unfolding record_new
  record_new-IsAccounted d id mandate_id revision value now t t' new found r h a =
      let (m, _, h₁) = >>=-eq-ok (current_mandate _ _) _ h in
      let (b, _, h₂) = >>=-eq-ok (or_throw _ _) _ h₁ in
      let (_, _, h₃) = >>-eq-ok _ _ h₂ in
      let (_, h₄) = throw_if-eq-ok _ _ _ h₃ in
      let (is_allowed, mandate, rev, val) = recordable-ok _ _ _ _ mandate_id revision value r in
      subst IsAccounted (ok-injective h₄) (record {
        once = (uncounted id t.usages new, a.once);
        granted = (
          record {
            decision = d;
            found = found;
            is_allowed = is_allowed;
            same_mandate = mandate;
            same_revision = rev;
            same_value = val;
          },
          a.granted,
        );
      })

  record_authority_usage-IsAccounted :
      (id : Text) (now : ℕ) (t t' : AuthorityTables)
      → record_authority_usage n id now t ≡ ok t'
      → IsAccounted t
      → IsAccounted t'
  unfolding record_authority_usage record_once
  record_authority_usage-IsAccounted id now t t' h a =
      let (d, found, h₁) = >>=-eq-ok (or_throw _ _) _ h in
      let (r, columns, h₂) = >>=-eq-ok (recordable d) _ h₁ in
      once (any (counts id) t.usages) refl d r (or_throw-eq-ok _ _ d found) columns h₂
    where
      once :
          (b : Bool)
          → any (counts id) t.usages ≡ b
          → (d : DecisionRow) (r : Text × ℕ × ℕ) → find_decision id t.decisions ≡ some d
          → recordable d ≡ ok r
          → record_once n b id r.0 r.1 r.2 now t ≡ ok t'
          → IsAccounted t'
      once true e d r found columns h = subst IsAccounted (ok-injective h) a
      once false e d r found columns h =
          record_new-IsAccounted d id r.0 r.1 r.2 now t t' e found columns h a

  committed-IsAccounted :
      (t : AuthorityTables) (o : Outcome AuthorityTables)
      → ((t' : AuthorityTables) → o ≡ ok t' → IsAccounted t')
      → IsAccounted t
      → IsAccounted (committed_usage t o)
  unfolding committed_usage
  committed-IsAccounted t (throw e) k a = a
  committed-IsAccounted t (ok t') k a = k t' refl

  authority_step-IsAccounted :
      (now : ℕ) (call : AuthorityCall) (t : AuthorityTables)
      → IsAccounted t
      → IsAccounted (authority_step n c now call t)
  unfolding authority_step set_autonomous_execution_paused
  authority_step-IsAccounted now (changes call) t a = record { once = a.once; granted = a.granted }
  authority_step-IsAccounted now (evaluates enabled e id) t a =
      IsLogged-IsAccounted t _ (evaluate_authority-IsLogged enabled e id now t) a
  authority_step-IsAccounted now (pauses e stop) t a = record { once = a.once; granted = a.granted }
  authority_step-IsAccounted now (records id) t a =
      committed-IsAccounted t _ (λ t' h. record_authority_usage-IsAccounted id now t t' h a) a

  -- Whatever calls are made, on mandates, evaluations, the pause and the counting of decisions, and
  -- whenever: no decision is counted twice, and every usage counts a decision that was allowed, for
  -- the mandate, the revision and the value of that decision.
  pub run_authority-IsAccounted :
      (calls : List (ℕ × AuthorityCall)) (t : AuthorityTables)
      → IsAccounted t
      → IsAccounted (run_authority n c calls t)
  unfolding run_authority
  run_authority-IsAccounted [] t a = a
  run_authority-IsAccounted ((now, call) ∷ calls) t a =
      run_authority-IsAccounted calls (authority_step n c now call t)
        (authority_step-IsAccounted now call t a)
