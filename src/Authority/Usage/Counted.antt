-- ===== src/Authority/Usage/Counted.antt =====
-- What a successful `recordAuthorityUsage` has done, packages/authority/src/index.ts.
use agentplace.Prelude.{
  ℕ, ◌+◌, ◌≤◌, ◌≡◌, refl, Bool, true, false, List, ◌∷◌, Option, none, some, ok, arith, >>=-eq-ok,
  >>-eq-ok, throw_if-eq-ok, or_throw, ok-injective, leb, any, ===-refl, inl, inr, ◌⊎◌, subst, sym,
  ap, ◌∙◌, le→leb,
}
use agentplace.Text.{Text, text_eq}
use agentplace.Authority.Inputs.{AuthorityError}
use agentplace.Authority.Store.{find_mandate}
use agentplace.Authority.Period.{period_start}
use agentplace.Authority.Numeric.{Numeric, IsNumeric}
use agentplace.Authority.Decisions.{
  DecisionRow, BudgetUsage, AuthorityTables, find_decision, spent_since,
}
use agentplace.Authority.Mandates.Rows.{found_id}
use agentplace.Authority.Usage.{
  recordable, current_mandate, counts, record_new, record_once, record_authority_usage,
}
use agentplace.Authority.Usage.Within.{
  check_usage_budget-within, period_start-le, current_mandate-ok, recordable-ok, IsCounted,
}

pub or_throw-eq-ok {ℓ} :
    {A : Type ℓ} (o : Option A) (e : AuthorityError) (a : A) → or_throw o e ≡ ok a → o ≡ some a
unfolding or_throw
or_throw-eq-ok none e a h = cc
or_throw-eq-ok (some b) e a h = ap some (ok-injective h)

spent-new :
    (start now : ℕ) (u : BudgetUsage) (us : List BudgetUsage)
    → start ≤ now
    → u.occurred_at ≡ now
    → spent_since start u.mandate_id (u ∷ us) ≡ u.value_usd + spent_since start u.mandate_id us
unfolding spent_since
spent-new start now u us h e =
    let late : leb start u.occurred_at ≡ true = le→leb start u.occurred_at (rw e h) in
    rw (===-refl u.mandate_id) (rw late refl)

record_new-IsCounted :
    (n : Numeric) (d : DecisionRow) (id mandate_id : Text) (revision value now : ℕ)
    (t t' : AuthorityTables)
    → IsNumeric n
    → find_decision id t.decisions ≡ some d
    → recordable d ≡ ok (mandate_id, revision, value)
    → record_new n id mandate_id revision value now t ≡ ok t'
    → IsCounted id now t t'
unfolding record_new
record_new-IsCounted n d id mandate_id revision value now t t' laws found r h =
    let (m, p₁, h₁) = >>=-eq-ok (current_mandate _ _) _ h in
    let (b, p₂, h₂) = >>=-eq-ok (or_throw _ _) _ h₁ in
    let (_, p₃, h₃) = >>-eq-ok _ _ h₂ in
    let (_, h₄) = throw_if-eq-ok _ _ _ h₃ in
    let (there, is_active, is_revision) = current_mandate-ok revision _ m p₁ in
    let (is_allowed, a, c, _) = recordable-ok _ _ _ _ mandate_id revision value r in
    let (limit, limited, fits) = check_usage_budget-within n b _ value laws p₃ in
    let m_id : m.id ≡ mandate_id = found_id mandate_id _ m there in
    let u : BudgetUsage = record {
      mandate_id = mandate_id;
      mandate_revision = revision;
      authority_decision_id = id;
      value_usd = value;
      occurred_at = now;
    } in
    let start = period_start b.period now in
    let sum = spent-new start now u t.usages (period_start-le b.period now) refl in
    let left : u ∷ t.usages ≡ t'.usages =
      ap (λ (x : AuthorityTables). x.usages) (ok-injective h₄) in
    let low : spent_since start mandate_id (u ∷ t.usages) ≤ limit = omega arith in
    record {
      decision = d;
      found = found;
      is_allowed = is_allowed;
      mandate = m;
      standing = subst (λ i. find_mandate i t.store.mandates ≡ some m) (sym m_id) there;
      is_active = is_active;
      same_mandate = a ∙ ap some (sym m_id);
      same_revision = c ∙ ap some (sym is_revision);
      budget = b;
      budgeted = or_throw-eq-ok _ _ b p₂;
      limit = limit;
      limited = limited;
      within =
          subst (λ us. spent_since start m.id us ≤ limit) left
            (subst (λ i. spent_since start i (u ∷ t.usages) ≤ limit) (sym m_id) low);
      counted = subst (λ us. any (counts id) us ≡ true) left (rw (===-refl id) refl);
    }

-- Counting a decision against its budget, where PostgreSQL reads and prints amounts as documented:
-- a call that succeeds either finds the decision counted already and changes nothing, or the
-- decision was allowed for a mandate that is active at the same revision with a period budget, and
-- what the mandate has spent since the start of the period, this value included, is not above the
-- limit of the budget.
pub record_authority_usage-IsCounted :
    (n : Numeric) (id : Text) (now : ℕ) (t t' : AuthorityTables)
    → IsNumeric n
    → record_authority_usage n id now t ≡ ok t'
    → ((any (counts id) t.usages ≡ true) × (t' ≡ t)) ⊎ IsCounted id now t t'
unfolding record_authority_usage record_once
record_authority_usage-IsCounted n id now t t' laws h =
    let (d, found, h₁) = >>=-eq-ok (or_throw _ _) _ h in
    let (r, columns, h₂) = >>=-eq-ok (recordable d) _ h₁ in
    once (any (counts id) t.usages) refl d r (or_throw-eq-ok _ _ d found) columns h₂
  where
    once :
        (b : Bool)
        → any (counts id) t.usages ≡ b
        → (d : DecisionRow) (r : Text × ℕ × ℕ) → find_decision id t.decisions ≡ some d
        → recordable d ≡ ok r
        → record_once n b id r.0 r.1 r.2 now t ≡ ok t'
        → ((any (counts id) t.usages ≡ true) × (t' ≡ t)) ⊎ IsCounted id now t t'
    once true e d r found columns h = inl (e, sym (ok-injective h))
    once false e d r found columns h =
        inr (record_new-IsCounted n d id r.0 r.1 r.2 now t t' laws found columns h)
