-- ===== src/Authority/Usage/Within.antt =====
-- `recordAuthorityUsage` keeps within the period budget, packages/authority/src/index.ts.
use agentplace.Prelude.{
  ℕ, ◌+◌, ◌-◌, ◌*◌, ◌/◌, ◌^◌, ◌≤◌, ◌≡◌, refl, Bool, true, false, ◌&&◌, Option, none, some, ok,
  throw, arith, ◌>>=◌, >>=-eq-ok, throw_if, ok-injective, ◌==◌, ==_iff, ltb, any, Bool-cases, inl,
  inr, subst, sym, ap, ◌∙◌, and-true, ltb→le, ltb→lt, Result,
}
use agentplace.Text.{Text, text_eq}
use agentplace.Decimal.{DecimalError, units, from_units, canonical_decimal, invalid_decimal}
use agentplace.Decimal.RoundTrip.{
  units-from_units, units-from_units_large, greater_than-add_decimal_inv,
}
use agentplace.Authority.Types.{
  MandateStatus, approval_required, denied, BudgetPeriod, day, week, month, Budget, allowed, active,
  AuthorityDecisionValue,
}
use agentplace.Authority.Inputs.{
  Outcome, syntax, authority_period_budget_exceeded_at_record, authority_decision_stale,
  authority_usage_not_recordable,
}
use agentplace.Authority.Store.{Mandate, find_mandate}
use agentplace.Authority.Period.{day_length, period_start, get_utc_date, week_offset, get_utc_day}
use agentplace.Authority.Numeric.{Numeric, IsNumeric}
use agentplace.Authority.Decisions.{DecisionRow, AuthorityTables, find_decision, spent_since}
use agentplace.Authority.Usage.{
  is_active, recordable_columns, current_mandate, counts, check_usage_budget,
}

syntax-eq-ok : {A : Type 0} (m : Result DecimalError A) (a : A) → syntax m ≡ ok a → m ≡ ok a
syntax-eq-ok (ok b) a h = let same : b ≡ a = cc in ap ok same
syntax-eq-ok (throw e) a h = cc

-- A printed amount that is read again is the amount.
units-from_units_inv : (n m : ℕ) → units (from_units n) ≡ ok m → n ≡ m
units-from_units_inv n m h = elim (Bool-cases (ltb n (10 ^ 30))) [
  | inl y ↦ ok-injective (sym (units-from_units n (ltb→lt _ _ y)) ∙ h)
  | inr y ↦ absurd (never (sym (units-from_units_large n (ltb→le _ _ y)) ∙ h))
]
  where
    never : ◌≡◌ {A = Result DecimalError ℕ} (throw invalid_decimal) (ok m) → ⊥
    never e = cc

-- The limit of a budget in units, as the code reads it.
abbrev pub limit_units : Budget → Result DecimalError ℕ
limit_units b = canonical_decimal b.limit_usd >>= units

back_le : (now back : ℕ) → (now / day_length - back) * day_length ≤ now
back_le now back = omega arith

pub check_usage_budget-within :
    (n : Numeric) (b : Budget) (spent value : ℕ)
    → IsNumeric n
    → check_usage_budget n b spent value ≡ ok tt
    → (limit : ℕ) × (limit_units b ≡ ok limit) × (spent + value ≤ limit)
unfolding check_usage_budget ◌>>=◌ throw_if
check_usage_budget-within n b spent value laws h =
    let (before, p₁, h₁) = >>=-eq-ok (syntax _) _ h in
    let (amount, p₂, h₂) = >>=-eq-ok (syntax _) _ h₁ in
    let (after, p₃, h₃) = >>=-eq-ok (syntax _) _ h₂ in
    let (limit, p₄, h₄) = >>=-eq-ok (syntax _) _ h₃ in
    let (over, p₅, h₅) = >>=-eq-ok (syntax _) _ h₄ in
    let not_over = not_thrown over h₅ in
    let before_is : before ≡ from_units spent =
      ok-injective (sym (syntax-eq-ok _ before p₁) ∙ laws.print_units spent) in
    let amount_is : amount ≡ from_units value =
      ok-injective (sym (syntax-eq-ok _ amount p₂) ∙ laws.print_units value) in
    let (i, j, k, a, c, l, over_is) =
      greater_than-add_decimal_inv before amount limit after over (syntax-eq-ok _ after p₃)
        (syntax-eq-ok _ over p₅) in
    let i_is = units-from_units_inv spent i (subst (λ t. units t ≡ ok i) before_is a) in
    let j_is = units-from_units_inv value j (subst (λ t. units t ≡ ok j) amount_is c) in
    let fits : ltb k (i + j) ≡ false = sym over_is ∙ not_over in
    let low : i + j ≤ k = ltb→le k (i + j) fits in
    let limit_is = subst (λ r. (r >>= units) ≡ ok k) (sym (syntax-eq-ok _ limit p₄)) l in
    (k, limit_is, omega arith)
  where
    not_thrown :
        (over : Bool)
        → throw_if over authority_period_budget_exceeded_at_record ≡ ok tt
        → over ≡ false
    not_thrown true e = cc
    not_thrown false e = refl

pub period_start-le : (p : BudgetPeriod) (now : ℕ) → period_start p now ≤ now
unfolding period_start
period_start-le day now = omega arith
period_start-le week now = back_le now (week_offset (get_utc_day (now / day_length)))
period_start-le month now = back_le now (get_utc_date (now / day_length) - 1)

pub current_mandate-ok :
    (revision : ℕ) (o : Option Mandate) (m : Mandate)
    → current_mandate revision o ≡ ok m
    → (o ≡ some m) × (m.status ≡ active) × (m.current_revision ≡ revision)
unfolding current_mandate
current_mandate-ok revision none m h = cc
current_mandate-ok revision (some k) m h =
    elim (Bool-cases (is_active k.status && k.current_revision == revision)) [
      | inl y ↦
          let same : k ≡ m = ok-injective (rw y at h) in
          let (a, r) = and-true (is_active k.status) (k.current_revision == revision) y in
          (
            ap some same,
            subst (λ (v : Mandate). v.status ≡ active) same (active_is k.status a),
            subst (λ (v : Mandate). v.current_revision ≡ revision) same
                ((==_iff k.current_revision revision).0 r),
          )
      | inr x ↦ absurd (never (rw x at h))
    ]
  where
    active_is : (s : MandateStatus) → is_active s ≡ true → s ≡ active
    active_is s e = ground arith

    never : ◌≡◌ {A = Outcome Mandate} (throw authority_decision_stale) (ok m) → ⊥
    never e = cc

not_recordable :
    {r : Text × ℕ × ℕ}
    → ◌≡◌ {A = Outcome (Text × ℕ × ℕ)} (throw authority_usage_not_recordable) (ok r)
    → ⊥
not_recordable e = cc

pub recordable-ok :
    (a : AuthorityDecisionValue) (b : Option Text) (c d : Option ℕ) (id : Text) (revision value : ℕ)
    → recordable_columns a b c d ≡ ok (id, revision, value)
    → (a ≡ allowed) × (b ≡ some id) × (c ≡ some revision) × (d ≡ some value)
unfolding recordable_columns
recordable-ok approval_required b c d id revision value h = absurd (not_recordable h)
recordable-ok denied b c d id revision value h = absurd (not_recordable h)
recordable-ok allowed none c d id revision value h = absurd (not_recordable h)
recordable-ok allowed (some i) none d id revision value h = absurd (not_recordable h)
recordable-ok allowed (some i) (some r) none id revision value h = absurd (not_recordable h)
recordable-ok allowed (some i) (some r) (some v) id revision value h = (refl, cc, cc, cc)

-- A decision that was counted within its budget: it was allowed, for a mandate that is active at the
-- same revision and has a period budget, whose limit what is spent in the period does not pass.
pub record IsCounted (id : Text) (now : ℕ) (t t' : AuthorityTables) : Type 0 where
  pub decision : DecisionRow
  pub found : find_decision id t.decisions ≡ some decision
  pub is_allowed : decision.decision ≡ allowed
  pub mandate : Mandate
  pub standing : find_mandate mandate.id t.store.mandates ≡ some mandate
  pub is_active : mandate.status ≡ active
  pub same_mandate : decision.mandate_id ≡ some mandate.id
  pub same_revision : decision.mandate_revision ≡ some mandate.current_revision
  pub budget : Budget
  pub budgeted : mandate.policy.period_budget ≡ some budget
  pub limit : ℕ
  pub limited : limit_units budget ≡ ok limit
  pub within : spent_since (period_start budget.period now) mandate.id t'.usages ≤ limit
  pub counted : any (counts id) t'.usages ≡ true
