-- ===== src/Authority/Evaluate/Sound.antt =====
-- What each group of checks establishes when it lets the evaluation go on.
use agentplace.Prelude.{
  ℕ, ◌+◌, ◌≤◌, ◌≡◌, refl, ◌≢◌, Bool, true, false, List, [], Option, none, some, ok, arith, ltb→le,
  >>=-eq-ok, sym, ◌∙◌,
}
use agentplace.Text.{Text, text_eq, eq_text_iff, to_lower, to_upper, is_empty, codes}
use agentplace.Decimal.{units, canonical_decimal, greater_than}
use agentplace.Decimal.RoundTrip.{greater_than-add_decimal_inv}
use agentplace.Authority.Types.{
  active, draft, paused, revoked, expired, MandateStatus, AuthorityOperation, execute, PolicyScope,
  allow_list, Budget, environment_eq, ActionEnvelope, MandatePolicySnapshot, PureEvaluationInput,
  same_environment_iff,
}
use agentplace.Authority.Evaluate.Checks.{
  go, deny_if, truthy, normalized_membership, outside_scope, exceeds, leverage_refused,
  check_status, check_coverage, check_scopes, check_operation, value_of, over, check_budget,
  check_limits,
}
use agentplace.Authority.Evaluate.Inversion.{
  deny_if-eq-go, deny_if->>-eq-go, >>-eq-go, lift->>=-eq-go,
}
use agentplace.Authority.Evaluate.Spec.{
  ScopeAdmits, Under, UnderBudget, IsCovered, IsScoped, IsOperable, IsLimited, Listed,
}

check_status-active :
    (s : MandateStatus) (past : Bool) → check_status s past ≡ go tt → (s ≡ active) × (past ≡ false)
unfolding check_status deny_if
check_status-active draft past h = cc
check_status-active paused past h = cc
check_status-active revoked past h = cc
check_status-active expired past h = cc
check_status-active active true h = cc
check_status-active active false h = (refl, refl)

pub check_coverage-IsCovered :
    (i : PureEvaluationInput) (m : MandatePolicySnapshot)
    → check_coverage i m ≡ go tt
    → IsCovered i m
unfolding check_coverage
check_coverage-IsCovered i m h =
    let (own, h₁) = deny_if->>-eq-go _ _ _ h in
    let (state, h₂) = >>-eq-go _ _ h₁ in
    let (begun, h₃) = deny_if->>-eq-go _ _ _ h₂ in
    let (known, h₄) = deny_if->>-eq-go _ _ _ h₃ in
    let (capable, h₅) = deny_if->>-eq-go _ _ _ h₄ in
    let networked = deny_if-eq-go _ _ h₅ in
    let (is_active, alive) = check_status-active _ _ state in
    record {
      worker = ground (arith, eq_text_iff m.worker_id i.envelope.worker_id);
      account = ground (arith, eq_text_iff m.account_id i.envelope.account_id);
      environment = ground (arith, same_environment_iff m.environment i.envelope.environment);
      is_active = is_active;
      unexpired = λ t e. ground arith;
      started = λ t e. ground arith;
      known = ground arith;
      capability = ground arith;
      network = ground arith;
    }

module _ (fold : Text → Text) (values : List Text) (op : AuthorityOperation) where
  outside_scope-Listed :
      (s : Text)
      → outside_scope fold allow_list values op (some s) ≡ false
      → is_empty s ≡ false
      → Listed fold values s
  unfolding outside_scope normalized_membership
  outside_scope-Listed s h n = ground arith

  outside_scope-named :
      (actual : Option Text)
      → outside_scope fold allow_list values execute actual ≡ false
      → values ≢ []
      → truthy actual ≡ true
  unfolding outside_scope
  outside_scope-named actual h n = ground arith

  outside_scope-ScopeAdmits :
      (scope : PolicyScope) (actual : Option Text)
      → outside_scope fold scope values op actual ≡ false
      → ScopeAdmits fold scope values op actual
  outside_scope-ScopeAdmits scope actual h = record {
    admits = λ s a e n. outside_scope-Listed s (rw (a, e) at h) n;
    named = λ a x n. outside_scope-named actual (rw (a, x) at h) n;
  }

greater_than-false :
    (a b : Text)
    → greater_than a b ≡ ok false
    → (n : ℕ) × (k : ℕ) × (units a ≡ ok n) × (units b ≡ ok k) × (n ≤ k)
unfolding greater_than
greater_than-false a b h =
    let (n, p, h₁) = >>=-eq-ok (units a) _ h in
    let (k, q, h₂) = >>=-eq-ok (units b) _ h₁ in (n, k, p, q, ltb→le k n (cc))

exceeds-Under :
    (value : Text) (limit : Option Text) → exceeds value limit ≡ ok false → Under value limit
unfolding exceeds
exceeds-Under value limit h l e n = greater_than-false value l (ground arith)

pub over-Under : (c : Text) (limit : Option Text) → over (some c) limit ≡ ok false → Under c limit
unfolding over
over-Under c limit h = exceeds-Under c limit h

check_budget-UnderBudget :
    (spent c : Text) (budget : Option Budget)
    → check_budget spent (some c) budget ≡ go tt
    → UnderBudget spent c budget
unfolding check_budget
check_budget-UnderBudget spent c none h b e = cc
check_budget-UnderBudget spent c (some b') h b e =
    let (after, p, h₁) = lift->>=-eq-go _ _ h in
    let (exceeded, q, h₂) = lift->>=-eq-go _ _ h₁ in
    let (m, n, k, pm, pn, pk, r) =
      greater_than-add_decimal_inv spent c b'.limit_usd after exceeded p q in
    let same : b'.limit_usd ≡ b.limit_usd = cc in
    (m, n, k, pm, pn, rw same at pk, ltb→le k (m + n) (sym r ∙ deny_if-eq-go exceeded _ h₂))

units-one : units (codes "1") ≡ ok 100000000
unfolding units
units-one = refl

leverage_bound :
    (leverage : Option Text) (permitted : Bool)
    → leverage_refused leverage permitted ≡ ok false
    → (s : Text) → leverage ≡ some s
    → is_empty s ≡ false
    → permitted ≡ false
    → (n : ℕ) × (units s ≡ ok n) × (n ≤ 100000000)
unfolding leverage_refused
leverage_bound leverage permitted h s e n d =
    let (above, p, q) = >>=-eq-ok (greater_than s (codes "1")) _ (rw n at (rw (e, d) at h)) in
    let quiet : above ≡ false = ground arith in
    let (a, b, pa, pb, le) = greater_than-false s (codes "1") (rw quiet at p) in
    let one : b ≡ 100000000 = cc units-one in (a, pa, rw one at le)

pub check_scopes-IsScoped :
    (e : ActionEnvelope) (m : MandatePolicySnapshot) → check_scopes e m ≡ go tt → IsScoped e m
unfolding check_scopes
check_scopes-IsScoped e m h =
    let (a, h₁) = deny_if->>-eq-go _ _ _ h in
    let (p, h₂) = deny_if->>-eq-go _ _ _ h₁ in
    let (d, h₃) = deny_if->>-eq-go _ _ _ h₂ in
    let (b, h₄) = deny_if->>-eq-go _ _ _ h₃ in
    let (above, l, h₅) = lift->>=-eq-go _ _ h₄ in
    let quiet = deny_if-eq-go above _ h₅ in
    record {
      asset = outside_scope-ScopeAdmits to_upper _ _ _ _ a;
      protocol = outside_scope-ScopeAdmits to_lower _ _ _ _ p;
      destination = outside_scope-ScopeAdmits to_lower _ _ _ _ d;
      borrowing = λ x. ground arith;
      leverage = leverage_bound e.leverage_multiplier m.leverage_allowed (rw quiet at l);
    }

pub check_operation-IsOperable :
    (i : PureEvaluationInput) (m : MandatePolicySnapshot)
    → check_operation i m ≡ go tt
    → IsOperable i m
unfolding check_operation
check_operation-IsOperable i m h =
    let (a, h₁) = deny_if->>-eq-go _ _ _ h in
    let (b, h₂) = deny_if->>-eq-go _ _ _ h₁ in
    let (c, h₃) = deny_if->>-eq-go _ _ _ h₂ in
    let d = deny_if-eq-go _ _ h₃ in
    record {
      observes_read = λ e. (ground arith, ground arith);
      executes_write = λ e. ground arith;
      observer = λ e. ground arith;
      not_watch_only = λ e. ground arith;
    }

pub value_of-some :
    (e : ActionEnvelope) (v : Text) (c : Option Text)
    → value_of e ≡ go c
    → e.value_usd ≡ some v
    → is_empty v ≡ false
    → (c' : Text) × (canonical_decimal v ≡ ok c') × (c ≡ some c')
unfolding value_of
value_of-some e v c h p n =
    let (c', q, r) = lift->>=-eq-go (canonical_decimal v) _ (rw n at (rw p at h)) in (c', q, cc)

value_of-truthy :
    (e : ActionEnvelope) (c : Option Text)
    → value_of e ≡ go c
    → truthy c ≡ true
    → truthy e.value_usd ≡ true
unfolding value_of
value_of-truthy e c h t = ground arith

pub check_limits-IsLimited :
    (i : PureEvaluationInput) (m : MandatePolicySnapshot) (c : Option Text)
    → value_of i.envelope ≡ go c
    → check_limits i m c ≡ go tt
    → IsLimited i m
unfolding check_limits
check_limits-IsLimited i m c value h =
    let (named, h₁) = deny_if->>-eq-go _ _ _ h in
    let (over_capital, p, h₂) = lift->>=-eq-go _ _ h₁ in
    let (capital, h₃) = deny_if->>-eq-go over_capital _ _ h₂ in
    let (over_action, q, h₄) = lift->>=-eq-go _ _ h₃ in
    let (action, h₅) = deny_if->>-eq-go over_action _ _ h₄ in
    record {
      bounded = λ v e n.
          let (c', can, same) = value_of-some i.envelope v c value e n in
          (
            c',
            can,
            over-Under c' m.capital_limit_usd (rw (same, capital) at p),
            over-Under c' m.per_action_limit_usd (rw (same, action) at q),
            check_budget-UnderBudget i.period_spent_usd c' m.period_budget (rw same at h₅),
          );
      valued = λ x. value_of-truthy i.envelope c value (ground arith);
    }
