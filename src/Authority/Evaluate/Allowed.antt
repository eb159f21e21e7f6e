-- ===== src/Authority/Evaluate/Allowed.antt =====
-- The answers of `evaluateAuthorityPolicy` that let an action go on, packages/authority/src/index.ts.
use agentplace.Prelude.{◌≡◌, refl, ◌≢◌, Bool, true, false, List, [], Option, none, some, ok, arith}
use agentplace.Text.{Text, text_eq, to_lower, is_empty}
use agentplace.Authority.Types.{
  allowed, denied, execute, AuthorityReason, AuthorityPolicyEvaluation, MandatePolicySnapshot,
  PureEvaluationInput, threshold, is_execute,
}
use agentplace.Authority.Evaluate.Checks.{go, value_of, normalized_membership}
use agentplace.Authority.Evaluate.Decide.{
  above_threshold, is_new, approvals, collect, review_mandate, review, evaluate_authority_policy,
}
use agentplace.Authority.Evaluate.Inversion.{
  >>-eq-go, >>=-eq-go, lift->>=-eq-go, push_if-eq-nil, settle_not_denied, settle_allowed,
}
use agentplace.Authority.Evaluate.Spec.{Listed, Under, IsWithin, IsAutonomous, IsOperable}
use agentplace.Authority.Evaluate.Sound.{
  check_coverage-IsCovered, check_scopes-IsScoped, check_operation-IsOperable,
  check_limits-IsLimited, over-Under, value_of-some,
}

-- A review that goes on has passed every check, and has asked as the collection did.
record Passed (i : PureEvaluationInput) (m : MandatePolicySnapshot) (rs : List AuthorityReason)
    : Type 0 where
  within : IsWithin i m
  value : Option Text
  valued : value_of i.envelope ≡ go value
  collected : collect (is_execute i.envelope.operation) i m value ≡ go rs

review_mandate-Passed :
    (i : PureEvaluationInput) (m : MandatePolicySnapshot) (rs : List AuthorityReason)
    → i.mandate ≡ some m
    → review_mandate i m ≡ go rs
    → Passed i m rs
unfolding review_mandate
review_mandate-Passed i m rs e h =
    let (covered, h₁) = >>-eq-go _ _ h in
    let (scoped, h₂) = >>-eq-go _ _ h₁ in
    let (operable, h₃) = >>-eq-go _ _ h₂ in
    let (c, value, h₄) = >>=-eq-go _ _ h₃ in
    let (limited, h₅) = >>-eq-go _ _ h₄ in
    record {
      within = record {
        mandate = e;
        covered = check_coverage-IsCovered i m covered;
        scoped = check_scopes-IsScoped i.envelope m scoped;
        operable = check_operation-IsOperable i m operable;
        limited = check_limits-IsLimited i m c value limited;
      };
      value = c;
      valued = value;
      collected = h₅;
    }

review-Passed :
    (i : PureEvaluationInput) (o : Option MandatePolicySnapshot) (rs : List AuthorityReason)
    → i.mandate ≡ o
    → review i o ≡ go rs
    → (m : MandatePolicySnapshot) × Passed i m rs
unfolding review
review-Passed i none rs e h = cc
review-Passed i (some m) rs e h = (m, review_mandate-Passed i m rs e h)

-- Whatever is not denied, also what still needs a human, has an active mandate of the Worker on
-- the account that covers it, is inside its allow-lists, fits its authority level and the account,
-- and keeps every limit of the mandate, the period budget included.
pub evaluate-IsWithin :
    (i : PureEvaluationInput) (r : AuthorityPolicyEvaluation)
    → evaluate_authority_policy i ≡ ok r
    → r.decision ≢ denied
    → (m : MandatePolicySnapshot) × IsWithin i m
unfolding evaluate_authority_policy
evaluate-IsWithin i r h n =
    let (rs, v) = settle_not_denied i.period_spent_usd (review i i.mandate) h n in
    let (m, p) = review-Passed i i.mandate rs refl v in (m, p.within)

above_threshold-Under :
    (m : MandatePolicySnapshot) (c : Text)
    → above_threshold m (some c) ≡ ok false
    → m.approval_policy.mode ≡ threshold
    → Under c m.approval_policy.threshold_usd
unfolding above_threshold
above_threshold-Under m c h e = over-Under c m.approval_policy.threshold_usd (rw e at h)

is_new-Listed :
    (listed_only ask : Bool) (values : List Text) (actual : Option Text)
    → is_new listed_only ask values actual ≡ false
    → (s : Text) → listed_only ≡ false
    → ask ≡ true
    → actual ≡ some s
    → is_empty s ≡ false
    → Listed to_lower values s
unfolding is_new normalized_membership
is_new-Listed listed_only ask values actual h s l a e n = ground arith

-- An empty list of reasons means that nothing calls for a human.
collect-IsAutonomous :
    (i : PureEvaluationInput) (m : MandatePolicySnapshot) (value : Option Text)
    → i.envelope.operation ≡ execute
    → IsOperable i m
    → value_of i.envelope ≡ go value
    → collect (is_execute i.envelope.operation) i m value ≡ go []
    → IsAutonomous i m
unfolding collect approvals
collect-IsAutonomous i m value x operable valued h =
    let (above, t, h₀) = lift->>=-eq-go _ _ (rw x at h) in
    let (prepare, h₁) = push_if-eq-nil _ _ _ (list_of h₀) in
    let (connected, h₂) = push_if-eq-nil _ _ _ h₁ in
    let (paused, h₃) = push_if-eq-nil _ _ _ h₂ in
    let (gated, h₄) = push_if-eq-nil _ _ _ h₃ in
    let (always, h₅) = push_if-eq-nil _ _ _ h₄ in
    let (quiet, h₆) = push_if-eq-nil _ _ _ h₅ in
    let (protocol, h₇) = push_if-eq-nil _ _ _ h₆ in
    let (destination, _) = push_if-eq-nil _ _ _ h₇ in
    record {
      delegated = ground (arith, operable.observer);
      own_account = ground arith;
      running = paused;
      gated = λ e. ground arith;
      not_always = ground arith;
      below_threshold = λ v c e n can mode.
          let (c', can', same) = value_of-some i.envelope v value valued e n in
          above_threshold-Under m c (cc) mode;
      known_protocol = λ s scope ask e n. is_new-Listed _ _ _ _ protocol s (cc) ask e n;
      known_destination = λ s scope ask e n. is_new-Listed _ _ _ _ destination s (cc) ask e n;
    }
  where
    list_of : {a b : List AuthorityReason} → go a ≡ go b → a ≡ b
    list_of e = cc

-- An allowed execution needs no human: the mandate delegates acting, the account is not a
-- connected wallet, autonomy runs and is open in this environment, and the approval policy, its
-- threshold and its known protocols and destinations ask for nothing.
pub evaluate-IsAutonomous :
    (i : PureEvaluationInput) (r : AuthorityPolicyEvaluation)
    → evaluate_authority_policy i ≡ ok r
    → r.decision ≡ allowed
    → i.envelope.operation ≡ execute
    → (m : MandatePolicySnapshot) × IsWithin i m × IsAutonomous i m
unfolding evaluate_authority_policy
evaluate-IsAutonomous i r h a x =
    let v = settle_allowed i.period_spent_usd (review i i.mandate) h a in
    let (m, p) = review-Passed i i.mandate [] refl v in
    (m, p.within, collect-IsAutonomous i m p.value x p.within.operable p.valued p.collected)
