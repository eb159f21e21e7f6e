-- ===== src/Authority/Evaluate/Tests.antt =====
-- Runs of `evaluateAuthorityPolicy` (packages/authority/src/index.ts), and instances of the
-- theorems about it.
use agentplace.Prelude.{◌≡◌, refl, true, false, [], ◌∷◌, none, some, ok}
use agentplace.Text.{Text, codes, trim, to_lower, to_upper, eq_text}
use agentplace.Decimal.{units, canonical_decimal, add_decimal, greater_than}
use agentplace.Authority.Types.{
  active, allowed, execute, testnet, agent_account, economic_write, MandatePolicySnapshot,
  PureEvaluationInput, AuthorityPolicyEvaluation, MandateStatus, within_mandate,
}
use agentplace.Authority.Samples.{policy}
use agentplace.Authority.Evaluate.Checks.{
  ◌>>◌, deny_if, lift, matches_network, outside_scope, normalized_membership, exceeds,
  leverage_refused, check_status, check_coverage, check_scopes, check_operation, value_of, over,
  check_budget, check_limits, reason,
}
use agentplace.Authority.Evaluate.Decide.{
  push_if, above_threshold, is_new, approvals, collect, review_mandate, review, settle,
  evaluate_authority_policy,
}
use agentplace.Authority.Evaluate.Spec.{IsWithin, IsAutonomous}
use agentplace.Authority.Evaluate.Allowed.{evaluate-IsWithin, evaluate-IsAutonomous}

-- All that a run computes with.
evaluation : Unit {0}
unfolding ◌>>◌ deny_if lift matches_network outside_scope normalized_membership exceeds
    leverage_refused check_status check_coverage check_scopes check_operation value_of over
    check_budget check_limits push_if above_threshold is_new approvals collect review_mandate review
    settle evaluate_authority_policy trim to_lower to_upper eq_text units canonical_decimal
    add_decimal greater_than
evaluation = tt

abbrev snapshot : MandateStatus → MandatePolicySnapshot
snapshot status = record {
  revised = record { policy = policy; revision = 1; valid_from = some 1000; created_at = 1000 };
  mandate_id = codes "mnd_1";
  worker_id = codes "w-1";
  account_id = codes "acc-1";
  environment = testnet;
  status = status;
}

abbrev request : Text → PureEvaluationInput
request value = record {
  mandate = some (snapshot active);
  envelope = record {
    worker_id = codes "w-1";
    account_id = codes "acc-1";
    capability_id = codes "asset.transfer";
    operation = execute;
    environment = testnet;
    network = record { family = codes "eip155"; network_id = codes "base" };
    asset = some (codes "usdc");
    protocol = none;
    destination = some (codes "0xABC");
    value_usd = some value;
    borrowing = none;
    leverage_multiplier = none;
    reason = none;
    job_id = none;
  };
  capability_known = true;
  capability_effect = some economic_write;
  account_mode = some agent_account;
  global_autonomy_paused = false;
  mainnet_autonomy_enabled = false;
  period_spent_usd = codes "75.00";
  now = 1500;
}

abbrev permitted : AuthorityPolicyEvaluation
permitted = record {
  decision = allowed;
  reasons =
      reason within_mandate "The proposed action is inside the active deterministic mandate." ∷ [];
  period_spent_before_usd = codes "75";
}

allowed_run : evaluate_authority_policy (request (codes "12.50")) ≡ ok permitted
unfolding evaluation
allowed_run = refl

evaluate-IsWithin_example : (m : MandatePolicySnapshot) × IsWithin (request (codes "12.50")) m
evaluate-IsWithin_example =
    evaluate-IsWithin (request (codes "12.50")) permitted allowed_run (λ e. cc)

evaluate-IsAutonomous_example :
    (m : MandatePolicySnapshot) × IsWithin (request (codes "12.50")) m
    × IsAutonomous (request (codes "12.50")) m
evaluate-IsAutonomous_example =
    evaluate-IsAutonomous (request (codes "12.50")) permitted allowed_run refl refl
