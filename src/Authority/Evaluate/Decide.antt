-- ===== src/Authority/Evaluate/Decide.antt =====
-- The decision of `evaluateAuthorityPolicy` in packages/authority/src/index.ts: the checks in their
-- order, the reasons for asking a human, and the answer made of them.
use agentplace.Prelude.{
  String, Bool, true, false, not, ◌&&◌, List, [], ◌∷◌, ◌++◌, Option, none, some, Result, ok, throw,
}
use agentplace.Prelude
use agentplace.Text.{Text, codes, to_lower}
use agentplace.Decimal.{DecimalError, canonical_decimal}
use agentplace.Authority.Types.{
  allowed, approval_required, denied, no_mandate, prepare_requires_approval,
  connected_wallet_requires_signature, autonomy_paused, mainnet_autonomy_gated,
  approval_policy_always, approval_threshold_exceeded, new_protocol_requires_approval,
  new_destination_requires_approval, within_mandate, AuthorityReason, AuthorityPolicyEvaluation,
  MandatePolicySnapshot, PureEvaluationInput, is_execute, is_mainnet, is_allow_list,
}
use agentplace.Authority.Evaluate.Checks.{
  Verdict, go, deny, fail, ◌>>=◌, ◌>>◌, lift, reason, about, truthy, or_empty,
  normalized_membership, over, is_connected, is_level_prepare, is_always, is_threshold,
  check_coverage, check_scopes, check_operation, check_limits, value_of,
}

unfoldable pub push_if : Bool → AuthorityReason → List AuthorityReason → List AuthorityReason
push_if true r rs = r ∷ rs
push_if false r rs = rs

-- `approvalPolicy.mode === 'THRESHOLD' && thresholdUsd && valueUsd && greaterThan(…)`
unfoldable pub above_threshold : MandatePolicySnapshot → Option Text → Result DecimalError Bool
above_threshold m value =
    Prelude.if◌then◌else◌ (is_threshold m.approval_policy.mode)
      (over value m.approval_policy.threshold_usd) (ok false)

-- A protocol or a destination that an open scope has not seen before.
unfoldable pub is_new : Bool → Bool → List Text → Option Text → Bool
is_new listed_only ask listed actual =
    not listed_only && ask && truthy actual && not (normalized_membership to_lower listed actual)

-- The reasons to ask a human before an execution, in the order in which they are pushed.
unfoldable pub approvals :
    PureEvaluationInput → MandatePolicySnapshot → Option Text → Bool → List AuthorityReason
approvals i m value above =
    push_if (is_level_prepare m.authority_level)
      (reason prepare_requires_approval
        "This mandate may prepare the action, but execution still requires human approval.")
      (push_if (is_connected i.account_mode)
        (reason connected_wallet_requires_signature
          "Connected Wallet actions require the user to approve and sign.")
        (push_if i.global_autonomy_paused
          (reason autonomy_paused
            "Autonomous execution is globally paused; human approval is required.")
          (push_if (is_mainnet i.envelope.environment && not i.mainnet_autonomy_enabled)
            (reason mainnet_autonomy_gated
              "Mainnet autonomy is disabled by the production safety gate.")
            (push_if (is_always m.approval_policy.mode)
              (reason approval_policy_always
                "This mandate is configured to always ask before execution.")
              (push_if above
                (about approval_threshold_exceeded
                  "The action is above the autonomous approval threshold." "valueUsd"
                  (some (
                    codes "<= "
                    ++ or_empty m.approval_policy.threshold_usd
                    ++ codes " without asking"))
                  (or_empty value))
                (push_if
                  (is_new (is_allow_list m.protocol_scope) m.approval_policy.ask_for_new_protocols
                    m.allowed_protocols i.envelope.protocol)
                  (reason new_protocol_requires_approval
                    "This protocol is not in the pre-approved protocol list.")
                  (push_if
                    (is_new (is_allow_list m.destination_scope)
                      m.approval_policy.ask_for_new_destinations m.allowed_destinations
                      i.envelope.destination)
                    (reason new_destination_requires_approval
                      "This destination is not in the pre-approved destination list.")
                    [])))))))

-- Only an execution asks.
unfoldable pub collect :
    Bool
    → PureEvaluationInput
    → MandatePolicySnapshot
    → Option Text
    → Verdict (List AuthorityReason)
collect false i m value = go []
collect true i m value = lift (above_threshold m value) >>= λ above. go (approvals i m value above)

-- Every check in the order of the source, then the reasons to ask.
unfoldable pub review_mandate :
    PureEvaluationInput → MandatePolicySnapshot → Verdict (List AuthorityReason)
review_mandate i m = do
  check_coverage i m
  check_scopes i.envelope m
  check_operation i m
  value ← value_of i.envelope
  check_limits i m value
  collect (is_execute i.envelope.operation) i m value

unfoldable pub review :
    PureEvaluationInput → Option MandatePolicySnapshot → Verdict (List AuthorityReason)
review i none =
    deny (reason no_mandate "No mandate grants this Worker authority over the selected account.")
review i (some m) = review_mandate i m

-- The answer, which shows what was spent before in canonical form.
unfoldable pub settle :
    Text → Verdict (List AuthorityReason) → Result DecimalError AuthorityPolicyEvaluation
unfolding Prelude.◌>>=◌
settle spent (fail e) = throw e
settle spent (deny r) =
    Prelude.◌>>=◌ (canonical_decimal spent)
      λ c. ok (record { decision = denied; reasons = r ∷ []; period_spent_before_usd = c })
settle spent (go []) = Prelude.◌>>=◌ (canonical_decimal spent) λ c. ok (record {
  decision = allowed;
  reasons =
      reason within_mandate "The proposed action is inside the active deterministic mandate." ∷ [];
  period_spent_before_usd = c;
})
settle spent (go (r ∷ rs)) =
    Prelude.◌>>=◌ (canonical_decimal spent) λ c.
      ok (record { decision = approval_required; reasons = r ∷ rs; period_spent_before_usd = c })

unfoldable pub evaluate_authority_policy :
    PureEvaluationInput → Result DecimalError AuthorityPolicyEvaluation
evaluate_authority_policy i = settle i.period_spent_usd (review i i.mandate)
