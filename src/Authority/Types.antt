-- ===== src/Authority/Types.antt =====
-- The types of packages/authority/src/index.ts. An optional property is an `Option`; an instant is
-- the time value of a JavaScript `Date` in milliseconds, `none` for an invalid date.
use agentplace.Prelude.{ℕ, Bool, List, Option, ◌≡◌, ◌↔◌, true, false, arith, String, Eq}
use agentplace.Text.{Text}

pub data MandateStatus : Type 0 where
  draft active paused expired revoked : MandateStatus

pub data AuthorityLevel : Type 0 where
  level_observe level_prepare act_within_mandate : AuthorityLevel

pub data AuthorityDecisionValue : Type 0 where
  allowed approval_required denied : AuthorityDecisionValue

pub data AuthorityOperation : Type 0 where
  observe prepare execute : AuthorityOperation

pub data AuthorityEnvironment : Type 0 where
  mainnet testnet : AuthorityEnvironment

pub data PolicyScope : Type 0 where
  scope_any allow_list : PolicyScope

pub data BudgetPeriod : Type 0 where
  day week month : BudgetPeriod

pub data WalletMode : Type 0 where
  watch_only connected agent_account : WalletMode

pub data CapabilityEffect : Type 0 where
  read write economic_write : CapabilityEffect

abbrev pub Instant : Type 0
Instant = Option ℕ

pub record NetworkPolicyRef : Type 0 where
  pub family : Text
  pub network_id : Text

pub data ApprovalMode : Type 0 where
  always threshold within_limits : ApprovalMode

pub record ApprovalPolicy : Type 0 where
  pub mode : ApprovalMode
  pub threshold_usd : Option Text
  pub ask_for_new_protocols : Bool
  pub ask_for_new_destinations : Bool

pub record Budget : Type 0 where
  pub limit_usd : Text
  pub period : BudgetPeriod

pub record MandatePolicyInput : Type 0 where
  pub title : Text
  pub purpose : Text
  pub authority_level : AuthorityLevel
  pub allowed_capabilities : List Text
  pub allowed_networks : List NetworkPolicyRef
  pub asset_scope : PolicyScope
  pub allowed_assets : List Text
  pub protocol_scope : PolicyScope
  pub allowed_protocols : List Text
  pub destination_scope : PolicyScope
  pub allowed_destinations : List Text
  pub capital_limit_usd : Option Text
  pub per_action_limit_usd : Option Text
  pub period_budget : Option Budget
  pub service_budget : Option Budget
  pub approval_policy : ApprovalPolicy
  pub borrowing_allowed : Bool
  pub leverage_allowed : Bool
  pub valid_from : Option Instant
  pub valid_until : Option Instant
  pub change_summary : Text

-- `DurableMandateRevision`: the policy, with its start always set, and the revision's number.
pub record DurableMandateRevision : Type 0 where
  pub policy : MandatePolicyInput
  pub open policy use {
    title, purpose, authority_level, allowed_capabilities, allowed_networks, asset_scope,
    allowed_assets, protocol_scope, allowed_protocols, destination_scope, allowed_destinations,
    capital_limit_usd, per_action_limit_usd, period_budget, service_budget, approval_policy,
    borrowing_allowed, leverage_allowed, valid_until, change_summary,
  }
  pub revision : ℕ
  pub valid_from : Instant
  pub created_at : ℕ

pub record ActionEnvelope : Type 0 where
  pub worker_id : Text
  pub account_id : Text
  pub capability_id : Text
  pub operation : AuthorityOperation
  pub environment : AuthorityEnvironment
  pub network : NetworkPolicyRef
  pub asset : Option Text
  pub protocol : Option Text
  pub destination : Option Text
  pub value_usd : Option Text
  pub borrowing : Option Bool
  pub leverage_multiplier : Option Text
  pub reason : Option Text
  pub job_id : Option Text

pub data ReasonCode : Type 0 where
  no_mandate mandate_scope_mismatch mandate_not_active mandate_paused : ReasonCode
  mandate_revoked mandate_expired mandate_not_yet_valid unknown_capability : ReasonCode
  capability_not_allowed network_not_allowed asset_not_allowed protocol_not_allowed : ReasonCode
  destination_not_allowed borrowing_not_allowed leverage_not_allowed : ReasonCode
  capability_operation_mismatch capability_not_executable observe_only : ReasonCode
  watch_only_cannot_execute value_required capital_authority_exceeded : ReasonCode
  per_action_limit_exceeded period_budget_exceeded prepare_requires_approval : ReasonCode
  connected_wallet_requires_signature autonomy_paused mainnet_autonomy_gated : ReasonCode
  approval_policy_always approval_threshold_exceeded new_protocol_requires_approval : ReasonCode
  new_destination_requires_approval within_mandate : ReasonCode

pub record AuthorityReason : Type 0 where
  pub code : ReasonCode
  pub message : String
  pub field : Option String
  pub expected : Option Text
  pub actual : Option Text

pub record AuthorityPolicyEvaluation : Type 0 where
  pub decision : AuthorityDecisionValue
  pub reasons : List AuthorityReason
  pub period_spent_before_usd : Text

pub record AuthorityControlState : Type 0 where
  pub mainnet_paused : Bool
  pub testnet_paused : Bool

pub record MandatePolicySnapshot : Type 0 where
  pub revised : DurableMandateRevision
  pub open revised use *
  pub mandate_id : Text
  pub worker_id : Text
  pub account_id : Text
  pub environment : AuthorityEnvironment
  pub status : MandateStatus

pub record PureEvaluationInput : Type 0 where
  pub mandate : Option MandatePolicySnapshot
  pub envelope : ActionEnvelope
  pub capability_known : Bool
  pub capability_effect : Option CapabilityEffect
  pub account_mode : Option WalletMode
  pub global_autonomy_paused : Bool
  pub mainnet_autonomy_enabled : Bool
  pub period_spent_usd : Text
  pub now : ℕ

abbrev pub same_environment : AuthorityEnvironment → AuthorityEnvironment → Bool
same_environment mainnet mainnet = true
same_environment testnet testnet = true
same_environment _ _ = false

pub same_environment_iff : (a b : AuthorityEnvironment) → (same_environment a b ≡ true) ↔ (a ≡ b)
same_environment_iff a b = ground arith

instance abbrev pub environment_eq : Eq AuthorityEnvironment
environment_eq = record { same = same_environment; same_iff = same_environment_iff }

abbrev pub is_execute : AuthorityOperation → Bool
is_execute execute = true
is_execute _ = false

abbrev pub is_observe : AuthorityOperation → Bool
is_observe observe = true
is_observe _ = false

abbrev pub is_mainnet : AuthorityEnvironment → Bool
is_mainnet mainnet = true
is_mainnet testnet = false

abbrev pub is_allow_list : PolicyScope → Bool
is_allow_list allow_list = true
is_allow_list scope_any = false

abbrev pub is_act : AuthorityLevel → Bool
is_act act_within_mandate = true
is_act _ = false
