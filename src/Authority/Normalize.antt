-- ===== src/Authority/Normalize.antt =====
-- The validation of a mandate's policy in packages/authority/src/index.ts, `normalizePolicy`. A
-- run-time test that the type of a field makes idle (an enum's membership) has no counterpart.
pub mod Ready
mod Tests
use agentplace.Prelude.{
  ℕ, ◌+◌, ◌-◌, Bool, true, false, not, ◌&&◌, ◌||◌, List, [], ◌∷◌, ◌++◌, Option, none, some, Result,
  ok, throw, ◌>>=◌, ◌>>◌, throw_if, leb, ltb, ◌==◌, if◌then◌else◌, length, map, dedup, ◌===◌,
}
use mathlib.Core.Option
use agentplace.Text.{
  Text, codes, text_eq, eq_text, trim, to_lower, to_upper, is_empty, is_digit, is_lower, is_letter,
  matches,
}
use agentplace.Decimal.{DecimalError, units, canonical_decimal}
use agentplace.Authority.Types.{
  act_within_mandate, allow_list, WalletMode, agent_account, Instant, NetworkPolicyRef, threshold,
  ApprovalPolicy, Budget, MandatePolicyInput, is_act, is_allow_list,
}
use agentplace.Authority.Inputs.{
  AuthorityError, invalid_mandate_capabilities, mandate_capability_required,
  invalid_mandate_networks, invalid_mandate_assets, invalid_mandate_protocols,
  invalid_mandate_destinations, act_mandate_asset_allowlist_required,
  act_mandate_requires_agent_account, invalid_capital_limit, invalid_per_action_limit,
  invalid_period_budget, invalid_service_budget, act_mandate_hard_limits_required,
  invalid_approval_threshold, invalid_mandate_validity, mandate_expired,
  act_mandate_expiry_required, invalid_mandate_title, invalid_mandate_purpose,
  invalid_mandate_change_summary, invalid_mandate_id, invalid_mandate_worker,
  invalid_mandate_account, mandate_worker_not_owned, mandate_account_not_owned,
  unknown_mandate_capability, revoked_mandate_cannot_resurrect, mandate_revision_conflict,
  invalid_mandate_status_transition, duplicate_key, decimal_syntax, authority_decision_not_found,
  authority_usage_not_recordable, authority_decision_stale, mandate_create_failed,
  mandate_account_not_available, authority_period_budget_required,
  authority_period_budget_exceeded_at_record, Outcome, text, id_first, id_rest, name_first,
  name_rest, capability_id, asset_or_protocol, destination_pattern, folded, unique_strings,
  network_key, set_network, networks_from, networks, not_positive, syntax, decimal_text, decimal,
  is_present,
}

unfoldable pub budget : Option Budget → AuthorityError → Outcome (Option Budget)
budget none code = ok none
budget (some b) code =
    decimal_text b.limit_usd code >>= λ d. ok (some (record { limit_usd = d; period = b.period }))

-- The threshold is kept and required where the mode uses it.
unfoldable pub approval_policy : ApprovalPolicy → Outcome ApprovalPolicy
approval_policy p = elim p.mode [
  | threshold ↦ elim p.threshold_usd [
    | none ↦ throw invalid_approval_threshold
    | some t ↦
        decimal_text t invalid_approval_threshold >>= λ d. ok (record p { threshold_usd = some d })
  ]
  | other ↦ ok (record p { threshold_usd = none })
]

-- The validity window: its start, by default now, and its optional end, both valid dates in
-- order, and an end in the future where the policy is to be used.
abbrev pub bad_end : Instant → ℕ → Bool
bad_end none from = true
bad_end (some t) from = leb t from

abbrev pub ends_by : Option Instant → ℕ → Bool
ends_by (some (some t)) now = leb t now
ends_by _ now = false

abbrev pub from_of : Option Instant → ℕ → Instant
from_of none now = some now
from_of (some t) now = t

unfoldable pub validity : MandatePolicyInput → Bool → ℕ → Outcome ℕ
validity p ready now = elim (from_of p.valid_from now) [
  | none ↦ throw invalid_mandate_validity
  | some from ↦ do
    throw_if (elim p.valid_until [ none ↦ false | some u ↦ bad_end u from ])
        invalid_mandate_validity
    throw_if (ready && ends_by p.valid_until now) mandate_expired
    throw_if (ready && is_act p.authority_level && not (is_present p.valid_until))
        act_mandate_expiry_required
    ok from
]

abbrev pub is_other_account : Option WalletMode → Bool
is_other_account none = false
is_other_account (some agent_account) = false
is_other_account (some _) = true

-- The parts of a policy that `normalizePolicy` computes one after another.
pub record Lists : Type 0 where
  pub capabilities : List Text
  pub allowed_networks : List NetworkPolicyRef
  pub assets : List Text
  pub protocols : List Text
  pub destinations : List Text

pub record Limits : Type 0 where
  pub capital : Option Text
  pub per_action : Option Text
  pub period : Option Budget
  pub service : Option Budget

unfoldable pub normalize_lists : MandatePolicyInput → Outcome Lists
normalize_lists p = do
  capabilities ←
      unique_strings to_lower capability_id invalid_mandate_capabilities p.allowed_capabilities
  throw_if (length capabilities == 0) mandate_capability_required
  allowed_networks ← networks p.allowed_networks
  assets ← unique_strings to_upper asset_or_protocol invalid_mandate_assets p.allowed_assets
  protocols ←
      unique_strings to_lower asset_or_protocol invalid_mandate_protocols p.allowed_protocols
  destinations ←
      unique_strings to_lower destination_pattern invalid_mandate_destinations
        p.allowed_destinations
  ok (record {
    capabilities = capabilities;
    allowed_networks = allowed_networks;
    assets = assets;
    protocols = protocols;
    destinations = destinations;
  })

unfoldable pub normalize_limits : MandatePolicyInput → Outcome Limits
normalize_limits p = do
  capital ← decimal p.capital_limit_usd invalid_capital_limit
  per_action ← decimal p.per_action_limit_usd invalid_per_action_limit
  period ← budget p.period_budget invalid_period_budget
  service ← budget p.service_budget invalid_service_budget
  ok (record { capital = capital; per_action = per_action; period = period; service = service })

-- The texts, and the policy put together.
unfoldable pub assemble :
    MandatePolicyInput → Lists → Limits → ApprovalPolicy → ℕ → Outcome MandatePolicyInput
assemble p l m approval from = do
  title ← text p.title 160 invalid_mandate_title
  purpose ← text p.purpose 2000 invalid_mandate_purpose
  summary ← text p.change_summary 500 invalid_mandate_change_summary
  ok (record p {
    title = title;
    purpose = purpose;
    allowed_capabilities = l.capabilities;
    allowed_networks = l.allowed_networks;
    allowed_assets = l.assets;
    allowed_protocols = l.protocols;
    allowed_destinations = l.destinations;
    capital_limit_usd = m.capital;
    per_action_limit_usd = m.per_action;
    period_budget = m.period;
    service_budget = m.service;
    approval_policy = approval;
    valid_from = some (some from);
    change_summary = summary;
  })

-- `normalizePolicy(policy, accountMode, requireActivationReady)` at the time `now`.
unfoldable pub normalize_policy :
    MandatePolicyInput → Option WalletMode → Bool → ℕ → Outcome MandatePolicyInput
normalize_policy p account_mode ready now = do
  l ← normalize_lists p
  throw_if
      (ready
        && is_act p.authority_level
        && (not (is_allow_list p.asset_scope) || length l.assets == 0))
      act_mandate_asset_allowlist_required
  throw_if (is_act p.authority_level && is_other_account account_mode)
      act_mandate_requires_agent_account
  m ← normalize_limits p
  throw_if
      (ready
        && is_act p.authority_level
        && (not (is_present m.per_action) || not (is_present m.period)))
      act_mandate_hard_limits_required
  approval ← approval_policy p.approval_policy
  from ← validity p ready now
  assemble p l m approval from
