-- ===== src/Authority/Evaluate/Spec.antt =====
-- What an answer of `evaluateAuthorityPolicy` is meant to establish, in terms of the mandate and
-- the envelope and not of the code.
use agentplace.Prelude.{
  ℕ, ◌+◌, ◌≤◌, ◌<◌, ◌≡◌, ◌≢◌, true, false, List, [], Option, some, ok, ◌===◌, includes, any,
}
use agentplace.Text.{Text, text_eq, trim, to_lower, to_upper, is_empty}
use agentplace.Decimal.{units, canonical_decimal}
use agentplace.Authority.Types.{
  active, level_observe, act_within_mandate, AuthorityOperation, observe, execute, mainnet,
  PolicyScope, scope_any, allow_list, watch_only, connected, read, write, economic_write, always,
  threshold, Budget, ActionEnvelope, MandatePolicySnapshot, PureEvaluationInput,
}
use agentplace.Authority.Evaluate.Checks.{matches_network, truthy}

-- The text is one of the list, up to surrounding space and to the case that `fold` removes.
abbrev pub Listed : (Text → Text) → List Text → Text → Type 0
Listed fold values s = any (λ value. fold value === fold (trim s)) values ≡ true

-- A scope that is an allow-list admits only what it lists, and an execution has to name something
-- when the list is not empty.
pub record ScopeAdmits (fold : Text → Text) (scope : PolicyScope) (values : List Text)
    (op : AuthorityOperation) (actual : Option Text) : Type 0 where
  pub admits :
      (s : Text) → scope ≡ allow_list → actual ≡ some s → is_empty s ≡ false → Listed fold values s
  pub named : scope ≡ allow_list → op ≡ execute → values ≢ [] → truthy actual ≡ true

-- A ceiling that is set bounds the value, as amounts.
abbrev pub Under : Text → Option Text → Type 0
Under value limit =
    (l : Text)
    → limit ≡ some l
    → is_empty l ≡ false
    → (n : ℕ) × (k : ℕ) × (units value ≡ ok n) × (units l ≡ ok k) × (n ≤ k)

-- So does the period budget bound what was spent before and the value together.
abbrev pub UnderBudget : Text → Text → Option Budget → Type 0
UnderBudget spent value budget =
    (b : Budget)
    → budget ≡ some b
    → (m : ℕ) × (n : ℕ) × (k : ℕ) × (units spent ≡ ok m)
      × (units value ≡ ok n)
      × (units b.limit_usd ≡ ok k)
      × (m + n ≤ k)

-- The mandate is this Worker's on this account, active, within its window, and covers the
-- capability and the network.
pub record IsCovered (i : PureEvaluationInput) (m : MandatePolicySnapshot) : Type 0 where
  pub worker : m.worker_id ≡ i.envelope.worker_id
  pub account : m.account_id ≡ i.envelope.account_id
  pub environment : m.environment ≡ i.envelope.environment
  pub is_active : m.status ≡ active
  pub unexpired : (t : ℕ) → m.valid_until ≡ some (some t) → i.now < t
  pub started : (t : ℕ) → m.valid_from ≡ some t → t ≤ i.now
  pub known : i.capability_known ≡ true
  pub capability : includes m.allowed_capabilities i.envelope.capability_id ≡ true
  pub network : matches_network m.allowed_networks i.envelope.network ≡ true

pub record IsScoped (e : ActionEnvelope) (m : MandatePolicySnapshot) : Type 0 where
  pub asset : ScopeAdmits to_upper m.asset_scope m.allowed_assets e.operation e.asset
  pub protocol : ScopeAdmits to_lower m.protocol_scope m.allowed_protocols e.operation e.protocol
  pub destination :
      ScopeAdmits to_lower m.destination_scope m.allowed_destinations e.operation e.destination
  pub borrowing : e.borrowing ≡ some true → m.borrowing_allowed ≡ true
  pub leverage :
      (s : Text)
      → e.leverage_multiplier ≡ some s
      → is_empty s ≡ false
      → m.leverage_allowed ≡ false
      → (n : ℕ) × (units s ≡ ok n) × (n ≤ 100000000)

pub record IsOperable (i : PureEvaluationInput) (m : MandatePolicySnapshot) : Type 0 where
  pub observes_read :
      i.envelope.operation ≡ observe
      → (i.capability_effect ≢ some write) × (i.capability_effect ≢ some economic_write)
  pub executes_write : i.envelope.operation ≡ execute → i.capability_effect ≢ some read
  pub observer : m.authority_level ≡ level_observe → i.envelope.operation ≡ observe
  pub not_watch_only : i.envelope.operation ≡ execute → i.account_mode ≢ some watch_only

-- The value that the envelope names, in canonical form, is within every limit; an execution names
-- a value.
pub record IsLimited (i : PureEvaluationInput) (m : MandatePolicySnapshot) : Type 0 where
  pub bounded :
      (v : Text)
      → i.envelope.value_usd ≡ some v
      → is_empty v ≡ false
      → (c : Text) × (canonical_decimal v ≡ ok c)
        × Under c m.capital_limit_usd
        × Under c m.per_action_limit_usd
        × UnderBudget i.period_spent_usd c m.period_budget
  pub valued : i.envelope.operation ≡ execute → truthy i.envelope.value_usd ≡ true

pub record IsWithin (i : PureEvaluationInput) (m : MandatePolicySnapshot) : Type 0 where
  pub mandate : i.mandate ≡ some m
  pub covered : IsCovered i m
  pub scoped : IsScoped i.envelope m
  pub operable : IsOperable i m
  pub limited : IsLimited i m

-- Nothing calls for a human.
pub record IsAutonomous (i : PureEvaluationInput) (m : MandatePolicySnapshot) : Type 0 where
  pub delegated : m.authority_level ≡ act_within_mandate
  pub own_account : i.account_mode ≢ some connected
  pub running : i.global_autonomy_paused ≡ false
  pub gated : i.envelope.environment ≡ mainnet → i.mainnet_autonomy_enabled ≡ true
  pub not_always : m.approval_policy.mode ≢ always
  pub below_threshold :
      (v c : Text)
      → i.envelope.value_usd ≡ some v
      → is_empty v ≡ false
      → canonical_decimal v ≡ ok c
      → m.approval_policy.mode ≡ threshold
      → Under c m.approval_policy.threshold_usd
  pub known_protocol :
      (s : Text)
      → m.protocol_scope ≡ scope_any
      → m.approval_policy.ask_for_new_protocols ≡ true
      → i.envelope.protocol ≡ some s
      → is_empty s ≡ false
      → Listed to_lower m.allowed_protocols s
  pub known_destination :
      (s : Text)
      → m.destination_scope ≡ scope_any
      → m.approval_policy.ask_for_new_destinations ≡ true
      → i.envelope.destination ≡ some s
      → is_empty s ≡ false
      → Listed to_lower m.allowed_destinations s
