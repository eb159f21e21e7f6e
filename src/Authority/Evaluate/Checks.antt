-- ===== src/Authority/Evaluate/Checks.antt =====
-- The checks of `evaluateAuthorityPolicy` in packages/authority/src/index.ts, in groups, with the
-- helpers that they call. A denial returns at once; what passes every check collects the reasons for asking a
-- human. The decimal helpers can throw, and then the call throws.
use Prim.Native.String
use agentplace.Prelude.{
  ℕ, String, Bool, true, false, not, ◌&&◌, ◌||◌, List, [], ◌∷◌, ◌++◌, Option, none, some, Result,
  ok, throw, leb, ltb, if◌then◌else◌, ◌===◌, includes, any, length, ◌==◌,
}
use agentplace.Prelude
use agentplace.Text.{Text, codes, text_eq, trim, to_lower, to_upper, is_empty}
use agentplace.Decimal.{DecimalError, canonical_decimal, add_decimal, greater_than}
use agentplace.Authority.Types.{
  MandateStatus, draft, active, paused, expired, revoked, AuthorityLevel, level_observe,
  level_prepare, AuthorityOperation, environment_eq, PolicyScope, BudgetPeriod, day, week, month,
  WalletMode, watch_only, connected, CapabilityEffect, read, Instant, NetworkPolicyRef,
  ApprovalMode, always, threshold, Budget, ActionEnvelope, ReasonCode, mandate_scope_mismatch,
  mandate_not_active, mandate_paused, mandate_revoked, mandate_expired, mandate_not_yet_valid,
  unknown_capability, capability_not_allowed, network_not_allowed, asset_not_allowed,
  protocol_not_allowed, destination_not_allowed, borrowing_not_allowed, leverage_not_allowed,
  capability_operation_mismatch, capability_not_executable, observe_only, watch_only_cannot_execute,
  value_required, capital_authority_exceeded, per_action_limit_exceeded, period_budget_exceeded,
  AuthorityReason, MandatePolicySnapshot, PureEvaluationInput, is_execute, is_observe,
  is_allow_list,
}

-- What a check answers: the evaluation goes on, it denies with a reason, or it throws.
pub data Verdict {ℓ} (A : Type ℓ) : Type ℓ where
  go : A → Verdict A
  deny : AuthorityReason → Verdict A
  fail : DecimalError → Verdict A

infixl 5 ◌>>=◌ ◌>>◌
unfoldable pub ◌>>=◌ {ℓ κ} : {A : Type ℓ} {B : Type κ} → Verdict A → (A → Verdict B) → Verdict B
go a >>= f = f a
deny r >>= f = deny r
fail e >>= f = fail e

unfoldable pub ◌>>◌ {ℓ} : {B : Type ℓ} → Verdict (Unit {0}) → Verdict B → Verdict B
unfolding ◌>>=◌
m >> k = m >>= λ _. k

unfoldable pub deny_if : Bool → AuthorityReason → Verdict (Unit {0})
deny_if true r = deny r
deny_if false r = go tt

-- The value of code that can throw.
unfoldable pub lift {ℓ} : {A : Type ℓ} → Result DecimalError A → Verdict A
lift (ok a) = go a
lift (throw e) = fail e

abbrev pub reason : ReasonCode → String → AuthorityReason
reason c m = record { code = c; message = m; field = none; expected = none; actual = none }

abbrev pub about : ReasonCode → String → String → Option Text → Text → AuthorityReason
about c m f e a = record { code = c; message = m; field = some f; expected = e; actual = some a }

-- An optional text that JavaScript takes for true: present and not empty.
abbrev pub truthy : Option Text → Bool
truthy none = false
truthy (some s) = not (is_empty s)

abbrev pub or_missing : Option Text → Text
or_missing none = codes "missing"
or_missing (some s) = s

abbrev pub at_most : Text → Text
at_most limit = codes "<= " ++ limit

abbrev pub flag : Option Bool → Bool
flag none = false
flag (some b) = b

-- `matchesNetwork`
unfoldable pub matches_network : List NetworkPolicyRef → NetworkPolicyRef → Bool
matches_network listed actual =
    let family = to_lower (trim actual.family) in
    let network_id = to_lower (trim actual.network_id) in
    any (λ item. to_lower item.family === family && to_lower item.network_id === network_id) listed

-- `normalizedMembership(values, actual)`, and the same with `uppercase`.
unfoldable pub normalized_membership : (Text → Text) → List Text → Option Text → Bool
normalized_membership fold values none = false
normalized_membership fold values (some s) =
    if is_empty s then false else any (λ value. fold value === fold (trim s)) values

-- The test on an allow-list that the asset, the protocol and the destination share.
unfoldable pub outside_scope :
    (Text → Text) → PolicyScope → List Text → AuthorityOperation → Option Text → Bool
outside_scope fold scope listed operation actual =
    is_allow_list scope
    && ((truthy actual && not (normalized_membership fold listed actual))
        || (is_execute operation && ltb 0 (length listed) && not (truthy actual)))

-- `limit && greaterThan(value, limit)`
unfoldable pub exceeds : Text → Option Text → Result DecimalError Bool
exceeds value none = ok false
exceeds value (some limit) = if is_empty limit then ok false else greater_than value limit

-- `leverageMultiplier && greaterThan(leverageMultiplier, '1') && !leverageAllowed`
unfoldable pub leverage_refused : Option Text → Bool → Result DecimalError Bool
leverage_refused none ok_by_mandate = ok false
leverage_refused (some s) ok_by_mandate =
    if is_empty s
    then ok false
    else Prelude.◌>>=◌ (greater_than s (codes "1")) λ above. ok (above && not ok_by_mandate)

-- `a > b` and `a <= b` on dates; a comparison with an invalid date is false.
abbrev pub is_after : Instant → ℕ → Bool
is_after none now = false
is_after (some t) now = ltb now t

abbrev pub has_passed : Option Instant → ℕ → Bool
has_passed none now = false
has_passed (some none) now = false
has_passed (some (some t)) now = leb t now

unfoldable pub check_status : MandateStatus → Bool → Verdict (Unit {0})
check_status draft past = deny (reason mandate_not_active "The mandate is still a draft.")
check_status paused past =
    deny (reason mandate_paused "The mandate is paused and immediately unusable.")
check_status revoked past =
    deny (reason mandate_revoked "The mandate has been revoked and cannot be used.")
check_status expired past = deny (reason mandate_expired "The mandate has expired.")
check_status active past = deny_if past (reason mandate_expired "The mandate has expired.")

abbrev pub is_write : Option CapabilityEffect → Bool
is_write none = false
is_write (some read) = false
is_write (some _) = true

abbrev pub is_read : Option CapabilityEffect → Bool
is_read (some read) = true
is_read _ = false

abbrev pub is_watch_only : Option WalletMode → Bool
is_watch_only (some watch_only) = true
is_watch_only _ = false

abbrev pub is_connected : Option WalletMode → Bool
is_connected (some connected) = true
is_connected _ = false

abbrev pub is_level_observe : AuthorityLevel → Bool
is_level_observe level_observe = true
is_level_observe _ = false

abbrev pub is_level_prepare : AuthorityLevel → Bool
is_level_prepare level_prepare = true
is_level_prepare _ = false

abbrev pub is_always : ApprovalMode → Bool
is_always always = true
is_always _ = false

abbrev pub is_threshold : ApprovalMode → Bool
is_threshold threshold = true
is_threshold _ = false

abbrev pub period_word : BudgetPeriod → String
period_word day = "day"
period_word week = "week"
period_word month = "month"

-- The first group of checks: whose mandate it is, its state, its window, and what it covers.
unfoldable pub check_coverage : PureEvaluationInput → MandatePolicySnapshot → Verdict (Unit {0})
check_coverage i m = do
  deny_if
      (not (m.worker_id === e.worker_id)
        || not (m.account_id === e.account_id)
        || not (m.environment === e.environment))
      (reason mandate_scope_mismatch
        "The mandate does not belong to this Worker, account and environment.")
  check_status m.status (has_passed m.valid_until i.now)
  deny_if (is_after m.valid_from i.now)
      (reason mandate_not_yet_valid "The mandate validity window has not started.")
  deny_if (not i.capability_known)
      (reason unknown_capability "The requested canonical capability is unknown to AgentPlace.")
  deny_if (not (includes m.allowed_capabilities e.capability_id)) (
      about capability_not_allowed "This capability is outside the mandate." "capability" none
        e.capability_id)
  deny_if (not (matches_network m.allowed_networks e.network)) (
      about network_not_allowed "This network is outside the mandate." "network" none
        (e.network.family ++ codes ":" ++ e.network.network_id))
  where
    open i use {envelope as e}

-- The second group: assets, protocols and destinations, borrowing and leverage.
unfoldable pub check_scopes : ActionEnvelope → MandatePolicySnapshot → Verdict (Unit {0})
check_scopes e m = do
  deny_if (outside_scope to_upper m.asset_scope m.allowed_assets e.operation e.asset) (
      about asset_not_allowed
        (if truthy e.asset
          then "This asset is outside the mandate."
          else "The financial action requires a known allowed asset.")
        "asset" none (or_missing e.asset))
  deny_if (outside_scope to_lower m.protocol_scope m.allowed_protocols e.operation e.protocol) (
      about protocol_not_allowed
        (if truthy e.protocol
          then "This protocol is outside the mandate."
          else "The financial action requires a known allowed protocol.")
        "protocol" none (or_missing e.protocol))
  deny_if
      (outside_scope to_lower m.destination_scope m.allowed_destinations e.operation e.destination)
      (about destination_not_allowed
        (if truthy e.destination
          then "This destination is outside the mandate."
          else "The financial action requires a known allowed destination.")
        "destination" none (or_missing e.destination))
  deny_if (flag e.borrowing && not m.borrowing_allowed)
      (reason borrowing_not_allowed "Borrowing is prohibited by this mandate.")
  above ← lift (leverage_refused e.leverage_multiplier m.leverage_allowed)
  deny_if above (reason leverage_not_allowed "Leverage is prohibited by this mandate.")

-- The third group: the operation against the capability, the authority level and the account.
unfoldable pub check_operation : PureEvaluationInput → MandatePolicySnapshot → Verdict (Unit {0})
check_operation i m = do
  deny_if (is_observe operation && is_write i.capability_effect) (
      reason capability_operation_mismatch
        "A write capability cannot be treated as a read-only observation.")
  deny_if (is_execute operation && is_read i.capability_effect) (
      reason capability_not_executable
        "A read-only capability cannot be treated as financial execution.")
  deny_if (is_level_observe m.authority_level && not (is_observe operation))
      (reason observe_only "This mandate permits observation only.")
  deny_if (is_execute operation && is_watch_only i.account_mode)
      (reason watch_only_cannot_execute "Watch-only accounts can never execute financial actions.")
  where
    open i.envelope use {operation}

-- The value in canonical form, where the envelope has one.
unfoldable pub value_of : ActionEnvelope → Verdict (Option Text)
value_of e = elim e.value_usd [
  | none ↦ go none
  | some v ↦ if is_empty v then go none else lift (canonical_decimal v) >>= λ c. go (some c)
]

-- `valueUsd && limit && greaterThan(valueUsd, limit)`
unfoldable pub over : Option Text → Option Text → Result DecimalError Bool
over none limit = ok false
over (some value) limit = exceeds value limit

abbrev pub or_empty : Option Text → Text
or_empty none = []
or_empty (some s) = s

-- The period budget: what was spent before and the value, together.
unfoldable pub check_budget : Text → Option Text → Option Budget → Verdict (Unit {0})
check_budget spent none budget = go tt
check_budget spent (some value) none = go tt
check_budget spent (some value) (some budget) = do
  after ← lift (add_decimal spent value)
  exceeded ← lift (greater_than after budget.limit_usd)
  deny_if exceeded (
      about period_budget_exceeded
        (String.◌++◌ "The "
          (String.◌++◌ (period_word budget.period) " period budget would be exceeded."))
        "periodBudget" (some (at_most budget.limit_usd)) after)

-- The fourth group: the value against the ceilings of the mandate.
unfoldable pub check_limits :
    PureEvaluationInput → MandatePolicySnapshot → Option Text → Verdict (Unit {0})
check_limits i m value = do
  deny_if (is_execute i.envelope.operation && not (truthy value))
      (reason value_required "Financial execution requires a deterministic value-at-risk amount.")
  over_capital ← lift (over value m.capital_limit_usd)
  deny_if over_capital (
      about capital_authority_exceeded "The action exceeds the capital authority ceiling."
        "valueUsd" (some (at_most (or_empty m.capital_limit_usd))) (or_empty value))
  over_action ← lift (over value m.per_action_limit_usd)
  deny_if over_action (
      about per_action_limit_exceeded "The action exceeds the hard per-action limit." "valueUsd"
        (some (at_most (or_empty m.per_action_limit_usd))) (or_empty value))
  check_budget i.period_spent_usd value m.period_budget
