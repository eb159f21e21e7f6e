-- ===== src/Authority/Usage.antt =====
-- `recordAuthorityUsage` of packages/authority/src/index.ts: an allowed decision is counted against
-- the period budget of its mandate, once.
pub mod Within
pub mod Counted
pub mod Once
mod Tests
use agentplace.Prelude.{
  ℕ, Bool, true, false, not, ◌&&◌, ◌||◌, List, [], ◌∷◌, Option, none, some, ok, throw, ◌>>=◌, ◌>>◌,
  throw_if, or_throw, ◌==◌, if◌then◌else◌, any, ◌===◌,
}
use agentplace.Text.{Text, text_eq}
use agentplace.Decimal.{canonical_decimal, add_decimal, greater_than}
use agentplace.Authority.Types.{
  AuthorityEnvironment, AuthorityDecisionValue, allowed, approval_required, denied, MandateStatus,
  active, ActionEnvelope, Budget,
}
use agentplace.Authority.Inputs.{
  Outcome, syntax, authority_decision_not_found, authority_usage_not_recordable,
  authority_decision_stale, authority_period_budget_required,
  authority_period_budget_exceeded_at_record, check_violation,
}
use agentplace.Authority.Store.{Mandate, Store, find_mandate}
use agentplace.Authority.Mandates.{Call, step}
use agentplace.Authority.Period.{period_start}
use agentplace.Authority.Numeric.{Numeric}
use agentplace.Authority.Decisions.{
  DecisionRow, BudgetUsage, AuthorityTables, find_decision, spent_since, Columns,
  evaluate_authority, set_autonomous_execution_paused,
}

abbrev pub is_allowed : AuthorityDecisionValue → Bool
is_allowed allowed = true
is_allowed _ = false

abbrev pub is_active : MandateStatus → Bool
is_active active = true
is_active _ = false

-- The mandate, its revision and the value of a decision that can be counted.
unfoldable pub recordable_columns :
    AuthorityDecisionValue → Option Text → Option ℕ → Option ℕ → Outcome (Text × ℕ × ℕ)
recordable_columns allowed (some id) (some revision) (some value) = ok (id, revision, value)
recordable_columns _ _ _ _ = throw authority_usage_not_recordable

abbrev pub recordable : DecisionRow → Outcome (Text × ℕ × ℕ)
recordable d = recordable_columns d.decision d.mandate_id d.mandate_revision d.evaluated_value_usd

-- `!current || current.status !== 'ACTIVE' || current.current_revision !== row.mandate_revision`
unfoldable pub current_mandate : ℕ → Option Mandate → Outcome Mandate
current_mandate revision none = throw authority_decision_stale
current_mandate revision (some m) =
    if is_active m.status && m.current_revision == revision
    then ok m
    else throw authority_decision_stale

abbrev pub counts : Text → BudgetUsage → Bool
counts id u = u.authority_decision_id === id

module _ (n : Numeric) where
  -- What is spent in the period, with the value, must not be greater than the limit.
  unfoldable pub check_usage_budget : Budget → ℕ → ℕ → Outcome (Unit {0})
  check_usage_budget b spent value = do
    before ← syntax (canonical_decimal (n.print spent))
    amount ← syntax (canonical_decimal (n.print value))
    after ← syntax (add_decimal before amount)
    limit ← syntax (canonical_decimal b.limit_usd)
    over ← syntax (greater_than after limit)
    throw_if over authority_period_budget_exceeded_at_record

  -- The row is inserted; the column takes values above 0 only.
  unfoldable pub record_new : Text → Text → ℕ → ℕ → ℕ → AuthorityTables → Outcome AuthorityTables
  record_new id mandate_id revision value now t = do
    m ← current_mandate revision (find_mandate mandate_id t.store.mandates)
    b ← or_throw m.policy.period_budget authority_period_budget_required
    check_usage_budget b (spent_since (period_start b.period now) mandate_id t.usages) value
    throw_if (value == 0) check_violation
    ok (record t {
      usages =
          record {
            mandate_id = mandate_id;
            mandate_revision = revision;
            authority_decision_id = id;
            value_usd = value;
            occurred_at = now;
          }
          ∷ t.usages;
    })

  unfoldable pub record_once :
      Bool → Text → Text → ℕ → ℕ → ℕ → AuthorityTables → Outcome AuthorityTables
  record_once true id mandate_id revision value now t = ok t
  record_once false id mandate_id revision value now t =
      record_new id mandate_id revision value now t

  -- `recordAuthorityUsage`
  unfoldable pub record_authority_usage : Text → ℕ → AuthorityTables → Outcome AuthorityTables
  record_authority_usage id now t = do
    d ← or_throw (find_decision id t.decisions) authority_decision_not_found
    (mandate_id, revision, value) ← recordable d
    record_once (any (counts id) t.usages) id mandate_id revision value now t

-- A transaction that throws leaves the tables as they were.
unfoldable pub committed_usage : AuthorityTables → Outcome AuthorityTables → AuthorityTables
committed_usage t (throw e) = t
committed_usage t (ok t') = t'

-- Any call of the package that changes the tables.
pub data AuthorityCall : Type 0 where
  changes : Call → AuthorityCall
  evaluates : Bool → ActionEnvelope → Text → AuthorityCall
  pauses : AuthorityEnvironment → Bool → AuthorityCall
  records : Text → AuthorityCall

module _ (n : Numeric) (c : Columns) where
  unfoldable pub authority_step : ℕ → AuthorityCall → AuthorityTables → AuthorityTables
  authority_step now (changes call) t = record t { store = step now call t.store }
  authority_step now (evaluates enabled e id) t = (evaluate_authority n c enabled e id now t).0
  authority_step now (pauses e paused) t = (set_autonomous_execution_paused e paused t).0
  authority_step now (records id) t = committed_usage t (record_authority_usage n id now t)

  unfoldable pub run_authority : List (ℕ × AuthorityCall) → AuthorityTables → AuthorityTables
  run_authority [] t = t
  run_authority ((now, call) ∷ calls) t = run_authority calls (authority_step now call t)
