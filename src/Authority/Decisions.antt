-- ===== src/Authority/Decisions.antt =====
-- The decision log and the control state of packages/authority/src/index.ts: `toSnapshot`,
-- `getAuthorityControlState`, `setAutonomousExecutionPaused` and `evaluateAuthority`. Amounts in the
-- tables are `numeric(30,8)`, here whole numbers of 10^-8; how PostgreSQL reads and prints them is a
-- parameter. One call sees one clock value.
pub mod Autonomous
mod Tests
use agentplace.Prelude.{
  ℕ, ◌+◌, Bool, true, false, not, ◌&&◌, ◌||◌, List, [], ◌∷◌, ◌++◌, Option, none, some, ok, throw,
  ◌>>=◌, ◌>>◌, throw_if, or_throw, ◌==◌, leb, if◌then◌else◌, map, filter, find, includes, any,
  head?, ◌===◌, Ordering, compare, or_else, sort_by,
}
use agentplace.Text.{Text, codes, text_eq}
use agentplace.Decimal.{canonical_decimal}
use agentplace.Authority.Types.{
  MandateStatus, draft, active, paused, expired, revoked, AuthorityEnvironment, environment_eq,
  is_mainnet, WalletMode, CapabilityEffect, AuthorityDecisionValue, AuthorityReason, ActionEnvelope,
  AuthorityControlState, MandatePolicySnapshot, DurableMandateRevision, PureEvaluationInput,
  AuthorityPolicyEvaluation, Budget, Instant,
}
use agentplace.Authority.Evaluate.Decide.{evaluate_authority_policy}
use agentplace.Authority.Inputs.{Outcome, duplicate_key, check_violation, syntax, is_present}
use agentplace.Authority.Store.{Mandate, Account, Store, expire_mandates, get_mandate}
use agentplace.Authority.Period.{period_start}
use agentplace.Authority.Envelope.{normalize_envelope}
use agentplace.Authority.Numeric.{Numeric}

-- A row of `authority_decision`.
pub record DecisionRow : Type 0 where
  pub id : Text
  pub mandate_id : Option Text
  pub mandate_revision : Option ℕ
  pub worker_id : Text
  pub account_id : Text
  pub environment : AuthorityEnvironment
  pub action_envelope : ActionEnvelope
  pub decision : AuthorityDecisionValue
  pub reasons : List AuthorityReason
  pub period_spent_before_usd : Text
  pub evaluated_value_usd : Option ℕ
  pub created_at : ℕ

-- A row of `authority_budget_usage`.
pub record BudgetUsage : Type 0 where
  pub mandate_id : Text
  pub mandate_revision : ℕ
  pub authority_decision_id : Text
  pub value_usd : ℕ
  pub occurred_at : ℕ

-- The tables of one owner: those of the mandates, decisions and usages, newest first, and the rows
-- of `authority_control_state`.
pub record AuthorityTables : Type 0 where
  pub store : Store
  pub decisions : List DecisionRow
  pub usages : List BudgetUsage
  pub controls : List (AuthorityEnvironment × Bool)

pub record DurableAuthorityDecision : Type 0 where
  pub id : Text
  pub evaluation : AuthorityPolicyEvaluation
  pub open evaluation use *
  pub mandate_id : Option Text
  pub mandate_revision : Option ℕ
  pub worker_id : Text
  pub account_id : Text
  pub environment : AuthorityEnvironment
  pub action_envelope : ActionEnvelope
  pub evaluated_value_usd : Option Text
  pub created_at : ℕ

-- Columns that only `evaluateAuthority` reads: when a mandate was last changed, when its current
-- revision was made, and the effects of the canonical capabilities.
pub record Columns : Type 0 where
  pub updated_at : Mandate → ℕ
  pub revision_created_at : Mandate → ℕ
  pub effect : Text → Option CapabilityEffect

-- `toSnapshot`; a mandate that was normalized has a start.
abbrev pub start_of : Option Instant → Instant
start_of none = none
start_of (some t) = t

abbrev pub to_snapshot : Columns → Mandate → MandatePolicySnapshot
to_snapshot c m = record {
  revised = record {
    policy = m.policy;
    revision = m.current_revision;
    valid_from = start_of m.policy.valid_from;
    created_at = c.revision_created_at m;
  };
  mandate_id = m.id;
  worker_id = m.worker_id;
  account_id = m.account_id;
  environment = m.environment;
  status = m.status;
}

-- `result.rows.find(…)?.autonomous_execution_paused ?? false`
unfoldable pub is_paused : AuthorityEnvironment → List (AuthorityEnvironment × Bool) → Bool
is_paused e [] = false
is_paused e (row ∷ rows) = let rest = is_paused e rows in if row.0 === e then row.1 else rest

-- `getAuthorityControlState`
unfoldable pub get_authority_control_state : AuthorityTables → AuthorityControlState
get_authority_control_state t = record {
  mainnet_paused = is_paused AuthorityEnvironment.mainnet t.controls;
  testnet_paused = is_paused AuthorityEnvironment.testnet t.controls;
}

-- `INSERT … ON CONFLICT … DO UPDATE`
unfoldable pub set_paused :
    AuthorityEnvironment
    → Bool
    → List (AuthorityEnvironment × Bool)
    → List (AuthorityEnvironment × Bool)
set_paused e stop [] = (e, stop) ∷ []
set_paused e stop (row ∷ rows) =
    let rest = set_paused e stop rows in if row.0 === e then (e, stop) ∷ rows else row ∷ rest

-- `setAutonomousExecutionPaused`, apart from its event
unfoldable pub set_autonomous_execution_paused :
    AuthorityEnvironment → Bool → AuthorityTables → AuthorityTables × AuthorityControlState
set_autonomous_execution_paused e stop t =
    let t' = record t { controls = set_paused e stop t.controls } in
    (t', get_authority_control_state t')

-- `COALESCE(sum(value_usd),0)` of a mandate's usages from `start` on.
unfoldable pub spent_since : ℕ → Text → List BudgetUsage → ℕ
spent_since start id [] = 0
spent_since start id (u ∷ us) =
    let rest = spent_since start id us in
    if u.mandate_id === id && leb start u.occurred_at then u.value_usd + rest else rest

-- The order of the query for the mandate: by status, and the last changed first.
abbrev pub status_rank : MandateStatus → ℕ
status_rank active = 0
status_rank paused = 1
status_rank expired = 2
status_rank draft = 3
status_rank revoked = 4

abbrev pub mandate_order : Columns → Mandate → Mandate → Ordering
mandate_order c a b =
    or_else (compare (status_rank a.status) (status_rank b.status))
      (compare (c.updated_at b) (c.updated_at a))

abbrev pub is_mandate_for : ActionEnvelope → Mandate → Bool
is_mandate_for e m =
    m.worker_id === e.worker_id
    && (m.account_id === e.account_id && m.environment === e.environment)

unfoldable pub mandate_for : Columns → ActionEnvelope → Store → Option Mandate
mandate_for c e s = head? (sort_by (mandate_order c) (filter (is_mandate_for e) s.mandates))

-- `mandateId ? await getMandate(ownerUserId, mandateId) : null`
unfoldable pub read_mandate : Option Mandate → ℕ → Store → Store × Option Mandate
read_mandate none now s = (s, none)
read_mandate (some m) now s = get_mandate m.id now s

unfoldable pub mode_of : Option Account → Option WalletMode
mode_of none = none
mode_of (some a) = some a.mode

unfoldable pub account_mode : Text → Store → Option WalletMode
account_mode id s = mode_of (find (λ (a : Account). a.id === id && not a.has_left) s.accounts)

unfoldable pub snapshot_of : Columns → Option Mandate → Option MandatePolicySnapshot
snapshot_of c none = none
snapshot_of c (some m) = some (to_snapshot c m)

-- `mandate?.id ?? null` and `mandate?.revision.revision ?? null`
abbrev pub mandate_id_of : Option Mandate → Option Text
mandate_id_of none = none
mandate_id_of (some m) = some m.id

abbrev pub revision_of : Option Mandate → Option ℕ
revision_of none = none
revision_of (some m) = some m.current_revision

unfoldable pub find_decision : Text → List DecisionRow → Option DecisionRow
find_decision id [] = none
find_decision id (d ∷ ds) = let rest = find_decision id ds in if d.id === id then some d else rest

-- The row that `evaluateAuthority` inserts.
abbrev pub decision_row :
    Text → ActionEnvelope → Option Mandate → AuthorityPolicyEvaluation → Option ℕ → ℕ → DecisionRow
decision_row id e m evaluation value now = record {
  id = id;
  mandate_id = mandate_id_of m;
  mandate_revision = revision_of m;
  worker_id = e.worker_id;
  account_id = e.account_id;
  environment = e.environment;
  action_envelope = e;
  decision = evaluation.decision;
  reasons = evaluation.reasons;
  period_spent_before_usd = evaluation.period_spent_before_usd;
  evaluated_value_usd = value;
  created_at = now;
}

module _ (n : Numeric) where
  unfoldable pub spent_under : Option Budget → Text → ℕ → List BudgetUsage → Outcome Text
  spent_under none id now us = ok (codes "0")
  spent_under (some b) id now us =
      syntax (canonical_decimal (n.print (spent_since (period_start b.period now) id us)))

  -- `periodSpentUsd`
  unfoldable pub period_spent : Option Mandate → ℕ → List BudgetUsage → Outcome Text
  period_spent none now us = ok (codes "0")
  period_spent (some m) now us = spent_under m.policy.period_budget m.id now us

  -- The value as the column takes it.
  unfoldable pub stored_value : Option Text → Outcome (Option ℕ)
  stored_value none = ok none
  stored_value (some v) = do k ← or_throw (n.parse v) check_violation; ok (some k)

  module _ (c : Columns) (mainnet_autonomy_enabled : Bool) where
    abbrev pub evaluation_input :
        ActionEnvelope → Option Mandate → Text → ℕ → AuthorityTables → PureEvaluationInput
    evaluation_input e m spent now t = record {
      mandate = snapshot_of c m;
      envelope = e;
      capability_known = is_present (c.effect e.capability_id);
      capability_effect = c.effect e.capability_id;
      account_mode = account_mode e.account_id t.store;
      global_autonomy_paused =
          if is_mainnet e.environment
          then (get_authority_control_state t).mainnet_paused
          else (get_authority_control_state t).testnet_paused;
      mainnet_autonomy_enabled = mainnet_autonomy_enabled;
      period_spent_usd = spent;
      now = now;
    }

    -- The evaluation and the insertion of its row; `store` is what the reads left of the mandates.
    unfoldable pub decide :
        ActionEnvelope
        → Option Mandate
        → Text
        → ℕ
        → Store
        → AuthorityTables
        → Outcome (AuthorityTables × DurableAuthorityDecision)
    decide e m id now store t = do
      spent ← period_spent m now t.usages
      evaluation ← syntax (evaluate_authority_policy (evaluation_input e m spent now t))
      throw_if (is_present (find_decision id t.decisions)) duplicate_key
      value ← stored_value e.value_usd
      ok (
        record t {
          store = store;
          decisions = decision_row id e m evaluation value now ∷ t.decisions;
        },
        record {
          id = id;
          evaluation = evaluation;
          mandate_id = mandate_id_of m;
          mandate_revision = revision_of m;
          worker_id = e.worker_id;
          account_id = e.account_id;
          environment = e.environment;
          action_envelope = e;
          evaluated_value_usd = e.value_usd;
          created_at = now;
        },
      )

    -- After a throw the tables keep what `expireMandates` and `getMandate` did.
    unfoldable pub decided :
        Store
        → AuthorityTables
        → Outcome (AuthorityTables × DurableAuthorityDecision)
        → AuthorityTables × Outcome DurableAuthorityDecision
    decided store t (throw e) = (record t { store = store }, throw e)
    decided store t (ok (t', d)) = (t', ok d)

    unfoldable pub evaluate_normalized :
        Outcome ActionEnvelope
        → Text
        → ℕ
        → AuthorityTables
        → AuthorityTables × Outcome DurableAuthorityDecision
    evaluate_normalized (throw e) id now t = (t, throw e)
    evaluate_normalized (ok e) id now t =
        let s = expire_mandates now t.store in
        let (s', m) = read_mandate (mandate_for c e s) now s in
        decided s' t (decide e m id now s' (record t { store = s }))

    -- `evaluateAuthority`; `id` is the random id of the decision.
    unfoldable pub evaluate_authority :
        ActionEnvelope
        → Text
        → ℕ
        → AuthorityTables
        → AuthorityTables × Outcome DurableAuthorityDecision
    evaluate_authority raw id now t = evaluate_normalized (normalize_envelope raw) id now t
