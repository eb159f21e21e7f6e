-- ===== src/Security.antt =====
-- `emergencyStopFutureExecution` of packages/security/src/index.ts: the rows of one owner are a
-- record, and the transaction is a function on it.
pub mod Rows
pub mod Stopped
mod Tests
use agentplace.Prelude.{
  ℕ, suc, ◌+◌, Bool, true, false, not, ◌&&◌, ◌||◌, List, [], ◌∷◌, ◌++◌, Option, none, some,
  if◌then◌else◌, length, map, filter, find, any, includes, ◌===◌,
}
use agentplace.Text.{Text, text_eq}

pub data ActionStatus : Type 0 where
  draft prepared approval_required denied ready_for_execution rejected expired : ActionStatus

pub data AttemptStatus : Type 0 where
  wallet_prompted submitted confirming confirmed reverted unknown mismatch : AttemptStatus
  user_rejected pre_submission_failed : AttemptStatus

pub data ApprovalDecision : Type 0 where
  approval_given approval_refused approval_invalidated approval_expired : ApprovalDecision

-- A row of `financial_action`, oldest first; of `transaction_attempt`, newest first; of
-- `action_approval`.
pub record Action : Type 0 where
  pub id : Text
  pub status : ActionStatus

pub record Attempt : Type 0 where
  pub action_id : Text
  pub status : AttemptStatus

pub record Approval : Type 0 where
  pub action_id : Text
  pub decision : ApprovalDecision

pub record Tables : Type 0 where
  pub actions : List Action
  pub attempts : List Attempt
  pub approvals : List Approval

-- `CANCELLABLE_ACTION_STATUSES` and `PROTECTED_ATTEMPT_STATUSES`
abbrev pub is_cancellable : ActionStatus → Bool
is_cancellable draft = true
is_cancellable prepared = true
is_cancellable approval_required = true
is_cancellable ready_for_execution = true
is_cancellable _ = false

abbrev pub is_protected : AttemptStatus → Bool
is_protected submitted = true
is_protected confirming = true
is_protected confirmed = true
is_protected unknown = true
is_protected _ = false

abbrev pub is_prompted : AttemptStatus → Bool
is_prompted wallet_prompted = true
is_prompted _ = false

-- The wallet prompts that are still open fail.
unfoldable pub stop_prompt : Attempt → Attempt
stop_prompt a = if is_prompted a.status then record a { status = pre_submission_failed } else a

-- `protectedAttempt`
unfoldable pub protected_attempt : Text → List Attempt → Option AttemptStatus
protected_attempt id [] = none
protected_attempt id (a ∷ attempts) =
    let rest = protected_attempt id attempts in
    if a.action_id === id && is_protected a.status then some a.status else rest

-- What the transaction collects: the ids stopped, and how many actions are protected.
pub record Progress : Type 0 where
  pub actions : List Action
  pub stopped_ids : List Text
  pub protected_actions : ℕ

-- `UPDATE financial_action … WHERE id=… AND status=ANY(…)`
unfoldable pub reject : Text → List Action → List Action
reject id actions =
    map
      (λ (a : Action).
        if a.id === id && is_cancellable a.status then record a { status = rejected } else a)
      actions

unfoldable pub stop_unprotected : Text → Option AttemptStatus → Progress → Progress
stop_unprotected id (some protection) p = record p { protected_actions = suc p.protected_actions }
stop_unprotected id none p = record p {
  actions = reject id p.actions;
  stopped_ids =
      if any (λ (a : Action). a.id === id && is_cancellable a.status) p.actions
      then p.stopped_ids ++ id ∷ []
      else p.stopped_ids;
}

-- `stopLockedAction`
unfoldable pub stop_locked_action : List Attempt → Action → Progress → Progress
stop_locked_action attempts a p =
    if is_cancellable a.status then stop_unprotected a.id (protected_attempt a.id attempts) p else p

unfoldable pub stop_each : List Attempt → List Action → Progress → Progress
stop_each attempts [] p = p
stop_each attempts (a ∷ rest) p = stop_each attempts rest (stop_locked_action attempts a p)

abbrev pub is_target : Option Text → Text → Bool
is_target none id = false
is_target (some t) id = t === id

-- The target first, then the other cancellable actions, as they are after the target.
unfoldable pub stop_all : List Attempt → Option Text → Progress → Progress
stop_all attempts target p =
    let first = stop_each attempts (filter (λ (a : Action). is_target target a.id) p.actions) p in
    stop_each attempts
      (filter (λ (a : Action). is_cancellable a.status && not (is_target target a.id))
        first.actions)
      first

unfoldable pub invalidate : List Text → Approval → Approval
invalidate ids a = elim a.decision [
  | approval_given ↦
      if includes ids a.action_id then record a { decision = approval_invalidated } else a
  | _ ↦ a
]

pub record EmergencyStopResult : Type 0 where
  pub actions_stopped : ℕ
  pub wallet_prompts_stopped : ℕ
  pub submitted_untouched : ℕ

unfoldable pub emergency_stop_future_execution : Option Text → Tables → Tables × EmergencyStopResult
emergency_stop_future_execution target t =
    let attempts = map stop_prompt t.attempts in
    let p =
      stop_all attempts target
        (record { actions = t.actions; stopped_ids = []; protected_actions = 0 }) in
    (
      record {
        actions = p.actions;
        attempts = attempts;
        approvals = map (invalidate p.stopped_ids) t.approvals;
      },
      record {
        actions_stopped = length p.stopped_ids;
        wallet_prompts_stopped = length (filter (λ (a : Attempt). is_prompted a.status) t.attempts);
        submitted_untouched = p.protected_actions;
      },
    )
