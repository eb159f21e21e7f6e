-- ===== src/Security/Stopped.antt =====
-- What the emergency stop of packages/security/src/index.ts is meant to do to each row.
use agentplace.Prelude.{
  ◌≡◌, refl, ◌∙◌, Bool, true, false, not, ◌&&◌, List, [], ◌∷◌, Option, if◌then◌else◌, map, any, All,
  Bool-cases, inl, inr, arith, ◌===◌,
}
use agentplace.Text.{Text, text_eq}
use agentplace.Security.{
  Action, ActionStatus, draft, prepared, approval_required, denied, ready_for_execution, expired,
  is_protected, wallet_prompted, submitted, confirming, confirmed, reverted, unknown, mismatch,
  user_rejected, pre_submission_failed, Attempt, AttemptStatus, Tables, rejected, is_cancellable,
  is_prompted, stop_prompt, protected_attempt, emergency_stop_future_execution,
}
use agentplace.Security.Rows.{is_safe, left_action, stop_all-left}

-- An attempt that is on its way to the chain or confirmed, or whose fate is unknown.
abbrev pub is_under_way : AttemptStatus → Bool
is_under_way submitted = true
is_under_way confirming = true
is_under_way confirmed = true
is_under_way unknown = true
is_under_way wallet_prompted = false
is_under_way reverted = false
is_under_way mismatch = false
is_under_way user_rejected = false
is_under_way pre_submission_failed = false

-- An action that is still to be prepared, approved or executed.
abbrev pub is_to_come : ActionStatus → Bool
is_to_come draft = true
is_to_come prepared = true
is_to_come approval_required = true
is_to_come ready_for_execution = true
is_to_come denied = false
is_to_come rejected = false
is_to_come expired = false

-- The action as the stop is meant to leave it: rejected, if it is still to come and none of its
-- attempts is under way.
unfoldable pub stopped_action : List Attempt → Action → Action
stopped_action attempts a =
    if is_to_come a.status
      && not (any (λ (t : Attempt). t.action_id === a.id && is_under_way t.status) attempts)
    then record a { status = rejected }
    else a

same_status : (s : ActionStatus) → is_cancellable s ≡ is_to_come s
same_status draft = refl
same_status prepared = refl
same_status approval_required = refl
same_status ready_for_execution = refl
same_status denied = refl
same_status rejected = refl
same_status expired = refl

same_attempt : (s : AttemptStatus) → is_protected s ≡ is_under_way s
same_attempt submitted = refl
same_attempt confirming = refl
same_attempt confirmed = refl
same_attempt unknown = refl
same_attempt wallet_prompted = refl
same_attempt reverted = refl
same_attempt mismatch = refl
same_attempt user_rejected = refl
same_attempt pre_submission_failed = refl

protected_attempt-any :
    (id : Text) (ts : List Attempt)
    → is_safe (protected_attempt id ts)
      ≡ any (λ (t : Attempt). t.action_id === id && is_under_way t.status) ts
unfolding protected_attempt
protected_attempt-any id [] = refl
protected_attempt-any id (t ∷ ts) =
    elim (Bool-cases (t.action_id === id && is_protected t.status)) [
      | inl y ↦ rw y (ground (arith, y, same_attempt t.status))
      | inr n ↦ rw n (ground (arith, n, same_attempt t.status, protected_attempt-any id ts))
    ]

left_action-stopped : (ts : List Attempt) (a : Action) → left_action ts a ≡ stopped_action ts a
unfolding left_action stopped_action
left_action-stopped ts a = rw (same_status a.status, protected_attempt-any a.id ts) refl

map-left_action :
    (ts : List Attempt) (actions : List Action)
    → map (left_action ts) actions ≡ map (stopped_action ts) actions
map-left_action ts [] = refl
map-left_action ts (a ∷ actions) = rw (left_action-stopped ts a, map-left_action ts actions) refl

no_prompts :
    (attempts : List Attempt)
    → All (λ (a : Attempt). is_prompted a.status ≡ false) (map stop_prompt attempts)
unfolding stop_prompt
no_prompts [] = tt
no_prompts (a ∷ attempts) = (ground arith, no_prompts attempts)

-- The emergency stop rejects exactly the actions that are draft, prepared, waiting for an approval
-- or ready for execution and have no attempt that is submitted, confirming, confirmed or unknown,
-- whichever action is the target; every other action stays as it is; and no wallet prompt stays
-- open.
pub emergency_stop-stopped :
    (target : Option Text) (t : Tables)
    → ((emergency_stop_future_execution target t).0.actions
        ≡ map (stopped_action (map stop_prompt t.attempts)) t.actions)
      × All
          (λ (a : Attempt). is_prompted a.status ≡ false)
          (emergency_stop_future_execution target t).0.attempts
unfolding emergency_stop_future_execution
emergency_stop-stopped target t = (
  stop_all-left (map stop_prompt t.attempts) target
        (record { actions = t.actions; stopped_ids = []; protected_actions = 0 })
      ∙ map-left_action (map stop_prompt t.attempts) t.actions,
  no_prompts t.attempts,
)
