-- ===== src/Security/Tests.antt =====
-- A run of the emergency stop (packages/security/src/index.ts), and an instance of the theorem.
use agentplace.Prelude.{◌≡◌, refl, false, [], ◌∷◌, none, some, map, All}
use agentplace.Text.{codes, eq_text}
use agentplace.Security.{
  Attempt, Tables, prepared, denied, rejected, wallet_prompted, submitted, reverted, approval_given,
  is_prompted, stop_prompt, protected_attempt, reject, stop_unprotected, stop_locked_action,
  stop_each, stop_all, invalidate, emergency_stop_future_execution,
}
use agentplace.Security.Stopped.{stopped_action, emergency_stop-stopped}

abbrev rows : Tables
rows = record {
  actions =
      record { id = codes "a1"; status = prepared }
      ∷ record { id = codes "a2"; status = prepared }
      ∷ record { id = codes "a3"; status = denied }
      ∷ [];
  attempts =
      record { action_id = codes "a1"; status = wallet_prompted }
      ∷ record { action_id = codes "a2"; status = submitted }
      ∷ [];
  approvals = record { action_id = codes "a1"; decision = approval_given } ∷ [];
}

stop_run :
    (emergency_stop_future_execution (some (codes "a2")) rows).0.actions
    ≡ record { id = codes "a1"; status = rejected }
      ∷ record { id = codes "a2"; status = prepared }
      ∷ record { id = codes "a3"; status = denied }
      ∷ []
unfolding eq_text stop_prompt protected_attempt reject stop_unprotected stop_locked_action stop_each
    stop_all invalidate emergency_stop_future_execution
stop_run = refl

emergency_stop-stopped_example :
    ((emergency_stop_future_execution (some (codes "a2")) rows).0.actions
      ≡ map (stopped_action (map stop_prompt rows.attempts)) rows.actions)
    × All
        (λ (a : Attempt). is_prompted a.status ≡ false)
        (emergency_stop_future_execution (some (codes "a2")) rows).0.attempts
emergency_stop-stopped_example = emergency_stop-stopped (some (codes "a2")) rows

-- An action whose attempt was reverted is still to come, and is rejected.
reverted_run :
    (emergency_stop_future_execution none (record rows {
      attempts = record { action_id = codes "a2"; status = reverted } ∷ [];
    })).0.actions
    ≡ record { id = codes "a1"; status = rejected }
      ∷ record { id = codes "a2"; status = rejected }
      ∷ record { id = codes "a3"; status = denied }
      ∷ []
unfolding eq_text stop_prompt protected_attempt reject stop_unprotected stop_locked_action stop_each
    stop_all invalidate emergency_stop_future_execution
reverted_run = refl
