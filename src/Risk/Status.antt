-- ===== src/Risk/Status.antt =====
-- When an action passes the assessment of packages/risk/src/index.ts.
use agentplace.Prelude.{ℕ, ◌≡◌, ◌↔◌, Bool, true, false, Option, none, some, leb, arith}
use agentplace.Risk.{
  ActionRiskInput, simulation_passed, pass, has_expired, quote_checks, slippage_checks,
  protocol_checks, risk_checks, risk_status, assess_action_risk, is_available, or_hundred,
}

-- The slippage is within the limit, 100 basis points where none is set.
abbrev pub slips_within : Option ℕ → ℕ → Bool
slips_within none most = true
slips_within (some bps) most = leb bps most

-- A valid action with a passed simulation, a destination, a slippage within the limit, and a
-- current quote where one is required.
pub record IsClear (i : ActionRiskInput) : Type 0 where
  pub valid : i.validation_ok ≡ true
  pub simulated : i.simulation_status ≡ simulation_passed
  pub addressed : i.destination_present ≡ true
  pub slips : slips_within i.slippage_bps (or_hundred i.max_slippage_bps) ≡ true
  pub quoted : i.quote_required ≡ true → is_available i.quote_status ≡ true
  pub current : i.quote_required ≡ true → has_expired i.quote_expires_at i.now ≡ false

-- An action passes the assessment exactly if it is clear.
pub assess_action_risk-IsClear :
    (i : ActionRiskInput) → ((assess_action_risk i).status ≡ pass) ↔ IsClear i
unfolding assess_action_risk risk_status risk_checks quote_checks slippage_checks protocol_checks
assess_action_risk-IsClear i = (
  λ h. record {
    valid = ground arith;
    simulated = ground arith;
    addressed = ground arith;
    slips = ground arith;
    quoted = λ q. ground arith;
    current = λ q. ground arith;
  },
  λ c. ground (arith, c.valid, c.simulated, c.addressed, c.slips, c.quoted, c.current),
)
