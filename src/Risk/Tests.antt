-- ===== src/Risk/Tests.antt =====
-- A run of `assessActionRisk` (packages/risk/src/index.ts), and an instance of the theorem.
use agentplace.Prelude.{◌≡◌, refl, ◌↔◌, true, [], ◌∷◌, none, some}
use agentplace.Risk.{
  ActionRiskInput, quote_available, simulation_stale, pass, warning, failed, check, validation,
  quote_freshness, simulation, slippage, destination, protocol, quote_checks, slippage_checks,
  protocol_checks, risk_checks, risk_status, assess_action_risk,
}
use agentplace.Risk.Status.{IsClear, assess_action_risk-IsClear}

abbrev swap : ActionRiskInput
swap = record {
  validation_ok = true;
  quote_required = true;
  quote_status = some quote_available;
  quote_expires_at = some (some 900);
  simulation_status = simulation_stale;
  slippage_bps = some 50;
  max_slippage_bps = none;
  destination_present = true;
  protocol_present = true;
  now = 900;
}

late_quote : assess_action_risk swap ≡ record {
  status = failed;
  checks =
      check validation pass
      ∷ check quote_freshness failed
      ∷ check simulation warning
      ∷ check slippage pass
      ∷ check destination pass
      ∷ check protocol pass
      ∷ [];
}
unfolding quote_checks slippage_checks protocol_checks risk_checks risk_status assess_action_risk
late_quote = refl

assess_action_risk-IsClear_example : ((assess_action_risk swap).status ≡ pass) ↔ IsClear swap
assess_action_risk-IsClear_example = assess_action_risk-IsClear swap
