-- ===== src/Authority/Samples.antt =====
-- A policy that the tests of packages/authority/src/index.ts share.
use agentplace.Prelude.{true, false, [], ◌∷◌, none, some}
use agentplace.Text.{codes}
use agentplace.Authority.Types.{act_within_mandate, allow_list, day, threshold, MandatePolicyInput}

abbrev pub policy : MandatePolicyInput
policy = record {
  title = codes "Rebalance";
  purpose = codes "Move stable coins";
  authority_level = act_within_mandate;
  allowed_capabilities = codes "asset.transfer" ∷ [];
  allowed_networks = record { family = codes "eip155"; network_id = codes "base" } ∷ [];
  asset_scope = allow_list;
  allowed_assets = codes "USDC" ∷ [];
  protocol_scope = allow_list;
  allowed_protocols = [];
  destination_scope = allow_list;
  allowed_destinations = codes "0xabc" ∷ [];
  capital_limit_usd = some (codes "1000");
  per_action_limit_usd = some (codes "50.5");
  period_budget = some (record { limit_usd = codes "100"; period = day });
  service_budget = none;
  approval_policy = record {
    mode = threshold;
    threshold_usd = some (codes "20");
    ask_for_new_protocols = true;
    ask_for_new_destinations = true;
  };
  borrowing_allowed = false;
  leverage_allowed = false;
  valid_from = none;
  valid_until = some (some 9000);
  change_summary = codes "first";
}
