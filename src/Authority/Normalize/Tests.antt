-- ===== src/Authority/Normalize/Tests.antt =====
-- Runs of `normalizePolicy` (packages/authority/src/index.ts), and an instance of the theorem
-- about it.
use agentplace.Prelude.{
  ◌≡◌, refl, ◌≢◌, true, [], ◌∷◌, none, some, ok, throw, ◌>>=◌, ◌>>◌, throw_if, Distinct, false,
}
use agentplace.Text.{codes, trim, to_lower, to_upper, text_eq, eq_text, matches}
use agentplace.Decimal.{units, canonical_decimal}
use agentplace.Authority.Types.{act_within_mandate, agent_account, connected, MandatePolicyInput}
use agentplace.Authority.Samples.{policy}
use agentplace.Authority.Inputs.{
  capability_id, asset_or_protocol, destination_pattern, folded, unique_strings, set_network,
  networks_from, networks, decimal_text, decimal, text, act_mandate_requires_agent_account,
  mandate_expired,
}
use agentplace.Authority.Normalize.{
  budget, approval_policy, validity, normalize_lists, normalize_limits, assemble, normalize_policy,
  is_other_account,
}
use agentplace.Authority.Normalize.Ready.{IsReady, normalize_policy-IsReady}

-- All that a run computes with.
normalization : Unit {0}
unfolding ◌>>=◌ ◌>>◌ throw_if trim to_lower to_upper eq_text matches units canonical_decimal
    capability_id asset_or_protocol destination_pattern folded unique_strings set_network
    networks_from networks decimal_text decimal budget approval_policy validity normalize_lists
    normalize_limits text assemble normalize_policy
normalization = tt

abbrev raw : MandatePolicyInput
raw = record policy {
  title = codes "  Rebalance ";
  allowed_assets = codes " usdc" ∷ codes "USDC" ∷ [];
  capital_limit_usd = some (codes "1000.00");
  valid_from = none;
}

abbrev cleaned : MandatePolicyInput
cleaned = record policy { valid_from = some (some 1500) }

cleaned_run : normalize_policy raw (some agent_account) true 1500 ≡ ok cleaned
unfolding normalization
cleaned_run = refl

too_late : normalize_policy cleaned (some agent_account) true 9000 ≡ throw mandate_expired
unfolding normalization
too_late = refl

other_account :
    normalize_policy raw (some connected) true 1500 ≡ throw act_mandate_requires_agent_account
unfolding normalization
other_account = refl

normalize_policy-IsReady_example :
    Distinct (codes "asset.transfer" ∷ [])
    × Distinct (codes "USDC" ∷ [])
    × (codes "asset.transfer" ∷ [] ≢ [])
    × (cleaned.authority_level ≡ act_within_mandate → is_other_account (some agent_account) ≡ false)
    × (true ≡ true → cleaned.authority_level ≡ act_within_mandate → IsReady cleaned)
normalize_policy-IsReady_example =
    normalize_policy-IsReady raw cleaned (some agent_account) true 1500 cleaned_run
