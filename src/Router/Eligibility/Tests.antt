-- ===== src/Router/Eligibility/Tests.antt =====
-- An instance of the theorem about `networkEligible` (packages/router/src/index.ts).
use agentplace.Prelude.{◌≡◌, refl, true, false, [], ◌∷◌}
use agentplace.Text.{codes, trim, to_lower, eq_text}
use agentplace.Router.Types.{CapabilityImplementation, healthy}
use agentplace.Router.Networks.{
  replace_runs, begins, word_from, has_word, starts_with, includes_text, normalized_network,
  test_network, main_network, canonicalize_network_id,
}
use agentplace.Router.Networks.Launch.{names_test_network}
use agentplace.Router.Eligibility.{network_eligible}
use agentplace.Router.Eligibility.Allowed.{network_eligible-test_only}

-- All that a run computes with.
networks : Unit {0}
unfolding trim to_lower eq_text replace_runs begins word_from has_word starts_with includes_text
    normalized_network test_network main_network canonicalize_network_id names_test_network
networks = tt

abbrev on_base : CapabilityImplementation
on_base = record {
  id = codes "i1";
  canonical_capability_id = codes "read";
  provider = codes "agentplace";
  name = codes "i1";
  supported_networks = codes "Base" ∷ codes "Arbitrum One" ∷ [];
  trust_status = codes "tested";
  health_status = healthy;
  invocation_kind = codes "http";
  priority = 1;
  enabled = true;
  environment_eligibility = [];
}

network_eligible-test_only_example : network_eligible on_base (codes "base-sepolia" ∷ []) ≡ false
unfolding networks
network_eligible-test_only_example =
    network_eligible-test_only on_base (codes "base-sepolia" ∷ []) (λ e. cc) (λ e. cc)
      (refl, (refl, tt)) (refl, tt)

-- A test network by another word than those is read as the launch network.
goerli_is_base : network_eligible on_base (codes "base-goerli" ∷ []) ≡ true
unfolding networks network_eligible
goerli_is_base = refl
