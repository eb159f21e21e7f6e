-- ===== src/Router/Networks/Tests.antt =====
-- Runs of `canonicalizeNetworkId` (packages/router/src/index.ts).
use agentplace.Prelude.{◌≡◌, refl}
use agentplace.Text.{codes, trim, to_lower, eq_text}
use agentplace.Router.Networks.{
  replace_runs, begins, word_from, has_word, starts_with, includes_text, normalized_network,
  test_network, main_network, canonicalize_network_id,
}

-- All that a run computes with.
network_names : Unit {0}
unfolding trim to_lower eq_text replace_runs begins word_from has_word starts_with includes_text
    normalized_network test_network main_network canonicalize_network_id
network_names = tt

decorated : canonicalize_network_id (codes " Arbitrum One (42161)") ≡ codes "arbitrum"
unfolding network_names
decorated = refl

test_name : canonicalize_network_id (codes "base__Sepolia") ≡ codes "base-sepolia"
unfolding network_names
test_name = refl

other_name : canonicalize_network_id (codes "Database") ≡ codes "database"
unfolding network_names
other_name = refl

-- A test network whose word the code does not know is read as the launch network.
unknown_test_name : canonicalize_network_id (codes "base-goerli") ≡ codes "base"
unfolding network_names
unknown_test_name = refl
