-- ===== src/Wallets/Edits/Step.antt =====
-- Any call of packages/wallets/src/index.ts as a change of the rows.
use agentplace.Prelude.{ℕ, All}
use agentplace.Text.{text_eq}
use agentplace.Wallets.Types.{WalletTables, namespace_eq, mode_eq, status_eq}
use agentplace.Wallets.{create_watch_wallet, connect_wallet}
use agentplace.Wallets.Calls.{
  create_agent_account, WalletCall, watches, connects, observes, updates, makes_agent, wallet_step,
}
use agentplace.Wallets.Edits.{IsSound, WalletEdit}
use agentplace.Wallets.Edits.Commits.{
  committed-Edit, watch_transaction-Edit, connect_transaction-Edit, agent_transaction-Edit,
  create_agent_account-Edit,
}
use agentplace.Wallets.Edits.Updates.{observe_wallet_network-Edit, update_wallet-Edit}

-- Every call makes one such change at most.
pub wallet_step-Edit :
    (now : ℕ) (c : WalletCall) (s : WalletTables)
    → All IsSound s.wallets
    → WalletEdit s.wallets (wallet_step now c s).wallets
unfolding wallet_step create_watch_wallet connect_wallet create_agent_account
wallet_step-Edit now (watches input fresh) s h =
    committed-Edit _ s _ (λ r e. watch_transaction-Edit input fresh now s r h e)
wallet_step-Edit now (connects input fresh) s h =
    committed-Edit _ s _ (λ r e. connect_transaction-Edit input fresh now s r h e)
wallet_step-Edit now (observes id input) s h = observe_wallet_network-Edit id input now s h
wallet_step-Edit now (updates id patch) s h = update_wallet-Edit id patch now s h
wallet_step-Edit now (makes_agent input w a) s h =
    create_agent_account-Edit s _ (λ r e. agent_transaction-Edit input w a now s r e)
