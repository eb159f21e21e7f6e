-- ===== src/Wallets/Tests.antt =====
-- Runs of the calls of packages/wallets/src/index.ts, and instances of the theorems about them.
use agentplace.Prelude.{
  ℕ, ◌≡◌, refl, true, false, List, [], ◌∷◌, none, some, ok, throw, map, ◌>>=◌, ◌>>◌, throw_if,
  or_throw, Memᴰ, All, ◌===◌,
}
use agentplace.Text.{Text, codes, trim, to_lower, text_eq, eq_text, matches}
use agentplace.Authority.Types.{connected, watch_only, agent_account}
use agentplace.Wallets.Types.{
  eip155, active, removed, WalletStatus, CreateWatchWalletInput, ConnectWalletInput,
  CreateAgentAccountInput, WalletRow, WalletTables, DurableWallet, DurableAgentAccount,
  wallet_address_mismatch, DeploymentStatus, browser_eip1193, watch, agent_account_source,
  unassigned, ready_for_deployment,
}
use agentplace.Wallets.Inputs.{
  evm_address, solana_address, network_id_pattern, chain_reference_pattern, require_name,
  normalized_address, validate_network, validate_networks, balance_check, id_or,
}
use agentplace.Wallets.Rows.{
  load_networks, joined_account, wallet_from_row, account_from_row, list_wallets, from_found,
  get_wallet, insert_wallet, put_wallet, add_networks, merged, upsert_network, wallet_ids,
}
use agentplace.Wallets.{
  committed, watch_transaction, create_watch_wallet, connect_transaction, connect_wallet,
  existing_address, observe_found, reread_wallet, observe_wallet, observe_wallet_network,
}
use agentplace.Wallets.Calls.{
  new_name, disconnect_network, patch_event, update_found, patched_wallet, update_from,
  update_wallet, owner_wallet, preferred_networks, agent_transaction, both_found, agent_committed,
  create_agent_account, wallet_step, run_wallets, WalletCall, watches, connects, updates,
  makes_agent, to_removed,
}
use agentplace.Wallets.Invariant.{IsConsistent, run_wallets-IsConsistent}
use agentplace.Wallets.Removed.{run_wallets-removed}
use agentplace.Wallets.Connected.{connect_wallet-active}
use agentplace.Wallets.Watched.{create_watch_wallet-again}
use agentplace.Wallets.Agents.{IsOwner, IsPreference, create_agent_account-owned}

-- All that a run computes with.
wallet_calls : Unit {0}
unfolding ◌>>=◌ ◌>>◌ throw_if or_throw trim to_lower eq_text matches evm_address solana_address
    network_id_pattern chain_reference_pattern require_name normalized_address validate_network
    validate_networks balance_check id_or load_networks joined_account wallet_from_row
    account_from_row list_wallets from_found get_wallet insert_wallet put_wallet add_networks merged
    upsert_network committed watch_transaction create_watch_wallet connect_transaction
    connect_wallet existing_address observe_found reread_wallet observe_wallet
    observe_wallet_network new_name disconnect_network patch_event update_found patched_wallet
    update_from update_wallet owner_wallet preferred_networks agent_transaction both_found
    agent_committed create_agent_account wallet_step run_wallets
wallet_calls = tt

abbrev none_yet : WalletTables
none_yet = record { wallets = []; networks = []; accounts = []; events = []; taken = [] }

abbrev shouting : Text
shouting = codes " 0xABCDEF0123456789ABCDEF0123456789ABCDEF01 "

abbrev quiet : Text
quiet = codes "0xabcdef0123456789abcdef0123456789abcdef01"

abbrev joins : ConnectWalletInput
joins = record {
  id = some (codes "w1");
  name = codes " Main ";
  namespace = eip155;
  address = shouting;
  network = record { network_id = codes "Base"; chain_reference = codes "8453" };
  native_balance_atomic = some (codes "1000");
}

abbrev looks : Text → Text → CreateWatchWalletInput
looks id address = record {
  id = some id;
  name = codes "Cold";
  namespace = eip155;
  address = address;
  networks = none;
}

abbrev order : CreateAgentAccountInput
order = record {
  id = none;
  wallet_id = none;
  name = codes "Agent";
  owner_wallet_id = codes "w1";
  preferred_network_ids = codes "Base" ∷ codes "?" ∷ codes "base" ∷ [];
}

abbrev joined_row : WalletRow
joined_row = record {
  id = codes "w1";
  name = codes "Main";
  mode = connected;
  namespace = eip155;
  address = some (trim shouting);
  status = active;
  connection_source = browser_eip1193;
  created_at = 10;
  updated_at = 10;
  last_seen_at = some 10;
  address_normalized = some quiet;
  removed_at = none;
}

connected_row : (connect_wallet joins (codes "r") 10 none_yet).0.wallets ≡ joined_row ∷ []
unfolding wallet_calls
connected_row = refl

abbrev day : List (ℕ × WalletCall)
day =
    (10, connects joins (codes "r1"))
    ∷ (20, watches (looks (codes "w2") shouting) (codes "r2"))
    ∷ (30, makes_agent order (codes "w3") (codes "a1"))
    ∷ (40, updates (codes "w1") (record { name = none; status = some to_removed }))
    ∷ []

day_ids : wallet_ids (run_wallets day none_yet).wallets ≡ codes "w3" ∷ codes "w2" ∷ codes "w1" ∷ []
unfolding wallet_calls
day_ids = refl

day_listed :
    map (λ (w : DurableWallet). w.id) (list_wallets (run_wallets day none_yet))
    ≡ codes "w3" ∷ codes "w2" ∷ []
unfolding wallet_calls
day_listed = refl

mismatch :
    (observe_wallet_network
      (codes "w1")
      (record {
        network = joins.network;
        address = codes "0x0000000000000000000000000000000000000000";
        native_balance_atomic = none;
        is_connected = true;
      })
      20
      (connect_wallet joins (codes "r") 10 none_yet).0).1
    ≡ throw wallet_address_mismatch
unfolding wallet_calls
mismatch = refl

empty-IsConsistent : IsConsistent []
empty-IsConsistent = record { rows = tt; ids = tt; unique = tt }

run_wallets-IsConsistent_example : IsConsistent (run_wallets day none_yet).wallets
run_wallets-IsConsistent_example = run_wallets-IsConsistent day none_yet empty-IsConsistent

abbrev removed_tables : WalletTables
removed_tables = record none_yet {
  wallets = record joined_row { status = removed; removed_at = some 40; address = some quiet } ∷ [];
}

removed_tables-IsConsistent : IsConsistent removed_tables.wallets
unfolding wallet_calls
removed_tables-IsConsistent = record {
  rows = (record { standing = refl; shape = (refl, refl, refl) }, tt);
  ids = (refl, tt);
  unique = (tt, tt);
}

run_wallets-removed_example :
    (get_wallet (codes "w1") (run_wallets day removed_tables) ≡ none)
    × All
        (λ (d : DurableWallet). (d.id === codes "w1") ≡ false)
        (list_wallets (run_wallets day removed_tables))
run_wallets-removed_example =
    run_wallets-removed day removed_tables
      (record joined_row { status = removed; removed_at = some 40; address = some quiet })
      removed_tables-IsConsistent (Memᴰ.head refl) refl

connect_wallet-active_example :
    (w : DurableWallet) × ((connect_wallet joins (codes "r") 10 none_yet).1 ≡ ok w)
    × (w.status ≡ active)
    × (w.mode ≡ connected)
    × (w.name ≡ codes "Main")
unfolding wallet_calls
connect_wallet-active_example =
    connect_wallet-active joins (codes "r") 10 none_yet (codes "Main") quiet
      (record { network_id = codes "base"; chain_reference = codes "8453" }) empty-IsConsistent refl
      refl refl refl refl refl

-- The tables and the wallet after the address is watched, and the wallet after the second time.
abbrev watched_tables : WalletTables
watched_tables = (create_watch_wallet (looks (codes "w2") shouting) (codes "r") 20 none_yet).0

abbrev watched : DurableWallet
watched = record {
  id = codes "w2";
  name = codes "Cold";
  mode = watch_only;
  namespace = eip155;
  address = some (trim shouting);
  status = active;
  connection_source = watch;
  networks = [];
  agent_account_id = none;
  created_at = 20;
  updated_at = 20;
  last_seen_at = some 20;
}

abbrev watched_again : DurableWallet
watched_again = record watched { updated_at = 30; last_seen_at = some 30 }

create_watch_wallet-again_example :
    (watched_again.id ≡ watched.id)
    × (wallet_ids
          (create_watch_wallet (looks (codes "w9") quiet) (codes "r") 30 watched_tables).0.wallets
        ≡ wallet_ids watched_tables.wallets)
unfolding wallet_calls
create_watch_wallet-again_example =
    create_watch_wallet-again (looks (codes "w2") shouting) (looks (codes "w9") quiet) (codes "r")
      (codes "r") 20 30 none_yet watched watched_again empty-IsConsistent refl refl refl refl

abbrev main_tables : WalletTables
main_tables = record none_yet { wallets = joined_row ∷ [] }

abbrev agent : DurableWallet
agent = record {
  id = codes "w3";
  name = codes "Agent";
  mode = agent_account;
  namespace = eip155;
  address = none;
  status = WalletStatus.setup;
  connection_source = agent_account_source;
  networks = [];
  agent_account_id = some (codes "a1");
  created_at = 30;
  updated_at = 30;
  last_seen_at = some 30;
}

abbrev account : DurableAgentAccount
account = record {
  id = codes "a1";
  wallet_id = codes "w3";
  name = codes "Agent";
  owner_wallet_id = codes "w1";
  account_standard = unassigned;
  lifecycle_status = ready_for_deployment;
  deployment_status = DeploymentStatus.not_deployed;
  account_address = none;
  preferred_network_ids = codes "base" ∷ [];
  created_at = 30;
  updated_at = 30;
}

made_agent :
    (create_agent_account order (codes "w3") (codes "a1") 30 main_tables).1 ≡ ok (agent, account)
unfolding wallet_calls
made_agent = refl

create_agent_account-owned_example :
    ((owner : WalletRow) × IsOwner owner main_tables × (account.owner_wallet_id ≡ owner.id))
    × (account.wallet_id ≡ agent.id)
    × (account.account_address ≡ none)
    × (account.deployment_status ≡ DeploymentStatus.not_deployed)
    × IsPreference account.preferred_network_ids
    × (agent.status ≡ WalletStatus.setup)
    × (agent.address ≡ none)
create_agent_account-owned_example =
    create_agent_account-owned order (codes "w3") (codes "a1") 30 main_tables agent account
      made_agent
