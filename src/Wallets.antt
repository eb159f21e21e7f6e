-- ===== src/Wallets.antt =====
-- The calls of packages/wallets/src/index.ts that change the wallets of one owner:
-- `createWatchWallet`, `connectWallet`, `observeWalletNetwork`, `updateWallet` and
-- `createAgentAccount`. The tables are a record; a transaction that throws leaves it as it was, and
-- one call sees one clock value. `fresh` is the random id that stands in for one not given.
pub mod Types
pub mod Inputs
pub mod Rows
pub mod Calls
pub mod Edits
pub mod Invariant
pub mod Removed
pub mod Found
pub mod Connected
pub mod Watched
pub mod Agents
mod Tests
use agentplace.Prelude.{
  ℕ, Bool, true, false, not, ◌&&◌, ◌||◌, List, [], ◌∷◌, Option, none, some, ok, throw, ◌>>=◌, ◌>>◌,
  throw_if, or_throw, if◌then◌else◌, map, dedup, filter, find, includes, take, ◌===◌,
}
use agentplace.Text.{Text, text_eq, trim, to_lower, is_empty}
use agentplace.Authority.Types.{WalletMode, watch_only, connected, agent_account}
use agentplace.Wallets.Types.{
  WalletNamespace, eip155, solana, WalletStatus, active, disconnected, removed,
  WalletConnectionSource, watch, browser_eip1193, agent_account_source,
  WalletNetworkConnectionState, network_connected, network_disconnected, browser_provider,
  DurableWallet, DurableAgentAccount, unassigned, ready_for_deployment, not_deployed, NetworkRef,
  CreateWatchWalletInput, ConnectWalletInput, CreateAgentAccountInput, WalletRow, NetworkRow,
  AgentAccountRow, WalletTables, WalletOutcome, WalletEventType, wallet_added, wallet_connected,
  wallet_removed, wallet_disconnected, wallet_reactivated, agent_account_setup_created,
  unsupported_connected_wallet_namespace, wallet_address_mismatch, wallet_create_failed,
  wallet_connect_failed, connected_owner_wallet_required, agent_account_evm_owner_required,
  agent_account_network_required, agent_account_create_failed, duplicate_key, WalletError,
  namespace_eq, mode_eq, status_eq,
}
use agentplace.Wallets.Inputs.{
  require_name, normalized_address, validate_network, validate_networks, balance_check, id_or,
  network_id_pattern,
}
use agentplace.Wallets.Rows.{
  get_wallet, has_address, change, changed, put_wallet, insert_wallet, add_networks, upsert_network,
  record_wallet_event, account_ids, account_from_row,
}

-- The row that is inserted for an address.
abbrev pub new_row :
    Text
    → Text
    → WalletMode
    → WalletNamespace
    → Text
    → Text
    → WalletConnectionSource
    → ℕ
    → WalletRow
new_row id name mode namespace address normalized source now = record {
  id = id;
  name = name;
  mode = mode;
  namespace = namespace;
  address = some address;
  status = active;
  connection_source = source;
  created_at = now;
  updated_at = now;
  last_seen_at = some now;
  address_normalized = some normalized;
  removed_at = none;
}

-- The row after it is watched, or connected, again.
abbrev pub again : Text → ℕ → WalletRow → WalletRow
again name now w = record w {
  name = name;
  status = active;
  removed_at = none;
  last_seen_at = some now;
  updated_at = now;
}

-- What follows `COMMIT`: the wallet is read again; nothing is read after a throw.
unfoldable pub committed :
    WalletError
    → WalletTables
    → WalletOutcome (Text × WalletTables)
    → WalletTables × WalletOutcome DurableWallet
committed error s (throw e) = (s, throw e)
committed error s (ok (id, s')) = (s', or_throw (get_wallet id s') error)

-- `input.networks ?? []`
abbrev pub or_no_networks : Option (List NetworkRef) → List NetworkRef
or_no_networks none = []
or_no_networks (some ns) = ns

-- `createWatchWallet` up to `COMMIT`
unfoldable pub watch_transaction :
    CreateWatchWalletInput → Text → ℕ → WalletTables → WalletOutcome (Text × WalletTables)
watch_transaction input fresh now s = do
  name ← require_name input.name
  let address = trim input.address
  normalized ← normalized_address input.namespace address
  networks ← validate_networks (take 16 (or_no_networks input.networks))
  let w =
      new_row (id_or fresh input.id) name watch_only input.namespace address normalized watch now
  (id, s') ←
      put_wallet (find (has_address watch_only input.namespace normalized) s.wallets)
        (again name now) w s
  ok (
    id,
    record_wallet_event id wallet_added active
        (record s' { networks = add_networks id input.namespace address now networks s'.networks }),
  )

-- `createWatchWallet`
unfoldable pub create_watch_wallet :
    CreateWatchWalletInput → Text → ℕ → WalletTables → WalletTables × WalletOutcome DurableWallet
create_watch_wallet input fresh now s =
    committed wallet_create_failed s (watch_transaction input fresh now s)

abbrev is_evm : WalletNamespace → Bool
is_evm n = n === eip155

-- `connectWallet` up to `COMMIT`
unfoldable pub connect_transaction :
    ConnectWalletInput → Text → ℕ → WalletTables → WalletOutcome (Text × WalletTables)
connect_transaction input fresh now s = do
  name ← require_name input.name
  let address = trim input.address
  normalized ← normalized_address input.namespace address
  network ← validate_network input.network
  balance_check input.native_balance_atomic
  throw_if (not (is_evm input.namespace)) unsupported_connected_wallet_namespace
  let w =
      new_row (id_or fresh input.id) name connected input.namespace address normalized
        browser_eip1193 now
  (id, s') ←
      put_wallet (find (has_address connected input.namespace normalized) s.wallets)
        (λ old. record (again name now old) { connection_source = browser_eip1193 }) w s
  ok (
    id,
    record_wallet_event id wallet_connected active (record s' {
      networks =
          upsert_network
            (record {
              wallet_id = id;
              network_id = network.network_id;
              namespace = input.namespace;
              chain_reference = network.chain_reference;
              address = address;
              connection_state = network_connected;
              native_balance_atomic = input.native_balance_atomic;
              observation_source = browser_provider;
              observed_at = now;
            })
            s'.networks;
    }),
  )

-- `connectWallet`
unfoldable pub connect_wallet :
    ConnectWalletInput → Text → ℕ → WalletTables → WalletTables × WalletOutcome DurableWallet
connect_wallet input fresh now s =
    committed wallet_connect_failed s (connect_transaction input fresh now s)

-- What the browser reports of a network.
pub record NetworkObservation : Type 0 where
  pub network : NetworkRef
  pub address : Text
  pub native_balance_atomic : Option Text
  pub is_connected : Bool

-- `wallet.address ? normalizedAddress(…) : ''`
unfoldable pub existing_address : WalletNamespace → Option Text → WalletOutcome Text
existing_address namespace none = ok []
existing_address namespace (some a) = normalized_address namespace a

abbrev pub seen : Bool → ℕ → WalletRow → WalletRow
seen is_connected now w = record w {
  status = if is_connected then active else disconnected;
  last_seen_at = some now;
  updated_at = now;
}

-- `observeWalletNetwork` on the wallet that it found
unfoldable pub observe_found :
    DurableWallet → NetworkObservation → ℕ → WalletTables → WalletOutcome WalletTables
observe_found wallet input now s = do
  existing ← existing_address wallet.namespace wallet.address
  given ← normalized_address wallet.namespace input.address
  throw_if (not (given === existing)) wallet_address_mismatch
  network ← validate_network input.network
  balance_check input.native_balance_atomic
  ok (record (changed wallet.id (seen input.is_connected now) s) {
    networks =
        upsert_network
          (record {
            wallet_id = wallet.id;
            network_id = network.network_id;
            namespace = wallet.namespace;
            chain_reference = network.chain_reference;
            address = input.address;
            connection_state =
                if input.is_connected then network_connected else network_disconnected;
            native_balance_atomic = input.native_balance_atomic;
            observation_source = browser_provider;
            observed_at = now;
          })
          s.networks;
  })

-- The last read of a call that returns the wallet or `null`.
unfoldable pub reread_wallet :
    Text
    → WalletTables
    → WalletOutcome WalletTables
    → WalletTables × WalletOutcome (Option DurableWallet)
reread_wallet id s (throw e) = (s, throw e)
reread_wallet id s (ok s') = (s', ok (get_wallet id s'))

unfoldable pub observe_wallet :
    Option DurableWallet
    → Text
    → NetworkObservation
    → ℕ
    → WalletTables
    → WalletTables × WalletOutcome (Option DurableWallet)
observe_wallet none id input now s = (s, ok none)
observe_wallet (some wallet) id input now s =
    if wallet.mode === connected
    then reread_wallet id s (observe_found wallet input now s)
    else (s, ok none)

-- `observeWalletNetwork`
unfoldable pub observe_wallet_network :
    Text
    → NetworkObservation
    → ℕ
    → WalletTables
    → WalletTables × WalletOutcome (Option DurableWallet)
observe_wallet_network id input now s = observe_wallet (get_wallet id s) id input now s
