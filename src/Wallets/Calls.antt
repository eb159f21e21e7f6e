-- ===== src/Wallets/Calls.antt =====
-- `updateWallet` and `createAgentAccount` of packages/wallets/src/index.ts, and any calls of the
-- package one after another.
use agentplace.Prelude.{
  ℕ, Bool, true, false, not, ◌&&◌, ◌||◌, List, [], ◌∷◌, Option, none, some, ok, throw, ◌>>=◌, ◌>>◌,
  throw_if, if◌then◌else◌, map, dedup, filter, find, includes, take, ◌===◌,
}
use agentplace.Text.{Text, text_eq, trim, to_lower}
use agentplace.Authority.Types.{connected, agent_account}
use agentplace.Wallets.Types.{
  eip155, WalletStatus, active, disconnected, removed, agent_account_source,
  WalletNetworkConnectionState, network_connected, network_disconnected, DurableWallet,
  DurableAgentAccount, unassigned, ready_for_deployment, CreateWatchWalletInput, ConnectWalletInput,
  CreateAgentAccountInput, WalletRow, NetworkRow, AgentAccountRow, WalletTables, WalletOutcome,
  wallet_removed, WalletEventType, wallet_disconnected, wallet_reactivated,
  agent_account_setup_created, connected_owner_wallet_required, agent_account_evm_owner_required,
  agent_account_network_required, agent_account_create_failed, duplicate_key, DeploymentStatus,
  namespace_eq, mode_eq, status_eq,
}
use agentplace.Wallets.Inputs.{require_name, id_or, network_id_pattern}
use agentplace.Wallets.Rows.{
  get_wallet, changed, insert_wallet, record_wallet_event, account_ids, account_from_row, is_set,
}
use agentplace.Wallets.{
  NetworkObservation, create_watch_wallet, connect_wallet, observe_wallet_network,
}

-- The status that `updateWallet` may be asked for.
pub data WalletPatchStatus : Type 0 where
  to_active to_disconnected to_removed : WalletPatchStatus

abbrev pub patched : WalletPatchStatus → WalletStatus
patched to_active = active
patched to_disconnected = disconnected
patched to_removed = removed

pub record WalletPatch : Type 0 where
  pub name : Option Text
  pub status : Option WalletPatchStatus

abbrev pub new_status : Option WalletPatchStatus → WalletStatus → WalletStatus
new_status none status = status
new_status (some p) _ = patched p

abbrev pub patch_event_type : WalletPatchStatus → WalletEventType
patch_event_type to_active = wallet_reactivated
patch_event_type to_disconnected = wallet_disconnected
patch_event_type to_removed = wallet_removed

-- `patch.name === undefined ? existing.name : requireName(patch.name)`
unfoldable pub new_name : Option Text → Text → WalletOutcome Text
new_name none name = ok name
new_name (some t) _ = require_name t

abbrev pub patch_row : Text → WalletStatus → ℕ → WalletRow → WalletRow
patch_row name status now w = record w {
  name = name;
  status = status;
  removed_at = if status === removed then some now else none;
  updated_at = now;
}

abbrev pub rename_account : Text → Text → ℕ → AgentAccountRow → AgentAccountRow
rename_account wallet_id name now a =
    if a.wallet_id === wallet_id then record a { name = name; updated_at = now } else a

abbrev is_network_connected : WalletNetworkConnectionState → Bool
is_network_connected network_connected = true
is_network_connected _ = false

unfoldable pub disconnect_network : Text → NetworkRow → NetworkRow
disconnect_network id r =
    if r.wallet_id === id && is_network_connected r.connection_state
    then record r { connection_state = network_disconnected }
    else r

-- The event of a patch that changes the status.
unfoldable pub patch_event :
    Text → WalletStatus → Option WalletPatchStatus → WalletTables → WalletTables
patch_event id old none s = s
patch_event id old (some p) s =
    if patched p === old then s else record_wallet_event id (patch_event_type p) (patched p) s

unfoldable pub update_found :
    DurableWallet → WalletPatch → ℕ → WalletTables → WalletOutcome WalletTables
update_found existing patch now s = do
  name ← new_name patch.name existing.name
  let status = new_status patch.status existing.status
  ok (
      patch_event existing.id existing.status patch.status
        (record (changed existing.id (patch_row name status now) s) {
          accounts =
              if existing.mode === agent_account && is_set patch.name
              then map (rename_account existing.id name now) s.accounts
              else s.accounts;
          networks =
              if status === disconnected
              then map (disconnect_network existing.id) s.networks
              else s.networks;
        }))

-- `status === 'removed' ? null : getWallet(…)`
unfoldable pub patched_wallet :
    Bool
    → Text
    → WalletTables
    → WalletOutcome WalletTables
    → WalletTables × WalletOutcome (Option DurableWallet)
patched_wallet is_gone id s (throw e) = (s, throw e)
patched_wallet true id s (ok s') = (s', ok none)
patched_wallet false id s (ok s') = (s', ok (get_wallet id s'))

unfoldable pub update_from :
    Option DurableWallet
    → Text
    → WalletPatch
    → ℕ
    → WalletTables
    → WalletTables × WalletOutcome (Option DurableWallet)
update_from none id patch now s = (s, ok none)
update_from (some existing) id patch now s =
    patched_wallet (new_status patch.status existing.status === removed) id s
      (update_found existing patch now s)

-- `updateWallet`
unfoldable pub update_wallet :
    Text → WalletPatch → ℕ → WalletTables → WalletTables × WalletOutcome (Option DurableWallet)
update_wallet id patch now s = update_from (get_wallet id s) id patch now s

-- `!ownerWallet || ownerWallet.mode !== 'connected' || ownerWallet.status !== 'active'`
unfoldable pub owner_wallet : Option DurableWallet → WalletOutcome DurableWallet
owner_wallet none = throw connected_owner_wallet_required
owner_wallet (some w) =
    if w.mode === connected && w.status === active
    then ok w
    else throw connected_owner_wallet_required

unfoldable pub preferred_networks : List Text → List Text
preferred_networks ids =
    take 16 (dedup (filter network_id_pattern (map (λ t. to_lower (trim t)) ids)))

abbrev pub is_none : List Text → Bool
is_none [] = true
is_none (_ ∷ _) = false

abbrev pub agent_wallet : Text → Text → ℕ → WalletRow
agent_wallet id name now = record {
  id = id;
  name = name;
  mode = agent_account;
  namespace = eip155;
  address = none;
  status = WalletStatus.setup;
  connection_source = agent_account_source;
  created_at = now;
  updated_at = now;
  last_seen_at = some now;
  address_normalized = none;
  removed_at = none;
}

-- The row of `agent_account` that is inserted.
abbrev pub new_account : Text → Text → Text → Text → List Text → ℕ → AgentAccountRow
new_account id wallet_id name owner_wallet_id preferred now = record {
  id = id;
  wallet_id = wallet_id;
  name = name;
  owner_wallet_id = owner_wallet_id;
  account_standard = unassigned;
  lifecycle_status = ready_for_deployment;
  deployment_status = DeploymentStatus.not_deployed;
  account_address = none;
  preferred_network_ids = preferred;
  created_at = now;
  updated_at = now;
}

abbrev pub with_agent : Text → AgentAccountRow → WalletTables → WalletTables
with_agent wallet_id account s =
    record_wallet_event wallet_id agent_account_setup_created WalletStatus.setup
      (record s { accounts = account ∷ s.accounts })

-- `createAgentAccount` up to `COMMIT`: the ids of the new wallet and of the new account.
unfoldable pub agent_transaction :
    CreateAgentAccountInput
    → Text
    → Text
    → ℕ
    → WalletTables
    → WalletOutcome (Text × Text × WalletTables)
agent_transaction input fresh_wallet fresh now s = do
  name ← require_name input.name
  owner ← owner_wallet (get_wallet input.owner_wallet_id s)
  throw_if (not (owner.namespace === eip155)) agent_account_evm_owner_required
  let preferred = preferred_networks input.preferred_network_ids
  throw_if (is_none preferred) agent_account_network_required
  let wallet_id = id_or fresh_wallet input.wallet_id
  let id = id_or fresh input.id
  s' ← insert_wallet (agent_wallet wallet_id name now) s
  throw_if (includes (account_ids s.accounts) id || includes s.taken id) duplicate_key
  ok (wallet_id, id, with_agent wallet_id (new_account id wallet_id name owner.id preferred now) s')

unfoldable pub both_found :
    Option DurableWallet
    → Option AgentAccountRow
    → WalletOutcome (DurableWallet × DurableAgentAccount)
both_found (some w) (some a) = ok (w, account_from_row a)
both_found _ _ = throw agent_account_create_failed

unfoldable pub agent_committed :
    WalletTables
    → WalletOutcome (Text × Text × WalletTables)
    → WalletTables × WalletOutcome (DurableWallet × DurableAgentAccount)
agent_committed s (throw e) = (s, throw e)
agent_committed s (ok (wallet_id, id, s')) = (
  s',
  both_found (get_wallet wallet_id s') (find (λ (a : AgentAccountRow). a.id === id) s'.accounts),
)

-- `createAgentAccount`
unfoldable pub create_agent_account :
    CreateAgentAccountInput
    → Text
    → Text
    → ℕ
    → WalletTables
    → WalletTables × WalletOutcome (DurableWallet × DurableAgentAccount)
create_agent_account input fresh_wallet fresh now s =
    agent_committed s (agent_transaction input fresh_wallet fresh now s)

-- Any call of the package that changes wallets.
pub data WalletCall : Type 0 where
  watches : CreateWatchWalletInput → Text → WalletCall
  connects : ConnectWalletInput → Text → WalletCall
  observes : Text → NetworkObservation → WalletCall
  updates : Text → WalletPatch → WalletCall
  makes_agent : CreateAgentAccountInput → Text → Text → WalletCall

unfoldable pub wallet_step : ℕ → WalletCall → WalletTables → WalletTables
wallet_step now (watches input fresh) s = (create_watch_wallet input fresh now s).0
wallet_step now (connects input fresh) s = (connect_wallet input fresh now s).0
wallet_step now (observes id input) s = (observe_wallet_network id input now s).0
wallet_step now (updates id patch) s = (update_wallet id patch now s).0
wallet_step now (makes_agent input w a) s = (create_agent_account input w a now s).0

unfoldable pub run_wallets : List (ℕ × WalletCall) → WalletTables → WalletTables
run_wallets [] s = s
run_wallets ((now, c) ∷ cs) s = run_wallets cs (wallet_step now c s)
