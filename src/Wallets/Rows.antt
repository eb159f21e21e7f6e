-- ===== src/Wallets/Rows.antt =====
-- The queries of packages/wallets/src/index.ts on its tables, and the objects built from rows:
-- `loadNetworks`, `walletFromRow`, `accountFromRow`, `listWallets`, `listAgentAccounts`, `getWallet`
-- and the inserts and updates that the calls share.
use agentplace.Prelude.{
  ℕ, Bool, true, false, not, ◌&&◌, ◌||◌, List, [], ◌∷◌, Option, none, some, ok, ◌>>=◌, ◌>>◌,
  throw_if, if◌then◌else◌, map, filter, find, includes, any, ◌===◌,
}
use agentplace.Text.{Text, text_eq, is_empty}
use agentplace.Authority.Types.{WalletMode}
use agentplace.Wallets.Types.{
  WalletNamespace, WalletNetworkState, DurableWallet, DurableAgentAccount, NetworkRef, WalletRow,
  NetworkRow, AgentAccountRow, WalletTables, WalletOutcome, WalletStatus, removed, duplicate_key,
  namespace_eq, mode_eq, status_eq, network_observed, user_supplied, WalletEventType,
}

-- `Boolean(value)` of a text that may be missing.
abbrev pub present : Option Text → Option Text
present none = none
present (some t) = if is_empty t then none else some t

abbrev pub is_set {ℓ} : {A : Type ℓ} → Option A → Bool
is_set none = false
is_set (some _) = true

abbrev pub network_state : NetworkRow → WalletNetworkState
network_state r = record {
  network_id = r.network_id;
  namespace = r.namespace;
  chain_reference = r.chain_reference;
  address = r.address;
  connection_state = r.connection_state;
  native_balance_atomic = r.native_balance_atomic;
  observation_source = r.observation_source;
  observed_at = r.observed_at;
}

-- The entry of one wallet in `loadNetworks`.
unfoldable pub load_networks : Text → List NetworkRow → List WalletNetworkState
load_networks id rows = map network_state (filter (λ (r : NetworkRow). r.wallet_id === id) rows)

-- `a.id` of the `LEFT JOIN`.
unfoldable pub joined_account : Text → List AgentAccountRow → Option Text
joined_account id [] = none
joined_account id (a ∷ as') =
    let rest = joined_account id as' in if a.wallet_id === id then some a.id else rest

-- `walletFromRow`
unfoldable pub wallet_from_row : WalletTables → WalletRow → DurableWallet
wallet_from_row s row = record {
  id = row.id;
  name = row.name;
  mode = row.mode;
  namespace = row.namespace;
  address = present row.address;
  status = row.status;
  connection_source = row.connection_source;
  networks = load_networks row.id s.networks;
  agent_account_id = present (joined_account row.id s.accounts);
  created_at = row.created_at;
  updated_at = row.updated_at;
  last_seen_at = row.last_seen_at;
}

-- `accountFromRow`
unfoldable pub account_from_row : AgentAccountRow → DurableAgentAccount
account_from_row row = record {
  id = row.id;
  wallet_id = row.wallet_id;
  name = row.name;
  owner_wallet_id = row.owner_wallet_id;
  account_standard = row.account_standard;
  lifecycle_status = row.lifecycle_status;
  deployment_status = row.deployment_status;
  account_address = present row.account_address;
  preferred_network_ids = row.preferred_network_ids;
  created_at = row.created_at;
  updated_at = row.updated_at;
}

-- `status <> 'removed'`
abbrev pub stays : WalletRow → Bool
stays w = not (w.status === removed)

abbrev pub is_wallet : Text → WalletRow → Bool
is_wallet id w = w.id === id && stays w

-- `listWallets`
unfoldable pub list_wallets : WalletTables → List DurableWallet
list_wallets s = map (wallet_from_row s) (filter stays s.wallets)

-- `listAgentAccounts`
unfoldable pub list_agent_accounts : WalletTables → List DurableAgentAccount
list_agent_accounts s =
    map account_from_row
      (filter (λ (a : AgentAccountRow). any (is_wallet a.wallet_id) s.wallets) s.accounts)

unfoldable pub from_found : WalletTables → Option WalletRow → Option DurableWallet
from_found s none = none
from_found s (some row) = some (wallet_from_row s row)

-- `getWallet`
unfoldable pub get_wallet : Text → WalletTables → Option DurableWallet
get_wallet id s = from_found s (find (is_wallet id) s.wallets)

abbrev pub is_text : Text → Option Text → Bool
is_text t none = false
is_text t (some u) = u === t

-- The `WHERE` of the search for a wallet of the same address.
abbrev pub has_address : WalletMode → WalletNamespace → Text → WalletRow → Bool
has_address mode namespace normalized w =
    (w.namespace === namespace && is_text normalized w.address_normalized)
    && (w.mode === mode && not (is_set w.removed_at))

-- `UPDATE wallet_resource … WHERE id=…`
abbrev pub change : Text → (WalletRow → WalletRow) → WalletRow → WalletRow
change id f w = if w.id === id then f w else w

abbrev pub changed : Text → (WalletRow → WalletRow) → WalletTables → WalletTables
changed id f s = record s { wallets = map (change id f) s.wallets }

abbrev pub wallet_ids : List WalletRow → List Text
wallet_ids ws = map (λ (w : WalletRow). w.id) ws

abbrev pub account_ids : List AgentAccountRow → List Text
account_ids ws = map (λ (a : AgentAccountRow). a.id) ws

-- `INSERT INTO wallet_resource`, which fails on an id that is taken.
unfoldable pub insert_wallet : WalletRow → WalletTables → WalletOutcome WalletTables
insert_wallet w s = do
  throw_if (includes (wallet_ids s.wallets) w.id || includes s.taken w.id) duplicate_key
  ok (record s { wallets = w ∷ s.wallets })

-- The found wallet is changed by `f`, and where there is none `w` is inserted; the id that counts.
unfoldable pub put_wallet :
    Option WalletRow
    → (WalletRow → WalletRow)
    → WalletRow
    → WalletTables
    → WalletOutcome (Text × WalletTables)
put_wallet (some old) f w s = ok (old.id, changed old.id f s)
put_wallet none f w s = do s' ← insert_wallet w s; ok (w.id, s')

abbrev pub same_network : Text → Text → NetworkRow → Bool
same_network id network_id r = r.wallet_id === id && r.network_id === network_id

-- The loop over the networks of a watched wallet: `ON CONFLICT … DO NOTHING`.
unfoldable pub add_networks :
    Text → WalletNamespace → Text → ℕ → List NetworkRef → List NetworkRow → List NetworkRow
add_networks id namespace address now [] rows = rows
add_networks id namespace address now (n ∷ ns) rows = add_networks id namespace address now ns (
    if any (same_network id n.network_id) rows
    then rows
    else record {
      wallet_id = id;
      network_id = n.network_id;
      namespace = namespace;
      chain_reference = n.chain_reference;
      address = address;
      connection_state = network_observed;
      native_balance_atomic = none;
      observation_source = user_supplied;
      observed_at = now;
    }
      ∷ rows)

-- `ON CONFLICT … DO UPDATE`: the namespace of a row that is there stays.
unfoldable pub merged : NetworkRow → Option NetworkRow → NetworkRow
merged new none = new
merged new (some old) = record new { namespace = old.namespace }

unfoldable pub upsert_network : NetworkRow → List NetworkRow → List NetworkRow
upsert_network new rows =
    merged new (find (same_network new.wallet_id new.network_id) rows)
    ∷ filter (λ r. not (same_network new.wallet_id new.network_id r)) rows

-- `recordWalletEvent`
abbrev pub record_wallet_event : Text → WalletEventType → WalletStatus → WalletTables → WalletTables
record_wallet_event id type status s = record s {
  events = record { event_type = type; object_id = id; status = status } ∷ s.events;
}
