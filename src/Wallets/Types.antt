-- ===== src/Wallets/Types.antt =====
-- The types of packages/wallets/src/index.ts and the rows of its tables. An instant is a number,
-- and `toISOString` is not modelled. JSON that the package wrote is read back as the list it was.
use agentplace.Prelude.{ℕ, ◌≡◌, ◌↔◌, Bool, true, false, List, Option, arith, Eq, Result}
use agentplace.Text.{Text}
use agentplace.Authority.Types.{WalletMode, watch_only, connected, agent_account}

pub data WalletNamespace : Type 0 where
  eip155 solana : WalletNamespace

pub data WalletStatus : Type 0 where
  active disconnected setup removed : WalletStatus

pub data WalletConnectionSource : Type 0 where
  watch browser_eip1193 agent_account_source : WalletConnectionSource

pub data WalletNetworkConnectionState : Type 0 where
  network_observed network_connected network_disconnected : WalletNetworkConnectionState

pub data ObservationSource : Type 0 where
  user_supplied browser_provider agentplace_source : ObservationSource

pub record WalletNetworkState : Type 0 where
  pub network_id : Text
  pub namespace : WalletNamespace
  pub chain_reference : Text
  pub address : Text
  pub connection_state : WalletNetworkConnectionState
  pub native_balance_atomic : Option Text
  pub observation_source : ObservationSource
  pub observed_at : ℕ

pub record DurableWallet : Type 0 where
  pub id : Text
  pub name : Text
  pub mode : WalletMode
  pub namespace : WalletNamespace
  pub address : Option Text
  pub status : WalletStatus
  pub connection_source : WalletConnectionSource
  pub networks : List WalletNetworkState
  pub agent_account_id : Option Text
  pub created_at : ℕ
  pub updated_at : ℕ
  pub last_seen_at : Option ℕ

pub data AccountStandard : Type 0 where
  unassigned erc_4337 solana_program_account : AccountStandard

pub data LifecycleStatus : Type 0 where
  setup ready_for_deployment deployed limited paused failed : LifecycleStatus

pub data DeploymentStatus : Type 0 where
  not_deployed deploying deployed failed : DeploymentStatus

pub record DurableAgentAccount : Type 0 where
  pub id : Text
  pub wallet_id : Text
  pub name : Text
  pub owner_wallet_id : Text
  pub account_standard : AccountStandard
  pub lifecycle_status : LifecycleStatus
  pub deployment_status : DeploymentStatus
  pub account_address : Option Text
  pub preferred_network_ids : List Text
  pub created_at : ℕ
  pub updated_at : ℕ

pub record NetworkRef : Type 0 where
  pub network_id : Text
  pub chain_reference : Text

pub record CreateWatchWalletInput : Type 0 where
  pub id : Option Text
  pub name : Text
  pub namespace : WalletNamespace
  pub address : Text
  pub networks : Option (List NetworkRef)

pub record ConnectWalletInput : Type 0 where
  pub id : Option Text
  pub name : Text
  pub namespace : WalletNamespace
  pub address : Text
  pub network : NetworkRef
  pub native_balance_atomic : Option Text

pub record CreateAgentAccountInput : Type 0 where
  pub id : Option Text
  pub wallet_id : Option Text
  pub name : Text
  pub owner_wallet_id : Text
  pub preferred_network_ids : List Text

-- A row of `wallet_resource`; the queries select all of it but the last two, and join the id of
-- the agent account.
pub record WalletRow : Type 0 where
  pub id : Text
  pub name : Text
  pub mode : WalletMode
  pub namespace : WalletNamespace
  pub address : Option Text
  pub status : WalletStatus
  pub connection_source : WalletConnectionSource
  pub created_at : ℕ
  pub updated_at : ℕ
  pub last_seen_at : Option ℕ
  pub address_normalized : Option Text
  pub removed_at : Option ℕ

-- A row of `wallet_network_state`.
pub record NetworkRow : Type 0 where
  pub wallet_id : Text
  pub network_id : Text
  pub namespace : WalletNamespace
  pub chain_reference : Text
  pub address : Text
  pub connection_state : WalletNetworkConnectionState
  pub native_balance_atomic : Option Text
  pub observation_source : ObservationSource
  pub observed_at : ℕ

-- A row of `agent_account`.
pub record AgentAccountRow : Type 0 where
  pub id : Text
  pub wallet_id : Text
  pub name : Text
  pub owner_wallet_id : Text
  pub account_standard : AccountStandard
  pub lifecycle_status : LifecycleStatus
  pub deployment_status : DeploymentStatus
  pub account_address : Option Text
  pub preferred_network_ids : List Text
  pub created_at : ℕ
  pub updated_at : ℕ

pub data WalletEventType : Type 0 where
  wallet_added wallet_connected wallet_removed wallet_disconnected wallet_reactivated :
      WalletEventType
  agent_account_setup_created : WalletEventType

-- A row of `domain_event`: its type, its object and its status.
pub record WalletEvent : Type 0 where
  pub event_type : WalletEventType
  pub object_id : Text
  pub status : WalletStatus

-- The rows of one owner, newest first; `taken` holds the ids of other owners' wallets and agent
-- accounts, which the primary keys refuse too.
pub record WalletTables : Type 0 where
  pub wallets : List WalletRow
  pub networks : List NetworkRow
  pub accounts : List AgentAccountRow
  pub events : List WalletEvent
  pub taken : List Text

-- The errors of the package, in upper case in the source, and a refused primary key.
pub data WalletError : Type 0 where
  invalid_wallet_name invalid_evm_address invalid_solana_address invalid_wallet_network :
      WalletError
  invalid_native_balance unsupported_connected_wallet_namespace wallet_address_mismatch :
      WalletError
  wallet_create_failed wallet_connect_failed connected_owner_wallet_required : WalletError
  agent_account_evm_owner_required agent_account_network_required : WalletError
  agent_account_create_failed duplicate_key : WalletError

abbrev pub WalletOutcome {ℓ} : Type ℓ → Type ℓ
WalletOutcome A = Result WalletError A

abbrev pub same_namespace : WalletNamespace → WalletNamespace → Bool
same_namespace eip155 eip155 = true
same_namespace solana solana = true
same_namespace _ _ = false

abbrev pub same_namespace_iff : (a b : WalletNamespace) → (same_namespace a b ≡ true) ↔ (a ≡ b)
same_namespace_iff a b = ground arith

instance abbrev pub namespace_eq : Eq WalletNamespace
namespace_eq = record { same = same_namespace; same_iff = same_namespace_iff }

abbrev pub same_mode : WalletMode → WalletMode → Bool
same_mode watch_only watch_only = true
same_mode connected connected = true
same_mode agent_account agent_account = true
same_mode _ _ = false

abbrev pub same_mode_iff : (a b : WalletMode) → (same_mode a b ≡ true) ↔ (a ≡ b)
same_mode_iff a b = ground arith

instance abbrev pub mode_eq : Eq WalletMode
mode_eq = record { same = same_mode; same_iff = same_mode_iff }

abbrev pub same_status : WalletStatus → WalletStatus → Bool
same_status active active = true
same_status disconnected disconnected = true
same_status WalletStatus.setup WalletStatus.setup = true
same_status removed removed = true
same_status _ _ = false

abbrev pub same_status_iff : (a b : WalletStatus) → (same_status a b ≡ true) ↔ (a ≡ b)
same_status_iff a b = ground arith

instance abbrev pub status_eq : Eq WalletStatus
status_eq = record { same = same_status; same_iff = same_status_iff }
