-- ===== src/Wallets/Inputs.antt =====
-- The checks of the inputs in packages/wallets/src/index.ts: `requireName`, `normalizedAddress`,
-- `validateNetwork` and the patterns of addresses, networks and balances.
use agentplace.Prelude.{
  ℕ, Bool, false, not, ◌&&◌, ◌||◌, List, [], ◌∷◌, Option, none, some, ok, throw, ◌>>=◌, ◌>>◌,
  throw_if, ltb, leb, ◌==◌, if◌then◌else◌, length, all,
}
use agentplace.Text.{Text, trim, to_lower, is_empty, is_digit, is_lower, is_letter, matches}
use agentplace.Wallets.Types.{
  WalletNamespace, eip155, solana, NetworkRef, WalletOutcome, invalid_wallet_name,
  invalid_evm_address, invalid_solana_address, invalid_wallet_network, invalid_native_balance,
}

abbrev pub is_hex : ℕ → Bool
is_hex c = is_digit c || (leb b'a' c && leb c b'f') || (leb b'A' c && leb c b'F')

-- `EVM_ADDRESS`
unfoldable pub evm_address : Text → Bool
evm_address (c ∷ d ∷ s) = (c == b'0' && d == b'x') && (all is_hex s && length s == 40)
evm_address _ = false

-- The alphabet of base 58: no `0`, `O`, `I` or `l`.
abbrev pub is_base58 : ℕ → Bool
is_base58 c =
    (leb b'1' c && leb c b'9')
    || (leb b'A' c && leb c b'H')
    || (leb b'J' c && leb c b'N')
    || (leb b'P' c && leb c b'Z')
    || (leb b'a' c && leb c b'k')
    || (leb b'm' c && leb c b'z')

-- `SOLANA_ADDRESS`
unfoldable pub solana_address : Text → Bool
solana_address s = all is_base58 s && (leb 32 (length s) && leb (length s) 44)

abbrev network_first : ℕ → Bool
network_first c = is_lower c || is_digit c

abbrev network_rest : ℕ → Bool
network_rest c = network_first c || c == b'-'

-- `NETWORK_ID`
unfoldable pub network_id_pattern : Text → Bool
network_id_pattern = matches network_first network_rest 63

abbrev chain_first : ℕ → Bool
chain_first c = is_letter c || is_digit c

abbrev chain_rest : ℕ → Bool
chain_rest c = chain_first c || c == b'.' || c == b'_' || c == b':' || c == b'-'

-- `CHAIN_REFERENCE`
unfoldable pub chain_reference_pattern : Text → Bool
chain_reference_pattern = matches chain_first chain_rest 127

-- `requireName`
unfoldable pub require_name : Text → WalletOutcome Text
require_name value =
    let name = trim value in
    if is_empty name || ltb 120 (length name) then throw invalid_wallet_name else ok name

-- `normalizedAddress`
unfoldable pub normalized_address : WalletNamespace → Text → WalletOutcome Text
normalized_address eip155 address = do
  throw_if (not (evm_address (trim address))) invalid_evm_address
  ok (to_lower (trim address))
normalized_address solana address = do
  throw_if (not (solana_address (trim address))) invalid_solana_address
  ok (trim address)

-- `validateNetwork`
unfoldable pub validate_network : NetworkRef → WalletOutcome NetworkRef
validate_network n = do
  let id = to_lower (trim n.network_id)
  let reference = trim n.chain_reference
  throw_if (not (network_id_pattern id) || not (chain_reference_pattern reference))
      invalid_wallet_network
  ok (record { network_id = id; chain_reference = reference })

-- `….map((item) => validateNetwork(…))`, which throws at the first that is not valid.
unfoldable pub validate_networks : List NetworkRef → WalletOutcome (List NetworkRef)
validate_networks [] = ok []
validate_networks (n ∷ ns) = do m ← validate_network n; ms ← validate_networks ns; ok (m ∷ ms)

-- `/^[0-9]{1,100}$/`, of a balance that is given
unfoldable pub balance_check : Option Text → WalletOutcome (Unit {0})
balance_check none = ok tt
balance_check (some b) = throw_if (not (matches is_digit is_digit 99 b)) invalid_native_balance

-- `id?.trim() || fresh`
unfoldable pub id_or : Text → Option Text → Text
id_or fresh none = fresh
id_or fresh (some t) = let id = trim t in if is_empty id then fresh else id
