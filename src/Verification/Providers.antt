-- ===== src/Verification/Providers.antt =====
-- The independent reading of the chain in packages/verification/src/index.ts: `rpcProviders`,
-- `readFromProvider`, `criticalEvidenceSignature`, `readIndependentEvidence`. The environment
-- variables and what a provider answers are parameters.
pub mod Agreed
use agentplace.Prelude.{
  ℕ, zero, suc, Bool, true, false, not, ◌&&◌, ◌||◌, List, [], ◌∷◌, ◌++◌, Option, none, some, Result,
  ok, throw, ◌>>=◌, ◌>>◌, throw_if, or_throw, ◌==◌, if◌then◌else◌, map, includes, String, ◌===◌,
}
use agentplace.Text.{Text, codes, text_eq, trim, to_lower, is_empty}
use agentplace.Decimal.{to_text}
use agentplace.Verification.Types.{
  BigInt, nat, negative, RpcProvider, RpcTransaction, RpcReceipt, ChainEvidence,
  IndependentEvidence,
}
use agentplace.Verification.Numbers.{
  bigint_value, read_big_int, decimal_string, lower, same_option, big_int_eq,
}
use agentplace.Verification.Checks.{or_second}

-- What goes wrong: with one provider, or with all of them.
pub data RpcError : Type 0 where
  syntax_error transaction_or_receipt_missing : RpcError
  chain_mismatch : BigInt → RpcError
  rpc_failure : Text → RpcError

pub data VerificationError : Type 0 where
  verification_rpc_required verification_rpc_conflict : VerificationError
  verification_rpc_unavailable : List (String × RpcError) → VerificationError

-- The variable of a network that has a name.
unfoldable pub named_variable : ℕ → Option Text
named_variable chain =
    if chain == 1
    then some (codes "ETHEREUM_MAINNET_RPC_URL")
    else if chain == 56
    then some (codes "BNB_MAINNET_RPC_URL")
    else if chain == 97
    then some (codes "BNB_TESTNET_RPC_URL")
    else if chain == 8453
    then some (codes "BASE_MAINNET_RPC_URL")
    else if chain == 42161
    then some (codes "ARBITRUM_MAINNET_RPC_URL")
    else if chain == 84532
    then some (codes "BASE_SEPOLIA_RPC_URL")
    else if chain == 421614
    then some (codes "ARBITRUM_SEPOLIA_RPC_URL")
    else if chain == 11155111
    then some (codes "ETHEREUM_SEPOLIA_RPC_URL")
    else none

module _ (env : Text → Option Text) where
  unfoldable pub named_value : Option Text → Option Text
  named_value none = none
  named_value (some name) = env name

  unfoldable pub candidates : ℕ → List (Option Text × String)
  candidates chain =
      (
        env (codes "AGENTPLACE_EVM_RPC_" ++ to_text chain ++ codes "_SECONDARY"),
        "verification-secondary-rpc",
      )
      ∷ (env (codes "AGENTPLACE_EVM_RPC_" ++ to_text chain), "verification-primary-rpc")
      ∷ (named_value (named_variable chain), "verification-network-rpc")
      ∷ []

-- `candidate.value?.trim()`
unfoldable pub url_of : Option Text → Text
url_of none = []
url_of (some t) = trim t

-- The loop: a candidate without a URL, or with one that was seen, is passed over.
unfoldable pub providers_from : List Text → List (Option Text × String) → List RpcProvider
providers_from seen [] = []
providers_from seen (c ∷ cs) =
    let skipped = providers_from seen cs in
    let taken = providers_from (url_of c.0 ∷ seen) cs in
    if is_empty (url_of c.0) || includes seen (url_of c.0)
    then skipped
    else record { url = url_of c.0; label = c.1 } ∷ taken

-- `rpcProviders`
unfoldable pub rpc_providers : (Text → Option Text) → ℕ → List RpcProvider
rpc_providers env chain = providers_from [] (candidates env chain)

-- The results of the three calls of a provider.
pub record RpcAnswers : Type 0 where
  pub chain_hex : Option Text
  pub transaction : Option RpcTransaction
  pub receipt : Option RpcReceipt

unfoldable pub chain_number : Option BigInt → Result RpcError BigInt
chain_number none = throw syntax_error
chain_number (some n) = ok n

-- `chainHex ? Number(BigInt(chainHex)) : 0`
unfoldable pub observed_chain : Option Text → Result RpcError BigInt
observed_chain none = ok (nat 0)
observed_chain (some t) = if is_empty t then ok (nat 0) else chain_number (read_big_int (trim t))

-- The evidence of one provider, whose chain is the expected one.
unfoldable pub evidence_of : RpcProvider → ℕ → RpcAnswers → Result RpcError ChainEvidence
evidence_of p expected a = do
  chain ← observed_chain a.chain_hex
  throw_if (not (chain === nat expected)) (chain_mismatch chain)
  transaction ← or_throw a.transaction transaction_or_receipt_missing
  receipt ← or_throw a.receipt transaction_or_receipt_missing
  ok (record {
    provider = p.label;
    chain_id = expected;
    transaction = transaction;
    receipt = receipt;
  })

module _ (call : RpcProvider → Result RpcError RpcAnswers) where
  -- `readFromProvider`
  unfoldable pub read_from_provider : ℕ → RpcProvider → Result RpcError ChainEvidence
  read_from_provider expected p = do a ← call p; evidence_of p expected a

  unfoldable pub on_read :
      RpcProvider
      → Result RpcError ChainEvidence
      → List ChainEvidence × List (String × RpcError)
      → List ChainEvidence × List (String × RpcError)
      → List ChainEvidence × List (String × RpcError)
  on_read p (ok e) after_success after_error = (e ∷ after_success.0, after_success.1)
  on_read p (throw e) after_success after_error = (after_error.0, (p.label, e) ∷ after_error.1)

  -- The loop over the providers, which ends when the wanted number of them has answered.
  unfoldable pub gather : ℕ → ℕ → List RpcProvider → List ChainEvidence × List (String × RpcError)
  gather chain zero ps = ([], [])
  gather chain (suc wanted) [] = ([], [])
  gather chain (suc wanted) (p ∷ ps) =
      on_read p (read_from_provider chain p) (gather chain wanted ps) (gather chain (suc wanted) ps)

-- The object of which `criticalEvidenceSignature` makes the canonical JSON.
pub record Signature : Type 0 where
  pub chain_id : ℕ
  pub hash : Text
  pub from : Text
  pub to : Text
  pub input : Text
  pub value : Option Text
  pub transaction_block : Text
  pub receipt_hash : Text
  pub status : Text
  pub receipt_block : Text
  pub gas_used : Option Text
  pub effective_gas_price : Option Text

unfoldable pub critical_evidence_signature : ChainEvidence → Signature
critical_evidence_signature e = record {
  chain_id = e.chain_id;
  hash = lower e.transaction.hash;
  from = lower e.transaction.from;
  to = lower e.transaction.to;
  input = lower (or_second (or_second e.transaction.input e.transaction.data_) (some (codes "0x")));
  value = decimal_string (bigint_value e.transaction.value);
  transaction_block = lower e.transaction.block_hash;
  receipt_hash = lower e.receipt.transaction_hash;
  status = lower e.receipt.status;
  receipt_block = lower e.receipt.block_hash;
  gas_used = decimal_string (bigint_value e.receipt.gas_used);
  effective_gas_price = decimal_string (bigint_value e.receipt.effective_gas_price);
}

-- Equal texts of canonical JSON are equal objects.
abbrev pub same_signature : Signature → Signature → Bool
same_signature a b =
    ((a.chain_id == b.chain_id && a.hash === b.hash) && (a.from === b.from && a.to === b.to))
    && (((a.input === b.input && same_option a.value b.value)
          && (a.transaction_block === b.transaction_block && a.receipt_hash === b.receipt_hash))
        && ((a.status === b.status && a.receipt_block === b.receipt_block)
            && (same_option a.gas_used b.gas_used
                && same_option a.effective_gas_price b.effective_gas_price)))

-- What the answers amount to: none, one, or two that must agree.
unfoldable pub settle_reads :
    List ChainEvidence × List (String × RpcError) → Result VerificationError IndependentEvidence
settle_reads ([], errors) = throw (verification_rpc_unavailable errors)
settle_reads (first ∷ [], errors) =
    ok (record { primary = first; providers = first.provider ∷ []; cross_checked = false })
settle_reads (first ∷ second ∷ more, errors) = do
  throw_if
      (not
        (same_signature (critical_evidence_signature first) (critical_evidence_signature second)))
      verification_rpc_conflict
  ok (record {
    primary = first;
    providers = map (λ (e : ChainEvidence). e.provider) (first ∷ second ∷ more);
    cross_checked = true;
  })

abbrev pub no_providers : List RpcProvider → Bool
no_providers [] = true
no_providers (_ ∷ _) = false

-- `readIndependentEvidence`
unfoldable pub read_independent_evidence :
    (Text → Option Text)
    → (RpcProvider → Result RpcError RpcAnswers)
    → ℕ
    → Result VerificationError IndependentEvidence
read_independent_evidence env call chain = do
  let ps = rpc_providers env chain
  throw_if (no_providers ps) verification_rpc_required
  settle_reads (gather call chain 2 ps)
