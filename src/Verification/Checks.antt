-- ===== src/Verification/Checks.antt =====
-- The checks of `verificationResult` in packages/verification/src/index.ts, which compare what the
-- chain shows with the action, its preparation and its approval.
use agentplace.Prelude.{
  ℕ, Bool, true, false, not, ◌&&◌, ◌||◌, List, [], ◌∷◌, ◌++◌, Option, none, some, ◌==◌, leb, ltb,
  if◌then◌else◌, length, all, ◌===◌,
}
use agentplace.Text.{Text, codes, text_eq, to_lower, to_upper, is_empty, is_digit}
use agentplace.Decimal.{to_text, read_digits}
use agentplace.Verification.Types.{
  BigInt, nat, Field, missing, string, VerificationCheck, CheckStatus, pass, fail,
  TransactionRequest, CandidateRow, RpcTransaction, RpcReceipt, ChainEvidence, MatchingLog,
}
use agentplace.Verification.Numbers.{
  big_int_eq, same_option, bigint_value, bigint_field, decimal_string, lower, lower_field,
}
use agentplace.Verification.Evidence.{
  supported_symbol, verification_check, parse_erc20_transfer, matching_transfer_logs,
  prepared_payload_matches,
}

-- `a ?? b`
abbrev pub or_second : Option Text → Option Text → Option Text
or_second none b = b
or_second (some a) b = some a

-- `lower(value ?? '0x') || '0x'`
unfoldable pub input_text : Option Text → Text
input_text none = codes "0x"
input_text (some t) = let s = to_lower t in if is_empty s then codes "0x" else s

unfoldable pub input_field : Field → Text
input_field (string t) = input_text (some t)
input_field _ = codes "0x"

-- `request?.value ?? '0x0'`
unfoldable pub value_field : Field → Option BigInt
value_field missing = some (nat 0)
value_field f = bigint_field f

-- The amount, where `amount_atomic` is all digits.
unfoldable pub expected_amount : Option Text → Option BigInt
expected_amount none = none
expected_amount (some t) =
    if is_empty t || not (all is_digit t) then none else some (nat (read_digits 0 t))

-- `instant <= end`, where there is an end, and `end > instant`
abbrev pub until : ℕ → Option ℕ → Bool
until at none = true
until at (some end) = leb at end

abbrev pub before : ℕ → Option ℕ → Bool
before at none = true
before at (some end) = ltb at end

-- `approvalWasActive`
unfoldable pub approval_active_at : CandidateRow → Option ℕ → Bool
approval_active_at c none = false
approval_active_at c (some prompted) =
    (c.approval_decision === codes "APPROVED" && c.approval_action_id === c.action_id)
    && ((c.approval_revision == c.prepared_revision && c.approval_digest === c.action_digest)
        && ((c.prepared_digest === c.action_digest && leb c.approval_decided_at prompted)
            && (until prompted c.approval_expires_at
                && (before prompted c.approval_invalidated_at
                    && until prompted c.prepared_expires_at))))

abbrev pub no_request : TransactionRequest
no_request = record {
  from = missing;
  to = missing;
  data_ = missing;
  value = missing;
  chain_id = missing;
}

abbrev pub request_of : Option TransactionRequest → TransactionRequest
request_of none = no_request
request_of (some r) = r

abbrev pub tx_input : RpcTransaction → Text
tx_input t = input_text (or_second t.input t.data_)

-- `requestMatches`
unfoldable pub request_matches : CandidateRow → RpcTransaction → TransactionRequest → Bool
request_matches c t r =
    (lower_field r.from === to_lower c.from_address && lower_field r.to === lower t.to)
    && ((input_field r.data_ === tx_input t
          && same_option (value_field r.value) (bigint_value t.value))
        && same_option (bigint_field r.chain_id) (some (nat c.chain_id)))

abbrev pub is_text : Option Text → Bool
is_text none = false
is_text (some t) = not (is_empty t)

unfoldable pub block_agrees : RpcTransaction → RpcReceipt → Bool
block_agrees t r =
    (is_text r.block_number && is_text r.block_hash)
    && (is_text t.block_hash && lower r.block_hash === lower t.block_hash)

abbrev pub is_number : Option BigInt → Bool
is_number none = false
is_number (some _) = true

-- The checks of every transfer, in their order.
unfoldable pub common_checks :
    CandidateRow → ChainEvidence → List VerificationCheck → List VerificationCheck
common_checks c e rest =
    verification_check "authorization-lineage" "Exact authorization lineage"
      (approval_active_at c c.wallet_prompted_at)
      (codes "Prepared revision, digest and exact approval correspond.")
      (codes "Prepared revision, digest or exact historical approval does not correspond.")
    ∷ verification_check "prepared-payload" "Prepared action correspondence"
        (prepared_payload_matches c c.prepared_payload)
        (codes "Prepared transfer payload matches the durable Financial Action.")
        (codes "Prepared transfer payload does not match the durable Financial Action.")
    ∷ verification_check "chain" "Exact chain" (e.chain_id == c.chain_id)
        (codes "Observed on chain " ++ to_text e.chain_id ++ codes ".")
        (codes "Observed chain does not match the approved execution chain.")
    ∷ verification_check "transaction-hash" "Exact transaction hash"
        (lower e.transaction.hash === to_lower c.transaction_hash
          && lower e.receipt.transaction_hash === to_lower c.transaction_hash)
        (codes "Transaction and receipt match the recorded hash.")
        (codes "Transaction or receipt hash does not match the recorded hash.")
    ∷ verification_check "sender" "Exact sender"
        (lower e.transaction.from === to_lower c.from_address)
        (codes "Onchain sender matches the approved Connected Wallet.")
        (codes "Onchain sender does not match the approved Connected Wallet.")
    ∷ verification_check "receipt-success" "Successful receipt"
        (lower e.receipt.status === codes "0x1") (codes "Receipt status is successful.")
        (codes "Receipt status is not successful.")
    ∷ verification_check "receipt-block" "Canonical receipt block"
        (block_agrees e.transaction e.receipt)
        (codes "Transaction and receipt agree on block evidence.")
        (codes "Transaction and receipt block evidence is missing or inconsistent.")
    ∷ verification_check "gas-evidence" "Exact receipt gas"
        (is_number (bigint_value e.receipt.gas_used)
          && is_number (bigint_value e.receipt.effective_gas_price))
        (codes "gasUsed and effectiveGasPrice are present for exact gas accounting.")
        (codes "Receipt is missing gasUsed or effectiveGasPrice.")
    ∷ verification_check "submitted-request" "Submitted request correspondence"
        (request_matches c e.transaction (request_of c.transaction_request))
        (codes "Observed transaction matches the exact wallet request AgentPlace prepared.")
        (codes "Observed transaction differs from the exact wallet request AgentPlace prepared.")
    ∷ rest

unfoldable pub symbol_message : Option Text → Text
symbol_message (some s) = s ++ codes " contract is in the M10 production verification allowlist."
symbol_message none = codes "Token contract is not in the M10 production verification allowlist."

-- The recipient and the amount of a decoded call.
unfoldable pub decodes_to : Text → Option BigInt → Option (Text × BigInt) → Bool
decodes_to destination amount none = false
decodes_to destination amount (some (recipient, n)) =
    to_lower recipient === destination && same_option (some n) amount

-- `if (expectedAmount !== null && decoded) …`
unfoldable pub logs_of :
    CandidateRow → RpcReceipt → Text → Option BigInt → Option (Text × BigInt) → List MatchingLog
logs_of c r token (some amount) (some _) =
    matching_transfer_logs r token (to_lower c.from_address) (lower c.destination) amount
logs_of c r token _ _ = []

unfoldable pub token_checks :
    CandidateRow → ChainEvidence → Text → List MatchingLog → List VerificationCheck
token_checks c e token logs =
    verification_check "supported-token-contract" "Supported token contract"
      (same_option (supported_symbol c.chain_id token) (some (to_upper c.asset)))
      (symbol_message (supported_symbol c.chain_id token))
      (codes "Token contract is not supported by the M10 transfer Verification Contract.")
    ∷ verification_check "token-contract" "Exact token contract"
        (lower e.transaction.to === token
          && same_option (bigint_value e.transaction.value) (some (nat 0)))
        (codes "Transaction targets the approved token contract with zero native value.")
        (codes
          "Transaction token target or native value does not match the approved token transfer.")
    ∷ verification_check "erc20-transfer-call" "ERC-20 transfer semantics"
        (decodes_to (lower c.destination) (expected_amount c.amount_atomic)
          (parse_erc20_transfer (tx_input e.transaction)))
        (codes "transfer(address,uint256) calldata matches the approved recipient and amount.")
        (codes "ERC-20 transfer calldata does not match the approved recipient and amount.")
    ∷ verification_check "erc20-transfer-event" "ERC-20 Transfer event" (not (length logs == 0))
        (codes "Receipt contains the matching token Transfer event.")
        (codes "Receipt does not contain the expected token Transfer event.")
    ∷ []

unfoldable pub native_checks : CandidateRow → ChainEvidence → List VerificationCheck
native_checks c e =
    verification_check "native-recipient" "Exact recipient"
      (lower e.transaction.to === lower c.destination)
      (codes "Native transfer recipient matches the approved destination.")
      (codes "Native transfer recipient does not match the approved destination.")
    ∷ verification_check "native-value" "Exact amount"
        (is_number (expected_amount c.amount_atomic)
          && same_option (bigint_value e.transaction.value) (expected_amount c.amount_atomic))
        (codes "Native transfer value matches the exact approved atomic amount.")
        (codes "Native transfer value does not match the exact approved atomic amount.")
    ∷ verification_check "native-calldata" "Direct native transfer semantics"
        (tx_input e.transaction === codes "0x") (codes "Native transfer has empty calldata.")
        (codes "Native transfer contains unexpected calldata.")
    ∷ []

-- The logs and all checks of the branch that the asset's address chooses.
unfoldable pub logs_for : CandidateRow → ChainEvidence → Option Text → List MatchingLog
logs_for c e none = []
logs_for c e (some a) =
    logs_of c e.receipt (to_lower a) (expected_amount c.amount_atomic)
      (parse_erc20_transfer (tx_input e.transaction))

unfoldable pub checks_for : CandidateRow → ChainEvidence → Option Text → List VerificationCheck
checks_for c e none = common_checks c e (native_checks c e)
checks_for c e (some a) = common_checks c e (token_checks c e (to_lower a) (logs_for c e (some a)))

unfoldable pub recipient_of : Option (Text × BigInt) → Option Text
recipient_of none = none
recipient_of (some (r, _)) = some r

unfoldable pub amount_of : Option (Text × BigInt) → Option Text
amount_of none = none
amount_of (some (_, n)) = decimal_string (some n)

abbrev pub is_passed : CheckStatus → Bool
is_passed pass = true
is_passed fail = false

abbrev pub is_pass : VerificationCheck → Bool
is_pass c = is_passed c.status
