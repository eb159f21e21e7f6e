-- ===== src/Verification/Outcome.antt =====
-- `verificationResult` of packages/verification/src/index.ts; the hash of the evidence is a parameter.
use agentplace.Prelude.{List, ◌++◌, Option, none, some, if◌then◌else◌, length, all}
use agentplace.Text.{Text, codes, text_eq, to_lower}
use agentplace.Verification.Types.{
  BigInt, VerificationCheck, verified, not_verified, CandidateRow, ChainEvidence, MatchingLog,
  NormalizedEvidence, ExpectedOutcome, ActualOutcome, VerificationResult, IndependentEvidence,
}
use agentplace.Verification.Numbers.{big_int_eq, bigint_value, decimal_string, big_int_times, lower}
use agentplace.Verification.Evidence.{parse_erc20_transfer, non_empty, or_empty_text}
use agentplace.Verification.Checks.{
  or_second, tx_input, logs_for, checks_for, recipient_of, amount_of, is_pass,
}

-- `gasUsed !== null && effectiveGasPrice !== null ? gasUsed * effectiveGasPrice : null`
unfoldable pub gas_cost : Option BigInt → Option BigInt → Option BigInt
gas_cost (some g) (some p) = some (big_int_times g p)
gas_cost _ _ = none

-- `(receipt.blockNumber ?? transaction.blockNumber) ?? ''`
unfoldable pub normalized_evidence :
    CandidateRow → IndependentEvidence → List MatchingLog → NormalizedEvidence
normalized_evidence c read logs =
    let e = read.primary in
    let gas = bigint_value e.receipt.gas_used in
    let price = bigint_value e.receipt.effective_gas_price in
    record {
      providers = read.providers;
      cross_checked = read.cross_checked;
      chain_id = e.chain_id;
      transaction_hash = to_lower c.transaction_hash;
      from = lower e.transaction.from;
      to = lower e.transaction.to;
      value_atomic = or_empty_text (decimal_string (bigint_value e.transaction.value));
      input = tx_input e.transaction;
      block_number = or_empty_text (or_second e.receipt.block_number e.transaction.block_number);
      block_hash = lower e.receipt.block_hash;
      receipt_status = lower e.receipt.status;
      gas_used = or_empty_text (decimal_string gas);
      effective_gas_price = or_empty_text (decimal_string price);
      gas_cost_atomic = or_empty_text (decimal_string (gas_cost gas price));
      matching_logs = logs;
    }

unfoldable pub expected_outcome : CandidateRow → ExpectedOutcome
expected_outcome c = record {
  capability_id = c.capability_id;
  chain_id = c.chain_id;
  sender = to_lower c.from_address;
  recipient = lower c.destination;
  asset = c.asset;
  asset_address = c.asset_address;
  amount_display = c.amount_display;
  amount_atomic = c.amount_atomic;
}

-- `candidate.asset_address ? … : normalized.…`
unfoldable pub shown : Option Text → Option Text → Text → Option Text
shown none token native = some native
shown (some _) token native = token

unfoldable pub actual_outcome :
    CandidateRow → ChainEvidence → NormalizedEvidence → Option Text → ActualOutcome
actual_outcome c e n asset =
    let decoded = parse_erc20_transfer (tx_input e.transaction) in
    record {
      chain_id = e.chain_id;
      sender = n.from;
      recipient = shown asset (recipient_of decoded) n.to;
      asset = c.asset;
      asset_address = c.asset_address;
      amount_atomic = shown asset (amount_of decoded) n.value_atomic;
      receipt_status = n.receipt_status;
      matching_transfer_event_count = length n.matching_logs;
    }

abbrev destination_word : Option Text → Text
destination_word none = codes "the approved destination"
destination_word (some d) = d

-- `verificationResult`
unfoldable pub verification_result :
    (NormalizedEvidence → List VerificationCheck → Text)
    → CandidateRow
    → IndependentEvidence
    → VerificationResult
verification_result sha256 c read =
    let asset = non_empty c.asset_address in
    let checks = checks_for c read.primary asset in
    let n = normalized_evidence c read (logs_for c read.primary asset) in
    record {
      status = if all is_pass checks then verified else not_verified;
      checks = checks;
      expected_outcome = expected_outcome c;
      actual_outcome = actual_outcome c read.primary n asset;
      normalized_evidence = n;
      evidence_hash = sha256 n checks;
      actual_economic_outcome =
          c.amount_display
          ++ codes " transferred to "
          ++ destination_word c.destination
          ++ codes " on "
          ++ c.action_network_id
          ++ codes ".";
    }
