-- ===== src/Verification/Tests.antt =====
-- Runs of the verification of packages/verification/src/index.ts, and instances of the theorems about
-- it.
use agentplace.Prelude.{
  ℕ, ◌≡◌, refl, true, false, List, [], ◌∷◌, Option, none, some, Result, ok, throw, ◌>>=◌, ◌>>◌,
  throw_if, or_throw, map, length, find, max, min, ◌⊎◌, ◌≤◌, ◌+◌, ◌*◌, arith,
}
use agentplace.Verification.Settlement.{
  ConfirmedAttempt, Settlement, is_candidate, claim, with_observation,
}
use agentplace.Verification.Settlement.Deferred.{is_candidate-claim}
use agentplace.Verification.Settlement.Rounds.{
  Surroundings, verify_candidate, verify_confirmed_transaction_attempts,
}
use agentplace.Verification.Settlement.Answered.{IsConsistent}
use agentplace.Verification.Settlement.Consistent.{
  verify_confirmed_transaction_attempts-IsConsistent,
}
use agentplace.Text.{Text, codes, trim, trim_start, to_lower, to_upper, eq_text}
use agentplace.Decimal.{read_digits, to_text, digits_from}
use agentplace.Verification.Types.{
  missing, string, CandidateRow, RpcTransaction, RpcReceipt, RpcLog, RpcProvider,
  IndependentEvidence, verified, not_verified, VerificationCheck, NormalizedEvidence,
}
use agentplace.Verification.Numbers.{
  next_digit, read_base_from, read_base, as_nat, as_negative, read_signed, read_big_int,
  bigint_value, bigint_field, big_int_text, decimal_string, lower, lower_field, string_of,
}
use agentplace.Verification.Evidence.{
  hex_pattern, supported_symbol, verification_check, starts_text, with_amount, parse_erc20_transfer,
  topic_address, topic_at, is_transfer_log, matching_logs_from, matching_transfer_logs, is_string,
  payload_matches, prepared_payload_matches, transfer_topic,
}
use agentplace.Verification.Checks.{
  input_text, input_field, value_field, expected_amount, approval_active_at, request_matches,
  block_agrees, common_checks, decodes_to, logs_of, token_checks, native_checks, logs_for,
  checks_for, symbol_message,
}
use agentplace.Verification.Outcome.{verification_result}
use agentplace.Verification.Settled.{IsSettled, verification_result-IsSettled}
use agentplace.Verification.Providers.{
  RpcError, RpcAnswers, named_variable, named_value, candidates, url_of, providers_from,
  rpc_providers, chain_number, observed_chain, evidence_of, read_from_provider, on_read, gather,
  critical_evidence_signature, settle_reads, read_independent_evidence,
}
use agentplace.Verification.Providers.Agreed.{IsAgreed, read_independent_evidence-IsAgreed}

-- All that a verification computes with.
verification : Unit {0}
unfolding ◌>>=◌ ◌>>◌ throw_if or_throw trim trim_start to_lower to_upper eq_text read_digits to_text
    digits_from next_digit read_base_from read_base as_nat as_negative read_signed read_big_int
    bigint_value bigint_field big_int_text decimal_string lower lower_field string_of hex_pattern
    supported_symbol verification_check starts_text with_amount parse_erc20_transfer topic_address
    topic_at is_transfer_log matching_logs_from matching_transfer_logs is_string payload_matches
    prepared_payload_matches input_text input_field value_field expected_amount approval_active_at
    request_matches block_agrees common_checks decodes_to logs_of token_checks native_checks
    logs_for checks_for symbol_message verification_result named_variable named_value candidates
    url_of providers_from rpc_providers chain_number observed_chain evidence_of read_from_provider
    on_read gather critical_evidence_signature settle_reads read_independent_evidence
verification = tt

abbrev sender : Text
sender = codes "0x1111111111111111111111111111111111111111"

abbrev receiver : Text
receiver = codes "0x2222222222222222222222222222222222222222"

abbrev token : Text
token = codes "0xa0b86991c6218b36c1d19d4a2e9eb0ce3606eb48"

-- `transfer(receiver, 255)`
abbrev call_data : Text
call_data =
    codes
      "0xa9059cbb000000000000000000000000222222222222222222222222222222222222222200000000000000000000000000000000000000000000000000000000000000ff"

abbrev tx_hash : Text
tx_hash = codes "0xaa"

abbrev candidate : CandidateRow
candidate = record {
  action_id = codes "act";
  prepared_revision = 3;
  action_digest = codes "d";
  account_id = codes "acc";
  environment = codes "mainnet";
  chain_id = 1;
  from_address = sender;
  transaction_request = some (record {
    from = string sender;
    to = string token;
    data_ = string call_data;
    value = missing;
    chain_id = string (codes "0x1");
  });
  transaction_hash = tx_hash;
  wallet_prompted_at = some 100;
  capability_id = codes "asset.transfer";
  asset = codes "usdc";
  asset_address = some token;
  amount_display = codes "0.000255 USDC";
  amount_atomic = some (codes "255");
  destination = some receiver;
  action_network_family = codes "eip155";
  action_network_id = codes "ethereum";
  prepared_digest = codes "d";
  prepared_payload = some (record {
    kind = string (codes "transfer");
    capability_id = string (codes "asset.transfer");
    account_id = string (codes "acc");
    environment = string (codes "mainnet");
    network =
        some (record { family = string (codes "eip155"); network_id = string (codes "ethereum") });
    asset = string (codes "USDC");
    asset_address = string token;
    amount_atomic = string (codes "255");
    destination = string receiver;
  });
  prepared_expires_at = some 100;
  approval_action_id = codes "act";
  approval_revision = 3;
  approval_digest = codes "d";
  approval_decision = codes "APPROVED";
  approval_expires_at = none;
  approval_decided_at = 90;
  approval_invalidated_at = some 101;
}

abbrev transaction : RpcTransaction
transaction = record {
  hash = some tx_hash;
  from = some sender;
  to = some token;
  input = some call_data;
  data_ = none;
  value = some (codes "0x0");
  block_number = some (codes "0x10");
  block_hash = some (codes "0xbb");
}

abbrev transfer_log : RpcLog
transfer_log = record {
  address = some token;
  topics = some (
      transfer_topic
      ∷ codes "0x0000000000000000000000001111111111111111111111111111111111111111"
      ∷ codes "0x0000000000000000000000002222222222222222222222222222222222222222"
      ∷ []);
  data_ = some (codes "0xff");
  log_index = some (codes "0x0");
}

abbrev receipt : List RpcLog → RpcReceipt
receipt logs = record {
  transaction_hash = some tx_hash;
  status = some (codes "0x1");
  block_number = some (codes "0x10");
  block_hash = some (codes "0xbb");
  gas_used = some (codes "0x5208");
  effective_gas_price = some (codes "0x3b9aca00");
  logs = some logs;
}

abbrev read : List RpcLog → IndependentEvidence
read logs = record {
  primary = record {
    provider = "verification-primary-rpc";
    chain_id = 1;
    transaction = transaction;
    receipt = receipt logs;
  };
  providers = "verification-primary-rpc" ∷ [];
  cross_checked = false;
}

abbrev no_hash : NormalizedEvidence → List VerificationCheck → Text
no_hash n cs = []

verifies : (verification_result no_hash candidate (read (transfer_log ∷ []))).status ≡ verified
unfolding verification
verifies = refl

refuses_without_log : (verification_result no_hash candidate (read [])).status ≡ not_verified
unfolding verification
refuses_without_log = refl

verification_result-IsSettled_example : IsSettled candidate (read (transfer_log ∷ [])).primary
verification_result-IsSettled_example =
    verification_result-IsSettled no_hash candidate (read (transfer_log ∷ [])) verifies

-- Two providers, one of them named twice.
abbrev environment : Text → Option Text
environment name = if_named (eq_text name (codes "AGENTPLACE_EVM_RPC_1_SECONDARY"))
  where
    if_named : agentplace.Prelude.Bool → Option Text
    if_named true = some (codes "https://b")
    if_named false = some (codes " https://a ")

abbrev answers : List RpcLog → RpcProvider → Result RpcError RpcAnswers
answers logs p = ok (record {
  chain_hex = some (codes "0x1");
  transaction = some transaction;
  receipt = some (receipt logs);
})

abbrev cross_checked_read : IndependentEvidence
cross_checked_read = record {
  primary = record {
    provider = "verification-secondary-rpc";
    chain_id = 1;
    transaction = transaction;
    receipt = receipt [];
  };
  providers = "verification-secondary-rpc" ∷ "verification-primary-rpc" ∷ [];
  cross_checked = true;
}

reads_two : read_independent_evidence environment (answers []) 1 ≡ ok cross_checked_read
unfolding verification
reads_two = refl

read_independent_evidence-IsAgreed_example : IsAgreed environment (answers []) 1 cross_checked_read
read_independent_evidence-IsAgreed_example =
    read_independent_evidence-IsAgreed environment (answers []) 1 cross_checked_read reads_two

-- A run over one attempt, with the two providers, a clock of a minute per round and no variables for
-- the delays.
abbrev surroundings : Surroundings
surroundings = record {
  env = environment;
  retry_base_ms = 0;
  max_retry_ms = 0;
  sha256 = no_hash;
  clock = λ round. 60000 * round;
  call = λ round. answers (transfer_log ∷ []);
}

abbrev attempt : ConfirmedAttempt
attempt = record { id = codes "tx"; job_id = some (codes "job"); candidate = candidate }

abbrev to_verify : Settlement
to_verify = record {
  attempts = attempt ∷ [];
  observations = [];
  outcomes = [];
  receipts = [];
  anchors = [];
  jobs = [];
}

verify_confirmed_transaction_attempts-IsConsistent_example :
    let after = (verify_confirmed_transaction_attempts surroundings 25 to_verify).0 in
    let counts = (verify_confirmed_transaction_attempts surroundings 25 to_verify).1 in
    IsConsistent after
    × (length after.outcomes
        ≡ length to_verify.outcomes + (counts.verified_count + counts.not_verified_count))
    × (length after.receipts ≡ length to_verify.receipts + counts.verified_count)
    × (counts.checked ≡ counts.verified_count + counts.not_verified_count + counts.unknown_count)
    × (counts.checked ≤ max 1 (min 100 25))
    × ((counts.checked ≡ max 1 (min 100 25))
        ⊎ (find (is_candidate (surroundings.clock counts.checked) after) after.attempts ≡ none))
verify_confirmed_transaction_attempts-IsConsistent_example =
    verify_confirmed_transaction_attempts-IsConsistent surroundings 25 to_verify
      (record { once = tt; receipted = refl; queued = refl })

is_candidate-claim_example :
    let o = claim (surroundings.clock 1) to_verify attempt in
    (is_candidate 150000 (with_observation o to_verify) attempt ≡ false)
    × (is_candidate 64999
          (verify_candidate surroundings 1 attempt o (with_observation o to_verify)).0
          attempt
        ≡ false)
is_candidate-claim_example =
    is_candidate-claim surroundings 1 150000 64999 attempt to_verify (omega arith) (omega arith)
