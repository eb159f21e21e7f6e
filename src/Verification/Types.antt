-- ===== src/Verification/Types.antt =====
-- The types of packages/verification/src/index.ts. A property that may be missing or null is an
-- `Option`; a property of an unknown JSON object is a `Field`; an instant is a number.
use agentplace.Prelude.{ℕ, Bool, List, Option, String}
use agentplace.Text.{Text}

-- A BigInt: a natural number, or the negative number -(n + 1).
pub data BigInt : Type 0 where
  nat negative : ℕ → BigInt

-- A property of an unknown object: missing or null, a string, or another value with the text
-- that `String` makes of it.
pub data Field : Type 0 where
  missing : Field
  string other : Text → Field

pub data CheckStatus : Type 0 where
  pass fail : CheckStatus

pub record VerificationCheck : Type 0 where
  pub code : String
  pub label : String
  pub status : CheckStatus
  pub message : Text

pub data ResultStatus : Type 0 where
  verified not_verified : ResultStatus

-- `request.from`, `request.to`, `request.data`, `request.value`, `request.chainId`
pub record TransactionRequest : Type 0 where
  pub from : Field
  pub to : Field
  pub data_ : Field
  pub value : Field
  pub chain_id : Field

pub record PayloadNetwork : Type 0 where
  pub family : Field
  pub network_id : Field

pub record PreparedPayload : Type 0 where
  pub kind : Field
  pub capability_id : Field
  pub account_id : Field
  pub environment : Field
  pub network : Option PayloadNetwork
  pub asset : Field
  pub asset_address : Field
  pub amount_atomic : Field
  pub destination : Field

-- The columns of a candidate that the verification reads.
pub record CandidateRow : Type 0 where
  pub action_id : Text
  pub prepared_revision : ℕ
  pub action_digest : Text
  pub account_id : Text
  pub environment : Text
  pub chain_id : ℕ
  pub from_address : Text
  pub transaction_request : Option TransactionRequest
  pub transaction_hash : Text
  pub wallet_prompted_at : Option ℕ
  pub capability_id : Text
  pub asset : Text
  pub asset_address : Option Text
  pub amount_display : Text
  pub amount_atomic : Option Text
  pub destination : Option Text
  pub action_network_family : Text
  pub action_network_id : Text
  pub prepared_digest : Text
  pub prepared_payload : Option PreparedPayload
  pub prepared_expires_at : Option ℕ
  pub approval_action_id : Text
  pub approval_revision : ℕ
  pub approval_digest : Text
  pub approval_decision : Text
  pub approval_expires_at : Option ℕ
  pub approval_decided_at : ℕ
  pub approval_invalidated_at : Option ℕ

pub record RpcProvider : Type 0 where
  pub url : Text
  pub label : String

pub record RpcTransaction : Type 0 where
  pub hash : Option Text
  pub from : Option Text
  pub to : Option Text
  pub input : Option Text
  pub data_ : Option Text
  pub value : Option Text
  pub block_number : Option Text
  pub block_hash : Option Text

pub record RpcLog : Type 0 where
  pub address : Option Text
  pub topics : Option (List Text)
  pub data_ : Option Text
  pub log_index : Option Text

pub record RpcReceipt : Type 0 where
  pub transaction_hash : Option Text
  pub status : Option Text
  pub block_number : Option Text
  pub block_hash : Option Text
  pub gas_used : Option Text
  pub effective_gas_price : Option Text
  pub logs : Option (List RpcLog)

pub record ChainEvidence : Type 0 where
  pub provider : String
  pub chain_id : ℕ
  pub transaction : RpcTransaction
  pub receipt : RpcReceipt

-- An entry of `matchingLogs`.
pub record MatchingLog : Type 0 where
  pub address : Text
  pub topics : List Text
  pub data_ : Text
  pub log_index : Option Text

pub record NormalizedEvidence : Type 0 where
  pub providers : List String
  pub cross_checked : Bool
  pub chain_id : ℕ
  pub transaction_hash : Text
  pub from : Text
  pub to : Text
  pub value_atomic : Text
  pub input : Text
  pub block_number : Text
  pub block_hash : Text
  pub receipt_status : Text
  pub gas_used : Text
  pub effective_gas_price : Text
  pub gas_cost_atomic : Text
  pub matching_logs : List MatchingLog

pub record ExpectedOutcome : Type 0 where
  pub capability_id : Text
  pub chain_id : ℕ
  pub sender : Text
  pub recipient : Text
  pub asset : Text
  pub asset_address : Option Text
  pub amount_display : Text
  pub amount_atomic : Option Text

pub record ActualOutcome : Type 0 where
  pub chain_id : ℕ
  pub sender : Text
  pub recipient : Option Text
  pub asset : Text
  pub asset_address : Option Text
  pub amount_atomic : Option Text
  pub receipt_status : Text
  pub matching_transfer_event_count : ℕ

pub record VerificationResult : Type 0 where
  pub status : ResultStatus
  pub checks : List VerificationCheck
  pub expected_outcome : ExpectedOutcome
  pub actual_outcome : ActualOutcome
  pub normalized_evidence : NormalizedEvidence
  pub evidence_hash : Text
  pub actual_economic_outcome : Text

-- What `readIndependentEvidence` returns.
pub record IndependentEvidence : Type 0 where
  pub primary : ChainEvidence
  pub providers : List String
  pub cross_checked : Bool
