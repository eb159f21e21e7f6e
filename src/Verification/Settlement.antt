-- ===== src/Verification/Settlement.antt =====
-- The settlement of confirmed transfers in packages/verification/src/index.ts: `claimNextCandidate`,
-- `markUnknown`, `persistObservationEvidence`, `finalizeVerified`, `finalizeNotVerified`,
-- `verifyCandidate` and `verifyConfirmedTransactionAttempts`. The tables are a record. `attempts`
-- holds what the query joins of the confirmed transfer attempts with a hash, in its order. The clock
-- and the answers of the providers may change from round to round.
pub mod Rounds
pub mod Answered
pub mod Consistent
pub mod Deferred
use agentplace.Prelude.{
  ℕ, zero, suc, ◌+◌, ◌-◌, ◌*◌, ◌^◌, min, max, Bool, true, false, not, ◌&&◌, ◌||◌, List, [], ◌∷◌,
  Option, none, some, Result, ok, throw, ◌>>=◌, ◌>>◌, throw_if, ◌==◌, leb, ltb, if◌then◌else◌,
  length, map, find, any, all, String, ◌===◌,
}
use agentplace.Text.{Text, codes, text_eq, is_digit, is_empty}
use agentplace.Verification.Types.{
  CandidateRow, VerificationCheck, VerificationResult, NormalizedEvidence, IndependentEvidence,
  ResultStatus, verified, not_verified, RpcProvider,
}
use agentplace.Verification.Evidence.{hex_pattern}
use agentplace.Verification.Outcome.{verification_result}
use agentplace.Verification.Providers.{
  VerificationError, verification_rpc_conflict, RpcError, RpcAnswers, read_independent_evidence,
}

pub data SettlementStatus : Type 0 where
  verifying is_verified is_not_verified unknown : SettlementStatus

pub data SettlementReason : Type 0 where
  invalid_durable_evidence rpc_evidence_conflict gas_accounting_unavailable : SettlementReason
  rpc_evidence_unavailable verification_contract_failed : SettlementReason

-- A row of `settlement_observation`, by the id of its attempt.
pub record Observation : Type 0 where
  pub attempt_id : Text
  pub status : SettlementStatus
  pub retryable : Bool
  pub attempt_count : ℕ
  pub next_check_at : Option ℕ
  pub lease_until : Option ℕ
  pub reason_code : Option SettlementReason
  pub evidence_hash : Option Text

-- Rows of `verified_outcome`, `verified_receipt` and `proof_anchor_queue`.
pub record OutcomeRow : Type 0 where
  pub attempt_id : Text
  pub status : ResultStatus
  pub checks : List VerificationCheck
  pub evidence_hash : Text

pub record ReceiptRow : Type 0 where
  pub attempt_id : Text
  pub evidence_hash : Text

pub data JobStatus : Type 0 where
  job_verifying job_completed job_failed_final : JobStatus

pub record ConfirmedAttempt : Type 0 where
  pub id : Text
  pub job_id : Option Text
  pub candidate : CandidateRow

-- The tables, newest first, but for the attempts; `anchors` holds the attempts of the queued
-- receipts, and `jobs` the statuses that were set.
pub record Settlement : Type 0 where
  pub attempts : List ConfirmedAttempt
  pub observations : List Observation
  pub outcomes : List OutcomeRow
  pub receipts : List ReceiptRow
  pub anchors : List Text
  pub jobs : List (Text × JobStatus)

abbrev pub has_outcome : Text → Settlement → Bool
has_outcome id s = any (λ (o : OutcomeRow). o.attempt_id === id) s.outcomes

unfoldable pub find_observation : Text → List Observation → Option Observation
find_observation id os = find (λ (o : Observation). o.attempt_id === id) os

-- `next_check_at IS NULL OR next_check_at <= now()`, and the lease likewise with `<`
abbrev pub due : ℕ → Option ℕ → Bool
due now none = true
due now (some t) = leb t now

abbrev pub free : ℕ → Option ℕ → Bool
free now none = true
free now (some t) = ltb t now

abbrev pub is_unsettled : SettlementStatus → Bool
is_unsettled verifying = true
is_unsettled unknown = true
is_unsettled _ = false

unfoldable pub claimable : ℕ → Option Observation → Bool
claimable now none = true
claimable now (some o) =
    is_unsettled o.status && (due now o.next_check_at && free now o.lease_until)

unfoldable pub is_candidate : ℕ → Settlement → ConfirmedAttempt → Bool
is_candidate now s a =
    not (has_outcome a.id s) && claimable now (find_observation a.id s.observations)

-- `ON CONFLICT … DO UPDATE`: the observation is claimed for 90 seconds.
unfoldable pub claimed : Text → ℕ → Option Observation → Observation
claimed id now none = record {
  attempt_id = id;
  status = verifying;
  retryable = true;
  attempt_count = 1;
  next_check_at = none;
  lease_until = some (now + 90000);
  reason_code = none;
  evidence_hash = none;
}
claimed id now (some o) = record o {
  status = verifying;
  retryable = true;
  attempt_count = suc o.attempt_count;
  next_check_at = none;
  lease_until = some (now + 90000);
}

-- The row of an attempt is replaced, or inserted.
unfoldable pub put_observation : Observation → List Observation → List Observation
put_observation o [] = o ∷ []
put_observation o (x ∷ xs) =
    let rest = put_observation o xs in if x.attempt_id === o.attempt_id then o ∷ xs else x ∷ rest

unfoldable pub claim : ℕ → Settlement → ConfirmedAttempt → Observation
claim now s a = claimed a.id now (find_observation a.id s.observations)

abbrev pub with_observation : Observation → Settlement → Settlement
with_observation o s = record s { observations = put_observation o s.observations }

-- `if (candidate.job_id) UPDATE job …`
unfoldable pub set_job : Option Text → JobStatus → Settlement → Settlement
set_job none status s = s
set_job (some id) status s = if is_empty id then s else record s { jobs = (id, status) ∷ s.jobs }

-- `Number.parseInt(…) || …` of the two variables, 0 where it is no number; one below 0 acts like 1,
-- since both are raised to the base at least.
abbrev pub or_default : ℕ → ℕ → ℕ
or_default zero d = d
or_default (suc n) d = suc n

-- The delay of `markUnknown`, in milliseconds.
unfoldable pub retry_delay : ℕ → ℕ → ℕ → ℕ
retry_delay base_ms max_ms count =
    let base = max 5000 (or_default base_ms 15000) in
    let most = max base (or_default max_ms 300000) in min most (base * 2 ^ min 5 (count - 1))

-- `markUnknown`, apart from its event
unfoldable pub mark_unknown :
    ℕ → ℕ → ConfirmedAttempt → Observation → SettlementReason → ℕ → Settlement → Settlement
mark_unknown base_ms max_ms a o reason now s = set_job a.job_id job_verifying (
    with_observation
      (record o {
        status = unknown;
        retryable = true;
        next_check_at = some (now + retry_delay base_ms max_ms o.attempt_count);
        lease_until = none;
        reason_code = some reason;
      })
      s)

-- `persistObservationEvidence`: the hash stands for the columns of the evidence.
abbrev pub with_evidence : VerificationResult → Observation → Observation
with_evidence r o = record o { evidence_hash = some r.evidence_hash }

abbrev pub outcome_row : Text → ResultStatus → VerificationResult → OutcomeRow
outcome_row id status r = record {
  attempt_id = id;
  status = status;
  checks = r.checks;
  evidence_hash = r.evidence_hash;
}

-- `finalizeNotVerified`
unfoldable pub finalize_not_verified :
    ConfirmedAttempt → Observation → VerificationResult → Settlement → Settlement
finalize_not_verified a o r s =
    set_job a.job_id job_failed_final
      (record (with_observation
        (record o {
          status = is_not_verified;
          retryable = false;
          next_check_at = none;
          lease_until = none;
          reason_code = some verification_contract_failed;
        })
        s) { outcomes = outcome_row a.id not_verified r ∷ s.outcomes })

-- The rows of a verified outcome, its receipt and the queued proof.
abbrev pub settled_tables :
    ConfirmedAttempt → Observation → VerificationResult → Settlement → Settlement
settled_tables a o r s =
    record (with_observation
      (record o {
        status = is_verified;
        retryable = false;
        next_check_at = none;
        lease_until = none;
        reason_code = none;
      })
      s) {
        outcomes = outcome_row a.id verified r ∷ s.outcomes;
        receipts = record { attempt_id = a.id; evidence_hash = r.evidence_hash } ∷ s.receipts;
        anchors = a.id ∷ s.anchors;
      }

-- `finalizeVerified`, in one transaction
unfoldable pub finalize_verified :
    ConfirmedAttempt
    → Observation
    → VerificationResult
    → Settlement
    → Result SettlementReason Settlement
finalize_verified a o r s = do
  let gas = r.normalized_evidence.gas_cost_atomic
  throw_if (is_empty gas || not (all is_digit gas)) gas_accounting_unavailable
  ok (set_job a.job_id job_completed (settled_tables a o r s))
