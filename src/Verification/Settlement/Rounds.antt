-- ===== src/Verification/Settlement/Rounds.antt =====
-- `verifyCandidate` and the loop of `verifyConfirmedTransactionAttempts`,
-- packages/verification/src/index.ts.
use agentplace.Prelude.{
  ℕ, zero, suc, min, max, Bool, false, ◌&&◌, List, Option, none, some, Result, ok, throw,
  if◌then◌else◌, find,
}
use agentplace.Text.{Text}
use agentplace.Verification.Types.{
  CandidateRow, VerificationCheck, VerificationResult, NormalizedEvidence, IndependentEvidence,
  ResultStatus, verified, not_verified, RpcProvider,
}
use agentplace.Verification.Evidence.{hex_pattern}
use agentplace.Verification.Outcome.{verification_result}
use agentplace.Verification.Providers.{
  VerificationError, verification_rpc_conflict, RpcError, RpcAnswers, read_independent_evidence,
}
use agentplace.Verification.Settlement.{
  SettlementReason, invalid_durable_evidence, rpc_evidence_conflict, rpc_evidence_unavailable,
  Observation, ConfirmedAttempt, Settlement, is_candidate, claim, with_observation, mark_unknown,
  with_evidence, finalize_not_verified, finalize_verified,
}

pub data VerifyAnswer : Type 0 where
  answer_verified answer_not_verified answer_unknown : VerifyAnswer

-- What a run reads from outside: the variables, the hash, and per round the answers and the clock,
-- which is read once per round.
pub record Surroundings : Type 0 where
  pub env : Text → Option Text
  pub retry_base_ms : ℕ
  pub max_retry_ms : ℕ
  pub sha256 : NormalizedEvidence → List VerificationCheck → Text
  pub clock : ℕ → ℕ
  pub call : ℕ → RpcProvider → Result RpcError RpcAnswers

abbrev is_address : Option Text → Bool
is_address none = false
is_address (some t) = hex_pattern 40 t

unfoldable pub is_complete : CandidateRow → Bool
is_complete c =
    (hex_pattern 64 c.transaction_hash && hex_pattern 40 c.from_address) && is_address c.destination

-- The code that `markUnknown` is given for an error of the reading.
abbrev pub reason_of : VerificationError → SettlementReason
reason_of verification_rpc_conflict = rpc_evidence_conflict
reason_of _ = rpc_evidence_unavailable

-- The counts of a run.
pub record Counts : Type 0 where
  pub checked : ℕ
  pub verified_count : ℕ
  pub not_verified_count : ℕ
  pub unknown_count : ℕ

unfoldable pub tallied : VerifyAnswer → Counts → Counts
tallied answer_verified c = record c {
  checked = suc c.checked;
  verified_count = suc c.verified_count;
}
tallied answer_not_verified c = record c {
  checked = suc c.checked;
  not_verified_count = suc c.not_verified_count;
}
tallied answer_unknown c = record c { checked = suc c.checked; unknown_count = suc c.unknown_count }

abbrev pub no_counts : Counts
no_counts = record { checked = 0; verified_count = 0; not_verified_count = 0; unknown_count = 0 }

module _ (w : Surroundings) where
  unfoldable pub unknown_after :
      ConfirmedAttempt → Observation → SettlementReason → ℕ → Settlement → Settlement × VerifyAnswer
  unknown_after a o reason now s =
      (mark_unknown w.retry_base_ms w.max_retry_ms a o reason now s, answer_unknown)

  -- A transaction that throws leaves the tables, and the evidence that was stored before it.
  unfoldable pub after_verified :
      ConfirmedAttempt
      → Observation
      → ℕ
      → Settlement
      → Result SettlementReason Settlement
      → Settlement × VerifyAnswer
  after_verified a o now s (throw reason) = unknown_after a o reason now s
  after_verified a o now s (ok s') = (s', answer_verified)

  unfoldable pub finalize :
      ConfirmedAttempt
      → Observation
      → ℕ
      → Settlement
      → VerificationResult
      → ResultStatus
      → Settlement × VerifyAnswer
  finalize a o now s r verified = after_verified a o now s (finalize_verified a o r s)
  finalize a o now s r not_verified = (finalize_not_verified a o r s, answer_not_verified)

  unfoldable pub with_read :
      ConfirmedAttempt
      → Observation
      → ℕ
      → Settlement
      → Result VerificationError IndependentEvidence
      → Settlement × VerifyAnswer
  with_read a o now s (throw e) = unknown_after a o (reason_of e) now s
  with_read a o now s (ok read) =
      let r = verification_result w.sha256 a.candidate read in
      let o' = with_evidence r o in finalize a o' now (with_observation o' s) r r.status

  -- `verifyCandidate`, on the observation that was claimed
  unfoldable pub verify_candidate :
      ℕ → ConfirmedAttempt → Observation → Settlement → Settlement × VerifyAnswer
  verify_candidate round a o s =
      if is_complete a.candidate
      then with_read a o (w.clock round) s
          (read_independent_evidence w.env (w.call round) a.candidate.chain_id)
      else unknown_after a o invalid_durable_evidence (w.clock round) s

  -- One round: the first attempt that can be claimed is claimed and verified.
  unfoldable pub round_on :
      ℕ → Option ConfirmedAttempt → Settlement → Option (Settlement × VerifyAnswer)
  round_on round none s = none
  round_on round (some a) s =
      let o = claim (w.clock round) s a in some (verify_candidate round a o (with_observation o s))

  unfoldable pub verify_round : ℕ → Settlement → Option (Settlement × VerifyAnswer)
  verify_round round s = round_on round (find (is_candidate (w.clock round) s) s.attempts) s

  -- The loop, from a round on; it ends early where there is nothing to claim.
  unfoldable pub after_round :
      Option (Settlement × VerifyAnswer)
      → Settlement × Counts
      → (Settlement → VerifyAnswer → Settlement × Counts)
      → Settlement × Counts
  after_round none stop continue = stop
  after_round (some (s, answer)) stop continue = continue s answer

  unfoldable pub verify_rounds : ℕ → ℕ → Settlement → Counts → Settlement × Counts
  verify_rounds zero round s c = (s, c)
  verify_rounds (suc left) round s c =
      after_round (verify_round round s) (s, c)
        (λ s' answer. verify_rounds left (suc round) s' (tallied answer c))

  -- `verifyConfirmedTransactionAttempts`
  unfoldable pub verify_confirmed_transaction_attempts : ℕ → Settlement → Settlement × Counts
  verify_confirmed_transaction_attempts limit s =
      verify_rounds (max 1 (min 100 limit)) 0 s no_counts
