-- ===== src/Verification/Settlement/Answered.antt =====
-- What one round of `verifyConfirmedTransactionAttempts` leaves, packages/verification/src/index.ts.
use agentplace.Prelude.{
  ℕ, ◌+◌, ◌≡◌, refl, Bool, true, false, not, ◌||◌, List, [], ◌∷◌, Option, none, some, Result, ok,
  throw, arith, map, any, find, find-All, includes, all, All-members, Memᴰ, Distinct, length, ◌===◌,
  subst, sym, ap, ◌∙◌, if◌then◌else◌, Bool-cases, inl, inr, throw_if, Option-cases, ◌>>=◌, ◌>>◌,
}
use agentplace.Text.{Text, text_eq, is_empty, is_digit}
use agentplace.Verification.Types.{
  VerificationResult, IndependentEvidence, ResultStatus, verified, not_verified,
}
use agentplace.Verification.Outcome.{verification_result}
use agentplace.Verification.Providers.{VerificationError}
use agentplace.Verification.Settlement.{
  SettlementReason, Observation, OutcomeRow, ReceiptRow, JobStatus, ConfirmedAttempt, Settlement,
  has_outcome, is_candidate, claim, with_observation, set_job, mark_unknown, with_evidence,
  outcome_row, finalize_not_verified, finalize_verified, settled_tables, gas_accounting_unavailable,
  invalid_durable_evidence, job_completed,
}
use agentplace.Verification.Settlement.Rounds.{
  VerifyAnswer, answer_verified, answer_not_verified, answer_unknown, Surroundings, is_complete,
  reason_of, unknown_after, after_verified, finalize, with_read, verify_candidate, round_on,
  verify_round,
}

abbrev pub outcome_ids : List OutcomeRow → List Text
outcome_ids os = map (λ (o : OutcomeRow). o.attempt_id) os

-- The receipt that an outcome has, where it is verified.
abbrev add_receipt : ResultStatus → OutcomeRow → List ReceiptRow → List ReceiptRow
add_receipt verified o rs =
    record { attempt_id = o.attempt_id; evidence_hash = o.evidence_hash } ∷ rs
add_receipt not_verified o rs = rs

abbrev pub receipts_of : List OutcomeRow → List ReceiptRow
receipts_of [] = []
receipts_of (o ∷ os) = add_receipt o.status o (receipts_of os)

-- No attempt has two outcomes; the receipts are those of the verified outcomes, and each is queued
-- for its proof.
pub record IsConsistent (s : Settlement) : Type 0 where
  pub once : Distinct (outcome_ids s.outcomes)
  pub receipted : s.receipts ≡ receipts_of s.outcomes
  pub queued : s.anchors ≡ map (λ (r : ReceiptRow). r.attempt_id) s.receipts

-- The rows that an answer adds.
abbrev pub added : VerifyAnswer → ℕ × ℕ
added answer_verified = (1, 1)
added answer_not_verified = (1, 0)
added answer_unknown = (0, 0)

-- Tables that differ from those before by what an answer adds.
pub record IsAfter (s s' : Settlement) (answer : VerifyAnswer) : Type 0 where
  pub consistent : IsConsistent s'
  pub outcomes : length s'.outcomes ≡ length s.outcomes + (added answer).0
  pub receipts : length s'.receipts ≡ length s.receipts + (added answer).1

set_job-same :
    (id : Option Text) (j : JobStatus) (s : Settlement)
    → ((set_job id j s).outcomes ≡ s.outcomes)
      × ((set_job id j s).receipts ≡ s.receipts)
      × ((set_job id j s).anchors ≡ s.anchors)
unfolding set_job
set_job-same none j s = (refl, refl, refl)
set_job-same (some id) j s = pick (is_empty id)
  where
    pick :
        (b : Bool)
        → ((if b then s else record s { jobs = (id, j) ∷ s.jobs }).outcomes ≡ s.outcomes)
          × ((if b then s else record s { jobs = (id, j) ∷ s.jobs }).receipts ≡ s.receipts)
          × ((if b then s else record s { jobs = (id, j) ∷ s.jobs }).anchors ≡ s.anchors)
    pick true = (refl, refl, refl)
    pick false = (refl, refl, refl)

-- Tables with the same outcomes, receipts and anchors.
IsAfter-same :
    (s s' t : Settlement) (answer : VerifyAnswer)
    → (s'.outcomes ≡ t.outcomes) × (s'.receipts ≡ t.receipts) × (s'.anchors ≡ t.anchors)
    → IsAfter s t answer
    → IsAfter s s' answer
IsAfter-same s s' t answer (o, r, a) h = record {
  consistent = record {
    once = subst (λ os. Distinct (outcome_ids os)) (sym o) h.consistent.once;
    receipted = r ∙ h.consistent.receipted ∙ ap receipts_of (sym o);
    queued = a ∙ h.consistent.queued ∙ ap (map (λ (x : ReceiptRow). x.attempt_id)) (sym r);
  };
  outcomes = ap length o ∙ h.outcomes;
  receipts = ap length r ∙ h.receipts;
}

unanswered : (s : Settlement) → IsConsistent s → IsAfter s s answer_unknown
unanswered s c = record { consistent = c; outcomes = omega arith; receipts = omega arith }

no_id :
    (id : Text) (os : List OutcomeRow)
    → any (λ (o : OutcomeRow). o.attempt_id === id) os ≡ false
    → includes (outcome_ids os) id ≡ false
no_id id [] h = refl
no_id id (o ∷ os) h = ground (arith, no_id id os)

module _ (w : Surroundings) (a : ConfirmedAttempt) (o : Observation) (s : Settlement) (now : ℕ)
    (c : IsConsistent s) (new : has_outcome a.id s ≡ false) where
  unknown_after-IsAfter :
      (o' : Observation) (reason : SettlementReason) (t : Settlement)
      → (t.outcomes ≡ s.outcomes) × (t.receipts ≡ s.receipts) × (t.anchors ≡ s.anchors)
      → IsAfter s (unknown_after w a o' reason now t).0 (unknown_after w a o' reason now t).1
  unfolding unknown_after mark_unknown
  unknown_after-IsAfter o' reason t same =
      IsAfter-same s _ t answer_unknown (set_job-same a.job_id _ _)
        (IsAfter-same s t s answer_unknown same (unanswered s c))

  -- The tables before, with other observations.
  abbrev observed : List Observation → Settlement
  observed os = record s { observations = os }

  -- The transaction of a verified outcome, with and without a known cost of its gas.
  settled-IsAfter :
      (o' : Observation) (os : List Observation) (r : VerificationResult) (no_gas : Bool)
      → let after = after_verified w a o' now (observed os) (do
        throw_if no_gas gas_accounting_unavailable
        ok (set_job a.job_id job_completed (settled_tables a o' r (observed os)))) in
        IsAfter s after.0 after.1
  unfolding after_verified throw_if ◌>>◌ ◌>>=◌
  settled-IsAfter o' os r true =
      unknown_after-IsAfter o' gas_accounting_unavailable (observed os) (refl, refl, refl)
  settled-IsAfter o' os r false =
      IsAfter-same s _ (settled_tables a o' r (observed os)) answer_verified
        (set_job-same a.job_id _ _)
        (record {
          consistent = record {
            once = (no_id a.id s.outcomes new, c.once);
            receipted =
                ap (λ rs. record { attempt_id = a.id; evidence_hash = r.evidence_hash } ∷ rs)
                  c.receipted;
            queued = ap (λ ids. a.id ∷ ids) c.queued;
          };
          outcomes = omega arith;
          receipts = omega arith;
        })

  finalize-IsAfter :
      (o' : Observation) (os : List Observation) (r : VerificationResult) (status : ResultStatus)
      → IsAfter s
          (finalize w a o' now (observed os) r status).0
          (finalize w a o' now (observed os) r status).1
  unfolding finalize finalize_not_verified finalize_verified
  finalize-IsAfter o' os r not_verified =
      IsAfter-same s _ (record s { outcomes = outcome_row a.id not_verified r ∷ s.outcomes })
        answer_not_verified (set_job-same a.job_id _ _)
        (record {
          consistent = record {
            once = (no_id a.id s.outcomes new, c.once);
            receipted = c.receipted;
            queued = c.queued;
          };
          outcomes = omega arith;
          receipts = omega arith;
        })
  finalize-IsAfter o' os r verified = settled-IsAfter o' os r (
      is_empty r.normalized_evidence.gas_cost_atomic
      || not (all is_digit r.normalized_evidence.gas_cost_atomic))

  with_read-IsAfter :
      (read : Result VerificationError IndependentEvidence)
      → IsAfter s
          (with_read w a o now (with_observation o s) read).0
          (with_read w a o now (with_observation o s) read).1
  unfolding with_read
  with_read-IsAfter (throw e) =
      unknown_after-IsAfter o (reason_of e) (with_observation o s) (refl, refl, refl)
  with_read-IsAfter (ok read) =
      finalize-IsAfter (with_evidence (result read) o)
        (with_observation (with_evidence (result read) o) (with_observation o s)).observations
        (result read) (result read).status
    where
      result : IndependentEvidence → VerificationResult
      result read = verification_result w.sha256 a.candidate read

no_outcome :
    (now : ℕ) (s : Settlement) (a : ConfirmedAttempt)
    → is_candidate now s a ≡ true
    → has_outcome a.id s ≡ false
unfolding is_candidate
no_outcome now s a h = ground arith

verify_candidate-IsAfter :
    (w : Surroundings) (round : ℕ) (a : ConfirmedAttempt) (o : Observation) (s : Settlement)
    → IsConsistent s
    → has_outcome a.id s ≡ false
    → IsAfter s
        (verify_candidate w round a o (with_observation o s)).0
        (verify_candidate w round a o (with_observation o s)).1
unfolding verify_candidate
verify_candidate-IsAfter w round a o s c new = elim (Bool-cases (is_complete a.candidate)) [
  | inl y ↦ rw y (with_read-IsAfter w a o s (w.clock round) c new _)
  | inr n ↦ rw n (
      unknown_after-IsAfter w a o s (w.clock round) c new o invalid_durable_evidence
        (with_observation o s) (refl, refl, refl))
]

pub verify_round-IsAfter :
    (w : Surroundings) (round : ℕ) (s s' : Settlement) (answer : VerifyAnswer)
    → IsConsistent s
    → verify_round w round s ≡ some (s', answer)
    → IsAfter s s' answer
unfolding verify_round round_on
verify_round-IsAfter w round s s' answer c h =
    elim (Option-cases (find (is_candidate (w.clock round) s) s.attempts)) [
      | inl e ↦ let e' : none ≡ some (s', answer) = rw e at h in cc
      | inr (a, e) ↦
          let (_, found) =
            find-All (λ x. Memᴰ x s.attempts) _ s.attempts a (All-members s.attempts) e in
          let o = claim (w.clock round) s a in
          let e' : some (verify_candidate w round a o (with_observation o s)) ≡ some (s', answer) =
            rw e at h in
          let same : verify_candidate w round a o (with_observation o s) ≡ (s', answer) =
            ground arith in
          subst (λ x. IsAfter s x.0 x.1) same
            (verify_candidate-IsAfter w round a o s c (no_outcome (w.clock round) s a found))
    ]
