-- ===== src/Verification/Settlement/Deferred.antt =====
-- When an attempt can be claimed again, packages/verification/src/index.ts.
use agentplace.Prelude.{
  ===-refl, Option-cases, find-All, All-members, Memᴰ, ℕ, zero, suc, ◌+◌, ◌*◌, ◌^◌, ◌-◌, ◌≤◌, ◌<◌,
  ◌≡◌, refl, min, max, Bool, true, false, not, ◌||◌, List, [], ◌∷◌, Option, none, some, Result, ok,
  throw, arith, all, ◌===◌, subst, ◌∙◌, Bool-cases, inl, inr, throw_if, ◌>>=◌, ◌>>◌,
}
use agentplace.Text.{Text, text_eq, is_empty, is_digit}
use agentplace.Verification.Types.{
  VerificationResult, IndependentEvidence, ResultStatus, verified, not_verified,
}
use agentplace.Verification.Outcome.{verification_result}
use agentplace.Verification.Providers.{VerificationError}
use agentplace.Verification.Settlement.{
  SettlementReason, invalid_durable_evidence, gas_accounting_unavailable, Observation, JobStatus,
  job_completed, job_failed_final, job_verifying, ConfirmedAttempt, Settlement, has_outcome,
  find_observation, claimable, is_candidate, claimed, put_observation, claim, with_observation,
  set_job, or_default, retry_delay, mark_unknown, with_evidence, finalize_not_verified,
  finalize_verified, settled_tables,
}
use agentplace.Verification.Settlement.Rounds.{
  Surroundings, is_complete, reason_of, unknown_after, after_verified, finalize, with_read,
  verify_candidate,
}

find_observation-put :
    (o : Observation) (os : List Observation)
    → find_observation o.attempt_id (put_observation o os) ≡ some o
unfolding find_observation put_observation
find_observation-put o [] = rw (===-refl o.attempt_id) refl
find_observation-put o (x ∷ xs) = elim (Bool-cases (x.attempt_id === o.attempt_id)) [
  | inl y ↦ rw y (rw (===-refl o.attempt_id) refl)
  | inr n ↦ rw n (rw n (find_observation-put o xs))
]

two_pow : (k : ℕ) → 1 ≤ 2 ^ k
two_pow zero = omega arith
two_pow (suc k) = let h = two_pow k in omega arith

mul_lower : (b p : ℕ) → 1 ≤ p → b ≤ b * p
mul_lower b zero h = omega arith
mul_lower b (suc p) h = omega arith

retry_delay_lower : (base_ms max_ms count : ℕ) → 5000 ≤ retry_delay base_ms max_ms count
unfolding retry_delay
retry_delay_lower base_ms max_ms count =
    let base = max 5000 (or_default base_ms 15000) in
    let k = min 5 (count - 1) in
    let h = mul_lower base (2 ^ k) (two_pow k) in
    let l : 5000 ≤ base = omega arith in
    let m : base ≤ max base (or_default max_ms 300000) = omega arith in omega arith

is_candidate-set_job :
    (later : ℕ) (id : Option Text) (j : JobStatus) (s : Settlement) (a : ConfirmedAttempt)
    → is_candidate later (set_job id j s) a ≡ is_candidate later s a
unfolding set_job is_candidate
is_candidate-set_job later none j s a = refl
is_candidate-set_job later (some id) j s a = elim (Bool-cases (is_empty id)) [
  | inl y ↦ rw y refl
  | inr n ↦ rw n refl
]

settled_waits :
    (a : ConfirmedAttempt) (later : ℕ) (s : Settlement)
    → has_outcome a.id s ≡ true
    → is_candidate later s a ≡ false
unfolding is_candidate
settled_waits a later s h = ground arith

unclaimable :
    (a : ConfirmedAttempt) (later : ℕ) (s : Settlement) (o : Observation)
    → find_observation a.id s.observations ≡ some o
    → claimable later (some o) ≡ false
    → is_candidate later s a ≡ false
unfolding is_candidate
unclaimable a later s o h n = rw h (ground (arith, n))

-- The observation that is put for an attempt decides whether it can be claimed.
put_unclaimable :
    (a : ConfirmedAttempt) (later : ℕ) (s : Settlement) (o : Observation)
    → o.attempt_id ≡ a.id
    → claimable later (some o) ≡ false
    → is_candidate later (with_observation o s) a ≡ false
put_unclaimable a later s o same n =
    unclaimable a later (with_observation o s) o
      (subst (λ id. find_observation id (put_observation o s.observations) ≡ some o) same
        (find_observation-put o s.observations))
      n

claimed-leased :
    (id : Text) (now later : ℕ) (m : Option Observation)
    → later ≤ now + 90000
    → claimable later (some (claimed id now m)) ≡ false
unfolding claimable claimed
claimed-leased id now later none h = ground arith
claimed-leased id now later (some o) h = ground arith

claim-id : (now : ℕ) (s : Settlement) (a : ConfirmedAttempt) → (claim now s a).attempt_id ≡ a.id
unfolding claim claimed find_observation
claim-id now s a = elim (Option-cases (find_observation a.id s.observations)) [
  | inl e ↦ rw e refl
  | inr (o, e) ↦
      let (_, same) =
        find-All (λ x. Memᴰ x s.observations) _ s.observations o (All-members s.observations) e in
      rw e ((text_eq.same_iff o.attempt_id a.id).0 same)
]

module _ (w : Surroundings) (a : ConfirmedAttempt) (now later : ℕ) (soon : later < now + 5000) where
  unknown_after-waits :
      (o : Observation) (reason : SettlementReason) (s : Settlement)
      → o.attempt_id ≡ a.id
      → is_candidate later (unknown_after w a o reason now s).0 a ≡ false
  unfolding unknown_after mark_unknown claimable
  unknown_after-waits o reason s same =
      let delay = retry_delay_lower w.retry_base_ms w.max_retry_ms o.attempt_count in
      is_candidate-set_job later a.job_id job_verifying _ a
      ∙ put_unclaimable a later s _ same (ground (arith, delay))

  settled-waits :
      (o : Observation) (r : VerificationResult) (s : Settlement) (no_gas : Bool)
      → o.attempt_id ≡ a.id
      → let after = after_verified w a o now s (do
        throw_if no_gas gas_accounting_unavailable
        ok (set_job a.job_id job_completed (settled_tables a o r s))) in
        is_candidate later after.0 a ≡ false
  unfolding after_verified throw_if ◌>>◌ ◌>>=◌
  settled-waits o r s true same = unknown_after-waits o gas_accounting_unavailable s same
  settled-waits o r s false same =
      is_candidate-set_job later a.job_id job_completed _ a
      ∙ settled_waits a later _ (ground (arith, ===-refl a.id))

  finalize-waits :
      (o : Observation) (r : VerificationResult) (s : Settlement) (status : ResultStatus)
      → o.attempt_id ≡ a.id
      → is_candidate later (finalize w a o now s r status).0 a ≡ false
  unfolding finalize finalize_not_verified finalize_verified
  finalize-waits o r s not_verified same =
      is_candidate-set_job later a.job_id job_failed_final _ a
      ∙ settled_waits a later _ (ground (arith, ===-refl a.id))
  finalize-waits o r s verified same =
      settled-waits o r s
        (is_empty r.normalized_evidence.gas_cost_atomic
          || not (all is_digit r.normalized_evidence.gas_cost_atomic))
        same

  with_read-waits :
      (o : Observation) (s : Settlement) (read : Result VerificationError IndependentEvidence)
      → o.attempt_id ≡ a.id
      → is_candidate later (with_read w a o now s read).0 a ≡ false
  unfolding with_read
  with_read-waits o s (throw e) same = unknown_after-waits o (reason_of e) s same
  with_read-waits o s (ok read) same =
      let r = verification_result w.sha256 a.candidate read in
      finalize-waits (with_evidence r o) r (with_observation (with_evidence r o) s) r.status same

verify_candidate-waits :
    (w : Surroundings) (round later : ℕ) (a : ConfirmedAttempt) (o : Observation) (s : Settlement)
    → later < w.clock round + 5000
    → o.attempt_id ≡ a.id
    → is_candidate later (verify_candidate w round a o s).0 a ≡ false
unfolding verify_candidate
verify_candidate-waits w round later a o s soon same = elim (Bool-cases (is_complete a.candidate)) [
  | inl y ↦ rw y (with_read-waits w a (w.clock round) later soon o s _ same)
  | inr n ↦
      rw n (unknown_after-waits w a (w.clock round) later soon o invalid_durable_evidence s same)
]

-- An attempt that is claimed cannot be claimed again by a clock of at most 90 seconds later, and
-- once it was verified, with any answer, not by one of less than 5 seconds later.
pub is_candidate-claim :
    (w : Surroundings) (round during later : ℕ) (a : ConfirmedAttempt) (s : Settlement)
    → during ≤ w.clock round + 90000
    → later < w.clock round + 5000
    → let o = claim (w.clock round) s a in
      (is_candidate during (with_observation o s) a ≡ false)
      × (is_candidate later (verify_candidate w round a o (with_observation o s)).0 a ≡ false)
unfolding claim
is_candidate-claim w round during later a s leased soon = (
  put_unclaimable a during s _ (claim-id (w.clock round) s a)
      (claimed-leased a.id (w.clock round) during _ leased),
  verify_candidate-waits w round later a _ _ soon (claim-id (w.clock round) s a),
)
