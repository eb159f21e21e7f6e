-- ===== src/Verification/Settlement/Consistent.antt =====
-- What a run of `verifyConfirmedTransactionAttempts` leaves, packages/verification/src/index.ts.
use agentplace.Prelude.{
  ◌⊎◌, ℕ, zero, suc, ◌+◌, ◌≤◌, ◌≡◌, refl, min, max, none, some, arith, find, length, subst, inl,
  inr, Option-cases,
}
use agentplace.Text.{text_eq}
use agentplace.Verification.Settlement.{Settlement, is_candidate}
use agentplace.Verification.Settlement.Rounds.{
  VerifyAnswer, answer_verified, answer_not_verified, answer_unknown, Surroundings, Counts, tallied,
  no_counts, round_on, verify_round, after_round, verify_rounds,
  verify_confirmed_transaction_attempts,
}
use agentplace.Verification.Settlement.Answered.{IsConsistent, IsAfter, added, verify_round-IsAfter}

-- What a run adds to the tables is what it counts, and it ends early only with nothing to claim.
record IsRun (w : Surroundings) (most : ℕ) (s : Settlement) (c : Counts) (s' : Settlement)
    (c' : Counts) : Type 0 where
  consistent : IsConsistent s'
  outcomes :
      length s'.outcomes + (c.verified_count + c.not_verified_count)
      ≡ length s.outcomes + (c'.verified_count + c'.not_verified_count)
  receipts : length s'.receipts + c.verified_count ≡ length s.receipts + c'.verified_count
  total :
      c'.checked + (c.verified_count + c.not_verified_count + c.unknown_count)
      ≡ c.checked + (c'.verified_count + c'.not_verified_count + c'.unknown_count)
  bounded : c'.checked ≤ c.checked + most
  ended :
      (c'.checked ≡ c.checked + most)
      ⊎ (find (is_candidate (w.clock c'.checked) s') s'.attempts ≡ none)

tallied-added :
    (answer : VerifyAnswer) (c : Counts)
    → let c' = tallied answer c in
      (c'.checked ≡ suc c.checked)
      × (c'.verified_count + c'.not_verified_count
          ≡ c.verified_count + c.not_verified_count + (added answer).0)
      × (c'.verified_count ≡ c.verified_count + (added answer).1)
      × (c'.verified_count + c'.not_verified_count + c'.unknown_count
          ≡ suc (c.verified_count + c.not_verified_count + c.unknown_count))
unfolding tallied
tallied-added answer_verified c = (refl, omega arith, omega arith, omega arith)
tallied-added answer_not_verified c = (refl, omega arith, omega arith, omega arith)
tallied-added answer_unknown c = (refl, omega arith, omega arith, omega arith)

one_more :
    (w : Surroundings) (most : ℕ) (s s₁ s' : Settlement) (c c' : Counts) (answer : VerifyAnswer)
    → IsAfter s s₁ answer
    → IsRun w most s₁ (tallied answer c) s' c'
    → IsRun w (suc most) s c s' c'
one_more w most s s₁ s' c c' answer h r =
    let (checked, both, sent, all_three) = tallied-added answer c in
    record {
      consistent = r.consistent;
      outcomes = omega (arith, r.outcomes, h.outcomes);
      receipts = omega (arith, r.receipts, h.receipts);
      total = omega (arith, r.total);
      bounded = omega (arith, r.bounded);
      ended = elim r.ended [ inl e ↦ inl (omega arith) | inr e ↦ inr e ];
    }

nothing_to_claim :
    (w : Surroundings) (round : ℕ) (s : Settlement)
    → verify_round w round s ≡ none
    → find (is_candidate (w.clock round) s) s.attempts ≡ none
unfolding verify_round round_on
nothing_to_claim w round s h =
    elim (Option-cases (find (is_candidate (w.clock round) s) s.attempts)) [
      | inl e ↦ e
      | inr (a, e) ↦ let e' : some _ ≡ none = rw e at h in cc
    ]

verify_rounds-IsRun :
    (w : Surroundings) (left : ℕ) (s : Settlement) (c : Counts)
    → IsConsistent s
    → IsRun w left s c (verify_rounds w left c.checked s c).0 (verify_rounds w left c.checked s c).1
unfolding verify_rounds after_round
verify_rounds-IsRun w zero s c h = record {
  consistent = h;
  outcomes = refl;
  receipts = refl;
  total = refl;
  bounded = omega arith;
  ended = inl (omega arith);
}
verify_rounds-IsRun w (suc left) s c h = elim (Option-cases (verify_round w c.checked s)) [
  | inl e ↦ rw e (record {
    consistent = h;
    outcomes = refl;
    receipts = refl;
    total = refl;
    bounded = omega arith;
    ended = inr (nothing_to_claim w c.checked s e);
  })
  | inr ((s₁, answer), e) ↦
      let step = verify_round-IsAfter w c.checked s s₁ answer h e in
      let (checked, _, _, _) = tallied-added answer c in
      let rest = verify_rounds-IsRun w left s₁ (tallied answer c) step.consistent in
      let rest' =
        subst
          (λ n.
            IsRun w left s₁ (tallied answer c) (verify_rounds w left n s₁ (tallied answer c)).0
              (verify_rounds w left n s₁ (tallied answer c)).1)
          checked rest in
      rw e (one_more w left s s₁ _ c _ answer step rest')
]

-- In a run, no attempt gets a second outcome; the receipts stay those of the verified outcomes and
-- the queued proofs those of the receipts; what was checked is the sum of the three counts, where an
-- attempt that stays unknown may be checked again in a later round; the new outcomes and receipts are
-- those that the counts tell; and a run of fewer rounds than `limit`, which is taken between 1 and
-- 100, ends with none to claim.
pub verify_confirmed_transaction_attempts-IsConsistent :
    (w : Surroundings) (limit : ℕ) (s : Settlement)
    → IsConsistent s
    → let after = (verify_confirmed_transaction_attempts w limit s).0 in
      let counts = (verify_confirmed_transaction_attempts w limit s).1 in
      IsConsistent after
      × (length after.outcomes
          ≡ length s.outcomes + (counts.verified_count + counts.not_verified_count))
      × (length after.receipts ≡ length s.receipts + counts.verified_count)
      × (counts.checked ≡ counts.verified_count + counts.not_verified_count + counts.unknown_count)
      × (counts.checked ≤ max 1 (min 100 limit))
      × ((counts.checked ≡ max 1 (min 100 limit))
          ⊎ (find (is_candidate (w.clock counts.checked) after) after.attempts ≡ none))
unfolding verify_confirmed_transaction_attempts
verify_confirmed_transaction_attempts-IsConsistent w limit s c =
    let r = verify_rounds-IsRun w (max 1 (min 100 limit)) s no_counts c in
    (
      r.consistent,
      omega (arith, r.outcomes),
      omega (arith, r.receipts),
      omega (arith, r.total),
      omega (arith, r.bounded),
      elim r.ended [ inl e ↦ inl (omega (arith, e)) | inr e ↦ inr e ],
    )
