-- ===== src/Verification/Settled.antt =====
-- What a verified outcome means, packages/verification/src/index.ts: the approved transfer, and no
-- other, has happened.
use agentplace.Prelude.{
  ◌≡◌, refl, Bool, true, false, not, ◌&&◌, List, [], ◌∷◌, Option, none, some, arith, ◌==◌, ==_iff,
  if◌then◌else◌, length, all, ◌===◌, and-true, Memᴰ, Bool-cases, inl, inr, sym, ap, subst,
}
use agentplace.Text.{Text, codes, text_eq, to_lower, to_upper}
use agentplace.Verification.Types.{
  BigInt, nat, VerificationCheck, CandidateRow, ChainEvidence, IndependentEvidence, pass, fail,
  verified, not_verified, NormalizedEvidence, RpcLog,
}
use agentplace.Verification.Numbers.{big_int_eq, same_option, bigint_value, lower, same_big_int_iff}
use agentplace.Verification.Evidence.{
  verification_check, parse_erc20_transfer, is_transfer_log, matching_logs_from,
  matching_transfer_logs, no_logs, non_empty, prepared_payload_matches, supported_symbol,
}
use agentplace.Verification.Checks.{
  expected_amount, request_matches, request_of, block_agrees, tx_input, is_number, decodes_to,
  logs_of, logs_for, common_checks, token_checks, native_checks, checks_for, is_pass, is_passed,
}
use agentplace.Verification.Outcome.{verification_result}
use agentplace.Verification.Approved.{IsApproved, same_text, approval-IsApproved}

-- What moved: the native amount, or a token by a transfer call that its contract logged.
abbrev pub Moved : CandidateRow → ChainEvidence → Option Text → Type 0
Moved c e none =
    (lower e.transaction.to ≡ lower c.destination)
    × ((n : BigInt) × (expected_amount c.amount_atomic ≡ some n)
        × (bigint_value e.transaction.value ≡ some n))
    × (tx_input e.transaction ≡ codes "0x")
Moved c e (some a) =
    (lower e.transaction.to ≡ to_lower a)
    × (supported_symbol c.chain_id (to_lower a) ≡ some (to_upper c.asset))
    × (bigint_value e.transaction.value ≡ some (nat 0))
    × ((n : BigInt) × (recipient : Text) × (log : RpcLog) × (expected_amount c.amount_atomic
          ≡ some n)
        × (parse_erc20_transfer (tx_input e.transaction) ≡ some (recipient, n))
        × (to_lower recipient ≡ lower c.destination)
        × Memᴰ log (no_logs e.receipt.logs)
        × (is_transfer_log (to_lower a) (to_lower c.from_address) (lower c.destination) n log
            ≡ true))

pub record IsSettled (c : CandidateRow) (e : ChainEvidence) : Type 0 where
  pub approval : IsApproved c
  pub payload : prepared_payload_matches c c.prepared_payload ≡ true
  pub chain : e.chain_id ≡ c.chain_id
  pub transaction : lower e.transaction.hash ≡ to_lower c.transaction_hash
  pub receipt : lower e.receipt.transaction_hash ≡ to_lower c.transaction_hash
  pub sender : lower e.transaction.from ≡ to_lower c.from_address
  pub success : lower e.receipt.status ≡ codes "0x1"
  pub block : block_agrees e.transaction e.receipt ≡ true
  pub gas :
      (is_number (bigint_value e.receipt.gas_used)
        && is_number (bigint_value e.receipt.effective_gas_price))
      ≡ true
  pub request : request_matches c e.transaction (request_of c.transaction_request) ≡ true
  pub moved : Moved c e (non_empty c.asset_address)

passed : (b k : Bool) → (is_passed (if b then pass else fail) && k) ≡ true → (b ≡ true) × (k ≡ true)
passed true k h = (refl, h)
passed false k h = cc

same-some : (o : Option BigInt) (n : BigInt) → same_option o (some n) ≡ true → o ≡ some n
same-some none n h = cc
same-some (some m) n h = ap some ((same_big_int_iff m n).0 h)

same-some_text : (o : Option Text) (s : Text) → same_option o (some s) ≡ true → o ≡ some s
same-some_text none s h = cc
same-some_text (some t) s h = ap some (same_text t s h)

-- Where the list of matching logs is not empty, one log of the receipt matches.
matching-log :
    (token from destination : Text) (n : BigInt) (logs : List RpcLog)
    → (length (matching_logs_from token from destination n logs) == 0) ≡ false
    → (log : RpcLog) × Memᴰ log logs × (is_transfer_log token from destination n log ≡ true)
unfolding matching_logs_from
matching-log token from destination n [] h = cc
matching-log token from destination n (log ∷ logs) h =
    elim (Bool-cases (is_transfer_log token from destination n log)) [
      | inl y ↦ (log, Memᴰ.head refl, y)
      | inr x ↦
          let (k, m, t) = matching-log token from destination n logs (rw x at h) in
          (k, Memᴰ.tail m, t)
    ]

-- The common checks, and what the others passed.
common_checks-passed :
    (c : CandidateRow) (e : ChainEvidence) (rest : List VerificationCheck)
    → all is_pass (common_checks c e rest) ≡ true
    → (all is_pass rest ≡ true) × (Moved c e (non_empty c.asset_address) → IsSettled c e)
unfolding common_checks verification_check
common_checks-passed c e rest h =
    let (a, h₁) = passed _ _ h in
    let (p, h₂) = passed _ _ h₁ in
    let (n, h₃) = passed _ _ h₂ in
    let (t, h₄) = passed _ _ h₃ in
    let (s, h₅) = passed _ _ h₄ in
    let (u, h₆) = passed _ _ h₅ in
    let (b, h₇) = passed _ _ h₆ in
    let (g, h₈) = passed _ _ h₇ in
    let (r, left) = passed _ _ h₈ in
    let (t₁, t₂) =
      and-true (lower e.transaction.hash === to_lower c.transaction_hash)
        (lower e.receipt.transaction_hash === to_lower c.transaction_hash) t in
    (
      left,
      λ moved. record {
        approval = approval-IsApproved c c.wallet_prompted_at refl a;
        payload = p;
        chain = (==_iff e.chain_id c.chain_id).0 n;
        transaction = same_text _ _ t₁;
        receipt = same_text _ _ t₂;
        sender = same_text _ _ s;
        success = same_text _ _ u;
        block = b;
        gas = g;
        request = r;
        moved = moved;
      },
    )

native_checks-Moved :
    (c : CandidateRow) (e : ChainEvidence) → all is_pass (native_checks c e) ≡ true → Moved c e none
unfolding native_checks verification_check
native_checks-Moved c e h =
    let (to, h₁) = passed _ _ h in
    let (value, h₂) = passed _ _ h₁ in
    let (input, _) = passed _ _ h₂ in
    (same_text _ _ to, amount (expected_amount c.amount_atomic) refl value, same_text _ _ input)
  where
    amount :
        (o : Option BigInt)
        → expected_amount c.amount_atomic ≡ o
        → (is_number o && same_option (bigint_value e.transaction.value) o) ≡ true
        → (n : BigInt) × (expected_amount c.amount_atomic ≡ some n)
          × (bigint_value e.transaction.value ≡ some n)
    amount none p q = cc
    amount (some n) p q = (n, p, same-some (bigint_value e.transaction.value) n q)

decoded :
    (destination : Text) (amount : Option BigInt) (o : Option (Text × BigInt))
    → decodes_to destination amount o ≡ true
    → (n : BigInt) × (recipient : Text) × (amount ≡ some n)
      × (o ≡ some (recipient, n))
      × (to_lower recipient ≡ destination)
unfolding decodes_to
decoded destination amount none h = cc
decoded destination none (some (r, n)) h = ground arith
decoded destination (some m) (some (r, n)) h =
    let (a, b) = and-true (to_lower r === destination) (n === m) h in
    let same : n ≡ m = (same_big_int_iff n m).0 b in
    (n, r, ap some (sym same), refl, same_text _ _ a)

token_checks-Moved :
    (c : CandidateRow) (e : ChainEvidence) (a : Text)
    → all is_pass (token_checks c e (to_lower a) (logs_for c e (some a))) ≡ true
    → Moved c e (some a)
unfolding token_checks verification_check logs_for logs_of matching_transfer_logs
token_checks-Moved c e a h =
    let (supported, h₁) = passed _ _ h in
    let (contract, h₂) = passed _ _ h₁ in
    let (call, h₃) = passed _ _ h₂ in
    let (event, _) = passed _ _ h₃ in
    let (to, zero_) =
      and-true (lower e.transaction.to === to_lower a)
        (same_option (bigint_value e.transaction.value) (some (nat 0))) contract in
    let (n, recipient, amount, parsed, is_recipient) =
      decoded (lower c.destination) (expected_amount c.amount_atomic)
        (parse_erc20_transfer (tx_input e.transaction)) call in
    let (log, m, t) =
      matching-log _ _ _ n (no_logs e.receipt.logs) (some_log amount parsed event) in
    (
      same_text _ _ to,
      symbol supported,
      same-some (bigint_value e.transaction.value) (nat 0) zero_,
      (n, recipient, log, amount, parsed, is_recipient, m, t),
    )
  where
    not_true : {b : Bool} → not b ≡ true → b ≡ false
    not_true h = ground arith

    symbol :
        same_option (supported_symbol c.chain_id (to_lower a)) (some (to_upper c.asset)) ≡ true
        → supported_symbol c.chain_id (to_lower a) ≡ some (to_upper c.asset)
    symbol h = same-some_text (supported_symbol c.chain_id (to_lower a)) (to_upper c.asset) h

    some_log :
        {n : BigInt} {recipient : Text}
        → expected_amount c.amount_atomic ≡ some n
        → parse_erc20_transfer (tx_input e.transaction) ≡ some (recipient, n)
        → not (
            length (
              logs_of c e.receipt
                (to_lower a)
                (expected_amount c.amount_atomic)
                (parse_erc20_transfer (tx_input e.transaction)))
            == 0)
          ≡ true
        → (length (
              matching_logs_from
                (to_lower a)
                (to_lower c.from_address)
                (lower c.destination)
                n
                (no_logs e.receipt.logs))
            == 0)
          ≡ false
    some_log {n = n} {recipient = recipient} p q r =
        let r' : not (length (logs_of c e.receipt (to_lower a) (some n) (some (recipient, n))) == 0)
            ≡ true =
          rw q at (rw p at r) in
        not_true r'

IsSettled-by_branch :
    (c : CandidateRow) (e : ChainEvidence) (o : Option Text)
    → o ≡ non_empty c.asset_address
    → all is_pass (checks_for c e o) ≡ true
    → IsSettled c e
unfolding checks_for
IsSettled-by_branch c e none p h =
    let (rest, settled) = common_checks-passed c e _ h in
    settled (subst (Moved c e) p (native_checks-Moved c e rest))
IsSettled-by_branch c e (some a) p h =
    let (rest, settled) = common_checks-passed c e _ h in
    settled (subst (Moved c e) p (token_checks-Moved c e a rest))

-- A transfer is verified only if it happened as it was approved: the approval was in force when the
-- wallet was asked; chain, hash, sender, block and the submitted request agree with what was
-- prepared; the receipt is a success; and the approved amount went to the approved destination, by
-- the native value with no calldata, or by a call of a supported token's contract, with no native
-- value, that decodes to them and of which the receipt holds the matching Transfer event.
pub verification_result-IsSettled :
    (sha256 : NormalizedEvidence → List VerificationCheck → Text) (c : CandidateRow)
    (read : IndependentEvidence)
    → (verification_result sha256 c read).status ≡ verified
    → IsSettled c read.primary
unfolding verification_result
verification_result-IsSettled sha256 c read h =
    IsSettled-by_branch c read.primary (non_empty c.asset_address) refl
      (all_passed (all is_pass (checks_for c read.primary (non_empty c.asset_address))) h)
  where
    all_passed : (b : Bool) → (if b then verified else not_verified) ≡ verified → b ≡ true
    all_passed true e = refl
    all_passed false e = cc
