-- ===== src/Verification/Approved.antt =====
-- The approval that a verified outcome has: the check of it in `verificationResult`,
-- packages/verification/src/index.ts.
use agentplace.Prelude.{
  ℕ, ◌≤◌, ◌<◌, ◌≡◌, true, ◌&&◌, Option, none, some, arith, ◌==◌, ==_iff, leb, leb→le, ◌===◌,
  and-true,
}
use agentplace.Text.{Text, codes, text_eq}
use agentplace.Verification.Types.{CandidateRow}
use agentplace.Verification.Numbers.{big_int_eq}
use agentplace.Verification.Checks.{until, before, approval_active_at}

-- The approval as it stood when the wallet was asked: of this action, revision and digest, given
-- before, and neither expired nor invalidated; and the preparation had not expired.
pub record IsApproved (c : CandidateRow) : Type 0 where
  pub prompted : ℕ
  pub prompt : c.wallet_prompted_at ≡ some prompted
  pub approved : c.approval_decision ≡ codes "APPROVED"
  pub same_action : c.approval_action_id ≡ c.action_id
  pub same_revision : c.approval_revision ≡ c.prepared_revision
  pub same_digest : c.approval_digest ≡ c.action_digest
  pub prepared : c.prepared_digest ≡ c.action_digest
  pub decided : c.approval_decided_at ≤ prompted
  pub unexpired : (end : ℕ) → c.approval_expires_at ≡ some end → prompted ≤ end
  pub valid : (at : ℕ) → c.approval_invalidated_at ≡ some at → prompted < at
  pub fresh : (end : ℕ) → c.prepared_expires_at ≡ some end → prompted ≤ end

pub same_text : (s t : Text) → (s === t) ≡ true → s ≡ t
same_text s t h = (text_eq.same_iff s t).0 h

until-le : (at : ℕ) (o : Option ℕ) → until at o ≡ true → (end : ℕ) → o ≡ some end → at ≤ end
until-le at none h end e = cc
until-le at (some k) h end e = ground arith

before-lt : (at : ℕ) (o : Option ℕ) → before at o ≡ true → (end : ℕ) → o ≡ some end → at < end
before-lt at none h end e = cc
before-lt at (some k) h end e = ground arith

pub approval-IsApproved :
    (c : CandidateRow) (o : Option ℕ)
    → c.wallet_prompted_at ≡ o
    → approval_active_at c o ≡ true
    → IsApproved c
unfolding approval_active_at
approval-IsApproved c none e h = cc
approval-IsApproved c (some p) e h =
    let (a, h₁) =
      and-true (c.approval_decision === codes "APPROVED" && c.approval_action_id === c.action_id) _
        h in
    let (a₁, a₂) =
      and-true (c.approval_decision === codes "APPROVED") (c.approval_action_id === c.action_id)
        a in
    let (b, h₂) =
      and-true (c.approval_revision == c.prepared_revision && c.approval_digest === c.action_digest)
        _ h₁ in
    let (b₁, b₂) =
      and-true (c.approval_revision == c.prepared_revision) (c.approval_digest === c.action_digest)
        b in
    let (d, h₃) =
      and-true (c.prepared_digest === c.action_digest && leb c.approval_decided_at p) _ h₂ in
    let (d₁, d₂) =
      and-true (c.prepared_digest === c.action_digest) (leb c.approval_decided_at p) d in
    let (x₁, h₄) = and-true (until p c.approval_expires_at) _ h₃ in
    let (x₂, x₃) =
      and-true (before p c.approval_invalidated_at) (until p c.prepared_expires_at) h₄ in
    record {
      prompted = p;
      prompt = e;
      approved = same_text _ _ a₁;
      same_action = same_text _ _ a₂;
      same_revision = (==_iff c.approval_revision c.prepared_revision).0 b₁;
      same_digest = same_text _ _ b₂;
      prepared = same_text _ _ d₁;
      decided = leb→le _ _ d₂;
      unexpired = until-le p c.approval_expires_at x₁;
      valid = before-lt p c.approval_invalidated_at x₂;
      fresh = until-le p c.prepared_expires_at x₃;
    }
