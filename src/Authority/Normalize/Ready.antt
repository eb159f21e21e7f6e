-- ===== src/Authority/Normalize/Ready.antt =====
-- What `normalizePolicy` of packages/authority/src/index.ts establishes of the policy it returns.
use agentplace.Prelude.{
  ℕ, ◌≡◌, ◌≢◌, Bool, true, false, not, ◌&&◌, ◌||◌, List, [], Option, none, ok, ◌>>◌, throw_if,
  >>=-eq-ok, throw_if-eq-ok, arith, ◌==◌, sym, ◌∙◌, length, Distinct, dedup, Distinct-dedup_from,
}
use agentplace.Text.{Text, text_eq}
use agentplace.Authority.Types.{
  act_within_mandate, allow_list, WalletMode, MandatePolicyInput, ApprovalPolicy, is_act,
  is_allow_list,
}
use agentplace.Authority.Inputs.{AuthorityError, unique_strings, networks, text, is_present}
use agentplace.Authority.Normalize.{
  approval_policy, assemble, Lists, Limits, normalize_lists, normalize_limits, validity,
  normalize_policy, is_other_account,
}

-- What a policy of level ACT WITHIN MANDATE needs before it can be used: an asset allow-list with
-- an entry, both hard limits and an end.
pub record IsReady (p : MandatePolicyInput) : Type 0 where
  pub listed : p.asset_scope ≡ allow_list
  pub assets : p.allowed_assets ≢ []
  pub per_action : p.per_action_limit_usd ≢ none
  pub period : p.period_budget ≢ none
  pub end : p.valid_until ≢ none

validity-end :
    (p : MandatePolicyInput) (ready : Bool) (now from : ℕ)
    → validity p ready now ≡ ok from
    → ready ≡ true
    → is_act p.authority_level ≡ true
    → is_present p.valid_until ≡ true
unfolding validity throw_if ◌>>◌
validity-end p ready now from h r a = ground arith

unique_strings-Distinct :
    (fold : Text → Text) (pattern : Text → Bool) (code : AuthorityError) (values out : List Text)
    → unique_strings fold pattern code values ≡ ok out
    → Distinct out
unfolding unique_strings
unique_strings-Distinct fold pattern code values out h =
    let (few, h₁) = throw_if-eq-ok _ _ _ h in
    let (all, f, h₂) = >>=-eq-ok _ _ h₁ in
    let e : dedup all ≡ out = cc in rw (← e) (Distinct-dedup_from [] all)

normalize_lists-Distinct :
    (p : MandatePolicyInput) (l : Lists)
    → normalize_lists p ≡ ok l
    → Distinct l.capabilities × Distinct l.assets × (l.capabilities ≢ [])
unfolding normalize_lists
normalize_lists-Distinct p l h =
    let (capabilities, u, h₁) = >>=-eq-ok (unique_strings _ _ _ p.allowed_capabilities) _ h in
    let (some_capability, h₂) = throw_if-eq-ok _ _ _ h₁ in
    let (_, _, h₃) = >>=-eq-ok (networks p.allowed_networks) _ h₂ in
    let (assets, v, h₄) = >>=-eq-ok (unique_strings _ _ _ p.allowed_assets) _ h₃ in
    let (_, _, h₅) = >>=-eq-ok (unique_strings _ _ _ p.allowed_protocols) _ h₄ in
    let (_, _, h₆) = >>=-eq-ok (unique_strings _ _ _ p.allowed_destinations) _ h₅ in
    let c : capabilities ≡ l.capabilities = ground arith in
    let a : assets ≡ l.assets = ground arith in
    (
      rw c at (unique_strings-Distinct _ _ _ _ _ u),
      rw a at (unique_strings-Distinct _ _ _ _ _ v),
      λ e. ground arith,
    )

-- What `assemble` takes over from its arguments.
record Assembled (p q : MandatePolicyInput) (l : Lists) (m : Limits) : Type 0 where
  level : q.authority_level ≡ p.authority_level
  scope : q.asset_scope ≡ p.asset_scope
  end : q.valid_until ≡ p.valid_until
  capabilities : q.allowed_capabilities ≡ l.capabilities
  assets : q.allowed_assets ≡ l.assets
  per_action : q.per_action_limit_usd ≡ m.per_action
  period : q.period_budget ≡ m.period

assemble-Assembled :
    (p q : MandatePolicyInput) (l : Lists) (m : Limits) (a : ApprovalPolicy) (from : ℕ)
    → assemble p l m a from ≡ ok q
    → Assembled p q l m
unfolding assemble
assemble-Assembled p q l m a from h =
    let (_, _, h₁) = >>=-eq-ok (text p.title _ _) _ h in
    let (_, _, h₂) = >>=-eq-ok (text p.purpose _ _) _ h₁ in
    let (_, _, h₃) = >>=-eq-ok (text p.change_summary _ _) _ h₂ in ground arith

assemble-IsReady :
    (p q : MandatePolicyInput) (l : Lists) (m : Limits) (ready : Bool)
    → ready ≡ true
    → Assembled p q l m
    → q.authority_level ≡ act_within_mandate
    → (ready
        && is_act p.authority_level
        && (not (is_allow_list p.asset_scope) || length l.assets == 0))
      ≡ false
    → (ready
        && is_act p.authority_level
        && (not (is_present m.per_action) || not (is_present m.period)))
      ≡ false
    → (is_act p.authority_level ≡ true → is_present p.valid_until ≡ true)
    → IsReady q
assemble-IsReady p q l m ready r a level listed limits ends = record {
  listed = ground arith;
  assets = λ e. ground arith;
  per_action = λ e. ground arith;
  period = λ e. ground arith;
  end = λ e. ground arith;
}

-- A policy that `normalizePolicy` returns names capabilities and assets once each, and a
-- capability at least; where the policy is to be used and its level is ACT WITHIN MANDATE, it has
-- the asset allow-list, the hard limits and the end that such a mandate needs. A known account of
-- a mandate of that level is an Agent Account.
pub normalize_policy-IsReady :
    (p q : MandatePolicyInput) (mode : Option WalletMode) (ready : Bool) (now : ℕ)
    → normalize_policy p mode ready now ≡ ok q
    → Distinct q.allowed_capabilities
      × Distinct q.allowed_assets
      × (q.allowed_capabilities ≢ [])
      × (q.authority_level ≡ act_within_mandate → is_other_account mode ≡ false)
      × (ready ≡ true → q.authority_level ≡ act_within_mandate → IsReady q)
unfolding normalize_policy
normalize_policy-IsReady p q mode ready now h =
    let (l, lists, h₁) = >>=-eq-ok (normalize_lists p) _ h in
    let (listed, h₂) = throw_if-eq-ok _ _ _ h₁ in
    let (account, h₃) = throw_if-eq-ok _ _ _ h₂ in
    let (m, _, h₄) = >>=-eq-ok (normalize_limits p) _ h₃ in
    let (limits, h₅) = throw_if-eq-ok _ _ _ h₄ in
    let (approval, _, h₆) = >>=-eq-ok (approval_policy p.approval_policy) _ h₅ in
    let (from, window, h₇) = >>=-eq-ok (validity p ready now) _ h₆ in
    let a = assemble-Assembled p q l m approval from h₇ in
    let (c, d, n) = normalize_lists-Distinct p l lists in
    (
      rw (a.capabilities) c,
      rw (a.assets) d,
      λ e. n (sym a.capabilities ∙ e),
      λ e. ground (arith, a.level),
      λ r e.
          assemble-IsReady p q l m ready r a e listed limits
            (validity-end p ready now from window r),
    )
