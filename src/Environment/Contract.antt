-- ===== src/Environment/Contract.antt =====
-- What every contract of packages/shared/src/environment.ts guarantees.
use agentplace.Prelude.{
  ◌≡◌, subst, Bool, true, false, not, ◌&&◌, Option, none, some, ok, >>=-eq-ok, throw_if-eq-ok,
  or_throw, ok-injective, arith, ◌===◌,
}
use agentplace.Text.{Text, codes, text_eq}
use agentplace.Router.Types.{staging_mainnet_readonly}
use agentplace.Environment.{
  Variables, EnvironmentContract, parse_word, parse_boolean, is_staging, parse_environment_contract,
}

abbrev says_true : Option Text → Bool
says_true none = false
says_true (some t) = t === codes "true"

-- Autonomy on the main network takes execution there; staging never executes there; and nothing of
-- the main network is on unless its variable says `true` in so many letters.
pub record IsGuarded (v : Variables) (c : EnvironmentContract) : Type 0 where
  pub autonomy : c.mainnet_autonomy_enabled ≡ true → c.mainnet_execution_enabled ≡ true
  pub staging : c.environment ≡ staging_mainnet_readonly → c.mainnet_execution_enabled ≡ false
  pub execution_asked :
      c.mainnet_execution_enabled ≡ true → says_true v.mainnet_execution_enabled ≡ true
  pub autonomy_asked :
      c.mainnet_autonomy_enabled ≡ true → says_true v.mainnet_autonomy_enabled ≡ true

parse_boolean-asked :
    (o : Option Text) (b : Bool) → parse_boolean o false ≡ ok b → b ≡ true → says_true o ≡ true
unfolding parse_boolean parse_word
parse_boolean-asked none b h t = ground arith
parse_boolean-asked (some s) b h t = ground arith

contract-IsGuarded :
    (v : Variables) (c d : EnvironmentContract)
    → (c.mainnet_autonomy_enabled && not c.mainnet_execution_enabled) ≡ false
    → (is_staging c.environment && c.mainnet_execution_enabled) ≡ false
    → parse_boolean v.mainnet_execution_enabled false ≡ ok c.mainnet_execution_enabled
    → parse_boolean v.mainnet_autonomy_enabled false ≡ ok c.mainnet_autonomy_enabled
    → c ≡ d
    → IsGuarded v d
contract-IsGuarded v c d paid readonly m a e = subst (IsGuarded v) e (record {
  autonomy = λ t. ground arith;
  staging = λ t. ground arith;
  execution_asked = parse_boolean-asked v.mainnet_execution_enabled c.mainnet_execution_enabled m;
  autonomy_asked = parse_boolean-asked v.mainnet_autonomy_enabled c.mainnet_autonomy_enabled a;
})

-- Every contract that `parseEnvironmentContract` returns is guarded: autonomy on the main network
-- takes execution there, staging never executes there, and neither is on unless its variable is
-- `true`.
pub parse_environment_contract-IsGuarded :
    (v : Variables) (c : EnvironmentContract) → parse_environment_contract v ≡ ok c → IsGuarded v c
unfolding parse_environment_contract
parse_environment_contract-IsGuarded v c h =
    let (environment, _, h₁) = >>=-eq-ok (or_throw _ _) _ h in
    let (on_testnet, _, h₂) = >>=-eq-ok (parse_boolean v.testnet_execution_enabled true) _ h₁ in
    let (on_mainnet, m, h₃) = >>=-eq-ok (parse_boolean v.mainnet_execution_enabled false) _ h₂ in
    let (autonomy, a, h₄) = >>=-eq-ok (parse_boolean v.mainnet_autonomy_enabled false) _ h₃ in
    let (paid, h₅) = throw_if-eq-ok _ _ _ h₄ in
    let (readonly, e) = throw_if-eq-ok _ _ _ h₅ in
    contract-IsGuarded v _ c paid readonly m a (ok-injective e)
