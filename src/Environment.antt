-- ===== src/Environment.antt =====
-- `parseEnvironmentContract` of packages/shared/src/environment.ts. The variables that it reads are
-- its argument.
pub mod Contract
mod Tests
use agentplace.Prelude.{
  Bool, true, false, not, ◌&&◌, List, [], ◌∷◌, Option, none, some, if◌then◌else◌, Result, ok, throw,
  ◌>>=◌, ◌>>◌, throw_if, or_throw, ◌===◌,
}
use agentplace.Text.{Text, codes, text_eq, is_empty}
use agentplace.Router.Types.{
  DeploymentEnvironment, development, testnet, staging_mainnet_readonly, production_mainnet,
}

pub record Variables : Type 0 where
  pub agent_place_env : Option Text
  pub testnet_execution_enabled : Option Text
  pub mainnet_execution_enabled : Option Text
  pub mainnet_autonomy_enabled : Option Text

pub record EnvironmentContract : Type 0 where
  pub environment : DeploymentEnvironment
  pub testnet_execution_enabled : Bool
  pub mainnet_execution_enabled : Bool
  pub mainnet_autonomy_enabled : Bool

-- The messages of `EnvironmentContractError`.
pub data EnvironmentContractError : Type 0 where
  expected_boolean : Text → EnvironmentContractError
  unsupported_environment : Text → EnvironmentContractError
  autonomy_requires_execution staging_never_executes : EnvironmentContractError

-- `isEnvironmentName`, with the name that it recognises.
unfoldable pub environment_of : Text → Option DeploymentEnvironment
environment_of t =
    if t === codes "development"
    then some development
    else if t === codes "testnet"
    then some testnet
    else if t === codes "staging-mainnet-readonly"
    then some staging_mainnet_readonly
    else if t === codes "production-mainnet"
    then some production_mainnet
    else none

unfoldable pub parse_word : Text → Bool → Result EnvironmentContractError Bool
parse_word t fallback =
    if is_empty t
    then ok fallback
    else if t === codes "true"
    then ok true
    else if t === codes "false"
    then ok false
    else throw (expected_boolean t)

unfoldable pub parse_boolean : Option Text → Bool → Result EnvironmentContractError Bool
parse_boolean none fallback = ok fallback
parse_boolean (some t) fallback = parse_word t fallback

abbrev pub or_development : Option Text → Text
or_development none = codes "development"
or_development (some t) = t

abbrev pub is_staging : DeploymentEnvironment → Bool
is_staging staging_mainnet_readonly = true
is_staging _ = false

unfoldable pub parse_environment_contract :
    Variables → Result EnvironmentContractError EnvironmentContract
parse_environment_contract v = do
  environment ←
      or_throw (environment_of (or_development v.agent_place_env))
        (unsupported_environment (or_development v.agent_place_env))
  on_testnet ← parse_boolean v.testnet_execution_enabled true
  on_mainnet ← parse_boolean v.mainnet_execution_enabled false
  autonomy ← parse_boolean v.mainnet_autonomy_enabled false
  throw_if (autonomy && not on_mainnet) autonomy_requires_execution
  throw_if (is_staging environment && on_mainnet) staging_never_executes
  ok (record {
    environment = environment;
    testnet_execution_enabled = on_testnet;
    mainnet_execution_enabled = on_mainnet;
    mainnet_autonomy_enabled = autonomy;
  })
