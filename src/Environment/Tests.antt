-- ===== src/Environment/Tests.antt =====
-- Runs of `parseEnvironmentContract` (packages/shared/src/environment.ts), and an instance of the
-- theorem.
use agentplace.Prelude.{
  ◌≡◌, refl, [], true, false, none, some, ok, throw, ◌>>=◌, ◌>>◌, throw_if, or_throw,
}
use agentplace.Text.{Text, codes, eq_text}
use agentplace.Router.Types.{production_mainnet}
use agentplace.Environment.{
  Variables, EnvironmentContract, staging_never_executes, environment_of, parse_word, parse_boolean,
  parse_environment_contract,
}
use agentplace.Environment.Contract.{IsGuarded, parse_environment_contract-IsGuarded}

abbrev variables : Text → Variables
variables name = record {
  agent_place_env = some name;
  testnet_execution_enabled = none;
  mainnet_execution_enabled = some (codes "true");
  mainnet_autonomy_enabled = some [];
}

abbrev production : EnvironmentContract
production = record {
  environment = production_mainnet;
  testnet_execution_enabled = true;
  mainnet_execution_enabled = true;
  mainnet_autonomy_enabled = false;
}

production_run : parse_environment_contract (variables (codes "production-mainnet")) ≡ ok production
unfolding ◌>>=◌ ◌>>◌ throw_if or_throw eq_text environment_of parse_word parse_boolean
    parse_environment_contract
production_run = refl

staging_run :
    parse_environment_contract (variables (codes "staging-mainnet-readonly"))
    ≡ throw staging_never_executes
unfolding ◌>>=◌ ◌>>◌ throw_if or_throw eq_text environment_of parse_word parse_boolean
    parse_environment_contract
staging_run = refl

parse_environment_contract-IsGuarded_example :
    IsGuarded (variables (codes "production-mainnet")) production
parse_environment_contract-IsGuarded_example =
    parse_environment_contract-IsGuarded (variables (codes "production-mainnet")) production
      production_run
