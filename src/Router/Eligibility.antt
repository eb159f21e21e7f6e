-- ===== src/Router/Eligibility.antt =====
-- Which implementations of a capability may be used: `isLiveLifecycle`, `networkEligible`,
-- `implementationTrustEligible` and `implementationEligibility` of packages/router/src/index.ts.
pub mod Allowed
mod Tests
use agentplace.Prelude.{
  ℕ, ◌==◌, Bool, true, false, not, ◌&&◌, ◌||◌, List, [], ◌∷◌, ◌++◌, if◌then◌else◌, map, any, all,
  includes, length, ◌===◌,
}
use agentplace.Text.{Text, codes, text_eq, eq_text, trim, to_lower, is_empty}
use agentplace.Router.Types.{
  CapabilityLifecycleStatus, tested, limited_production, production_observed, agentplace_verified,
  CapabilityImplementation, CapabilityHealthStatus, unavailable, degraded, DeploymentEnvironment,
  development, testnet, staging_mainnet_readonly, production_mainnet,
}
use agentplace.Router.Networks.{canonicalize_network_id, launch_networks}

abbrev pub is_test_environment : DeploymentEnvironment → Bool
is_test_environment development = true
is_test_environment testnet = true
is_test_environment _ = false

abbrev pub environment_name : DeploymentEnvironment → Text
environment_name development = codes "development"
environment_name testnet = codes "testnet"
environment_name staging_mainnet_readonly = codes "staging-mainnet-readonly"
environment_name production_mainnet = codes "production-mainnet"

unfoldable pub is_live_lifecycle : CapabilityLifecycleStatus → DeploymentEnvironment → Bool
is_live_lifecycle limited_production environment = true
is_live_lifecycle production_observed environment = true
is_live_lifecycle agentplace_verified environment = true
is_live_lifecycle tested environment = is_test_environment environment
is_live_lifecycle _ environment = false

unfoldable pub network_eligible : CapabilityImplementation → List Text → Bool
network_eligible i requested =
    let supported = map canonicalize_network_id i.supported_networks in
    if length i.supported_networks == 0
    then true
    else if length requested == 0
    then all (includes supported) launch_networks
    else any (λ n. includes supported (canonicalize_network_id n)) requested

unfoldable pub provider_configured : Text → List Text → Bool
provider_configured provider configured =
    provider === codes "agentplace" || includes configured provider

abbrev pub trusted_statuses : List Text
trusted_statuses =
    codes "tested"
    ∷ codes "simulation-verified"
    ∷ codes "provider-verified"
    ∷ codes "limited-production"
    ∷ codes "production-observed"
    ∷ codes "agentplace-verified"
    ∷ []

abbrev pub is_experimental : CapabilityImplementation → Bool
is_experimental i = to_lower (trim i.trust_status) === codes "experimental"

unfoldable pub implementation_trust_eligible : CapabilityImplementation → Bool
implementation_trust_eligible i =
    if is_experimental i
    then i.provider === codes "telegraph" && i.invocation_kind === codes "telegraph-direct-x402"
    else includes trusted_statuses (to_lower (trim i.trust_status))

unfoldable pub implementation_trust_rank : CapabilityImplementation → ℕ
implementation_trust_rank i = if is_experimental i then 10 else 0

abbrev pub is_unavailable : CapabilityHealthStatus → Bool
is_unavailable unavailable = true
is_unavailable _ = false

abbrev pub is_degraded : CapabilityHealthStatus → Bool
is_degraded degraded = true
is_degraded _ = false

-- `{ eligible, reason }`
pub record Eligibility : Type 0 where
  pub eligible : Bool
  pub reason : Text

abbrev pub not_eligible : Text → Eligibility
not_eligible reason = record { eligible = false; reason = reason }

abbrev pub environment_refused : CapabilityImplementation → DeploymentEnvironment → Bool
environment_refused i environment =
    not (length i.environment_eligibility == 0)
    && not (includes i.environment_eligibility (environment_name environment))

unfoldable pub implementation_eligibility :
    CapabilityImplementation → DeploymentEnvironment → List Text → List Text → Eligibility
implementation_eligibility i environment requested configured =
    if not i.enabled
    then not_eligible (codes "Implementation disabled.")
    else if not (implementation_trust_eligible i)
    then not_eligible (
        codes "Implementation trust state "
        ++ (if is_empty i.trust_status then codes "unknown" else i.trust_status)
        ++ codes " is not eligible.")
    else if is_unavailable i.health_status
    then not_eligible (codes "Provider implementation unavailable.")
    else if environment_refused i environment
    then not_eligible (codes "Not eligible in " ++ environment_name environment ++ codes ".")
    else if not (network_eligible i requested)
    then not_eligible (codes "Requested network is not supported.")
    else if not (provider_configured i.provider configured)
    then not_eligible (codes "Provider is not configured.")
    else record {
      eligible = true;
      reason =
          if is_degraded i.health_status
          then codes "Eligible, but provider health is degraded."
          else codes "Eligible.";
    }
