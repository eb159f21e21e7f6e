-- ===== src/Router/Types.antt =====
-- The records of packages/router/src/index.ts, and those of packages/capabilities/src/index.ts and
-- packages/workers/src/index.ts that it reads. Fields that nothing of the Router reads, such as
-- schemas and prices, are left out.
use agentplace.Prelude.{ℕ, Bool, List, Option}
use agentplace.Text.{Text}
use agentplace.Authority.Types.{CapabilityEffect}

pub data CapabilityLifecycleStatus : Type 0 where
  planned schema_validated tested limited_production : CapabilityLifecycleStatus
  production_observed agentplace_verified : CapabilityLifecycleStatus

pub data CapabilityHealthStatus : Type 0 where
  healthy degraded unavailable unknown : CapabilityHealthStatus

pub record CanonicalCapability : Type 0 where
  pub id : Text
  pub name : Text
  pub effect : CapabilityEffect
  pub lifecycle_status : CapabilityLifecycleStatus

pub record CapabilityImplementation : Type 0 where
  pub id : Text
  pub canonical_capability_id : Text
  pub provider : Text
  pub name : Text
  pub supported_networks : List Text
  pub trust_status : Text
  pub health_status : CapabilityHealthStatus
  pub invocation_kind : Text
  pub priority : ℕ
  pub enabled : Bool
  pub environment_eligibility : List Text

pub data DeploymentEnvironment : Type 0 where
  development testnet staging_mainnet_readonly production_mainnet : DeploymentEnvironment

pub data RouteDecisionStatus : Type 0 where
  routable partially_routable blocked : RouteDecisionStatus

pub data RouteCapabilityStatus : Type 0 where
  can_route not_available not_allowed : RouteCapabilityStatus

pub data RouteProviderPreference : Type 0 where
  auto openai gemini anthropic : RouteProviderPreference

pub record ProposedCapabilityGraphNode : Type 0 where
  pub id : Text
  pub capability_id : Text
  pub depends_on : List Text
  pub purpose : Text

pub record RouteProposal : Type 0 where
  pub intent_domain : Text
  pub goal : Text
  pub requested_networks : List Text
  pub lead_worker_id : Text
  pub supporting_worker_ids : List Text
  pub required_capabilities : List Text
  pub optional_capabilities : List Text
  pub capability_graph : List ProposedCapabilityGraphNode

pub record RouteCandidateImplementation : Type 0 where
  pub implementation_id : Text
  pub provider : Text
  pub name : Text
  pub health_status : CapabilityHealthStatus
  pub trust_status : Text
  pub priority : ℕ
  pub invocation_kind : Text
  pub eligible : Bool
  pub selected : Bool
  pub fallback_rank : Option ℕ
  pub reason : Text

pub record RouteCapabilityDecision : Type 0 where
  pub capability_id : Text
  pub capability_name : Text
  pub required : Bool
  pub effect : CapabilityEffect
  pub lifecycle_status : CapabilityLifecycleStatus
  pub status : RouteCapabilityStatus
  pub reason : Text
  pub selected_implementation_id : Option Text
  pub selected_provider : Option Text
  pub candidates : List RouteCandidateImplementation
  pub compatible_worker_ids : List Text

pub record CandidateWorkerDecision : Type 0 where
  pub worker_id : Text
  pub name : Text
  pub score : Option ℕ  -- `none` is the score -1
  pub matched_capability_ids : List Text
  pub eligible : Bool
  pub reason : Text

pub data Suitability : Type 0 where
  primary supporting : Suitability

pub record WorkerCompatibilityRow : Type 0 where
  pub worker_id : Text
  pub worker_version_id : Text
  pub canonical_capability_id : Text
  pub suitability : Suitability

pub record WorkerCatalogItem : Type 0 where
  pub id : Text
  pub trust_status : Text
  pub name : Text
  pub version_id : Text
