-- ===== src/Router/Routes.antt =====
-- The routes of capabilities in `planRoute` of packages/router/src/index.ts: which implementation
-- serves each.
pub mod Safe
use agentplace.Prelude.{
  ℕ, suc, Bool, true, false, not, ◌&&◌, ◌||◌, List, [], ◌∷◌, ◌++◌, Option, none, some,
  if◌then◌else◌, length, map, filter, take, find, any, includes, head?, Result, ok, throw, ◌===◌,
  ◌==◌, Ordering,
}
use agentplace.Text.{Text, codes, text_eq, is_empty}
use agentplace.Authority.Types.{CapabilityEffect, read}
use agentplace.Router.Types.{
  CapabilityLifecycleStatus, planned, schema_validated, tested, limited_production,
  production_observed, agentplace_verified, CanonicalCapability, CapabilityImplementation,
  DeploymentEnvironment, RouteProviderPreference, RouteCandidateImplementation,
  RouteCapabilityDecision, RouteCapabilityStatus, can_route, not_available, not_allowed,
  RouteDecisionStatus, routable, partially_routable, blocked, RouteProposal, WorkerCatalogItem,
  WorkerCompatibilityRow, CandidateWorkerDecision, ProposedCapabilityGraphNode,
}
use agentplace.Router.Networks.{unique, canonicalize_network_id}
use agentplace.Router.Eligibility.{
  is_live_lifecycle, environment_name, Eligibility, implementation_eligibility, not_eligible,
}
use agentplace.Router.Order.{RankedImplementation, is_auto, provider_name, sort_implementations}
use agentplace.Router.Graph.{normalize_graph}
use agentplace.Router.Team.{worker_candidates, pick_team, Team, TeamRequest}

abbrev pub is_read : CapabilityEffect → Bool
is_read read = true
is_read _ = false

abbrev pub lifecycle_name : CapabilityLifecycleStatus → Text
lifecycle_name planned = codes "planned"
lifecycle_name schema_validated = codes "schema-validated"
lifecycle_name tested = codes "tested"
lifecycle_name limited_production = codes "limited-production"
lifecycle_name production_observed = codes "production-observed"
lifecycle_name agentplace_verified = codes "agentplace-verified"

-- What the routes of one request share.
pub record RouteScope : Type 0 where
  pub deployment_environment : DeploymentEnvironment
  pub requested_networks : List Text
  pub configured_providers : List Text
  pub provider_preference : RouteProviderPreference
  pub default_provider : RouteProviderPreference
  pub implementations : List CapabilityImplementation

abbrev pub is_model_provider : Text → Bool
is_model_provider p = p === codes "openai" || p === codes "gemini" || p === codes "anthropic"

-- The conversation asked for another provider of models.
abbrev pub provider_mismatch : RouteProviderPreference → CapabilityImplementation → Bool
provider_mismatch preference i =
    not (is_auto preference)
    && is_model_provider i.provider
    && not (i.provider === provider_name preference)

unfoldable pub judge : RouteScope → CapabilityImplementation → Eligibility
judge s i =
    if provider_mismatch s.provider_preference i
    then not_eligible (
        codes "Conversation explicitly selected "
        ++ provider_name s.provider_preference
        ++ codes "; silent provider switching is disabled.")
    else implementation_eligibility i s.deployment_environment s.requested_networks
        s.configured_providers

unfoldable pub raw_candidate : RouteScope → CapabilityImplementation → RankedImplementation
raw_candidate s i = record {
  implementation = i;
  eligible = (judge s i).eligible;
  reason = (judge s i).reason;
}

abbrev pub is_for : Text → CapabilityImplementation → Bool
is_for capability i = i.canonical_capability_id === capability

abbrev pub raw_candidates : RouteScope → Text → List RankedImplementation
raw_candidates s capability = map (raw_candidate s) (filter (is_for capability) s.implementations)

-- `findIndex` of an implementation's id.
unfoldable pub index_of : Text → List RankedImplementation → Option ℕ
index_of id [] = none
index_of id (c ∷ cs) =
    let rest = index_of id cs in
    if c.implementation.id === id then some 0 else elim rest [ none ↦ none | some n ↦ some (suc n) ]

abbrev pub positive_index : Option ℕ → Option ℕ
positive_index none = none
positive_index (some n) = if n == 0 then none else some n

abbrev pub is_selected : Option RankedImplementation → Text → Bool
is_selected none id = false
is_selected (some c) id = id === c.implementation.id

abbrev pub candidate_of :
    List RankedImplementation
    → Option RankedImplementation
    → RankedImplementation
    → RouteCandidateImplementation
candidate_of eligible selected c = record {
  implementation_id = c.implementation.id;
  provider = c.implementation.provider;
  name = c.implementation.name;
  health_status = c.implementation.health_status;
  trust_status = c.implementation.trust_status;
  priority = c.implementation.priority;
  invocation_kind = c.implementation.invocation_kind;
  eligible = c.eligible;
  selected = is_selected selected c.implementation.id;
  fallback_rank = positive_index (index_of c.implementation.id eligible);
  reason = c.reason;
}

-- `xs.join(separator)`
unfoldable pub join : Text → List Text → Text
join separator [] = []
join separator (t ∷ []) = t
join separator (t ∷ u ∷ ts) = t ++ separator ++ join separator (u ∷ ts)

unfoldable pub no_implementation : RouteScope → Text → List RouteCandidateImplementation → Text
no_implementation s capability candidates =
    if any (is_for capability) s.implementations
    then codes "No implementation is currently eligible. "
      ++ join (codes " | ") (
          map (λ (c : RouteCandidateImplementation). c.provider ++ codes ": " ++ c.reason)
            (take 4 candidates))
    else codes "No implementation is registered for this live capability."

-- What a route says of the capability, whatever becomes of it.
pub record RouteBase : Type 0 where
  pub capability : CanonicalCapability
  pub capability_id : Text
  pub required : Bool
  pub compatible_worker_ids : List Text

abbrev pub refused :
    RouteBase
    → RouteCapabilityStatus
    → Text
    → List RouteCandidateImplementation
    → RouteCapabilityDecision
refused b status reason candidates = record {
  capability_id = b.capability_id;
  capability_name = b.capability.name;
  required = b.required;
  effect = b.capability.effect;
  lifecycle_status = b.capability.lifecycle_status;
  status = status;
  reason = reason;
  selected_implementation_id = none;
  selected_provider = none;
  candidates = candidates;
  compatible_worker_ids = b.compatible_worker_ids;
}

unfoldable pub route_selected :
    RouteScope
    → RouteBase
    → List RouteCandidateImplementation
    → Option RankedImplementation
    → RouteCapabilityDecision
route_selected s b candidates none =
    refused b not_available (no_implementation s b.capability_id candidates) candidates
route_selected s b candidates (some c) =
    record (refused b can_route (codes "A live eligible implementation was selected.") candidates) {
      selected_implementation_id = some c.implementation.id;
      selected_provider = some c.implementation.provider;
    }

-- The ordered candidates make the route.
unfoldable pub route_ordered :
    RouteScope → RouteBase → List RankedImplementation → RouteCapabilityDecision
route_ordered s b ordered =
    let eligible = filter (λ (c : RankedImplementation). c.eligible) ordered in
    route_selected s b (map (candidate_of eligible (head? eligible)) ordered) (head? eligible)

-- One pass of the loop over the requested capabilities.
module _ (locale_compare : Text → Text → Ordering) where
  unfoldable pub route_capability : RouteScope → RouteBase → RouteCapabilityDecision
  route_capability s b =
      if not (is_read b.capability.effect)
      then refused b not_allowed
          (codes "Router v1 is read-only and cannot grant or route financial write authority.") []
      else if not (is_live_lifecycle b.capability.lifecycle_status s.deployment_environment)
      then refused b not_available
          (codes "Capability lifecycle is "
            ++ lifecycle_name b.capability.lifecycle_status
            ++ codes "; it is not live in "
            ++ environment_name s.deployment_environment
            ++ codes ".")
          []
      else route_ordered s b (
          sort_implementations locale_compare (raw_candidates s b.capability_id)
            s.provider_preference s.default_provider)
