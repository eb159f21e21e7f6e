-- ===== src/Router/Plan.antt =====
-- `planRoute` of packages/router/src/index.ts: what the queries return and the environment says is
-- an argument, and what is stored is the result.
pub mod Status
pub mod Sound
mod Tests
use agentplace.Prelude.{
  ℕ, Bool, true, false, not, ◌&&◌, ◌||◌, List, [], ◌∷◌, ◌++◌, Option, none, some, if◌then◌else◌,
  length, map, filter, take, find, any, includes, Result, ok, throw, ◌===◌, ◌==◌, Ordering,
}
use agentplace.Text.{Text, codes, text_eq, is_empty}
use agentplace.Router.Types.{
  CanonicalCapability, CapabilityImplementation, DeploymentEnvironment, RouteProviderPreference,
  auto, RouteCapabilityDecision, RouteCapabilityStatus, can_route, not_allowed, RouteDecisionStatus,
  routable, partially_routable, blocked, RouteProposal, WorkerCatalogItem, WorkerCompatibilityRow,
  CandidateWorkerDecision, ProposedCapabilityGraphNode,
}
use agentplace.Router.Networks.{unique, canonicalize_network_id}
use agentplace.Router.Graph.{normalize_graph}
use agentplace.Router.Team.{worker_candidates, pick_team, Team, TeamRequest}
use agentplace.Router.Routes.{RouteScope, RouteBase, route_capability}

pub data RouterError : Type 0 where
  router_no_eligible_worker : RouterError

-- The arguments of `planRoute`, with what the queries and the environment answer. A version is
-- forced for the Workers of `forced_workers`; `exact_workers` are those versions.
pub record PlanInput : Type 0 where
  pub proposal : RouteProposal
  pub deployment_environment : DeploymentEnvironment
  pub preferred_provider : RouteProviderPreference
  pub default_provider : Option RouteProviderPreference
  pub forced_lead_worker_id : Option Text
  pub forced_supporting_worker_ids : Option (List Text)
  pub forced_workers : List Text
  pub capabilities : List CanonicalCapability
  pub implementations : List CapabilityImplementation
  pub public_catalog : List WorkerCatalogItem
  pub exact_workers : List WorkerCatalogItem
  pub all_compatibility : List WorkerCompatibilityRow
  pub configured_providers : List Text

unfoldable pub catalog_of : PlanInput → List WorkerCatalogItem
catalog_of i =
    filter (λ (w : WorkerCatalogItem). not (includes i.forced_workers w.id)) i.public_catalog
    ++ i.exact_workers

-- The version of a Worker: the last in the catalogue, as in the `Map` that is made of it.
unfoldable pub version_of : Text → List WorkerCatalogItem → Option Text
version_of id [] = none
version_of id (w ∷ ws) = elim (version_of id ws) [
  | none ↦ if w.id === id then some w.version_id else none
  | some v ↦ some v
]

abbrev pub is_version : Option Text → Text → Bool
is_version none v = false
is_version (some u) v = u === v

unfoldable pub compatibility_of : PlanInput → List WorkerCompatibilityRow
compatibility_of i =
    filter
      (λ (r : WorkerCompatibilityRow).
        is_version (version_of r.worker_id (catalog_of i)) r.worker_version_id)
      i.all_compatibility

unfoldable pub known_ids : PlanInput → List Text
known_ids i = map (λ (c : CanonicalCapability). c.id) i.capabilities

abbrev pub research_core : List Text
research_core =
    codes "research.web.search" ∷ codes "research.web.read" ∷ codes "research.source.extract" ∷ []

unfoldable pub required_capabilities : PlanInput → List Text
required_capabilities i =
    unique
      (filter (includes (known_ids i)) research_core
        ++ filter (includes (known_ids i)) i.proposal.required_capabilities)
      24

unfoldable pub optional_capabilities : PlanInput → List Text
optional_capabilities i =
    unique
      (filter (λ c. includes (known_ids i) c && not (includes (required_capabilities i) c))
        i.proposal.optional_capabilities)
      16

unfoldable pub requested_capabilities : PlanInput → List Text
requested_capabilities i = required_capabilities i ++ optional_capabilities i

unfoldable pub capability_by_id : Text → List CanonicalCapability → Option CanonicalCapability
capability_by_id id [] = none
capability_by_id id (c ∷ cs) = elim (capability_by_id id cs) [
  | none ↦ if c.id === id then some c else none
  | some d ↦ some d
]

abbrev pub or_auto : Option RouteProviderPreference → RouteProviderPreference
or_auto none = auto
or_auto (some p) = p

unfoldable pub scope_of : PlanInput → RouteScope
scope_of i = record {
  deployment_environment = i.deployment_environment;
  requested_networks = unique (map canonicalize_network_id i.proposal.requested_networks) 12;
  configured_providers = i.configured_providers;
  provider_preference = i.preferred_provider;
  default_provider = or_auto i.default_provider;
  implementations = i.implementations;
}

abbrev pub compatible_workers : PlanInput → Text → List Text
compatible_workers i capability =
    unique
      (map (λ (r : WorkerCompatibilityRow). r.worker_id)
        (filter (λ (r : WorkerCompatibilityRow). r.canonical_capability_id === capability)
          (compatibility_of i)))
      32

abbrev pub base_of : PlanInput → Text → CanonicalCapability → RouteBase
base_of i id c = record {
  capability = c;
  capability_id = id;
  required = includes (required_capabilities i) id;
  compatible_worker_ids = compatible_workers i id;
}

abbrev pub is_routable : RouteCapabilityDecision → Bool
is_routable r = elim r.status [ can_route ↦ true | _ ↦ false ]

abbrev pub is_blocked : RouteCapabilityDecision → Bool
is_blocked r = elim r.status [ not_allowed ↦ true | _ ↦ false ]

abbrev pub is_routed_search : RouteCapabilityDecision → Bool
is_routed_search r = r.capability_id === codes "research.web.search" && is_routable r

unfoldable pub required_routes : List RouteCapabilityDecision → List RouteCapabilityDecision
required_routes routes = filter (λ (r : RouteCapabilityDecision). r.required) routes

unfoldable pub unavailable_capabilities : List RouteCapabilityDecision → List Text
unavailable_capabilities routes =
    map (λ (r : RouteCapabilityDecision). r.capability_id)
      (filter (λ r. not (is_routable r)) (required_routes routes))

unfoldable pub route_status : List RouteCapabilityDecision → RouteDecisionStatus
route_status routes =
    if any is_blocked (required_routes routes)
      || length (filter is_routable (required_routes routes)) == 0
      || not (any is_routed_search routes)
    then blocked
    else if length (unavailable_capabilities routes) == 0
    then routable
    else partially_routable

-- What is stored, apart from the names and texts that explain it.
pub record RouteDecision : Type 0 where
  pub status : RouteDecisionStatus
  pub requested_networks : List Text
  pub lead_worker_id : Text
  pub supporting_worker_ids : List Text
  pub candidate_workers : List CandidateWorkerDecision
  pub required : List Text
  pub optional : List Text
  pub capability_graph : List ProposedCapabilityGraphNode
  pub capability_routes : List RouteCapabilityDecision
  pub unavailable : List Text

module _ (locale_compare : Text → Text → Ordering) where
  unfoldable pub add_route :
      PlanInput
      → Text
      → Option CanonicalCapability
      → List RouteCapabilityDecision
      → List RouteCapabilityDecision
  add_route i id none rest = rest
  add_route i id (some c) rest =
      route_capability locale_compare (scope_of i) (base_of i id c) ∷ rest

  unfoldable pub routes_from : PlanInput → List Text → List RouteCapabilityDecision
  routes_from i [] = []
  routes_from i (id ∷ ids) = add_route i id (capability_by_id id i.capabilities) (routes_from i ids)

  unfoldable pub capability_routes : PlanInput → List RouteCapabilityDecision
  capability_routes i = routes_from i (requested_capabilities i)

  unfoldable pub team_request : PlanInput → TeamRequest
  team_request i = record {
    catalog = catalog_of i;
    candidates =
        worker_candidates locale_compare (catalog_of i) (compatibility_of i)
          (requested_capabilities i);
    compatibility = compatibility_of i;
    requested_capabilities = requested_capabilities i;
    proposal_lead_worker_id = i.proposal.lead_worker_id;
    proposal_supporting_worker_ids = i.proposal.supporting_worker_ids;
    forced_lead_worker_id = i.forced_lead_worker_id;
    forced_supporting_worker_ids = i.forced_supporting_worker_ids;
  }

  unfoldable pub decision_of : PlanInput → Team → WorkerCatalogItem → RouteDecision
  decision_of i team lead = record {
    status = route_status (capability_routes i);
    requested_networks = (scope_of i).requested_networks;
    lead_worker_id = lead.id;
    supporting_worker_ids = team.supporting_worker_ids;
    candidate_workers = take 12 (team_request i).candidates;
    required = required_capabilities i;
    optional = optional_capabilities i;
    capability_graph =
        normalize_graph i.proposal.capability_graph (required_capabilities i)
          (optional_capabilities i) (known_ids i);
    capability_routes = capability_routes i;
    unavailable = unavailable_capabilities (capability_routes i);
  }

  unfoldable pub plan_with :
      PlanInput → Team → Option WorkerCatalogItem → Result RouterError RouteDecision
  plan_with i team none = throw router_no_eligible_worker
  plan_with i team (some lead) = ok (decision_of i team lead)

  unfoldable pub plan_route : PlanInput → Result RouterError RouteDecision
  plan_route i =
      let team = pick_team (team_request i) in
      plan_with i team
        (find (λ (w : WorkerCatalogItem). w.id === team.lead_worker_id) (catalog_of i))
