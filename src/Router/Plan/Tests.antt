-- ===== src/Router/Plan/Tests.antt =====
-- A run of `planRoute` (packages/router/src/index.ts), and instances of the theorems about it.
use agentplace.Prelude.{
  ◌≡◌, refl, ◌↔◌, true, [], ◌∷◌, some, ok, or_else, true_first, insert_by, sort_by,
}
use agentplace.Text.{codes, trim, to_lower, eq_text}
use agentplace.Decimal.{to_text, digits_from}
use agentplace.Router.Types.{routable, can_route, WorkerCatalogItem}
use agentplace.Router.Networks.{
  unique, replace_runs, begins, word_from, has_word, starts_with, includes_text, normalized_network,
  test_network, main_network, canonicalize_network_id,
}
use agentplace.Router.Eligibility.{
  is_live_lifecycle, network_eligible, provider_configured, implementation_trust_eligible,
  implementation_trust_rank, implementation_eligibility,
}
use agentplace.Router.Order.{
  health_rank, provider_rank, compare_implementations, sort_implementations,
}
use agentplace.Router.Graph.{clean_node, kept_nodes, chain, or_chain, normalize_graph}
use agentplace.Router.Team.{
  matched_capabilities, match_reason, worker_candidate, candidate_by_id, score_of, catalog_ids,
  forced_lead, best_candidate, proposed_lead, default_lead, lead_of, valid_support, specialist,
  add_specialists, lead_worker, supporting_workers, pick_team, compare_candidates,
  worker_candidates,
}
use agentplace.Router.Routes.{
  judge, raw_candidate, index_of, join, no_implementation, route_selected, route_ordered,
  route_capability,
}
use agentplace.Router.Plan.{
  RouteDecision, catalog_of, version_of, compatibility_of, known_ids, required_capabilities,
  optional_capabilities, requested_capabilities, capability_by_id, scope_of, required_routes,
  unavailable_capabilities, route_status, add_route, routes_from, capability_routes, team_request,
  decision_of, plan_with, plan_route,
}
use agentplace.Router.Plan.Sound.{IsSoundDecision, plan_route-IsSoundDecision}
use agentplace.Router.Plan.Status.{IsFullyRouted, route_status-IsFullyRouted}
use agentplace.Router.Routes.{RouteBase}
use agentplace.Router.Routes.Safe.{IsRouted, route_capability-IsRouted}
use agentplace.Router.Team.Support.{IsSupport}
use agentplace.Router.Team.Members.{Choosable, pick_team-IsSupport}
use agentplace.Router.Samples.{search, request, same_place}

-- All that a run computes with.
planning : Unit {0}
unfolding or_else true_first insert_by sort_by trim to_lower eq_text to_text digits_from unique
    replace_runs begins word_from has_word starts_with includes_text normalized_network test_network
    main_network canonicalize_network_id is_live_lifecycle network_eligible provider_configured
    implementation_trust_eligible implementation_trust_rank implementation_eligibility health_rank
    provider_rank compare_implementations sort_implementations clean_node kept_nodes chain or_chain
    normalize_graph matched_capabilities match_reason worker_candidate candidate_by_id score_of
    catalog_ids forced_lead best_candidate proposed_lead default_lead lead_of valid_support
    specialist add_specialists lead_worker supporting_workers pick_team compare_candidates
    worker_candidates judge raw_candidate index_of join no_implementation route_selected
    route_ordered route_capability catalog_of version_of compatibility_of known_ids
    required_capabilities optional_capabilities requested_capabilities capability_by_id scope_of
    required_routes unavailable_capabilities route_status add_route routes_from capability_routes
    team_request decision_of plan_with plan_route
planning = tt

abbrev lead : WorkerCatalogItem
lead = record {
  id = codes "w-one";
  trust_status = codes "tested";
  name = codes "w-one";
  version_id = codes "v1";
}

abbrev decided : RouteDecision
decided = decision_of same_place request (pick_team (team_request same_place request)) lead

-- The quarantined Worker that was proposed is not in the team.
chosen_team : decided.supporting_worker_ids ≡ codes "w-two" ∷ []
unfolding planning
chosen_team = refl

decided_run : plan_route same_place request ≡ ok decided
unfolding planning
decided_run = refl

plan_route-IsSoundDecision_example : IsSoundDecision request decided
plan_route-IsSoundDecision_example =
    plan_route-IsSoundDecision same_place request decided decided_run

route_status-IsFullyRouted_example :
    (route_status (capability_routes same_place request) ≡ routable)
    ↔ IsFullyRouted (capability_routes same_place request)
route_status-IsFullyRouted_example =
    route_status-IsFullyRouted (capability_routes same_place request)

abbrev search_base : RouteBase
search_base = record {
  capability = search;
  capability_id = codes "research.web.search";
  required = true;
  compatible_worker_ids = [];
}

search_run :
    (route_capability same_place (scope_of request) search_base).selected_provider
    ≡ some (codes "openai")
unfolding planning
search_run = refl

search_status : (route_capability same_place (scope_of request) search_base).status ≡ can_route
unfolding planning
search_status = refl

route_capability-IsRouted_example :
    IsRouted
      (scope_of request)
      search_base
      (route_capability same_place (scope_of request) search_base)
route_capability-IsRouted_example =
    route_capability-IsRouted same_place (scope_of request) search_base search_status

pick_team-IsSupport_example :
    Choosable
      (catalog_ids (catalog_of request))
      (pick_team (team_request same_place request)).lead_worker_id
    × IsSupport
        (catalog_ids (catalog_of request))
        (pick_team (team_request same_place request)).lead_worker_id
        (pick_team (team_request same_place request)).supporting_worker_ids
unfolding team_request
pick_team-IsSupport_example = pick_team-IsSupport same_place (team_request same_place request) refl
