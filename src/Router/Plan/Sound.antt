-- ===== src/Router/Plan/Sound.antt =====
-- What every decision of `planRoute` (packages/router/src/index.ts) is made of.
use agentplace.Prelude.{
  ◌≡◌, refl, subst, sym, ap, ◌∙◌, Memᴰ, All-members, Option-cases, Bool-cases, inl, inr, List, [],
  ◌∷◌, ◌++◌, Option, none, some, ok, All, find, ◌===◌, Ordering, find-All,
}
use agentplace.Text.{Text, text_eq, eq_text_iff}
use agentplace.Router.Types.{
  RouteCapabilityDecision, WorkerCatalogItem, CanonicalCapability, RouteCandidateImplementation,
  can_route,
}
use agentplace.Router.Graph.Acyclic.{Forward, normalize_graph-Forward}
use agentplace.Router.Team.{catalog_ids, pick_team}
use agentplace.Router.Team.Support.{IsSupport}
use agentplace.Router.Team.Members.{Choosable, pick_team-IsSupport}
use agentplace.Router.Eligibility.{is_live_lifecycle}
use agentplace.Router.Order.{RankedImplementation}
use agentplace.Router.Routes.{
  RouteScope, RouteBase, is_read, route_selected, route_ordered, route_capability,
}
use agentplace.Router.Routes.Safe.{IsRouted, route_capability-IsRouted}
use agentplace.Router.Plan.{
  PlanInput, RouteDecision, catalog_of, capability_by_id, requested_capabilities, scope_of, base_of,
  routes_from, add_route, capability_routes, team_request, decision_of, plan_with, plan_route,
}

-- A route of the decision is of a capability that was asked for and that the table has, under the
-- id of the route; where it can be routed, that capability only reads and is live, and the route
-- names the best of the implementations of that id.
pub record IsRouteOf (i : PlanInput) (requested : List Text) (r : RouteCapabilityDecision)
    : Type 0 where
  pub capability : CanonicalCapability
  pub registered : Memᴰ capability i.capabilities
  pub same : capability.id ≡ r.capability_id
  pub asked : Memᴰ r.capability_id requested
  pub effect : r.effect ≡ capability.effect
  pub routed : r.status ≡ can_route → IsRouted (scope_of i) (base_of i r.capability_id capability) r

-- The lead may be chosen and the support may be added; the graph has no cycle; and every route is
-- one of a capability that was asked for.
pub record IsSoundDecision (i : PlanInput) (d : RouteDecision) : Type 0 where
  pub lead : Choosable (catalog_ids (catalog_of i)) d.lead_worker_id
  pub support : IsSupport (catalog_ids (catalog_of i)) d.lead_worker_id d.supporting_worker_ids
  pub graph : Forward (d.required ++ d.optional) [] d.capability_graph
  pub routes : All (IsRouteOf i (d.required ++ d.optional)) d.capability_routes

capability_by_id-found :
    (id : Text) (cs : List CanonicalCapability) (c : CanonicalCapability)
    → capability_by_id id cs ≡ some c
    → Memᴰ c cs × (c.id ≡ id)
unfolding capability_by_id
capability_by_id-found id [] c h = cc
capability_by_id-found id (x ∷ xs) c h = elim (Option-cases (capability_by_id id xs)) [
  | inl n ↦ elim (Bool-cases (x.id === id)) [
    | inl y ↦
        let h' : some x ≡ some c = rw (n, y) at h in
        let e : x ≡ c = cc in
        (
          Memᴰ.head (sym e),
          ap (λ (k : CanonicalCapability). k.id) (sym e) ∙ (eq_text_iff x.id id).0 y,
        )
    | inr m ↦ let h' : none ≡ some c = rw (n, m) at h in cc
  ]
  | inr (d, e) ↦
      let h' : some d ≡ some c = rw e at h in
      let (there, same) = capability_by_id-found id xs c (e ∙ h') in (Memᴰ.tail there, same)
]

module _ (locale_compare : Text → Text → Ordering) (s : RouteScope) (b : RouteBase) where
  -- What each route copies of its base.
  abbrev Copies : RouteCapabilityDecision → Type 0
  Copies r = (r.capability_id ≡ b.capability_id) × (r.effect ≡ b.capability.effect)

  route_selected-Copies :
      (candidates : List RouteCandidateImplementation) (o : Option RankedImplementation)
      → Copies (route_selected s b candidates o)
  unfolding route_selected
  route_selected-Copies candidates none = (refl, refl)
  route_selected-Copies candidates (some c) = (refl, refl)

  route_capability-Copies : Copies (route_capability locale_compare s b)
  unfolding route_capability route_ordered
  route_capability-Copies = elim (Bool-cases (is_read b.capability.effect)) [
    | inl y ↦
        elim (Bool-cases
          (is_live_lifecycle b.capability.lifecycle_status s.deployment_environment)) [
            | inl l ↦ rw (y, l) (route_selected-Copies _ _)
            | inr n ↦ rw (y, n) (refl, refl)
          ]
    | inr n ↦ rw n (refl, refl)
  ]

module _ (locale_compare : Text → Text → Ordering) (i : PlanInput) where
  add_route-routes :
      (requested : List Text) (id : Text) (c : Option CanonicalCapability)
      (rest : List RouteCapabilityDecision)
      → capability_by_id id i.capabilities ≡ c
      → Memᴰ id requested
      → All (IsRouteOf i requested) rest
      → All (IsRouteOf i requested) (add_route locale_compare i id c rest)
  unfolding add_route
  add_route-routes requested id none rest found m h = h
  add_route-routes requested id (some c) rest found m h =
      let r = route_capability locale_compare (scope_of i) (base_of i id c) in
      let (there, named) = capability_by_id-found id i.capabilities c found in
      let (same, effect) = route_capability-Copies locale_compare (scope_of i) (base_of i id c) in
      (
        record {
          capability = c;
          registered = there;
          same = named ∙ sym same;
          asked = subst (λ x. Memᴰ x requested) (sym same) m;
          effect = effect;
          routed = λ e.
              subst (λ x. IsRouted (scope_of i) (base_of i x c) r) (sym same)
                (route_capability-IsRouted locale_compare (scope_of i) (base_of i id c) e);
        },
        h,
      )

  routes_from-routes :
      (requested ids : List Text)
      → All (λ id. Memᴰ id requested) ids
      → All (IsRouteOf i requested) (routes_from locale_compare i ids)
  unfolding routes_from
  routes_from-routes requested [] _ = tt
  routes_from-routes requested (id ∷ ids) (m, ms) =
      add_route-routes requested id (capability_by_id id i.capabilities) _ refl m
        (routes_from-routes requested ids ms)

  decision_of-Sound :
      (lead : WorkerCatalogItem)
      → lead.id ≡ (pick_team (team_request locale_compare i)).lead_worker_id
      → IsSoundDecision i
          (decision_of locale_compare i (pick_team (team_request locale_compare i)) lead)
  unfolding decision_of capability_routes team_request requested_capabilities
  decision_of-Sound lead e =
      let (choosable, support) =
        pick_team-IsSupport locale_compare (team_request locale_compare i) refl in
      record {
        lead = rw e choosable;
        support = rw e support;
        graph = (normalize_graph-Forward i.proposal.capability_graph _ _ _).0;
        routes =
            routes_from-routes (requested_capabilities i) (requested_capabilities i)
              (All-members (requested_capabilities i));
      }

  plan_with-Sound :
      (o : Option WorkerCatalogItem) (d : RouteDecision)
      → ((lead : WorkerCatalogItem)
          → o ≡ some lead
          → lead.id ≡ (pick_team (team_request locale_compare i)).lead_worker_id)
      → plan_with locale_compare i (pick_team (team_request locale_compare i)) o ≡ ok d
      → IsSoundDecision i d
  unfolding plan_with
  plan_with-Sound none d _ h = cc
  plan_with-Sound (some lead) d found h =
      let e : decision_of locale_compare i (pick_team (team_request locale_compare i)) lead ≡ d =
        cc in
      subst (IsSoundDecision i) e (decision_of-Sound lead (found lead refl))

found_worker :
    (id : Text) (ws : List WorkerCatalogItem) (w : WorkerCatalogItem)
    → find (λ (x : WorkerCatalogItem). x.id === id) ws ≡ some w
    → w.id ≡ id
found_worker id ws w e =
    let (_, same) =
      find-All (λ _. Unit {0}) (λ (x : WorkerCatalogItem). x.id === id) ws w (anything ws) e in
    (eq_text_iff w.id id).0 same
  where
    anything : (xs : List WorkerCatalogItem) → All (λ _. Unit {0}) xs
    anything [] = tt
    anything (_ ∷ xs) = (tt, anything xs)

-- Every decision that `planRoute` returns: its lead is a Worker of the catalogue that is not
-- quarantined, if there is one; the support is four other such Workers at most; the graph is
-- acyclic and of requested capabilities; and each route is of a requested capability of the table,
-- by its id, and if it can be routed, that capability only reads and is live, and the route names
-- the best of the implementations of that id that may serve it.
pub plan_route-IsSoundDecision :
    (locale_compare : Text → Text → Ordering) (i : PlanInput) (d : RouteDecision)
    → plan_route locale_compare i ≡ ok d
    → IsSoundDecision i d
unfolding plan_route
plan_route-IsSoundDecision locale_compare i d h =
    plan_with-Sound locale_compare i _ d (λ lead e. found_worker _ (catalog_of i) lead e) h
