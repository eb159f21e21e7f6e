-- ===== src/Router/Plan/Status.antt =====
-- What the status of a route decision says of its routes, packages/router/src/index.ts.
use agentplace.Prelude.{
  ℕ, suc, ◌≡◌, refl, ap, ◌≢◌, ◌↔◌, true, false, not, List, [], ◌∷◌, length, map, filter, any, All,
  Bool-cases, inl, inr, arith, ◌==◌,
}
use agentplace.Router.Types.{RouteCapabilityDecision, routable, can_route}
use agentplace.Router.Plan.{
  is_routable, is_blocked, is_routed_search, required_routes, unavailable_capabilities,
  route_status,
}

-- Every required capability is routed, there is one, and the search of the web is routed.
pub record IsFullyRouted (routes : List RouteCapabilityDecision) : Type 0 where
  pub each : All (λ r. r.status ≡ can_route) (required_routes routes)
  pub some_required : required_routes routes ≢ []
  pub searches : any is_routed_search routes ≡ true

routable_iff : (r : RouteCapabilityDecision) → (is_routable r ≡ true) ↔ (r.status ≡ can_route)
routable_iff r = ground arith

filter-IsFullyRouted_inv :
    (rs : List RouteCapabilityDecision)
    → (length (
          map
            (λ (r : RouteCapabilityDecision). r.capability_id)
            (filter (λ r. not (is_routable r)) rs))
        == 0)
      ≡ true
    → All (λ r. r.status ≡ can_route) rs
filter-IsFullyRouted_inv [] _ = tt
filter-IsFullyRouted_inv (r ∷ rs) h = elim (Bool-cases (is_routable r)) [
  | inl y ↦ ((routable_iff r).0 y, filter-IsFullyRouted_inv rs (rw y at h))
  | inr n ↦ absurd (positive (length _) (rw n at h))
]
  where
    positive : (n : ℕ) → (suc n == 0) ≡ true → ⊥
    positive n h = ground arith

filter-IsFullyRouted :
    (rs : List RouteCapabilityDecision)
    → All (λ r. r.status ≡ can_route) rs
    → (length (
          map
            (λ (r : RouteCapabilityDecision). r.capability_id)
            (filter (λ r. not (is_routable r)) rs))
        == 0)
      ≡ true
filter-IsFullyRouted [] _ = ground arith
filter-IsFullyRouted (r ∷ rs) (h, hs) = rw ((routable_iff r).1 h) (filter-IsFullyRouted rs hs)

none_blocked :
    (rs : List RouteCapabilityDecision)
    → All (λ r. r.status ≡ can_route) rs
    → any is_blocked rs ≡ false
none_blocked [] _ = refl
none_blocked (r ∷ rs) (h, hs) = ground (arith, none_blocked rs hs)

one_routable :
    (rs : List RouteCapabilityDecision)
    → All (λ r. r.status ≡ can_route) rs
    → rs ≢ []
    → (length (filter is_routable rs) == 0) ≡ false
one_routable [] _ n = absurd (n refl)
one_routable (r ∷ rs) (h, hs) n = rw ((routable_iff r).1 h) (ground arith)

-- A decision is `routable` exactly if every required capability is routed, there is one, and the
-- search of the web is routed.
pub route_status-IsFullyRouted :
    (routes : List RouteCapabilityDecision)
    → (route_status routes ≡ routable) ↔ IsFullyRouted routes
unfolding route_status unavailable_capabilities
route_status-IsFullyRouted routes = (
  λ h. record {
    each = filter-IsFullyRouted_inv (required_routes routes) (ground arith);
    some_required = λ e.
        let z : (length (filter is_routable (required_routes routes)) == 0) ≡ true =
          ap (λ rs. length (filter is_routable rs) == 0) e in
        ground arith;
    searches = ground arith;
  },
  λ f.
      rw
        (
          none_blocked (required_routes routes) f.each,
          one_routable (required_routes routes) f.each f.some_required,
          f.searches,
          filter-IsFullyRouted (required_routes routes) f.each,
        )
        refl,
)
