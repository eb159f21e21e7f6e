-- ===== src/Router/Routes/Safe.antt =====
-- What it means that a capability can be routed, packages/router/src/index.ts.
use agentplace.Prelude.{
  ℕ, ◌≤◌, ◌≡◌, refl, ap, ◌∙◌, true, false, List, [], ◌∷◌, Option, none, some, filter, head?, All,
  All-map, All-sort_by, Memᴰ, All-members, All-filter_both, head-All, head-Ranked, All-perm, Permᴰ,
  Ranked, Bool-cases, inl, inr, Ordering,
}
use agentplace.Text.{Text, text_eq, eq_text_iff}
use agentplace.Router.Types.{
  CapabilityImplementation, RouteCandidateImplementation, RouteCapabilityDecision, can_route,
  not_available, not_allowed,
}
use agentplace.Router.Eligibility.{is_live_lifecycle}
use agentplace.Router.Eligibility.Allowed.{IsUsable, eligibility-IsUsable}
use agentplace.Router.Order.{
  RankedImplementation, effective_preference, sort_implementations, compare_implementations,
}
use agentplace.Router.Order.Least.{rank, sort_implementations-Ranked}
use agentplace.Router.Routes.{
  RouteScope, RouteBase, is_read, provider_mismatch, judge, raw_candidate, is_for, raw_candidates,
  route_selected, route_ordered, route_capability,
}

-- An implementation of a scope may serve a capability.
pub record IsServing (s : RouteScope) (capability : Text) (i : CapabilityImplementation)
    : Type 0 where
  pub registered : Memᴰ i s.implementations
  pub for_capability : i.canonical_capability_id ≡ capability
  pub usable : IsUsable i s.deployment_environment s.requested_networks s.configured_providers
  pub as_asked : provider_mismatch s.provider_preference i ≡ false

abbrev best : RouteScope → RankedImplementation → ℕ
best s = rank (effective_preference s.provider_preference s.default_provider)

-- The candidate serves, and no eligible one of the same capability is before it.
pub record IsBest (s : RouteScope) (capability : Text) (c : RankedImplementation) : Type 0 where
  pub serves : IsServing s capability c.implementation
  pub least : All (λ d. d.eligible ≡ true → best s c ≤ best s d) (raw_candidates s capability)

judge-IsServing :
    (s : RouteScope) (capability : Text) (i : CapabilityImplementation)
    → Memᴰ i s.implementations
    → i.canonical_capability_id ≡ capability
    → (raw_candidate s i).eligible ≡ true
    → IsServing s capability i
unfolding raw_candidate judge
judge-IsServing s capability i m f e =
    elim (Bool-cases (provider_mismatch s.provider_preference i)) [
      | inl y ↦ absurd (never (rw y at e))
      | inr n ↦ record {
        registered = m;
        for_capability = f;
        usable =
            eligibility-IsUsable i s.deployment_environment s.requested_networks
              s.configured_providers (rw n at e);
        as_asked = n;
      }
    ]
  where
    never : false ≡ true → ⊥
    never c = cc

-- Each candidate is one of the registered implementations of the capability.
abbrev Registered : RouteScope → Text → RankedImplementation → Type 0
Registered s capability c =
    Memᴰ c.implementation s.implementations
    × (is_for capability c.implementation ≡ true)
    × ((raw_candidate s c.implementation) ≡ c)

raw_candidates-Registered :
    (s : RouteScope) (capability : Text)
    → All (Registered s capability) (raw_candidates s capability)
unfolding raw_candidate
raw_candidates-Registered s capability = All-map _ (raw_candidate s) _ (
    each _
      (All-filter_both _ (is_for capability) s.implementations (All-members s.implementations)))
  where
    each :
        (is : List CapabilityImplementation)
        → All (λ i. Memᴰ i s.implementations × (is_for capability i ≡ true)) is
        → All (λ i. Registered s capability (raw_candidate s i)) is
    each [] _ = tt
    each (i ∷ is) ((m, f), h) = ((m, f, refl), each is h)

-- The first eligible one of the ordered candidates is the best.
first_eligible-IsBest :
    (s : RouteScope) (capability : Text) (ordered : List RankedImplementation)
    (c : RankedImplementation)
    → Permᴰ (raw_candidates s capability) ordered
    → Ranked (best s) ordered
    → All (Registered s capability) ordered
    → head? (filter (λ (d : RankedImplementation). d.eligible) ordered) ≡ some c
    → IsBest s capability c
first_eligible-IsBest s capability ordered c p r g e =
    let ((m, f, same), eligible) =
      head-All (λ d. Registered s capability d × (d.eligible ≡ true)) _ c
        (All-filter_both (Registered s capability) (λ d. d.eligible) ordered g) e in
    record {
      serves =
          judge-IsServing s capability c.implementation m
            ((eq_text_iff c.implementation.canonical_capability_id capability).0 f)
            (ap (λ (d : RankedImplementation). d.eligible) same ∙ eligible);
      least =
          All-perm (λ d. d.eligible ≡ true → best s c ≤ best s d) p
            (head-Ranked (best s) (λ d. d.eligible) ordered c r e);
    }

-- A capability is routed only where it reads and is live; the route names the best implementation
-- and its provider.
pub record IsRouted (s : RouteScope) (b : RouteBase) (r : RouteCapabilityDecision) : Type 0 where
  pub reads : is_read b.capability.effect ≡ true
  pub live : is_live_lifecycle b.capability.lifecycle_status s.deployment_environment ≡ true
  pub chosen :
      (c : RankedImplementation) × IsBest s b.capability_id c
      × (r.selected_implementation_id ≡ some c.implementation.id)
      × (r.selected_provider ≡ some c.implementation.provider)

route_selected-routed :
    (s : RouteScope) (b : RouteBase) (candidates : List RouteCandidateImplementation)
    (o : Option RankedImplementation)
    → (route_selected s b candidates o).status ≡ can_route
    → (c : RankedImplementation) × (o ≡ some c)
      × ((route_selected s b candidates o).selected_implementation_id ≡ some c.implementation.id)
      × ((route_selected s b candidates o).selected_provider ≡ some c.implementation.provider)
unfolding route_selected
route_selected-routed s b candidates none h = cc
route_selected-routed s b candidates (some c) h = (c, refl, refl, refl)

module _ (locale_compare : Text → Text → Ordering) (s : RouteScope) (b : RouteBase) where
  abbrev ordered : List RankedImplementation
  ordered =
      sort_implementations locale_compare (raw_candidates s b.capability_id) s.provider_preference
        s.default_provider

  ordered-Registered : All (Registered s b.capability_id) ordered
  unfolding sort_implementations
  ordered-Registered =
      All-sort_by
        (compare_implementations locale_compare
          (effective_preference s.provider_preference s.default_provider))
        (Registered s b.capability_id) _ (raw_candidates-Registered s b.capability_id)

  route_ordered-chosen :
      (route_ordered s b ordered).status ≡ can_route
      → (c : RankedImplementation) × IsBest s b.capability_id c
        × ((route_ordered s b ordered).selected_implementation_id ≡ some c.implementation.id)
        × ((route_ordered s b ordered).selected_provider ≡ some c.implementation.provider)
  unfolding route_ordered
  route_ordered-chosen h =
      let (c, first, id, provider) = route_selected-routed s b _ _ h in
      let (p, r) =
        sort_implementations-Ranked locale_compare (raw_candidates s b.capability_id)
          s.provider_preference s.default_provider in
      (
        c,
        first_eligible-IsBest s b.capability_id ordered c p r ordered-Registered first,
        id,
        provider,
      )

-- A capability that `planRoute` finds routable reads and is live, and the implementation selected
-- for it is a registered one of that capability that is enabled, trusted, up, open in the
-- environment, on a requested network and of a configured provider; it is not of another model
-- provider than the conversation selected; and no other eligible one is of a preferred provider,
-- or better trusted, or healthier, in this order.
pub route_capability-IsRouted :
    (locale_compare : Text → Text → Ordering) (s : RouteScope) (b : RouteBase)
    → (route_capability locale_compare s b).status ≡ can_route
    → IsRouted s b (route_capability locale_compare s b)
unfolding route_capability
route_capability-IsRouted locale_compare s b h = elim (Bool-cases (is_read b.capability.effect)) [
  | inl reads ↦
      elim (Bool-cases (is_live_lifecycle b.capability.lifecycle_status s.deployment_environment)) [
        | inl live ↦
            rw (reads, live)
              (record {
                reads = reads;
                live = live;
                chosen = route_ordered-chosen locale_compare s b (rw (reads, live) at h);
              })
        | inr n ↦ absurd (unavailable (rw (reads, n) at h))
      ]
  | inr n ↦ absurd (refused_write (rw n at h))
]
  where
    unavailable : not_available ≡ can_route → ⊥
    unavailable e = cc

    refused_write : not_allowed ≡ can_route → ⊥
    refused_write e = cc
