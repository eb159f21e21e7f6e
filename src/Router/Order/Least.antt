-- ===== src/Router/Order/Least.antt =====
-- What stands first after `sortImplementations`, packages/router/src/index.ts.
use agentplace.Prelude.{
  compare, Ordering, or_else, true_first, is_lt, sort_by-Perm, sort_by-Ranked, Ranked, Permᴰ, ℕ,
  ◌+◌, ◌*◌, ◌≤◌, ◌≡◌, Bool, true, false, List, if◌then◌else◌, arith,
}
use agentplace.Text.{Text}
use agentplace.Router.Types.{
  CapabilityImplementation, CapabilityHealthStatus, RouteProviderPreference, healthy, degraded,
  unavailable, unknown,
}
use agentplace.Router.Eligibility.{implementation_trust_rank}
use agentplace.Router.Order.{
  RankedImplementation, health_rank, provider_rank, compare_implementations, sort_implementations,
  effective_preference,
}

-- The rank of a candidate: eligibility first, then the provider, then trust, then health.
unfoldable pub rank : RouteProviderPreference → RankedImplementation → ℕ
rank preference c =
    (if c.eligible then 0 else 1000)
    + 100 * provider_rank preference c.implementation
    + 4 * implementation_trust_rank c.implementation
    + health_rank c.implementation.health_status

health_rank-le : (h : CapabilityHealthStatus) → health_rank h ≤ 3
unfolding health_rank
health_rank-le healthy = ground arith
health_rank-le degraded = ground arith
health_rank-le unknown = ground arith
health_rank-le unavailable = ground arith

trust_rank-le : (i : CapabilityImplementation) → implementation_trust_rank i ≤ 10
unfolding implementation_trust_rank
trust_rank-le i = ground arith

provider_rank-le :
    (p : RouteProviderPreference) (i : CapabilityImplementation) → provider_rank p i ≤ 1
unfolding provider_rank
provider_rank-le p i = ground arith

-- The comparison, with the last parts of it left open, as one of numbers.
signed :
    (e f : Bool) (a b t u h k : ℕ) (rest : Ordering)
    → a ≤ 1
    → b ≤ 1
    → t ≤ 10
    → u ≤ 10
    → h ≤ 3
    → k ≤ 3
    → is_lt (
        or_else
          (true_first e f)
          (or_else (compare a b) (or_else (compare t u) (or_else (compare h k) rest))))
      ≡ true
    → (if e then 0 else 1000) + 100 * a + 4 * t + h ≤ (if f then 0 else 1000) + 100 * b + 4 * u + k
unfolding or_else true_first
signed e f a b t u h k rest p q r s v w y = ground arith

unsigned :
    (e f : Bool) (a b t u h k : ℕ) (rest : Ordering)
    → a ≤ 1
    → b ≤ 1
    → t ≤ 10
    → u ≤ 10
    → h ≤ 3
    → k ≤ 3
    → is_lt (
        or_else
          (true_first e f)
          (or_else (compare a b) (or_else (compare t u) (or_else (compare h k) rest))))
      ≡ false
    → (if f then 0 else 1000) + 100 * b + 4 * u + k ≤ (if e then 0 else 1000) + 100 * a + 4 * t + h
unfolding or_else true_first
unsigned e f a b t u h k rest p q r s v w y = ground arith

module _ (locale_compare : Text → Text → Ordering) (p : RouteProviderPreference) where
  first-rank :
      (x y : RankedImplementation)
      → is_lt (compare_implementations locale_compare p x y) ≡ true
      → rank p x ≤ rank p y
  unfolding compare_implementations rank
  first-rank x y =
      signed x.eligible y.eligible _ _ _ _ _ _ _ (provider_rank-le p x.implementation)
        (provider_rank-le p y.implementation) (trust_rank-le x.implementation)
        (trust_rank-le y.implementation) (health_rank-le x.implementation.health_status)
        (health_rank-le y.implementation.health_status)

  not_first-rank :
      (x y : RankedImplementation)
      → is_lt (compare_implementations locale_compare p x y) ≡ false
      → rank p y ≤ rank p x
  unfolding compare_implementations rank
  not_first-rank x y =
      unsigned x.eligible y.eligible _ _ _ _ _ _ _ (provider_rank-le p x.implementation)
        (provider_rank-le p y.implementation) (trust_rank-le x.implementation)
        (trust_rank-le y.implementation) (health_rank-le x.implementation.health_status)
        (health_rank-le y.implementation.health_status)

-- `sortImplementations` rearranges the candidates, whatever `localeCompare` answers: those that
-- are eligible stand first, among them those of the preferred provider, then the better trusted,
-- then the healthier.
pub sort_implementations-Ranked :
    (locale_compare : Text → Text → Ordering) (candidates : List RankedImplementation)
    (preferred default : RouteProviderPreference)
    → Permᴰ candidates (sort_implementations locale_compare candidates preferred default)
      × Ranked
          (rank (effective_preference preferred default))
          (sort_implementations locale_compare candidates preferred default)
unfolding sort_implementations
sort_implementations-Ranked locale_compare candidates preferred default = (
  sort_by-Perm (compare_implementations locale_compare (effective_preference preferred default))
      candidates,
  sort_by-Ranked (rank (effective_preference preferred default))
      (compare_implementations locale_compare (effective_preference preferred default))
      (first-rank locale_compare (effective_preference preferred default))
      (not_first-rank locale_compare (effective_preference preferred default)) candidates,
)
