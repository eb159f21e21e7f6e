-- ===== src/Router/Order.antt =====
-- The order of the implementations of a capability, packages/router/src/index.ts: `healthRank`
-- and `sortImplementations`.
pub mod Least
mod Tests
use agentplace.Prelude.{
  compare, Ordering, or_else, true_first, sort_by, ℕ, Bool, true, false, List, [], ◌∷◌,
  if◌then◌else◌, ◌===◌,
}
use agentplace.Text.{Text, codes, text_eq}
use agentplace.Router.Types.{
  CapabilityImplementation, CapabilityHealthStatus, healthy, degraded, unavailable, unknown,
  RouteProviderPreference, auto, openai, gemini, anthropic,
}
use agentplace.Router.Eligibility.{implementation_trust_rank}

pub record RankedImplementation : Type 0 where
  pub implementation : CapabilityImplementation
  pub eligible : Bool
  pub reason : Text

unfoldable pub health_rank : CapabilityHealthStatus → ℕ
health_rank healthy = 0
health_rank degraded = 1
health_rank unknown = 2
health_rank unavailable = 3

abbrev pub provider_name : RouteProviderPreference → Text
provider_name auto = codes "auto"
provider_name openai = codes "openai"
provider_name gemini = codes "gemini"
provider_name anthropic = codes "anthropic"

abbrev pub is_auto : RouteProviderPreference → Bool
is_auto auto = true
is_auto _ = false

-- The preference that counts: that of the conversation, or the default where it leaves it open.
abbrev pub effective_preference :
    RouteProviderPreference → RouteProviderPreference → RouteProviderPreference
effective_preference preferred default = if is_auto preferred then default else preferred

unfoldable pub provider_rank : RouteProviderPreference → CapabilityImplementation → ℕ
provider_rank auto i = 1
provider_rank preference i = if i.provider === provider_name preference then 0 else 1

-- `localeCompare` depends on the host's locale, so it is a parameter.
module _ (locale_compare : Text → Text → Ordering) where
  unfoldable pub compare_implementations :
      RouteProviderPreference → RankedImplementation → RankedImplementation → Ordering
  compare_implementations preference l r = or_else (true_first l.eligible r.eligible) (
      or_else
        (compare (provider_rank preference l.implementation)
          (provider_rank preference r.implementation))
        (or_else
          (compare (implementation_trust_rank l.implementation)
            (implementation_trust_rank r.implementation))
          (or_else
            (compare (health_rank l.implementation.health_status)
              (health_rank r.implementation.health_status))
            (or_else (compare l.implementation.priority r.implementation.priority)
              (locale_compare l.implementation.id r.implementation.id)))))

  unfoldable pub sort_implementations :
      List RankedImplementation
      → RouteProviderPreference
      → RouteProviderPreference
      → List RankedImplementation
  sort_implementations candidates preferred default =
      sort_by (compare_implementations (effective_preference preferred default)) candidates
