-- ===== src/Router/Order/Tests.antt =====
-- An instance of the theorem about `sortImplementations` (packages/router/src/index.ts).
use agentplace.Prelude.{Bool, true, false, List, [], ◌∷◌, Permᴰ, Ranked}
use agentplace.Text.{Text, codes}
use agentplace.Router.Types.{healthy, openai, auto}
use agentplace.Router.Order.{RankedImplementation, sort_implementations, effective_preference}
use agentplace.Router.Order.Least.{rank, sort_implementations-Ranked}
use agentplace.Router.Samples.{same_place}

abbrev candidate : Text → Text → Bool → RankedImplementation
candidate id provider eligible = record {
  implementation = record {
    id = id;
    canonical_capability_id = codes "read";
    provider = provider;
    name = id;
    supported_networks = [];
    trust_status = codes "tested";
    health_status = healthy;
    invocation_kind = codes "http";
    priority = 1;
    enabled = true;
    environment_eligibility = [];
  };
  eligible = eligible;
  reason = [];
}

abbrev candidates : List RankedImplementation
candidates =
    candidate (codes "i1") (codes "gemini") true
    ∷ candidate (codes "i2") (codes "openai") false
    ∷ candidate (codes "i3") (codes "openai") true
    ∷ []

sort_implementations-Ranked_example :
    Permᴰ candidates (sort_implementations same_place candidates openai auto)
    × Ranked
        (rank (effective_preference openai auto))
        (sort_implementations same_place candidates openai auto)
sort_implementations-Ranked_example = sort_implementations-Ranked same_place candidates openai auto
