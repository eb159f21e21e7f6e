-- ===== src/Router/Samples.antt =====
-- A small catalogue for the tests of packages/router/src/index.ts.
use agentplace.Prelude.{true, List, [], ◌∷◌, none, Ordering}
use agentplace.Text.{Text, codes}
use agentplace.Authority.Types.{read, economic_write}
use agentplace.Router.Types.{
  CanonicalCapability, CapabilityImplementation, WorkerCatalogItem, WorkerCompatibilityRow,
  agentplace_verified, healthy, degraded, primary, testnet, openai,
}
use agentplace.Router.Plan.{PlanInput}

abbrev pub same_place : Text → Text → Ordering
same_place a b = Ordering.eq

abbrev pub search : CanonicalCapability
search = record {
  id = codes "research.web.search";
  name = codes "Search";
  effect = read;
  lifecycle_status = agentplace_verified;
}

abbrev transfer : CanonicalCapability
transfer = record {
  id = codes "asset.transfer";
  name = codes "Transfer";
  effect = economic_write;
  lifecycle_status = agentplace_verified;
}

abbrev implementation : Text → Text → CapabilityImplementation
implementation id provider = record {
  id = id;
  canonical_capability_id = codes "research.web.search";
  provider = provider;
  name = id;
  supported_networks = codes "Base" ∷ [];
  trust_status = codes "tested";
  health_status = healthy;
  invocation_kind = codes "http";
  priority = 1;
  enabled = true;
  environment_eligibility = [];
}

abbrev pub implementations : List CapabilityImplementation
implementations =
    record (implementation (codes "i1") (codes "agentplace")) { health_status = degraded }
    ∷ implementation (codes "i2") (codes "gemini")
    ∷ implementation (codes "i3") (codes "openai")
    ∷ []

abbrev worker : Text → Text → WorkerCatalogItem
worker id trust = record { id = id; trust_status = trust; name = id; version_id = codes "v1" }

abbrev row : Text → WorkerCompatibilityRow
row id = record {
  worker_id = id;
  worker_version_id = codes "v1";
  canonical_capability_id = codes "research.web.search";
  suitability = primary;
}

abbrev pub request : PlanInput
request = record {
  proposal = record {
    intent_domain = codes "research";
    goal = codes "Find";
    requested_networks = codes "Base (8453)" ∷ [];
    lead_worker_id = codes "w-bad";
    supporting_worker_ids = codes "w-two" ∷ codes "w-bad" ∷ [];
    required_capabilities = [];
    optional_capabilities = codes "asset.transfer" ∷ [];
    capability_graph = [];
  };
  deployment_environment = testnet;
  preferred_provider = openai;
  default_provider = none;
  forced_lead_worker_id = none;
  forced_supporting_worker_ids = none;
  forced_workers = [];
  capabilities = search ∷ transfer ∷ [];
  implementations = implementations;
  public_catalog =
      worker (codes "w-bad") (codes "quarantined")
      ∷ worker (codes "w-one") (codes "tested")
      ∷ worker (codes "w-two") (codes "tested")
      ∷ [];
  exact_workers = [];
  all_compatibility = row (codes "w-one") ∷ row (codes "w-two") ∷ row (codes "w-bad") ∷ [];
  configured_providers = codes "openai" ∷ codes "gemini" ∷ [];
}
