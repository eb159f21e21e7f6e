-- ===== src/Router/Eligibility/Allowed.antt =====
-- What it takes that an implementation may be used, packages/router/src/index.ts.
use agentplace.Prelude.{
  ◌==◌, ◌≡◌, refl, ◌≢◌, ap, true, false, List, [], ◌∷◌, includes, map, any, All, length, arith,
  ◌===◌, Bool-cases, inl, inr, sym, ◌∙◌,
}
use agentplace.Text.{Text, text_eq, eq_text_iff}
use agentplace.Router.Types.{CapabilityImplementation, DeploymentEnvironment}
use agentplace.Router.Networks.{canonicalize_network_id, launch_networks, normalized_network}
use agentplace.Router.Networks.Launch.{names_test_network, canonicalize-launch}
use agentplace.Router.Eligibility.{
  network_eligible, provider_configured, implementation_trust_eligible, implementation_eligibility,
  is_unavailable, environment_refused,
}

-- The implementation is enabled, trusted, not down, open in the environment, on a requested
-- network, and its provider is configured.
pub record IsUsable (i : CapabilityImplementation) (environment : DeploymentEnvironment)
    (requested configured : List Text) : Type 0 where
  pub enabled : i.enabled ≡ true
  pub trusted : implementation_trust_eligible i ≡ true
  pub up : is_unavailable i.health_status ≡ false
  pub open_here : environment_refused i environment ≡ false
  pub on_network : network_eligible i requested ≡ true
  pub has_provider : provider_configured i.provider configured ≡ true

-- `implementationEligibility` accepts an implementation exactly if it is usable: here, only if.
pub eligibility-IsUsable :
    (i : CapabilityImplementation) (environment : DeploymentEnvironment)
    (requested configured : List Text)
    → (implementation_eligibility i environment requested configured).eligible ≡ true
    → IsUsable i environment requested configured
unfolding implementation_eligibility
eligibility-IsUsable i environment requested configured h = record {
  enabled = ground arith;
  trusted = ground arith;
  up = ground arith;
  open_here = ground arith;
  on_network = ground arith;
  has_provider = ground arith;
}

launch_only-includes :
    (xs : List Text) (a : Text)
    → includes launch_networks a ≡ false
    → All (λ s. includes launch_networks (canonicalize_network_id s) ≡ true) xs
    → includes (map canonicalize_network_id xs) a ≡ false
launch_only-includes [] a n _ = refl
launch_only-includes (x ∷ xs) a n (p, h) = elim (Bool-cases (canonicalize_network_id x === a)) [
  | inl e ↦
      let same = (eq_text_iff (canonicalize_network_id x) a).0 e in
      let bad : true ≡ false = sym p ∙ (ap (includes launch_networks) same ∙ n) in cc
  | inr e ↦ rw e (launch_only-includes xs a n h)
]

none_requested :
    (xs requested : List Text)
    → All (λ s. includes launch_networks (canonicalize_network_id s) ≡ true) xs
    → All (λ r. names_test_network (normalized_network r) ≡ true) requested
    → any (λ n. includes (map canonicalize_network_id xs) (canonicalize_network_id n)) requested
      ≡ false
none_requested xs [] launch _ = refl
none_requested xs (r ∷ rs) launch (t, ts) =
    rw (launch_only-includes xs (canonicalize_network_id r) (canonicalize-launch r t) launch)
      (none_requested xs rs launch ts)

-- An implementation that supports networks, launch networks only, is not eligible for a request
-- that names networks, if each of them has, as words, "arbitrum" or "base" and "sepolia" or
-- "testnet", or "ethereum" or "eth" and "sepolia", "holesky" or "testnet", or "bnb", "bsc" or
-- "binance smart chain" and "testnet", or "solana" and "devnet" or "testnet".
pub network_eligible-test_only :
    (i : CapabilityImplementation) (requested : List Text)
    → i.supported_networks ≢ []
    → requested ≢ []
    → All (λ s. includes launch_networks (canonicalize_network_id s) ≡ true) i.supported_networks
    → All (λ r. names_test_network (normalized_network r) ≡ true) requested
    → network_eligible i requested ≡ false
unfolding network_eligible
network_eligible-test_only i requested supports asks launch named =
    let no_match = none_requested i.supported_networks requested launch named in
    rw (not_zero i.supported_networks supports, not_zero requested asks) no_match
  where
    not_zero : (xs : List Text) → xs ≢ [] → (length xs == 0) ≡ false
    not_zero [] n = ground arith
    not_zero (x ∷ xs) n = ground arith
