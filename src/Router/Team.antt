-- ===== src/Router/Team.antt =====
-- Which Workers serve a request: `workerCandidates` and `pickTeam` of packages/router/src/index.ts.
pub mod Support
pub mod Members
use agentplace.Prelude.{
  ℕ, suc, ◌+◌, ◌*◌, ◌==◌, Bool, true, false, not, ◌&&◌, ◌||◌, List, [], ◌∷◌, ◌++◌, Option, none,
  some, if◌then◌else◌, leb, ltb, length, map, filter, take, find, includes, ◌===◌, compare,
  Ordering, or_else, sort_by,
}
use agentplace.Text.{Text, codes, text_eq, is_empty}
use agentplace.Decimal.{to_text}
use agentplace.Router.Types.{
  CandidateWorkerDecision, WorkerCatalogItem, WorkerCompatibilityRow, Suitability, primary,
  supporting,
}
use agentplace.Router.Networks.{unique}

abbrev pub is_primary : Suitability → Bool
is_primary primary = true
is_primary supporting = false

abbrev pub is_quarantined : WorkerCatalogItem → Bool
is_quarantined w = w.trust_status === codes "quarantined"

abbrev pub researcher : Text
researcher = codes "w-researcher"

-- The capabilities asked for that the Worker is compatible with.
unfoldable pub matched_capabilities : List WorkerCompatibilityRow → List Text → Text → List Text
matched_capabilities rows requested id =
    unique
      (map (λ (r : WorkerCompatibilityRow). r.canonical_capability_id)
        (filter
          (λ (r : WorkerCompatibilityRow).
            r.worker_id === id && includes requested r.canonical_capability_id)
          rows))
      32

unfoldable pub match_reason : ℕ → Text
match_reason n =
    if n == 0
    then codes "Published Worker; no direct capability match."
    else codes "Matches "
      ++ to_text n
      ++ codes " requested "
      ++ (if n == 1 then codes "capability" else codes "capabilities")
      ++ codes "."

unfoldable pub worker_candidate :
    List WorkerCompatibilityRow → List Text → WorkerCatalogItem → CandidateWorkerDecision
worker_candidate rows requested w =
    let matched = matched_capabilities rows requested w.id in
    let primaries = length (
      filter
        (λ (r : WorkerCompatibilityRow).
          r.worker_id === w.id
          && is_primary r.suitability
          && includes matched r.canonical_capability_id)
        rows) in
    record {
      worker_id = w.id;
      name = w.name;
      score =
          if is_quarantined w
          then none
          else some (length matched * 10 + primaries * 3 + (if w.id === researcher then 1 else 0));
      matched_capability_ids = matched;
      eligible = not (is_quarantined w);
      reason =
          if is_quarantined w
          then codes "Worker is quarantined."
          else match_reason (length matched);
    }

-- A score, one higher, so that -1 is 0.
abbrev pub shifted : Option ℕ → ℕ
shifted none = 0
shifted (some n) = suc n

-- `score > 0`, and `score ?? -1` where there is no candidate.
abbrev pub is_positive : Option ℕ → Bool
is_positive score = ltb 1 (shifted score)

-- The last candidate of an id, as in the `Map` that is made of the list.
unfoldable pub candidate_by_id :
    Text → List CandidateWorkerDecision → Option CandidateWorkerDecision
candidate_by_id id [] = none
candidate_by_id id (c ∷ cs) = elim (candidate_by_id id cs) [
  | none ↦ if c.worker_id === id then some c else none
  | some d ↦ some d
]

unfoldable pub score_of : Text → List CandidateWorkerDecision → Option ℕ
score_of id cs = elim (candidate_by_id id cs) [ none ↦ none | some c ↦ c.score ]

unfoldable pub catalog_ids : List WorkerCatalogItem → List Text
catalog_ids catalog =
    map (λ (w : WorkerCatalogItem). w.id) (filter (λ w. not (is_quarantined w)) catalog)

abbrev pub id_of : Option WorkerCatalogItem → Text
id_of none = []
id_of (some w) = w.id

unfoldable pub forced_lead : List Text → Option Text → Option Text
forced_lead ids none = none
forced_lead ids (some id) = if not (is_empty id) && includes ids id then some id else none

unfoldable pub best_candidate : List CandidateWorkerDecision → Option CandidateWorkerDecision
best_candidate cs = find (λ (c : CandidateWorkerDecision). c.eligible && is_positive c.score) cs

abbrev pub at_least_best : Option CandidateWorkerDecision → Option ℕ → Bool
at_least_best none score = true
at_least_best (some best) score = leb (shifted best.score) (shifted score)

unfoldable pub proposed_lead : List Text → List CandidateWorkerDecision → Text → Option Text
proposed_lead ids cs id =
    if includes ids id
      && is_positive (score_of id cs)
      && at_least_best (best_candidate cs) (score_of id cs)
    then some id
    else none

unfoldable pub default_lead : List Text → List WorkerCatalogItem → Text
default_lead ids catalog =
    if includes ids researcher
    then researcher
    else id_of (find (λ (w : WorkerCatalogItem). includes ids w.id) catalog)

-- `a ?? b ?? c ?? d`
unfoldable pub lead_of : Option Text → Option Text → Option CandidateWorkerDecision → Text → Text
lead_of (some id) proposed best otherwise = id
lead_of none (some id) best otherwise = id
lead_of none none (some best) otherwise = best.worker_id
lead_of none none none otherwise = otherwise

unfoldable pub valid_support :
    List Text → List CandidateWorkerDecision → Text → List Text → List Text
valid_support ids cs lead workers = take 4 (
    filter (λ w. not (w === lead) && includes ids w && is_positive (score_of w cs))
      (unique workers 4))

abbrev pub rows_of : (Text → Bool) → List WorkerCompatibilityRow → List Text
rows_of of rows =
    map (λ (r : WorkerCompatibilityRow). r.canonical_capability_id)
      (filter (λ (r : WorkerCompatibilityRow). of r.worker_id) rows)

unfoldable pub specialist :
    List CandidateWorkerDecision → Text → List Text → Text → Option CandidateWorkerDecision
specialist cs lead support capability =
    find
      (λ (c : CandidateWorkerDecision).
        c.eligible
        && not (c.worker_id === lead)
        && not (includes support c.worker_id)
        && includes c.matched_capability_ids capability)
      cs

-- The loop that adds a specialist for each capability that nobody covers.
unfoldable pub add_specialists :
    List CandidateWorkerDecision
    → List WorkerCompatibilityRow
    → Text
    → List Text
    → List Text
    → List Text
    → List Text
add_specialists cs rows lead covered support [] = support
add_specialists cs rows lead covered support (capability ∷ requested) =
    let skipped = add_specialists cs rows lead covered support requested in
    if includes covered capability || leb 4 (length support)
    then skipped
    else elim (specialist cs lead support capability) [
      | none ↦ skipped
      | some c ↦
          add_specialists cs rows lead (rows_of (λ w. w === c.worker_id) rows ++ covered)
            (support ++ c.worker_id ∷ []) requested
    ]

pub record Team : Type 0 where
  pub lead_worker_id : Text
  pub supporting_worker_ids : List Text

pub record TeamRequest : Type 0 where
  pub catalog : List WorkerCatalogItem
  pub candidates : List CandidateWorkerDecision
  pub compatibility : List WorkerCompatibilityRow
  pub requested_capabilities : List Text
  pub proposal_lead_worker_id : Text
  pub proposal_supporting_worker_ids : List Text
  pub forced_lead_worker_id : Option Text
  pub forced_supporting_worker_ids : Option (List Text)

unfoldable pub lead_worker : TeamRequest → Text
lead_worker r =
    let ids = catalog_ids r.catalog in
    lead_of (forced_lead ids r.forced_lead_worker_id)
      (proposed_lead ids r.candidates r.proposal_lead_worker_id) (best_candidate r.candidates)
      (default_lead ids r.catalog)

unfoldable pub supporting_workers : TeamRequest → Text → Option (List Text) → List Text
supporting_workers r lead (some forced) =
    valid_support (catalog_ids r.catalog) r.candidates lead forced
supporting_workers r lead none =
    let support =
      valid_support (catalog_ids r.catalog) r.candidates lead r.proposal_supporting_worker_ids in
    add_specialists r.candidates r.compatibility lead
      (rows_of (λ w. w === lead || includes support w) r.compatibility) support
      r.requested_capabilities

unfoldable pub pick_team : TeamRequest → Team
pick_team r = record {
  lead_worker_id = lead_worker r;
  supporting_worker_ids = supporting_workers r (lead_worker r) r.forced_supporting_worker_ids;
}

module _ (locale_compare : Text → Text → Ordering) where
  unfoldable pub compare_candidates : CandidateWorkerDecision → CandidateWorkerDecision → Ordering
  compare_candidates a b =
      or_else (compare (shifted b.score) (shifted a.score)) (locale_compare a.name b.name)

  unfoldable pub worker_candidates :
      List WorkerCatalogItem
      → List WorkerCompatibilityRow
      → List Text
      → List CandidateWorkerDecision
  worker_candidates catalog rows requested =
      sort_by compare_candidates (map (worker_candidate rows requested) catalog)
