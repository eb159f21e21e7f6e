-- ===== src/Router/Team/Members.antt =====
-- Who may be in the teams that `pickTeam` (packages/router/src/index.ts) puts together.
use agentplace.Prelude.{
  ◌≡◌, refl, sym, subst, ◌∙◌, true, false, not, ◌&&◌, List, [], ◌∷◌, Option, none, some, find,
  includes, All, find-All, All-map, All-sort_by, Bool-cases, Option-cases, inl, inr, ◌⊎◌, arith,
  Ordering,
}
use agentplace.Text.{Text, text_eq, eq_text_iff, is_empty}
use agentplace.Router.Types.{CandidateWorkerDecision, WorkerCatalogItem, WorkerCompatibilityRow}
use agentplace.Router.Team.{
  is_quarantined, catalog_ids, TeamRequest, lead_worker, supporting_workers, pick_team, researcher,
  lead_of, forced_lead, proposed_lead, best_candidate, default_lead, worker_candidate,
  worker_candidates, compare_candidates,
}
use agentplace.Router.Team.Support.{
  IsSupport, Known, valid_support-IsSupport, add_specialists-IsSupport,
}

-- A Worker that is not quarantined is one of those that may be chosen.
abbrev Listed : List Text → WorkerCatalogItem → Type 0
Listed ids w = is_quarantined w ≡ false → includes ids w.id ≡ true

more-Listed :
    (id : Text) (ids : List Text) (ws : List WorkerCatalogItem)
    → All (Listed ids) ws
    → All (Listed (id ∷ ids)) ws
more-Listed id ids [] _ = tt
more-Listed id ids (w ∷ ws) (h, hs) = (λ n. ground (arith, h n), more-Listed id ids ws hs)

catalog_ids-Listed : (catalog : List WorkerCatalogItem) → All (Listed (catalog_ids catalog)) catalog
unfolding catalog_ids
catalog_ids-Listed [] = tt
catalog_ids-Listed (w ∷ ws) = elim (Bool-cases (is_quarantined w)) [
  | inl y ↦
      let e : catalog_ids ws ≡ catalog_ids (w ∷ ws) = rw y refl in
      (λ n. cc, subst (λ ids. All (Listed ids) ws) e (catalog_ids-Listed ws))
  | inr n ↦
      let e : w.id ∷ catalog_ids ws ≡ catalog_ids (w ∷ ws) = rw n refl in
      subst (λ ids. All (Listed ids) (w ∷ ws)) e
        (
          first_listed w ws (catalog_ids ws),
          more-Listed w.id (catalog_ids ws) ws (catalog_ids-Listed ws),
        )
]
  where
    first_listed :
        (w : WorkerCatalogItem) (ws : List WorkerCatalogItem) (ids : List Text)
        → Listed (w.id ∷ ids) w
    first_listed w ws ids m = ground (arith, eq_text_iff w.id w.id)

-- An id that may be chosen, unless there is none.
abbrev pub Choosable : List Text → Text → Type 0
Choosable ids lead = (includes ids lead ≡ true) ⊎ (ids ≡ [])

find-Listed :
    (ids : List Text) (ws : List WorkerCatalogItem)
    → All (Listed ids) ws
    → find (λ (w : WorkerCatalogItem). includes ids w.id) ws ≡ none
    → catalog_ids ws ≡ []
unfolding catalog_ids
find-Listed ids [] _ _ = refl
find-Listed ids (w ∷ ws) (h, hs) e = elim (Bool-cases (includes ids w.id)) [
  | inl y ↦ ground arith
  | inr n ↦ elim (Bool-cases (is_quarantined w)) [
    | inl q ↦ rw q (find-Listed ids ws hs (rw n at e))
    | inr q ↦ absurd (clash (sym (h q) ∙ n))
  ]
]
  where
    clash : true ≡ false → ⊥
    clash c = cc

default_lead-Choosable :
    (catalog : List WorkerCatalogItem)
    → Choosable (catalog_ids catalog) (default_lead (catalog_ids catalog) catalog)
unfolding default_lead
default_lead-Choosable catalog = elim (Bool-cases (includes (catalog_ids catalog) researcher)) [
  | inl y ↦ rw y (inl y)
  | inr n ↦
      elim (Option-cases
        (find (λ (w : WorkerCatalogItem). includes (catalog_ids catalog) w.id) catalog)) [
          | inl e ↦ inr (find-Listed (catalog_ids catalog) catalog (catalog_ids-Listed catalog) e)
          | inr (w, e) ↦
              let (_, found) = find-All (λ _. Unit {0}) _ catalog w (anything catalog) e in
              rw (n, e) (inl found)
        ]
]
  where
    anything : (ws : List WorkerCatalogItem) → All (λ _. Unit {0}) ws
    anything [] = tt
    anything (_ ∷ ws) = (tt, anything ws)

forced_lead-Known :
    (ids : List Text) (forced : Option Text) (id : Text)
    → forced_lead ids forced ≡ some id
    → includes ids id ≡ true
unfolding forced_lead
forced_lead-Known ids none id e = cc
forced_lead-Known ids (some t) id e = elim (Bool-cases (not (is_empty t) && includes ids t)) [
  | inl y ↦ let same : t ≡ id = ground arith in rw same at (test_of t y)
  | inr n ↦ absurd (never (rw n at e))
]
  where
    test_of : (t : Text) → (not (is_empty t) && includes ids t) ≡ true → includes ids t ≡ true
    test_of t y = ground arith

    never : none ≡ some id → ⊥
    never c = cc

proposed_lead-Known :
    (ids : List Text) (cs : List CandidateWorkerDecision) (id lead : Text)
    → proposed_lead ids cs id ≡ some lead
    → includes ids lead ≡ true
unfolding proposed_lead
proposed_lead-Known ids cs id lead e = elim (Bool-cases (includes ids id)) [
  | inl y ↦ let same : id ≡ lead = ground arith in rw same at y
  | inr n ↦ absurd (never (rw n at e))
]
  where
    never : none ≡ some lead → ⊥
    never c = cc

lead_of-Choosable :
    (ids : List Text) (forced proposed : Option Text) (best : Option CandidateWorkerDecision)
    (otherwise : Text)
    → ((id : Text) → forced ≡ some id → includes ids id ≡ true)
    → ((id : Text) → proposed ≡ some id → includes ids id ≡ true)
    → ((c : CandidateWorkerDecision) → best ≡ some c → includes ids c.worker_id ≡ true)
    → Choosable ids otherwise
    → Choosable ids (lead_of forced proposed best otherwise)
unfolding lead_of
lead_of-Choosable ids (some id) proposed best otherwise f p b o = inl (f id refl)
lead_of-Choosable ids none (some id) best otherwise f p b o = inl (p id refl)
lead_of-Choosable ids none none (some c) otherwise f p b o = inl (b c refl)
lead_of-Choosable ids none none none otherwise f p b o = o

lead_worker-Choosable :
    (r : TeamRequest)
    → All (Known (catalog_ids r.catalog)) r.candidates
    → Choosable (catalog_ids r.catalog) (lead_worker r)
unfolding lead_worker best_candidate
lead_worker-Choosable r k =
    lead_of-Choosable (catalog_ids r.catalog) _ _ _ _
      (λ id e. forced_lead-Known (catalog_ids r.catalog) r.forced_lead_worker_id id e)
      (λ id e.
        proposed_lead-Known (catalog_ids r.catalog) r.candidates r.proposal_lead_worker_id id e)
      (λ c e.
        let (known, test) = find-All (Known (catalog_ids r.catalog)) _ r.candidates c k e in
        known (ground arith))
      (default_lead-Choosable r.catalog)

supporting_workers-IsSupport :
    (r : TeamRequest) (lead : Text) (forced : Option (List Text))
    → All (Known (catalog_ids r.catalog)) r.candidates
    → IsSupport (catalog_ids r.catalog) lead (supporting_workers r lead forced)
unfolding supporting_workers
supporting_workers-IsSupport r lead (some workers) k =
    valid_support-IsSupport (catalog_ids r.catalog) r.candidates lead workers
supporting_workers-IsSupport r lead none k =
    add_specialists-IsSupport (catalog_ids r.catalog) r.candidates lead r.compatibility _ _
      r.requested_capabilities k
      (valid_support-IsSupport (catalog_ids r.catalog) r.candidates lead
        r.proposal_supporting_worker_ids)

worker_candidates-Known :
    (locale_compare : Text → Text → Ordering) (catalog : List WorkerCatalogItem)
    (rows : List WorkerCompatibilityRow) (requested : List Text)
    → All (Known (catalog_ids catalog)) (worker_candidates locale_compare catalog rows requested)
unfolding worker_candidates worker_candidate
worker_candidates-Known locale_compare catalog rows requested =
    All-sort_by (compare_candidates locale_compare) _ _ (
      All-map _ (worker_candidate rows requested) catalog
        (each catalog (catalog_ids-Listed catalog)))
  where
    each :
        (ws : List WorkerCatalogItem)
        → All (Listed (catalog_ids catalog)) ws
        → All (λ w. Known (catalog_ids catalog) (worker_candidate rows requested w)) ws
    each [] _ = tt
    each (w ∷ ws) (h, hs) = (λ y. h (ground arith), each ws hs)

-- The team that `pickTeam` makes of the ranked Workers of a catalogue: the lead is a Worker of the
-- catalogue that is not quarantined, if there is one; the supporting Workers are four at most, all
-- different, none of them the lead or quarantined.
pub pick_team-IsSupport :
    (locale_compare : Text → Text → Ordering) (r : TeamRequest)
    → r.candidates
      ≡ worker_candidates locale_compare r.catalog r.compatibility r.requested_capabilities
    → Choosable (catalog_ids r.catalog) (pick_team r).lead_worker_id
      × IsSupport
          (catalog_ids r.catalog)
          (pick_team r).lead_worker_id
          (pick_team r).supporting_worker_ids
unfolding pick_team
pick_team-IsSupport locale_compare r e =
    let k : All (Known (catalog_ids r.catalog)) r.candidates =
      subst (All _) (sym e) (
        worker_candidates-Known locale_compare r.catalog r.compatibility
          r.requested_capabilities) in
    (
      lead_worker-Choosable r k,
      supporting_workers-IsSupport r (lead_worker r) r.forced_supporting_worker_ids k,
    )
