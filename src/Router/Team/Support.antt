-- ===== src/Router/Team/Support.antt =====
-- The supporting Workers of the teams that `pickTeam` (packages/router/src/index.ts) puts together.
use agentplace.Prelude.{
  ◌≤◌, ◌≡◌, refl, Bool, true, false, not, ◌&&◌, ◌||◌, List, [], ◌∷◌, ◌++◌, some, leb, length, map,
  filter, includes, All, All-append, All-take, All-filter_test, find-All, Distinct, Distinct-take,
  Distinct-filter, Distinct-concat, Distinct-dedup_from, length-append, length-take-le,
  includes-append, Bool-cases, Option-cases, inl, inr, ◌===◌, arith,
}
use agentplace.Text.{Text, text_eq, trim, is_empty}
use agentplace.Router.Types.{CandidateWorkerDecision, WorkerCompatibilityRow}
use agentplace.Router.Networks.{unique}
use agentplace.Router.Team.{
  is_positive, score_of, valid_support, specialist, add_specialists, rows_of,
}

-- Four others at most, once each, of the given Workers, and not the lead.
pub record IsSupport (ids : List Text) (lead : Text) (support : List Text) : Type 0 where
  pub distinct : Distinct support
  pub few : length support ≤ 4
  pub known : All (λ w. includes ids w ≡ true) support
  pub others : includes support lead ≡ false

All-and :
    (P Q : Text → Bool) (xs : List Text)
    → All (λ x. (P x && Q x) ≡ true) xs
    → All (λ x. P x ≡ true) xs × All (λ x. Q x ≡ true) xs
All-and P Q [] _ = (tt, tt)
All-and P Q (x ∷ xs) (h, hs) =
    let (p, q) = All-and P Q xs hs in ((ground arith, p), (ground arith, q))

not_among :
    (lead : Text) (xs : List Text)
    → All (λ w. not (w === lead) ≡ true) xs
    → includes xs lead ≡ false
not_among lead [] _ = refl
not_among lead (x ∷ xs) (h, hs) = ground (arith, not_among lead xs hs)

-- A candidate that is eligible is one of the given Workers.
abbrev pub Known : List Text → CandidateWorkerDecision → Type 0
Known ids c = c.eligible ≡ true → includes ids c.worker_id ≡ true

module _ (ids : List Text) (cs : List CandidateWorkerDecision) (lead : Text) where
  pub valid_support-IsSupport :
      (workers : List Text) → IsSupport ids lead (valid_support ids cs lead workers)
  unfolding valid_support unique
  valid_support-IsSupport workers =
      let tested =
        All-take (λ w. (not (w === lead) && includes ids w && is_positive (score_of w cs)) ≡ true) 4
          _
          (All-filter_test (λ w. not (w === lead) && includes ids w && is_positive (score_of w cs))
            (unique workers 4) (λ w h. h)) in
      let (both, _) =
        All-and (λ w. not (w === lead) && includes ids w) (λ w. is_positive (score_of w cs)) _
          tested in
      let (apart, known) = All-and (λ w. not (w === lead)) (λ w. includes ids w) _ both in
      record {
        distinct = Distinct-take 4 _ (
            Distinct-filter _ (unique workers 4) (
              Distinct-take 4 _
                (Distinct-dedup_from [] (filter (λ v. not (is_empty v)) (map trim workers)))));
        few = length-take-le 4 _;
        known = known;
        others = not_among lead _ apart;
      }

  joined :
      (support : List Text) (c : CandidateWorkerDecision)
      → IsSupport ids lead support
      → leb 4 (length support) ≡ false
      → Known ids c
      → (c.eligible && not (c.worker_id === lead) && not (includes support c.worker_id)) ≡ true
      → IsSupport ids lead (support ++ c.worker_id ∷ [])
  joined support c s room k t = record {
    distinct = Distinct-concat support c.worker_id s.distinct (ground arith);
    few = ground (arith, length-append support (c.worker_id ∷ []));
    known =
        All-append (λ w. includes ids w ≡ true) support (c.worker_id ∷ []) s.known
          (k (ground arith), tt);
    others = ground (arith, includes-append support (c.worker_id ∷ []) lead, s.others);
  }

  pub add_specialists-IsSupport :
      (rows : List WorkerCompatibilityRow) (covered support requested : List Text)
      → All (Known ids) cs
      → IsSupport ids lead support
      → IsSupport ids lead (add_specialists cs rows lead covered support requested)
  unfolding add_specialists specialist
  add_specialists-IsSupport rows covered support [] k s = s
  add_specialists-IsSupport rows covered support (capability ∷ requested) k s =
      elim (Bool-cases (includes covered capability || leb 4 (length support))) [
        | inl y ↦ rw y (add_specialists-IsSupport rows covered support requested k s)
        | inr n ↦ elim (Option-cases (specialist cs lead support capability)) [
          | inl e ↦ rw (n, e) (add_specialists-IsSupport rows covered support requested k s)
          | inr (c, e) ↦
              rw (n, e)
                (add_specialists-IsSupport rows (rows_of (λ w. w === c.worker_id) rows ++ covered)
                  (support ++ c.worker_id ∷ []) requested k (enters c e (ground arith)))
        ]
      ]
    where
      enters :
          (c : CandidateWorkerDecision)
          → specialist cs lead support capability ≡ some c
          → leb 4 (length support) ≡ false
          → IsSupport ids lead (support ++ c.worker_id ∷ [])
      enters c e room =
          let (known, test) = find-All (Known ids) _ cs c k e in
          joined support c s room known (ground arith)
