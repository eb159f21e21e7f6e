-- ===== src/Collaboration/Ordered.antt =====
-- What `checkCollaborationDependencies` (apps/worker/src/collaborationPlan.ts) accepts.
use agentplace.Prelude.{
  ℕ, zero, suc, ◌≡◌, refl, subst, true, List, [], ◌∷◌, Option, none, some, length, map, includes,
  All, Result, ok, throw, >>=-eq-ok, and-true, Bool-cases, inl, inr, arith,
}
use agentplace.Text.{Text, text_eq, eq_text_iff}
use agentplace.Collaboration.{
  CollaborationPlanStep, step_by_id, Refusal, not_ordered, Visit, visit, visit_step, visit_all,
  is_ok, check_collaboration_dependencies,
}

-- An order of step ids, the last first: each has a step, and all that it depends on is before it.
abbrev pub Ordered : List CollaborationPlanStep → List Text → Type 0
Ordered steps [] = Unit {0}
Ordered steps (id ∷ before) =
    ((s : CollaborationPlanStep) × (step_by_id id steps ≡ some s)
      × All (λ d. includes before d ≡ true) s.depends_on)
    × Ordered steps before

-- The list still holds what the other holds.
abbrev Keeps : List Text → List Text → Type 0
Keeps old new = (a : Text) → includes old a ≡ true → includes new a ≡ true

-- What a visit leaves: an order, which holds what was there before and what was asked for.
record IsVisit (steps : List CollaborationPlanStep) (visited asked seen : List Text) : Type 0 where
  ordered : Ordered steps seen
  keeps : Keeps visited seen
  holds : All (λ a. includes seen a ≡ true) asked

All-Keeps :
    (old new ids : List Text)
    → Keeps old new
    → All (λ a. includes old a ≡ true) ids
    → All (λ a. includes new a ≡ true) ids
All-Keeps old new [] k _ = tt
All-Keeps old new (a ∷ ids) k (h, hs) = (k a h, All-Keeps old new ids k hs)

module _ (steps : List CollaborationPlanStep) where
  -- A visit that answers true leaves an order.
  abbrev IsSure : Visit → Type 0
  IsSure go =
      (visiting visited : List Text) (id : Text) (seen : List Text)
      → Ordered steps visited
      → go visiting visited id ≡ ok seen
      → IsVisit steps visited (id ∷ []) seen

  visit_all-IsVisit :
      (go : Visit) (visiting visited ids seen : List Text)
      → IsSure go
      → Ordered steps visited
      → visit_all go visiting visited ids ≡ ok seen
      → IsVisit steps visited ids seen
  unfolding visit_all
  visit_all-IsVisit go visiting visited [] seen sure o h =
      let same : visited ≡ seen = cc in
      subst (IsVisit steps visited []) same (record { ordered = o; keeps = λ a k. k; holds = tt })
  visit_all-IsVisit go visiting visited (id ∷ ids) seen sure o h =
      let (between, h₁, h₂) = >>=-eq-ok (go visiting visited id) _ h in
      let first = sure visiting visited id between o h₁ in
      let rest = visit_all-IsVisit go visiting between ids seen sure first.ordered h₂ in
      record {
        ordered = rest.ordered;
        keeps = λ a k. rest.keeps a (first.keeps a k);
        holds = (rest.keeps id first.holds.0, rest.holds);
      }

  visit_step-IsVisit :
      (go : Visit) (visiting visited : List Text) (id : Text) (found : Option CollaborationPlanStep)
      (seen : List Text)
      → step_by_id id steps ≡ found
      → IsSure go
      → Ordered steps visited
      → visit_step go visiting visited id found ≡ ok seen
      → IsVisit steps visited (id ∷ []) seen
  unfolding visit_step
  visit_step-IsVisit go visiting visited id none seen f sure o h = cc
  visit_step-IsVisit go visiting visited id (some s) seen f sure o h =
      elim (Bool-cases (includes visiting id)) [
        | inl y ↦ absurd (never (rw y at h))
        | inr n ↦
            let (deep, h₁, h₂) =
              >>=-eq-ok (visit_all go (id ∷ visiting) visited s.depends_on) _ (rw n at h) in
            let all = visit_all-IsVisit go (id ∷ visiting) visited s.depends_on deep sure o h₁ in
            let same : id ∷ deep ≡ seen = cc in
            subst (IsVisit steps visited (id ∷ [])) same (record {
              ordered = ((s, f, all.holds), all.ordered);
              keeps = λ a k. ground (arith, all.keeps a k);
              holds = (ground (arith, eq_text_iff id id), tt);
            })
      ]
    where
      never : throw not_ordered ≡ ok seen → ⊥
      never c = cc

  visit-IsSure : (fuel : ℕ) → IsSure (visit fuel steps)
  unfolding visit
  visit-IsSure zero visiting visited id seen o h = cc
  visit-IsSure (suc fuel) visiting visited id seen o h = elim (Bool-cases (includes visited id)) [
    | inl y ↦
        let same : visited ≡ seen = cc in
        subst (IsVisit steps visited (id ∷ [])) same
          (record { ordered = o; keeps = λ a k. k; holds = (y, tt) })
    | inr n ↦
        visit_step-IsVisit (visit fuel steps) visiting visited id (step_by_id id steps) seen refl
          (visit-IsSure fuel) o (rw n at h)
  ]

accepted : (r : Result Refusal (List Text)) → is_ok r ≡ true → (seen : List Text) × (r ≡ ok seen)
accepted (ok seen) h = (seen, refl)
accepted (throw e) h = cc

-- Steps that `checkCollaborationDependencies` accepts have an order in which everything that a step
-- depends on is a step before it; and all steps are in it.
pub check-Ordered :
    (steps : List CollaborationPlanStep)
    → check_collaboration_dependencies steps ≡ true
    → (order : List Text) × Ordered steps order
      × All (λ id. includes order id ≡ true) (map (λ (s : CollaborationPlanStep). s.id) steps)
unfolding check_collaboration_dependencies
check-Ordered steps h =
    let ids = map (λ (s : CollaborationPlanStep). s.id) steps in
    let (_, sure) = and-true _ _ h in
    let (seen, e) = accepted _ sure in
    let v =
      visit_all-IsVisit steps (visit (suc (suc (length steps))) steps) [] [] ids seen
        (visit-IsSure steps (suc (suc (length steps)))) tt e in
    (seen, v.ordered, v.holds)
