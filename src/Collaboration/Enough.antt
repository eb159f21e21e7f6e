-- ===== src/Collaboration/Enough.antt =====
-- The depth that `checkCollaborationDependencies` (apps/worker/src/collaborationPlan.ts) is given
-- is never used up.
use agentplace.Prelude.{
  ℕ, zero, suc, ◌+◌, ◌<◌, ◌≡◌, refl, ap, ◌≢◌, true, List, [], ◌∷◌, some, length, map, includes, All,
  Distinct, Distinct-length, Result, ok, throw, ◌>>=◌, Bool-cases, Option-cases, inl, inr, arith,
}
use agentplace.Text.{Text, text_eq}
use agentplace.Collaboration.{
  CollaborationPlanStep, step_by_id, Refusal, out_of_fuel, Visit, visit, visit_step, visit_all,
}

abbrev ids_of : List CollaborationPlanStep → List Text
ids_of steps = map (λ (s : CollaborationPlanStep). s.id) steps

step_by_id-includes :
    (id : Text) (steps : List CollaborationPlanStep) (s : CollaborationPlanStep)
    → step_by_id id steps ≡ some s
    → includes (ids_of steps) id ≡ true
unfolding step_by_id
step_by_id-includes id [] s e = cc
step_by_id-includes id (t ∷ steps) s e = elim (Option-cases (step_by_id id steps)) [
  | inl n ↦ ground (arith, n)
  | inr (u, f) ↦ ground (arith, step_by_id-includes id steps u f)
]

-- Some result, true or false.
abbrev Ends : Result Refusal (List Text) → Type 0
Ends r = r ≢ throw out_of_fuel

module _ (steps : List CollaborationPlanStep) where
  -- The steps being visited are different steps of the plan, and the depth left is enough.
  record IsRoom (fuel : ℕ) (visiting : List Text) : Type 0 where
    distinct : Distinct visiting
    steps_only : All (λ v. includes (ids_of steps) v ≡ true) visiting
    enough : length (ids_of steps) < length visiting + fuel

  abbrev IsDeep : ℕ → Visit → Type 0
  IsDeep fuel go =
      (visiting visited : List Text) (id : Text)
      → IsRoom fuel visiting
      → Ends (go visiting visited id)

  bound :
      (m : Result Refusal (List Text)) (f : List Text → Result Refusal (List Text))
      → Ends m
      → ((a : List Text) → Ends (f a))
      → Ends (m >>= f)
  unfolding ◌>>=◌
  bound (ok a) f e k = k a
  bound (throw r) f e k = e

  visit_all-Ends :
      (fuel : ℕ) (go : Visit) (visiting visited ids : List Text)
      → IsDeep fuel go
      → IsRoom fuel visiting
      → Ends (visit_all go visiting visited ids)
  unfolding visit_all
  visit_all-Ends fuel go visiting visited [] deep room = λ e. cc
  visit_all-Ends fuel go visiting visited (id ∷ ids) deep room =
      bound _ (λ seen. visit_all go visiting seen ids) (deep visiting visited id room)
        (λ seen. visit_all-Ends fuel go visiting seen ids deep room)

  visit-IsDeep : (fuel : ℕ) → IsDeep fuel (visit fuel steps)
  unfolding visit visit_step
  visit-IsDeep zero visiting visited id room = absurd (
      omega
        (arith, room.enough, Distinct-length visiting (ids_of steps) room.distinct room.steps_only))
  visit-IsDeep (suc fuel) visiting visited id room = elim (Bool-cases (includes visited id)) [
    | inl y ↦ rw y (λ e. cc)
    | inr n ↦ elim (Option-cases (step_by_id id steps)) [
      | inl e ↦ rw (n, e) (λ c. cc)
      | inr (s, e) ↦ elim (Bool-cases (includes visiting id)) [
        | inl y ↦ rw (n, e, y) (λ c. cc)
        | inr m ↦
            let deeper : IsRoom fuel (id ∷ visiting) = record {
              distinct = (m, room.distinct);
              steps_only = (step_by_id-includes id steps s e, room.steps_only);
              enough = omega (arith, room.enough);
            } in
            rw (n, e, m)
              (bound _ (λ seen. ok (id ∷ seen))
                (visit_all-Ends fuel (visit fuel steps) (id ∷ visiting) visited s.depends_on
                  (visit-IsDeep fuel) deeper)
                (λ seen c. cc))
      ]
    ]
  ]

-- Whatever the steps are, the check comes to an answer before its depth is used up.
pub check-Ends :
    (steps : List CollaborationPlanStep)
    → visit_all
        (visit (suc (suc (length steps))) steps)
        []
        []
        (map (λ (s : CollaborationPlanStep). s.id) steps)
      ≢ throw out_of_fuel
check-Ends steps =
    visit_all-Ends steps (suc (suc (length steps))) (visit (suc (suc (length steps))) steps) [] []
      (ids_of steps) (visit-IsDeep steps (suc (suc (length steps))))
      (record { distinct = tt; steps_only = tt; enough = omega (arith, length-ids steps) })
  where
    length-ids : (xs : List CollaborationPlanStep) → length (ids_of xs) ≡ length xs
    length-ids [] = refl
    length-ids (x ∷ xs) = ap suc (length-ids xs)
