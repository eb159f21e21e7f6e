-- ===== src/Collaboration/Tests.antt =====
-- Instances of the theorems about apps/worker/src/collaborationPlan.ts.
use agentplace.Prelude.{
  ◌≡◌, refl, ◌≢◌, true, false, List, [], ◌∷◌, none, All, includes, map, length, throw, ◌>>=◌, suc,
}
use agentplace.Text.{Text, codes, text_eq, eq_text}
use agentplace.Collaboration.{
  CollaborationPlanStep, provider_evidence, visit, visit_all, visit_step, step_by_id,
  check_collaboration_dependencies, build_collaboration_plan, unique_support, allowed_specialists,
  out_of_fuel,
}
use agentplace.Collaboration.Ordered.{Ordered, check-Ordered}
use agentplace.Collaboration.Enough.{check-Ends}
use agentplace.Collaboration.Built.{IsBounded, build-accepted, build-IsBounded}

abbrev step : Text → List Text → CollaborationPlanStep
step id needs = record {
  id = id;
  kind = provider_evidence;
  worker_id = none;
  depends_on = needs;
  skipped = false;
}

abbrev backwards : List CollaborationPlanStep
backwards = step (codes "b") (codes "a" ∷ []) ∷ step (codes "a") [] ∷ []

abbrev circle : List CollaborationPlanStep
circle = step (codes "b") (codes "a" ∷ []) ∷ step (codes "a") (codes "b" ∷ []) ∷ []

backwards_run : check_collaboration_dependencies backwards ≡ true
unfolding check_collaboration_dependencies visit visit_all visit_step step_by_id ◌>>=◌ eq_text
backwards_run = refl

circle_run : check_collaboration_dependencies circle ≡ false
unfolding check_collaboration_dependencies visit visit_all visit_step step_by_id ◌>>=◌ eq_text
circle_run = refl

check-Ordered_example :
    (order : List Text) × Ordered backwards order
    × All (λ id. includes order id ≡ true) (map (λ (s : CollaborationPlanStep). s.id) backwards)
check-Ordered_example = check-Ordered backwards backwards_run

check-Ends_example :
    visit_all
      (visit (suc (suc (length circle))) circle)
      []
      []
      (map (λ (s : CollaborationPlanStep). s.id) circle)
    ≢ throw out_of_fuel
check-Ends_example = check-Ends circle

abbrev team : List Text
team = codes "w1" ∷ codes "lead" ∷ codes "w2" ∷ codes "w1" ∷ []

team_run :
    (build_collaboration_plan (codes "lead") team 2 none).participating_specialist_ids
    ≡ codes "w1" ∷ []
unfolding build_collaboration_plan unique_support allowed_specialists eq_text
team_run = refl

build-accepted_example :
    check_collaboration_dependencies (build_collaboration_plan (codes "lead") team 2 none).steps
    ≡ true
build-accepted_example = build-accepted (codes "lead") team 2 none

build-IsBounded_example :
    IsBounded
      (codes "lead")
      team
      (build_collaboration_plan (codes "lead") team 2 none).participating_specialist_ids
      (build_collaboration_plan (codes "lead") team 2 none).skipped_specialist_ids
      2
build-IsBounded_example = build-IsBounded (codes "lead") team 2 none
