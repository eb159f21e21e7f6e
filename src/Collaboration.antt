-- ===== src/Collaboration.antt =====
-- The plan of a research team, apps/worker/src/collaborationPlan.ts: `buildCollaborationPlan` and
-- `checkCollaborationDependencies`.
pub mod Ordered
pub mod Enough
pub mod Accepted
pub mod Built
mod Tests
use agentplace.Prelude.{
  ℕ, zero, suc, ◌+◌, ◌-◌, ◌==◌, min, Bool, true, false, not, ◌&&◌, ◌||◌, List, [], ◌∷◌, ◌++◌,
  Option, none, some, if◌then◌else◌, leb, length, map, filter, take, drop, dedup, includes, Result,
  ok, throw, ◌>>=◌, ◌===◌,
}
use agentplace.Text.{Text, codes, text_eq, is_empty}
use agentplace.Decimal.{to_text}

pub data StepKind : Type 0 where
  provider_evidence specialist_research lead_synthesis : StepKind

pub record CollaborationPlanStep : Type 0 where
  pub id : Text
  pub kind : StepKind
  pub worker_id : Option Text
  pub depends_on : List Text
  pub skipped : Bool

pub record CollaborationPlan : Type 0 where
  pub steps : List CollaborationPlanStep
  pub participating_specialist_ids : List Text
  pub skipped_specialist_ids : List Text

-- `Math.min(3, Math.max(0, maxSpecialists ?? 3), Math.max(0, remainingModelCalls - 1))`
abbrev pub or_three : Option ℕ → ℕ
or_three none = 3
or_three (some n) = n

unfoldable pub allowed_specialists : ℕ → Option ℕ → ℕ
allowed_specialists remaining most = min 3 (min (or_three most) (remaining - 1))

abbrev pub specialist_id : ℕ → Text
specialist_id index = codes "specialist-" ++ to_text (suc index)

unfoldable pub specialist_steps : ℕ → ℕ → List Text → List CollaborationPlanStep
specialist_steps allowed index [] = []
specialist_steps allowed index (worker ∷ workers) =
    record {
      id = specialist_id index;
      kind = specialist_research;
      worker_id = some worker;
      depends_on = codes "provider-evidence" ∷ [];
      skipped = leb allowed index;
    }
    ∷ specialist_steps allowed (suc index) workers

unfoldable pub specialist_ids : ℕ → List Text → List Text
specialist_ids index [] = []
specialist_ids index (_ ∷ workers) = specialist_id index ∷ specialist_ids (suc index) workers

unfoldable pub unique_support : Text → List Text → List Text
unique_support lead supporting =
    dedup (filter (λ id. not (is_empty id) && not (id === lead)) supporting)

unfoldable pub plan_steps : Text → ℕ → List Text → List CollaborationPlanStep
plan_steps lead allowed unique =
    record {
      id = codes "provider-evidence";
      kind = provider_evidence;
      worker_id = none;
      depends_on = [];
      skipped = false;
    }
      ∷ specialist_steps allowed 0 unique
    ++ record {
      id = codes "lead-synthesis";
      kind = lead_synthesis;
      worker_id = some lead;
      depends_on = codes "provider-evidence" ∷ specialist_ids 0 unique;
      skipped = false;
    }
      ∷ []

unfoldable pub build_collaboration_plan : Text → List Text → ℕ → Option ℕ → CollaborationPlan
build_collaboration_plan lead supporting remaining most =
    let unique = unique_support lead supporting in
    let allowed = allowed_specialists remaining most in
    record {
      steps = plan_steps lead allowed unique;
      participating_specialist_ids = take allowed unique;
      skipped_specialist_ids = drop allowed unique;
    }

-- The step of an id: the last, as in the `Map` that is made of the list.
unfoldable pub step_by_id : Text → List CollaborationPlanStep → Option CollaborationPlanStep
step_by_id id [] = none
step_by_id id (s ∷ steps) = elim (step_by_id id steps) [
  | none ↦ if s.id === id then some s else none
  | some t ↦ some t
]

-- `visit` answers false, or the sets have grown: those visited so far are the result. After a
-- false no call goes on, so what is then in the sets does not matter.
pub data Refusal : Type 0 where
  not_ordered out_of_fuel : Refusal

-- `dependsOn.every(visit)`, by the visit `go` of one step.
abbrev pub Visit : Type 0
Visit = List Text → List Text → Text → Result Refusal (List Text)

unfoldable pub visit_all : Visit → List Text → List Text → List Text → Result Refusal (List Text)
visit_all go visiting visited [] = ok visited
visit_all go visiting visited (id ∷ ids) =
    go visiting visited id >>= λ seen. visit_all go visiting seen ids

unfoldable pub visit_step :
    Visit → List Text → List Text → Text → Option CollaborationPlanStep → Result Refusal (List Text)
visit_step go visiting visited id none = throw not_ordered
visit_step go visiting visited id (some s) =
    if includes visiting id
    then throw not_ordered
    else visit_all go (id ∷ visiting) visited s.depends_on >>= λ seen. ok (id ∷ seen)

unfoldable pub visit : ℕ → List CollaborationPlanStep → Visit
visit zero steps visiting visited id = throw out_of_fuel
visit (suc fuel) steps visiting visited id =
    if includes visited id
    then ok visited
    else visit_step (visit fuel steps) visiting visited id (step_by_id id steps)

abbrev pub is_ok {ℓ} : {A : Type ℓ} → Result Refusal A → Bool
is_ok (ok _) = true
is_ok (throw _) = false

-- At most as many steps are being visited as there are, so this depth is enough.
unfoldable pub check_collaboration_dependencies : List CollaborationPlanStep → Bool
check_collaboration_dependencies steps =
    let ids = map (λ (s : CollaborationPlanStep). s.id) steps in
    length (dedup ids) == length steps
    && is_ok (visit_all (visit (suc (suc (length steps))) steps) [] [] ids)
