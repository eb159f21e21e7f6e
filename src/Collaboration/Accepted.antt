-- ===== src/Collaboration/Accepted.antt =====
-- `checkCollaborationDependencies` accepts what `buildCollaborationPlan` builds
-- (apps/worker/src/collaborationPlan.ts).
use agentplace.Prelude.{
  ℕ, suc, ◌<◌, ◌≡◌, refl, sym, ap, ◌∙◌, true, false, List, [], ◌∷◌, none, some, length, map, drop,
  includes, dedup_from, All, ok, ◌>>=◌, Bool-cases, inl, inr, ◌⊎◌, arith, ◌===◌, ◌==◌,
}
use agentplace.Text.{Text, codes, text_eq, eq_text, eq_text_iff}
use agentplace.Decimal.Digits.{to_text-injective}
use agentplace.Collaboration.{
  CollaborationPlanStep, step_by_id, visit, visit_step, visit_all, is_ok,
  check_collaboration_dependencies, specialist_id,
}

abbrev ids_of : List CollaborationPlanStep → List Text
ids_of steps = map (λ (s : CollaborationPlanStep). s.id) steps

-- Behind steps with the ids `seen`, every step has a new id and depends on steps before it.
abbrev pub InOrder : List Text → List CollaborationPlanStep → Type 0
InOrder seen [] = Unit {0}
InOrder seen (s ∷ steps) =
    (includes seen s.id ≡ false)
    × All (λ d. includes seen d ≡ true) s.depends_on
    × InOrder (s.id ∷ seen) steps

no_step :
    (id : Text) (seen : List Text) (steps : List CollaborationPlanStep)
    → InOrder seen steps
    → includes seen id ≡ true
    → step_by_id id steps ≡ none
unfolding step_by_id
no_step id seen [] _ _ = refl
no_step id seen (s ∷ steps) (f, _, h) k = elim (Bool-cases (s.id === id)) [
  | inl y ↦
      let same : s.id ≡ id = (eq_text_iff s.id id).0 y in
      let clash : false ≡ true = sym f ∙ (ap (includes seen) same ∙ k) in absurd (never clash)
  | inr n ↦ rw (no_step id (s.id ∷ seen) steps h (ground arith), n) refl
]
  where
    never : false ≡ true → ⊥
    never c = cc

still_found :
    (s : CollaborationPlanStep) (steps ts : List CollaborationPlanStep)
    → All (λ t. step_by_id t.id steps ≡ some t) ts
    → All (λ t. step_by_id t.id (s ∷ steps) ≡ some t) ts
unfolding step_by_id
still_found s steps [] _ = tt
still_found s steps (t ∷ ts) (h, hs) = (rw h refl, still_found s steps ts hs)

found-InOrder :
    (seen : List Text) (steps : List CollaborationPlanStep)
    → InOrder seen steps
    → All (λ t. step_by_id t.id steps ≡ some t) steps
unfolding step_by_id
found-InOrder seen [] _ = tt
found-InOrder seen (s ∷ steps) (f, _, h) = (
  rw
      (
        no_step s.id (s.id ∷ seen) steps h (ground (arith, eq_text_iff s.id s.id)),
        (eq_text_iff s.id s.id).1 refl,
      )
      refl,
  still_found s steps steps (found-InOrder (s.id ∷ seen) steps h),
)

dedup-InOrder :
    (seen : List Text) (steps : List CollaborationPlanStep)
    → InOrder seen steps
    → dedup_from seen (ids_of steps) ≡ ids_of steps
dedup-InOrder seen [] _ = refl
dedup-InOrder seen (s ∷ steps) (f, _, h) =
    rw f (ap (◌∷◌ s.id) (dedup-InOrder (s.id ∷ seen) steps h))

module _ (fuel : ℕ) (steps : List CollaborationPlanStep) where
  -- Steps that were visited are not visited again.
  visited_already :
      (visiting seen ids : List Text)
      → All (λ d. includes seen d ≡ true) ids
      → visit_all (visit (suc fuel) steps) visiting seen ids ≡ ok seen
  unfolding visit_all visit ◌>>=◌
  visited_already visiting seen [] _ = refl
  visited_already visiting seen (d ∷ ids) (h, hs) = rw h (visited_already visiting seen ids hs)

  visit-InOrder :
      (seen : List Text) (ts : List CollaborationPlanStep)
      → InOrder seen ts
      → All (λ t. step_by_id t.id steps ≡ some t) ts
      → is_ok (visit_all (visit (suc (suc fuel)) steps) [] seen (ids_of ts)) ≡ true
  unfolding visit_all visit visit_step ◌>>=◌
  visit-InOrder seen [] _ _ = refl
  visit-InOrder seen (t ∷ ts) (f, d, h) (k, ks) =
      rw (f, k, visited_already (t.id ∷ []) seen t.depends_on d)
        (visit-InOrder (t.id ∷ seen) ts h ks)

-- Steps in order are accepted.
pub InOrder-accepted :
    (steps : List CollaborationPlanStep)
    → InOrder [] steps
    → check_collaboration_dependencies steps ≡ true
unfolding check_collaboration_dependencies
InOrder-accepted steps h =
    rw (dedup-InOrder [] steps h, length-ids steps, same_length (length steps))
      (visit-InOrder (length steps) steps [] steps h (found-InOrder [] steps h))
  where
    length-ids : (xs : List CollaborationPlanStep) → length (ids_of xs) ≡ length xs
    length-ids [] = refl
    length-ids (x ∷ xs) = ap suc (length-ids xs)

    same_length : (n : ℕ) → (n == n) ≡ true
    same_length n = ground arith

specialist_id-injective : (m n : ℕ) → specialist_id m ≡ specialist_id n → m ≡ n
specialist_id-injective m n e = omega (arith, to_text-injective (suc m) (suc n) (ap (drop 11) e))

-- Among the ids seen are only those of specialists before the index, and of the evidence.
abbrev pub Before : ℕ → List Text → Type 0
Before index seen =
    All (λ s. (s ≡ codes "provider-evidence") ⊎ ((j : ℕ) × (j < index) × (s ≡ specialist_id j)))
      seen

pub Before-more : (index : ℕ) (seen : List Text) → Before index seen → Before (suc index) seen
Before-more index [] _ = tt
Before-more index (s ∷ seen) (inl e, h) = (inl e, Before-more index seen h)
Before-more index (s ∷ seen) (inr (j, lt, e), h) =
    (inr (j, omega arith, e), Before-more index seen h)

pub other_than_seen :
    (index : ℕ) (seen : List Text) → Before index seen → includes seen (specialist_id index) ≡ false
unfolding eq_text
other_than_seen index [] _ = refl
other_than_seen index (s ∷ seen) (inl e, h) = rw e (other_than_seen index seen h)
other_than_seen index (s ∷ seen) (inr (j, lt, e), h) =
    elim (Bool-cases (s === specialist_id index)) [
      | inl y ↦
          let same : j ≡ index =
            specialist_id-injective j index (sym e ∙ (eq_text_iff s (specialist_id index)).0 y) in
          absurd (omega arith)
      | inr n ↦ rw n (other_than_seen index seen h)
    ]
