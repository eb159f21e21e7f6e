-- ===== src/Collaboration/Built.antt =====
-- The plans that `buildCollaborationPlan` builds (apps/worker/src/collaborationPlan.ts).
use agentplace.Prelude.{
  ℕ, suc, ◌<◌, max, ◌≤◌, ◌≡◌, refl, true, false, not, ◌&&◌, ◌||◌, List, [], ◌∷◌, ◌++◌, Option,
  length, filter, includes, All, Distinct, Distinct-dedup_from, Distinct-take, length-take-le,
  take-append-drop, includes-dedup_from, includes-take, inl, inr, arith, ◌===◌,
}
use agentplace.Text.{Text, codes, text_eq, eq_text, eq_text_iff, is_empty}
use agentplace.Collaboration.{
  CollaborationPlanStep, check_collaboration_dependencies, specialist_id, specialist_ids,
  specialist_steps, unique_support, allowed_specialists, plan_steps, build_collaboration_plan,
}
use agentplace.Collaboration.Accepted.{
  InOrder, InOrder-accepted, Before, Before-more, other_than_seen,
}

abbrev Met : List Text → List Text → List Text → Type 0
Met seen coming deps = All (λ d. (includes seen d || includes coming d) ≡ true) deps

Met-next :
    (x : Text) (seen coming deps : List Text)
    → Met seen (x ∷ coming) deps
    → Met (x ∷ seen) coming deps
Met-next x seen coming [] _ = tt
Met-next x seen coming (d ∷ deps) (h, hs) = (ground arith, Met-next x seen coming deps hs)

Met-All : (seen deps : List Text) → Met seen [] deps → All (λ d. includes seen d ≡ true) deps
Met-All seen [] _ = tt
Met-All seen (d ∷ deps) (h, hs) = (ground arith, Met-All seen deps hs)

lead_unseen :
    (index : ℕ) (seen : List Text)
    → Before index seen
    → includes seen (codes "lead-synthesis") ≡ false
unfolding eq_text
lead_unseen index [] _ = refl
lead_unseen index (s ∷ seen) (inl e, h) = rw e (lead_unseen index seen h)
lead_unseen index (s ∷ seen) (inr (j, _, e), h) = rw e (lead_unseen index seen h)

-- The steps of the specialists, and then the last one.
specialist_steps-InOrder :
    (allowed index : ℕ) (workers seen : List Text) (last : CollaborationPlanStep)
    → last.id ≡ codes "lead-synthesis"
    → Before index seen
    → includes seen (codes "provider-evidence") ≡ true
    → Met seen (specialist_ids index workers) last.depends_on
    → InOrder seen (specialist_steps allowed index workers ++ last ∷ [])
unfolding specialist_steps specialist_ids
specialist_steps-InOrder allowed index [] seen last l b e m =
    (rw l (lead_unseen index seen b), Met-All seen last.depends_on m, tt)
specialist_steps-InOrder allowed index (w ∷ ws) seen last l b e m = (
  other_than_seen index seen b,
  (e, tt),
  specialist_steps-InOrder allowed (suc index) ws (specialist_id index ∷ seen) last l
      (inr (index, omega arith, refl), Before-more index seen b) (ground arith)
      (Met-next (specialist_id index) seen (specialist_ids (suc index) ws) last.depends_on m),
)

Met-coming : (first : Text) (ids : List Text) → Met (first ∷ []) ids ids
Met-coming first [] = tt
Met-coming first (x ∷ xs) = (ground (arith, eq_text_iff x x), more x xs xs (Met-coming first xs))
  where
    more : (x : Text) (xs ds : List Text) → Met (first ∷ []) xs ds → Met (first ∷ []) (x ∷ xs) ds
    more x xs [] _ = tt
    more x xs (d ∷ ds) (h, hs) = (ground arith, more x xs ds hs)

-- Every plan that is built passes `checkCollaborationDependencies`.
pub build-accepted :
    (lead : Text) (supporting : List Text) (remaining : ℕ) (most : Option ℕ)
    → check_collaboration_dependencies
        (build_collaboration_plan lead supporting remaining most).steps
      ≡ true
unfolding build_collaboration_plan plan_steps eq_text
build-accepted lead supporting remaining most =
    let unique = unique_support lead supporting in
    let allowed = allowed_specialists remaining most in
    InOrder-accepted (plan_steps lead allowed unique) (
      refl,
      tt,
      specialist_steps-InOrder allowed 0 unique (codes "provider-evidence" ∷ []) _ refl
          (inl refl, tt) refl
          (refl, Met-coming (codes "provider-evidence") (specialist_ids 0 unique)),
    )

-- Three specialists at most take part, fewer than the calls that remain, or none where none remains,
-- each once and none of them the lead; those who take part and those left out are together all that
-- were asked.
pub record IsBounded (lead : Text) (supporting taking skipped : List Text) (remaining : ℕ)
    : Type 0 where
  pub few : length taking ≤ 3
  pub paid : length taking < max 1 remaining
  pub distinct : Distinct taking
  pub others : includes taking lead ≡ false
  pub together : taking ++ skipped ≡ unique_support lead supporting

no_lead :
    (lead : Text) (ids : List Text)
    → includes (filter (λ id. not (is_empty id) && not (id === lead)) ids) lead ≡ false
no_lead lead [] = refl
no_lead lead (x ∷ xs) = ground (arith, no_lead lead xs)

-- In a plan that is built, three specialists at most take part, fewer than the calls that remain, or
-- none where none remains, each once and none of them the lead; those who take part and those left
-- out are together all that were asked.
pub build-IsBounded :
    (lead : Text) (supporting : List Text) (remaining : ℕ) (most : Option ℕ)
    → IsBounded lead supporting
        (build_collaboration_plan lead supporting remaining most).participating_specialist_ids
        (build_collaboration_plan lead supporting remaining most).skipped_specialist_ids
        remaining
unfolding build_collaboration_plan unique_support allowed_specialists
build-IsBounded lead supporting remaining most =
    let asked = filter (λ id. not (is_empty id) && not (id === lead)) supporting in
    let unique = unique_support lead supporting in
    let allowed = allowed_specialists remaining most in
    let short = length-take-le allowed unique in
    record {
      few = ground arith;
      paid = ground arith;
      distinct = Distinct-take allowed unique (Distinct-dedup_from [] asked);
      others =
          includes-take allowed unique lead
            (ground (arith, includes-dedup_from [] asked lead, no_lead lead supporting));
      together = take-append-drop allowed unique;
    }
