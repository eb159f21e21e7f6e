-- ===== src/Authority/Mandates/Revoked.antt =====
-- A revoked mandate never returns, packages/authority/src/index.ts.
use agentplace.Prelude.{
  ℕ, ◌≡◌, refl, ap, sym, ◌∙◌, subst, Bool, true, false, List, [], ◌∷◌, Option, some, ok, arith, map,
  throw_if-eq-ok, >>=-eq-ok, >>-eq-ok, if◌then◌else◌, Bool-cases, inl, inr, ◌===◌,
}
use agentplace.Text.{Text, text_eq, eq_text_iff}
use agentplace.Authority.Types.{AuthorityEnvironment, WalletMode, MandatePolicyInput, revoked}
use agentplace.Authority.Inputs.{is_present}
use agentplace.Authority.Normalize.{normalize_policy}
use agentplace.Authority.Store.{
  Mandate, Store, find_mandate, update, expire_one, expire_mandates, is_revoked,
  validate_references,
}
use agentplace.Authority.Mandates.{
  CreateMandateInput, revoke_one, revoke_all_mandates, create_transaction, revise_row, set_row,
  revised, with_status, NextStatus, to_active, to_paused, to_revoked, Call, step, run, new_mandate,
}
use agentplace.Authority.Mandates.Keeps.{step-Holds}
use agentplace.Authority.Mandates.Rows.{found_id}

module _ (id : Text) (m : Mandate) (gone : m.status ≡ revoked) where
  abbrev Kept : Store → Type 0
  Kept s = find_mandate id s.mandates ≡ some m

  find_mandate-map :
      (f : Mandate → Mandate) (ms : List Mandate)
      → ((x : Mandate) → (f x).id ≡ x.id)
      → f m ≡ m
      → find_mandate id ms ≡ some m
      → find_mandate id (map f ms) ≡ some m
  unfolding find_mandate
  find_mandate-map f [] i e h = h
  find_mandate-map f (x ∷ ms) i e h = elim (Bool-cases (x.id === id)) [
    | inl y ↦
        let same : x ≡ m = ground arith in
        hit (f x) ((f x).id === id) (find_mandate id (map f ms)) (rw (i x) y) (ap f same ∙ e)
    | inr n ↦ rw (i x, n) (find_mandate-map f ms i e (rw n at h))
  ]
    where
      hit :
          (x : Mandate) (b : Bool) (r : Option Mandate)
          → b ≡ true
          → x ≡ m
          → (if b then some x else r) ≡ some m
      hit x b r t e = rw t (ap some e)

  find_mandate-update :
      (j : Text) (f : Mandate → Mandate) (ms : List Mandate)
      → (j === id) ≡ false
      → ((x : Mandate) → (f x).id ≡ x.id)
      → find_mandate id (update j f ms) ≡ find_mandate id ms
  unfolding find_mandate update
  find_mandate-update j f [] n i = refl
  find_mandate-update j f (x ∷ ms) n i = elim (Bool-cases (x.id === j)) [
    | inl y ↦ let e : x.id ≡ j = (eq_text_iff x.id j).0 y in rw y (rw (i x, e, n))
    | inr k ↦ rw k (ap (λ r. if x.id === id then some x else r) (find_mandate-update j f ms n i))
  ]

  -- A row that is not revoked stands under another id.
  other_id :
      (j : Text) (s : Store) (x : Mandate)
      → Kept s
      → find_mandate j s.mandates ≡ some x
      → is_revoked x.status ≡ false
      → (x.id === id) ≡ false
  other_id j s x h found live = elim (Bool-cases (x.id === id)) [
    | inl y ↦
        let e : j ≡ id = sym (found_id j s.mandates x found) ∙ (eq_text_iff x.id id).0 y in
        let same : x ≡ m =
          some_inj (sym (subst (λ k. find_mandate k s.mandates ≡ some x) e found) ∙ h) in
        ground arith
    | inr n ↦ n
  ]
    where
      some_inj : {a b : Mandate} → some a ≡ some b → a ≡ b
      some_inj p = cc

  -- An id under which no row stands.
  new_id :
      (j : Text) (s : Store)
      → Kept s
      → is_present (find_mandate j s.mandates) ≡ false
      → (j === id) ≡ false
  new_id j s h free = elim (Bool-cases (j === id)) [
    | inl y ↦
        let there : find_mandate j s.mandates ≡ some m =
          subst (λ k. find_mandate k s.mandates ≡ some m) (sym ((eq_text_iff j id).0 y)) h in
        y ∙ (sym (ap is_present there) ∙ free)
    | inr n ↦ n
  ]

  with_status_same_id :
      (next : NextStatus) (now : ℕ) (x : Mandate) → (with_status next now x).id ≡ x.id
  unfolding with_status
  with_status_same_id to_active now x = refl
  with_status_same_id to_paused now x = refl
  with_status_same_id to_revoked now x = refl

  module _ (now : ℕ) where
    expire_mandates-Kept : (s : Store) → Kept s → Kept (expire_mandates now s)
    unfolding expire_mandates expire_one
    expire_mandates-Kept s h =
        find_mandate-map (expire_one now) s.mandates (λ x. ground arith) (ground arith) h

    revoke_all-Kept :
        (e : Option AuthorityEnvironment) (s : Store)
        → Kept s
        → Kept (revoke_all_mandates e now s).0
    unfolding revoke_all_mandates revoke_one
    revoke_all-Kept e s h =
        find_mandate-map (revoke_one e now) s.mandates (λ x. ground arith) (ground arith) h

    create_transaction-Kept :
        (i : CreateMandateInput) (j : Text) (s s' : Store)
        → Kept s
        → create_transaction i j now s ≡ ok s'
        → Kept s'
    unfolding create_transaction find_mandate
    create_transaction-Kept i j s s' h e =
        let (mode, _, e₁) = >>=-eq-ok (validate_references _ _ _ _) _ e in
        let (q, n, e₂) = >>=-eq-ok (normalize_policy _ _ _ _) _ e₁ in
        let (free, e₃) = throw_if-eq-ok _ _ _ e₂ in
        let fresh : (j === id) ≡ false = new_id j s h free in
        let grown : new_mandate i j q now ∷ s.mandates ≡ s'.mandates = ground arith in
        subst (λ ms. find_mandate id ms ≡ some m) grown (rw fresh h)

    revise_row-Kept :
        (j : Text) (expected : ℕ) (p : MandatePolicyInput) (s s' : Store) (x : Mandate)
        → Kept s
        → find_mandate j s.mandates ≡ some x
        → revise_row expected p now s x ≡ ok s'
        → Kept s'
    unfolding revise_row
    revise_row-Kept j expected p s s' x h found e =
        let (live, e₁) = throw_if-eq-ok _ _ _ e in
        let (_, e₂) = throw_if-eq-ok _ _ _ e₁ in
        let (mode, _, e₃) = >>=-eq-ok (validate_references _ _ _ _) _ e₂ in
        let (q, n, e₄) = >>=-eq-ok (normalize_policy _ _ _ _) _ e₃ in
        let e : update x.id (revised q) s.mandates ≡ s'.mandates = ground arith in
        subst (λ ms. find_mandate id ms ≡ some m) e
          (find_mandate-update x.id (revised q) s.mandates (other_id j s x h found live)
              (λ y. unfold revised in refl)
            ∙ h)

    set_row-Kept :
        (j : Text) (next : NextStatus) (s s' : Store) (x : Mandate) (mode : WalletMode)
        → Kept s
        → find_mandate j s.mandates ≡ some x
        → set_row next now s x mode ≡ ok s'
        → Kept s'
    unfolding set_row
    set_row-Kept j next s s' x mode h found e =
        let (live, e₁) = throw_if-eq-ok _ _ _ e in
        let (_, e₂) = throw_if-eq-ok _ _ _ e₁ in
        let (_, _, e₃) = >>-eq-ok _ _ e₂ in
        let (_, e₄) = throw_if-eq-ok _ _ _ e₃ in
        let written : update x.id (with_status next now) s.mandates ≡ s'.mandates = ground arith in
        subst (λ ms. find_mandate id ms ≡ some m) written
          (find_mandate-update x.id (with_status next now) s.mandates (other_id j s x h found live)
              (with_status_same_id next now)
            ∙ h)

  step-Kept : (now : ℕ) (c : Call) (s : Store) → Kept s → Kept (step now c s)
  step-Kept now =
      step-Holds Kept now (expire_mandates-Kept now) (revoke_all-Kept now)
        (create_transaction-Kept now) (revise_row-Kept now) (set_row-Kept now)

  -- Once a mandate is revoked, no sequence of calls changes it in any way: not its status, its
  -- policy or its revision.
  pub run-revoked :
      (cs : List (ℕ × Call)) (s : Store)
      → find_mandate id s.mandates ≡ some m
      → find_mandate id (run cs s).mandates ≡ some m
  unfolding run
  run-revoked [] s h = h
  run-revoked ((now, c) ∷ cs) s h = run-revoked cs (step now c s) (step-Kept now c s h)
