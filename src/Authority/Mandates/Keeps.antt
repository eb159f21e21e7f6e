-- ===== src/Authority/Mandates/Keeps.antt =====
-- What the calls on mandates (packages/authority/src/index.ts) do to each row.
use agentplace.Prelude.{ℕ, ◌≡◌, refl, subst, Option, none, some, ok, throw}
use agentplace.Text.{Text, text_eq}
use agentplace.Authority.Types.{AuthorityEnvironment, WalletMode, MandatePolicyInput}
use agentplace.Authority.Inputs.{Outcome}
use agentplace.Authority.Store.{
  Mandate, Store, find_mandate, expire_mandates, get_mandate, reread, on_row,
}
use agentplace.Authority.Mandates.{
  CreateMandateInput, create_transaction, create_input, create_from, created_or_fail,
  create_mandate, revise_row, revise_mandate, NextStatus, set_row, set_joined, set_mandate_status,
  revoke_all_mandates, step, Call, creates, revises, sets, revokes_all, expires,
}

-- A property of the store that the parts of the calls keep is kept by every call.
module _ (Holds : Store → Type 0) (now : ℕ)
    (expire : (s : Store) → Holds s → Holds (expire_mandates now s))
    (revoke_all : (e : Option AuthorityEnvironment) (s : Store)
      → Holds s
      → Holds (revoke_all_mandates e now s).0)
    (create : (i : CreateMandateInput) (id : Text) (s s' : Store)
      → Holds s
      → create_transaction i id now s ≡ ok s'
      → Holds s')
    (revise : (id : Text) (expected : ℕ) (p : MandatePolicyInput) (s s' : Store) (m : Mandate)
      → Holds s
      → find_mandate id s.mandates ≡ some m
      → revise_row expected p now s m ≡ ok s'
      → Holds s')
    (set : (id : Text) (next : NextStatus) (s s' : Store) (m : Mandate) (mode : WalletMode)
      → Holds s
      → find_mandate id s.mandates ≡ some m
      → set_row next now s m mode ≡ ok s'
      → Holds s') where
  reread-Holds :
      (id : Text) (s : Store) (o : Outcome Store)
      → Holds s
      → ((s' : Store) → o ≡ ok s' → Holds s')
      → Holds (reread id now s o).0
  unfolding reread get_mandate
  reread-Holds id s (throw e) h k = h
  reread-Holds id s (ok s') h k = expire s' (k s' refl)

  created_or_fail-Holds :
      (r : Store × Outcome (Option Mandate)) → Holds r.0 → Holds (created_or_fail r).0
  unfolding created_or_fail
  created_or_fail-Holds (s, ok none) k = k
  created_or_fail-Holds (s, ok (some m)) k = k
  created_or_fail-Holds (s, throw e) k = k

  create_from-Holds :
      (o : Outcome (CreateMandateInput × Text)) (s : Store)
      → Holds s
      → Holds (create_from o now s).0
  unfolding create_from
  create_from-Holds (throw e) s h = h
  create_from-Holds (ok (i, id)) s h =
      created_or_fail-Holds (reread id now s (create_transaction i id now s))
        (reread-Holds id s _ h (λ s' e. create i id s s' h e))

  create_mandate-Holds :
      (i : CreateMandateInput) (fresh : Text) (s : Store)
      → Holds s
      → Holds (create_mandate i fresh now s).0
  unfolding create_mandate
  create_mandate-Holds i fresh s h = create_from-Holds (create_input i fresh) s h

  on_row-Holds :
      {R : Type 0} (o : Option R) (s s' : Store) (f : R → Outcome Store)
      → Holds s
      → ((r : R) → o ≡ some r → f r ≡ ok s' → Holds s')
      → on_row o s f ≡ ok s'
      → Holds s'
  unfolding on_row
  on_row-Holds none s s' f h k e = let same : s ≡ s' = cc in subst (λ (t : Store). Holds t) same h
  on_row-Holds (some r) s s' f h k e = k r refl e

  revise_mandate-Holds :
      (id : Text) (expected : ℕ) (p : MandatePolicyInput) (s : Store)
      → Holds s
      → Holds (revise_mandate id expected p now s).0
  unfolding revise_mandate
  revise_mandate-Holds id expected p s h = reread-Holds id s _ h (λ s' e.
      on_row-Holds (find_mandate id s.mandates) s s' (revise_row expected p now s) h
        (λ m found r. revise id expected p s s' m h found r) e)

  set_joined-Holds :
      (id : Text) (next : NextStatus) (s s' : Store) (m : Mandate)
      → Holds s
      → find_mandate id s.mandates ≡ some m
      → set_joined next now s m ≡ ok s'
      → Holds s'
  unfolding set_joined
  set_joined-Holds id next s s' m h found e =
      on_row-Holds _ s s' _ h (λ a _ r. set id next s s' m a.mode h found r) e

  set_mandate_status-Holds :
      (id : Text) (next : NextStatus) (s : Store)
      → Holds s
      → Holds (set_mandate_status id next now s).0
  unfolding set_mandate_status
  set_mandate_status-Holds id next s h =
      let s₁ = expire_mandates now s in
      let h₁ = expire s h in
      reread-Holds id s₁ _ h₁ (λ s' e.
        on_row-Holds (find_mandate id s₁.mandates) s₁ s' (set_joined next now s₁) h₁
          (λ m found r. set_joined-Holds id next s₁ s' m h₁ found r) e)

  pub step-Holds : (c : Call) (s : Store) → Holds s → Holds (step now c s)
  unfolding step
  step-Holds (creates i fresh) s h = create_mandate-Holds i fresh s h
  step-Holds (revises id expected p) s h = revise_mandate-Holds id expected p s h
  step-Holds (sets id next) s h = set_mandate_status-Holds id next s h
  step-Holds (revokes_all e) s h = revoke_all e s h
  step-Holds expires s h = expire s h
