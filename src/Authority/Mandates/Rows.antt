-- ===== src/Authority/Mandates/Rows.antt =====
-- Properties of rows that the calls on mandates (packages/authority/src/index.ts) keep.
use agentplace.Prelude.{
  ℕ, ◌≡◌, subst, true, false, ◌&&◌, List, [], ◌∷◌, Option, some, ok, >>=-eq-ok, throw_if-eq-ok,
  >>-eq-ok, sym, arith, map, All, Bool-cases, inl, inr, ◌===◌, if◌then◌else◌,
}
use agentplace.Text.{Text, text_eq, eq_text_iff}
use agentplace.Authority.Types.{AuthorityEnvironment, WalletMode, MandatePolicyInput, is_act}
use agentplace.Authority.Normalize.{normalize_policy}
use agentplace.Authority.Store.{
  Mandate, Store, find_mandate, update, expire_one, expire_mandates, is_standing, is_revoked,
  validate_references,
}
use agentplace.Authority.Mandates.{
  revoke_one, CreateMandateInput, new_mandate, create_transaction, revised, revise_row, NextStatus,
  transition, activation_checks, with_status, set_row, revoke_all_mandates, step, Call,
  is_to_active,
}
use agentplace.Authority.Mandates.Keeps.{step-Holds}

-- A row found under an id is stored under it.
pub found_id :
    (id : Text) (ms : List Mandate) (m : Mandate) → find_mandate id ms ≡ some m → m.id ≡ id
unfolding find_mandate
found_id id [] m e = cc
found_id id (x ∷ ms) m e = elim (Bool-cases (x.id === id)) [
  | inl h ↦ let same : x ≡ m = ground arith in (eq_text_iff m.id id).0 (rw same at h)
  | inr h ↦ found_id id ms m (rw h at e)
]

module _ {ℓ} (P : Mandate → Type ℓ) where
  All-map :
      (f : Mandate → Mandate)
      → ((m : Mandate) → P m → P (f m))
      → (ms : List Mandate) → All P ms
      → All P (map f ms)
  All-map f h [] _ = tt
  All-map f h (m ∷ ms) (p, k) = (h m p, All-map f h ms k)

  All-update :
      (id : Text) (f : Mandate → Mandate) (ms : List Mandate) (m : Mandate)
      → find_mandate id ms ≡ some m
      → P (f m)
      → All P ms
      → All P (update id f ms)
  unfolding find_mandate update
  All-update id f [] m e p _ = tt
  All-update id f (x ∷ ms) m e p (q, k) = elim (Bool-cases (x.id === id)) [
    | inl h ↦ let same : x ≡ m = ground arith in rw h (rw same (p, k))
    | inr h ↦ rw h (q, All-update id f ms m (rw h at e) p k)
  ]

  All-find :
      (id : Text) (ms : List Mandate) (m : Mandate)
      → find_mandate id ms ≡ some m
      → All P ms
      → P m × (m.id ≡ id)
  unfolding find_mandate
  All-find id [] m e _ = cc
  All-find id (x ∷ ms) m e (q, k) = elim (Bool-cases (x.id === id)) [
    | inl h ↦
        let same : x ≡ m = ground arith in (rw same at q, (eq_text_iff m.id id).0 (rw same at h))
    | inr h ↦ All-find id ms m (rw h at e) k
  ]

-- A property of rows that the changes of a row keep is kept by every call: the properties below
-- speak of the row and the policy that the code has at hand.
module _ (P : Mandate → Type 0) (now : ℕ) (expire : (m : Mandate) → P m → P (expire_one now m))
    (revoke : (e : Option AuthorityEnvironment) (m : Mandate) → P m → P (revoke_one e now m))
    (create : (i : CreateMandateInput) (id : Text) (mode : WalletMode) (q : MandatePolicyInput)
      → normalize_policy i.policy (some mode) i.activate now ≡ ok q
      → P (new_mandate i id q now))
    (revise : (m : Mandate) (p q : MandatePolicyInput) (mode : WalletMode)
      → P m
      → is_revoked m.status ≡ false
      → normalize_policy p (some mode) (is_standing m.status) now ≡ ok q
      → P (revised q m))
    (set : (m : Mandate) (next : NextStatus) (mode : WalletMode)
      → P m
      → transition m.status next ≡ true
      → (if is_to_active next && is_act m.policy.authority_level
          then activation_checks mode m.policy
          else ok tt)
        ≡ ok tt
      → P (with_status next now m)) where
  abbrev Holds : Store → Type 0
  Holds s = All P s.mandates

  expire_mandates-Holds : (s : Store) → Holds s → Holds (expire_mandates now s)
  unfolding expire_mandates
  expire_mandates-Holds s h = All-map P (expire_one now) expire s.mandates h

  create_transaction-Holds :
      (i : CreateMandateInput) (id : Text) (s s' : Store)
      → Holds s
      → create_transaction i id now s ≡ ok s'
      → Holds s'
  unfolding create_transaction
  create_transaction-Holds i id s s' h e =
      let (mode, _, e₁) = >>=-eq-ok (validate_references _ _ _ _) _ e in
      let (q, n, e₂) = >>=-eq-ok (normalize_policy _ _ _ _) _ e₁ in
      let (_, e₃) = throw_if-eq-ok _ _ _ e₂ in
      let k : new_mandate i id q now ∷ s.mandates ≡ s'.mandates = ground arith in
      let both : All P (new_mandate i id q now ∷ s.mandates) = (create i id mode q n, h) in
      subst (All P) k both

  row_changed :
      (id : Text) (s s' : Store) (m : Mandate) (f : Mandate → Mandate)
      → Holds s
      → find_mandate id s.mandates ≡ some m
      → P (f m)
      → update m.id f s.mandates ≡ s'.mandates
      → Holds s'
  row_changed id s s' m f h found p e =
      let same = found_id id s.mandates m found in
      subst (All P) e (
        All-update P m.id f s.mandates m
          (subst (λ k. find_mandate k s.mandates ≡ some m) (sym same) found) p h)

  held : (id : Text) (s : Store) (m : Mandate) → Holds s → find_mandate id s.mandates ≡ some m → P m
  held id s m h found = (All-find P id s.mandates m found h).0

  revise_row-Holds :
      (id : Text) (expected : ℕ) (p : MandatePolicyInput) (s s' : Store) (m : Mandate)
      → Holds s
      → find_mandate id s.mandates ≡ some m
      → revise_row expected p now s m ≡ ok s'
      → Holds s'
  unfolding revise_row
  revise_row-Holds id expected p s s' m h found e =
      let (live, e₁) = throw_if-eq-ok _ _ _ e in
      let (_, e₂) = throw_if-eq-ok _ _ _ e₁ in
      let (mode, _, e₃) = >>=-eq-ok (validate_references _ _ _ _) _ e₂ in
      let (q, n, e₄) = >>=-eq-ok (normalize_policy _ _ _ _) _ e₃ in
      row_changed id s s' m (revised q) h found (revise m p q mode (held id s m h found) live n)
        (ground arith)

  set_row-Holds :
      (id : Text) (next : NextStatus) (s s' : Store) (m : Mandate) (mode : WalletMode)
      → Holds s
      → find_mandate id s.mandates ≡ some m
      → set_row next now s m mode ≡ ok s'
      → Holds s'
  unfolding set_row
  set_row-Holds id next s s' m mode h found e =
      let (live, e₁) = throw_if-eq-ok _ _ _ e in
      let (_, e₂) = throw_if-eq-ok _ _ _ e₁ in
      let (_, checked, e₃) = >>-eq-ok _ _ e₂ in
      let (permitted, e₄) = throw_if-eq-ok _ _ _ e₃ in
      row_changed id s s' m (with_status next now) h found
        (set m next mode (held id s m h found) (ground arith) checked) (ground arith)

  revoke_all_mandates-Holds :
      (e : Option AuthorityEnvironment) (s : Store)
      → Holds s
      → Holds (revoke_all_mandates e now s).0
  unfolding revoke_all_mandates
  revoke_all_mandates-Holds e s h = All-map P (revoke_one e now) (revoke e) s.mandates h

  pub step-All : (c : Call) (s : Store) → All P s.mandates → All P (step now c s).mandates
  step-All =
      step-Holds (λ s. All P s.mandates) now expire_mandates-Holds revoke_all_mandates-Holds
        create_transaction-Holds revise_row-Holds set_row-Holds
