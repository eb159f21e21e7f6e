-- ===== src/Security/Rows.antt =====
-- What the loops of the emergency stop of packages/security/src/index.ts do to each row.
use agentplace.Prelude.{
  ◌≡◌, refl, sym, ap, ◌∙◌, subst, Bool, true, false, not, ◌&&◌, ◌||◌, List, [], ◌∷◌, Option, none,
  some, if◌then◌else◌, map, filter, any, All, Bool-cases, Option-cases, inl, inr, arith, ◌===◌,
  ===-comm,
}
use agentplace.Text.{Text, text_eq, eq_text_iff}
use agentplace.Security.{
  Action, Attempt, AttemptStatus, Progress, rejected, is_cancellable, is_target, protected_attempt,
  reject, stop_unprotected, stop_locked_action, stop_each, stop_all,
}

abbrev pub is_safe : Option AttemptStatus → Bool
is_safe none = false
is_safe (some _) = true

-- The action as the code's own search leaves it.
unfoldable pub left_action : List Attempt → Action → Action
left_action attempts a =
    if is_cancellable a.status && not (is_safe (protected_attempt a.id attempts))
    then record a { status = rejected }
    else a

module _ (attempts : List Attempt) where
  abbrev is_kept : Text → Bool
  is_kept id = is_safe (protected_attempt id attempts)

  abbrev waits : List Action → Text → Bool
  waits todo id = any (λ (a : Action). a.id === id && is_cancellable a.status) todo

  -- What can still be cancelled is protected, exempt, or among those to do.
  abbrev Pending : (Text → Bool) → List Action → List Action → Type 0
  Pending exempt todo xs =
      All
        (λ (x : Action).
          is_cancellable x.status ≡ true → (is_kept x.id || exempt x.id || waits todo x.id) ≡ true)
        xs

  reject-Pending :
      (exempt : Text → Bool) (a : Action) (todo xs : List Action)
      → Pending exempt (a ∷ todo) xs
      → Pending exempt todo (reject a.id xs)
  unfolding reject
  reject-Pending exempt a todo [] _ = tt
  reject-Pending exempt a todo (x ∷ xs) (h, hs) =
      elim (Bool-cases (x.id === a.id && is_cancellable x.status)) [
        | inl y ↦ rw y (λ c. cc, reject-Pending exempt a todo xs hs)
        | inr n ↦
            rw n (λ c. ground (arith, h c, ===-comm x.id a.id), reject-Pending exempt a todo xs hs)
      ]

  skip-Pending :
      (exempt : Text → Bool) (a : Action) (todo xs : List Action)
      → (is_cancellable a.status ≡ true → is_kept a.id ≡ true)
      → Pending exempt (a ∷ todo) xs
      → Pending exempt todo xs
  skip-Pending exempt a todo [] k _ = tt
  skip-Pending exempt a todo (x ∷ xs) k (h, hs) =
      (λ c. skipped (h c), skip-Pending exempt a todo xs k hs)
    where
      skipped :
          (is_kept x.id || exempt x.id || waits (a ∷ todo) x.id) ≡ true
          → (is_kept x.id || exempt x.id || waits todo x.id) ≡ true
      skipped d = elim (Bool-cases (a.id === x.id)) [
        | inl y ↦
            let same : is_kept a.id ≡ is_kept x.id = ap is_kept ((eq_text_iff a.id x.id).0 y) in
            ground (arith, k)
        | inr n ↦ ground arith
      ]

  reject-stopped :
      (id : Text) (xs : List Action)
      → is_kept id ≡ false
      → map (left_action attempts) (reject id xs) ≡ map (left_action attempts) xs
  unfolding reject left_action
  reject-stopped id [] n = refl
  reject-stopped id (x ∷ xs) n = elim (Bool-cases (x.id === id && is_cancellable x.status)) [
    | inl y ↦
        let same : is_kept x.id ≡ false = ap is_kept ((eq_text_iff x.id id).0 (ground arith)) ∙ n in
        let c : is_cancellable x.status ≡ true = ground arith in
        rw (y, same, c) (ap (◌∷◌ (record x { status = rejected })) (reject-stopped id xs n))
    | inr m ↦ rw m (ap (◌∷◌ (left_action attempts x)) (reject-stopped id xs n))
  ]

  none-Pending-stopped :
      (xs : List Action) → Pending (λ _. false) [] xs → map (left_action attempts) xs ≡ xs
  unfolding left_action
  none-Pending-stopped [] _ = refl
  none-Pending-stopped (x ∷ xs) (h, hs) =
      elim (Bool-cases (is_cancellable x.status && not (is_kept x.id))) [
        | inl y ↦ absurd (clash (h (ground arith)) y)
        | inr n ↦ rw n (ap (◌∷◌ x) (none-Pending-stopped xs hs))
      ]
    where
      clash :
          (is_kept x.id || false || false) ≡ true
          → (is_cancellable x.status && not (is_kept x.id)) ≡ true
          → ⊥
      clash a b = ground arith

  locked-Pending :
      (exempt : Text → Bool) (a : Action) (todo : List Action) (p : Progress)
      → Pending exempt (a ∷ todo) p.actions
      → Pending exempt todo (stop_locked_action attempts a p).actions
        × (map (left_action attempts) (stop_locked_action attempts a p).actions
            ≡ map (left_action attempts) p.actions)
  unfolding stop_locked_action stop_unprotected
  locked-Pending exempt a todo p h = elim (Bool-cases (is_cancellable a.status)) [
    | inl c ↦ elim (Option-cases (protected_attempt a.id attempts)) [
      | inl n ↦
          rw (c, n)
            (reject-Pending exempt a todo p.actions h, reject-stopped a.id p.actions (ap is_safe n))
      | inr (s, e) ↦ rw (c, e) (skip-Pending exempt a todo p.actions (λ _. ap is_safe e) h, refl)
    ]
    | inr n ↦ rw n (skip-Pending exempt a todo p.actions (λ c. absurd (never (sym n ∙ c))) h, refl)
  ]
    where
      never : false ≡ true → ⊥
      never e = cc

  stop_each-Pending :
      (exempt : Text → Bool) (todo : List Action) (p : Progress)
      → Pending exempt todo p.actions
      → Pending exempt [] (stop_each attempts todo p).actions
        × (map (left_action attempts) (stop_each attempts todo p).actions
            ≡ map (left_action attempts) p.actions)
  unfolding stop_each
  stop_each-Pending exempt [] p h = (h, refl)
  stop_each-Pending exempt (a ∷ todo) p h =
      let (next, same) = locked-Pending exempt a todo p h in
      let (done, rest) = stop_each-Pending exempt todo (stop_locked_action attempts a p) next in
      (done, rest ∙ same)

  -- Those that a test picks are among those to do.
  waits_more :
      (q : Action → Bool) (a : Action) (todo xs : List Action)
      → All
          (λ (x : Action). q x ≡ true → is_cancellable x.status ≡ true → waits todo x.id ≡ true)
          xs
      → All
          (λ (x : Action).
            q x ≡ true → is_cancellable x.status ≡ true → waits (a ∷ todo) x.id ≡ true)
          xs
  waits_more q a todo [] _ = tt
  waits_more q a todo (x ∷ xs) (h, hs) = (λ t c. ground (arith, h t c), waits_more q a todo xs hs)

  waits-filter :
      (q : Action → Bool) (xs : List Action)
      → All
          (λ (x : Action).
            q x ≡ true → is_cancellable x.status ≡ true → waits (filter q xs) x.id ≡ true)
          xs
  waits-filter q [] = tt
  waits-filter q (x ∷ xs) = elim (Bool-cases (q x)) [
    | inl y ↦
        let e : x ∷ filter q xs ≡ filter q (x ∷ xs) = rw y refl in
        subst
          (λ todo.
            All
              (λ (z : Action). q z ≡ true → is_cancellable z.status ≡ true → waits todo z.id ≡ true)
              (x ∷ xs))
          e
          (
            λ t c. ground (arith, eq_text_iff x.id x.id),
            waits_more q x (filter q xs) xs (waits-filter q xs),
          )
    | inr n ↦
        let e : filter q xs ≡ filter q (x ∷ xs) = rw n refl in
        subst
          (λ todo.
            All
              (λ (z : Action). q z ≡ true → is_cancellable z.status ≡ true → waits todo z.id ≡ true)
              (x ∷ xs))
          e (λ t. absurd (never (sym n ∙ t)), waits-filter q xs)
  ]
    where
      never : false ≡ true → ⊥
      never e = cc

  targets-Pending :
      (target : Option Text) (todo xs : List Action)
      → All
          (λ (x : Action).
            is_target target x.id ≡ true → is_cancellable x.status ≡ true → waits todo x.id ≡ true)
          xs
      → Pending (λ id. not (is_target target id)) todo xs
  targets-Pending target todo [] _ = tt
  targets-Pending target todo (x ∷ xs) (h, hs) = (
    λ c. elim (Bool-cases (is_target target x.id)) [
      | inl y ↦ ground (arith, h y c)
      | inr n ↦ ground arith
    ],
    targets-Pending target todo xs hs,
  )

  others-Pending :
      (target : Option Text) (todo xs : List Action)
      → Pending (λ id. not (is_target target id)) [] xs
      → All
          (λ (x : Action).
            (is_cancellable x.status && not (is_target target x.id)) ≡ true
            → is_cancellable x.status ≡ true
            → waits todo x.id ≡ true)
          xs
      → Pending (λ _. false) todo xs
  others-Pending target todo [] _ _ = tt
  others-Pending target todo (x ∷ xs) (k, ks) (h, hs) = (
    λ c. elim (Bool-cases (is_target target x.id)) [
      | inl y ↦ ground (arith, k c)
      | inr n ↦ ground (arith, h (ground arith) c)
    ],
    others-Pending target todo xs ks hs,
  )

  pub stop_all-left :
      (target : Option Text) (p : Progress)
      → (stop_all attempts target p).actions ≡ map (left_action attempts) p.actions
  unfolding stop_all
  stop_all-left target p =
      let targets = filter (λ (a : Action). is_target target a.id) p.actions in
      let first = stop_each attempts targets p in
      let others =
        filter (λ (a : Action). is_cancellable a.status && not (is_target target a.id))
          first.actions in
      let (done, same) =
        stop_each-Pending (λ id. not (is_target target id)) targets p
          (targets-Pending target targets p.actions
            (waits-filter (λ a. is_target target a.id) p.actions)) in
      let (all_done, also_same) =
        stop_each-Pending (λ _. false) others first
          (others-Pending target others first.actions done (
            waits-filter (λ a. is_cancellable a.status && not (is_target target a.id))
              first.actions)) in
      sym (none-Pending-stopped (stop_each attempts others first).actions all_done)
      ∙ (also_same ∙ same)
