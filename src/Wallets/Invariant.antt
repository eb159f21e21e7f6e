-- ===== src/Wallets/Invariant.antt =====
-- What holds of the wallets of one owner whatever calls of packages/wallets/src/index.ts are made.
use agentplace.Prelude.{
  ℕ, ◌≡◌, refl, Bool, true, false, not, ◌&&◌, List, [], ◌∷◌, Option, none, some, arith, map,
  includes, All, Distinct, Memᴰ, ◌===◌, ===-refl, subst, sym, ap, Bool-cases, inl, inr,
}
use agentplace.Text.{Text, text_eq}
use agentplace.Authority.Types.{WalletMode}
use agentplace.Wallets.Types.{WalletNamespace, WalletRow, WalletTables, namespace_eq, mode_eq}
use agentplace.Wallets.Rows.{is_set, is_text, change, wallet_ids}
use agentplace.Wallets.Calls.{WalletCall, wallet_step, run_wallets}
use agentplace.Wallets.Edits.Step.{wallet_step-Edit}
use agentplace.Wallets.Edits.{
  IsSound, IsSame, clash_on, clashes, WalletEdit, kept, edited, inserted,
}

abbrev pub is_live : WalletRow → Bool
is_live w = not (is_set w.removed_at)

-- No two live wallets of one mode stand for the same address.
abbrev pub Unique : List WalletRow → Type 0
Unique [] = Unit {0}
Unique (w ∷ ws) = All (λ v. (is_live w && clashes w v) ≡ false) ws × Unique ws

pub record IsConsistent (ws : List WalletRow) : Type 0 where
  pub rows : All IsSound ws
  pub ids : Distinct (wallet_ids ws)
  pub unique : Unique ws

not_member :
    (ws : List WalletRow) (id : Text)
    → includes (wallet_ids ws) id ≡ false
    → (old : WalletRow) → All (λ (x : WalletRow). x.id ≡ id → x ≡ old) ws
not_member [] id h old = tt
not_member (x ∷ ws) id h old =
    (λ e. absurd (never x.id id e (ground arith)), not_member ws id (ground arith) old)
  where
    never : (a b : Text) → a ≡ b → (a === b) ≡ false → ⊥
    never a b e f = ground (arith, text_eq.same_iff a b)

pub member_id :
    (ws : List WalletRow) (old : WalletRow) → Memᴰ old ws → includes (wallet_ids ws) old.id ≡ true
member_id [] old m = elim m [ ]
member_id (x ∷ ws) old (Memᴰ.head e) =
    let here : (x.id === old.id) ≡ true =
      subst (λ (v : WalletRow). (x.id === v.id) ≡ true) (sym e) (===-refl x.id) in
    rw here refl
member_id (x ∷ ws) old (Memᴰ.tail m) = ground (arith, member_id ws old m)

-- The id of a row tells it from the others.
pub unique_row :
    (ws : List WalletRow) (old : WalletRow)
    → Distinct (wallet_ids ws)
    → Memᴰ old ws
    → All (λ (x : WalletRow). x.id ≡ old.id → x ≡ old) ws
unique_row [] old d m = tt
unique_row (x ∷ ws) old (h, d) (Memᴰ.head e) =
    let h' : includes (wallet_ids ws) old.id ≡ false =
      subst (λ (v : WalletRow). includes (wallet_ids ws) v.id ≡ false) (sym e) h in
    (λ _. sym e, not_member ws old.id h' old)
unique_row (x ∷ ws) old (h, d) (Memᴰ.tail m) = (
  λ e. absurd (never (subst (λ t. includes (wallet_ids ws) t ≡ false) e h) (member_id ws old m)),
  unique_row ws old d m,
)
  where
    never : {b : Bool} → b ≡ false → b ≡ true → ⊥
    never p q = cc

-- A change of one row as a map over all.
module _ (old : WalletRow) (f : WalletRow → WalletRow)
    (same : (w : WalletRow) → IsSame w (f w)) where
  change-IsSame : (w : WalletRow) → IsSame w (change old.id f w)
  change-IsSame w = elim (Bool-cases (w.id === old.id)) [
    | inl y ↦ rw y (same w)
    | inr n ↦
        rw n
          (record { id = refl; mode = refl; namespace = refl; address = refl; normalized = refl })
  ]

  pub ids_kept : (ws : List WalletRow) → wallet_ids (map (change old.id f) ws) ≡ wallet_ids ws
  ids_kept [] = refl
  ids_kept (w ∷ ws) = rw ((change-IsSame w).id) (ap (◌∷◌ w.id) (ids_kept ws))

  change-All {κ} :
      (P : WalletRow → Type κ) (ws : List WalletRow)
      → P (f old)
      → All (λ (x : WalletRow). x.id ≡ old.id → x ≡ old) ws
      → All P ws
      → All P (map (change old.id f) ws)
  change-All P [] p only h = tt
  change-All P (x ∷ ws) p (only, onlys) (h, hs) = (
    elim (Bool-cases (x.id === old.id)) [
      | inl y ↦
          let e : x ≡ old = only ((text_eq.same_iff x.id old.id).0 y) in
          rw y (subst (λ v. P (f v)) (sym e) p)
      | inr n ↦ rw n h
    ],
    change-All P ws p onlys hs,
  )

  -- A row that is live after the change was live before it.
  change_live :
      (ws : List WalletRow)
      → is_set old.removed_at ≡ false
      → All (λ (x : WalletRow). x.id ≡ old.id → x ≡ old) ws
      → All (λ x. is_live (change old.id f x) ≡ true → is_live x ≡ true) ws
  change_live [] live only = tt
  change_live (x ∷ ws) live (only, onlys) = (
    elim (Bool-cases (x.id === old.id)) [
      | inl y ↦
          let e : x ≡ old = only ((text_eq.same_iff x.id old.id).0 y) in
          λ _. subst (λ v. is_live v ≡ true) (sym e) (rw live refl)
      | inr n ↦ rw n (λ l. l)
    ],
    change_live ws live onlys,
  )

-- The test of a clash as a function of the columns that it reads.
clash_columns :
    Option Text
    → WalletNamespace
    → WalletMode
    → Option Text
    → WalletNamespace
    → WalletMode
    → Bool
    → Bool
clash_columns none ns mode m ns' mode' live = false
clash_columns (some n) ns mode m ns' mode' live =
    (ns' === ns && is_text n m) && (mode' === mode && live)

clashes-columns :
    (w v : WalletRow)
    → clashes w v
      ≡ clash_columns w.address_normalized w.namespace w.mode v.address_normalized v.namespace
          v.mode
          (is_live v)
unfolding clash_columns
clashes-columns w v = by_key w.address_normalized
  where
    by_key :
        (n : Option Text)
        → clash_on n w v
          ≡ clash_columns n w.namespace w.mode v.address_normalized v.namespace v.mode (is_live v)
    by_key none = refl
    by_key (some n) = refl

fewer :
    (n : Option Text) (ns : WalletNamespace) (mode : WalletMode) (m : Option Text)
    (ns' : WalletNamespace) (mode' : WalletMode) (l l' k k' : Bool)
    → (l' ≡ true → l ≡ true)
    → (k' ≡ true → k ≡ true)
    → (l && clash_columns n ns mode m ns' mode' k) ≡ false
    → (l' && clash_columns n ns mode m ns' mode' k') ≡ false
unfolding clash_columns
fewer none ns mode m ns' mode' l l' k k' a b h = ground arith
fewer (some n) ns mode m ns' mode' l l' k k' a b h =
    narrow l l' (ns' === ns && is_text n m) (mode' === mode) k k' a b h
  where
    narrow :
        (l l' p q k k' : Bool)
        → (l' ≡ true → l ≡ true)
        → (k' ≡ true → k ≡ true)
        → (l && (p && (q && k))) ≡ false
        → (l' && (p && (q && k'))) ≡ false
    narrow l l' p q k k' a b h = ground arith

clash_kept :
    (w w' v v' : WalletRow)
    → IsSame w w'
    → IsSame v v'
    → (is_live w' ≡ true → is_live w ≡ true)
    → (is_live v' ≡ true → is_live v ≡ true)
    → (is_live w && clashes w v) ≡ false
    → (is_live w' && clashes w' v') ≡ false
clash_kept w w' v v' a b lw lv h =
    let h' = subst (λ c. (is_live w && c) ≡ false) (clashes-columns w v) h in
    subst (λ c. (is_live w' && c) ≡ false) (sym (clashes-columns w' v'))
      (rw a.normalized (
        rw a.namespace (
          rw a.mode (
            rw b.normalized (
              rw b.namespace (
                rw b.mode (
                  fewer _ _ _ _ _ _ (is_live w) (is_live w') (is_live v) (is_live v') lw lv
                    h')))))))

Unique-map :
    (g : WalletRow → WalletRow) (ws : List WalletRow)
    → ((w : WalletRow) → IsSame w (g w))
    → All (λ x. is_live (g x) ≡ true → is_live x ≡ true) ws
    → Unique ws
    → Unique (map g ws)
Unique-map g [] same live u = tt
Unique-map g (w ∷ ws) same (l, ls) (u, us) = (others ws ls u, Unique-map g ws same ls us)
  where
    others :
        (vs : List WalletRow)
        → All (λ x. is_live (g x) ≡ true → is_live x ≡ true) vs
        → All (λ v. (is_live w && clashes w v) ≡ false) vs
        → All (λ v. (is_live (g w) && clashes (g w) v) ≡ false) (map g vs)
    others [] ks hs = tt
    others (v ∷ vs) (k, ks) (h, hs) =
        (clash_kept w (g w) v (g v) (same w) (same v) l k h, others vs ks hs)

no_clash :
    (w : WalletRow) (ws : List WalletRow)
    → All (λ v. clashes w v ≡ false) ws
    → All (λ v. (is_live w && clashes w v) ≡ false) ws
no_clash w [] h = tt
no_clash w (v ∷ ws) (h, hs) = (rw h (and_false (is_live w)), no_clash w ws hs)
  where
    and_false : (b : Bool) → (b && false) ≡ false
    and_false b = ground arith

pub WalletEdit-IsConsistent :
    (ws ws' : List WalletRow) → WalletEdit ws ws' → IsConsistent ws → IsConsistent ws'
WalletEdit-IsConsistent ws ws' (kept e) h = subst IsConsistent (sym e) h
WalletEdit-IsConsistent ws ws' (edited old f m live same good e) h =
    let only = unique_row ws old h.ids m in
    subst IsConsistent (sym e) (record {
      rows = change-All old f same IsSound ws good only h.rows;
      ids = subst (λ ids. Distinct ids) (sym (ids_kept old f same ws)) h.ids;
      unique =
          Unique-map (change old.id f) ws (change-IsSame old f same)
            (change_live old f same ws live only) h.unique;
    })
WalletEdit-IsConsistent ws ws' (inserted w new good free e) h =
    subst IsConsistent (sym e) (record {
      rows = (good, h.rows);
      ids = (new, h.ids);
      unique = (no_clash w ws free, h.unique);
    })

-- Whatever calls are made: ids stay distinct; in one mode at most one wallet that is not removed
-- stands for an address, addresses compared as they are normalized; a wallet has a time of removal
-- exactly when its status is removed; a watched or connected wallet keeps an address of its
-- namespace with the normalized form made from it, a connected one is on an EVM chain, and an agent
-- account's wallet has none.
pub run_wallets-IsConsistent :
    (cs : List (ℕ × WalletCall)) (s : WalletTables)
    → IsConsistent s.wallets
    → IsConsistent (run_wallets cs s).wallets
unfolding run_wallets
run_wallets-IsConsistent [] s h = h
run_wallets-IsConsistent ((now, c) ∷ cs) s h =
    run_wallets-IsConsistent cs (wallet_step now c s)
      (WalletEdit-IsConsistent _ _ (wallet_step-Edit now c s h.rows) h)
