-- ===== src/Wallets/Removed.antt =====
-- A removed wallet never comes back, packages/wallets/src/index.ts: no call finds it again, and its
-- id is not given to another.
use agentplace.Prelude.{
  ℕ, ◌≡◌, refl, Bool, true, false, List, [], ◌∷◌, none, arith, map, filter, find, includes, All,
  All-map, Memᴰ, All-member, ◌===◌, subst, sym, ◌∙◌, Bool-cases, inl, inr, ◌⊎◌,
}
use agentplace.Text.{Text, text_eq}
use agentplace.Wallets.Types.{WalletRow, WalletTables, DurableWallet, removed, status_eq}
use agentplace.Wallets.Rows.{
  is_set, is_wallet, stays, change, wallet_ids, get_wallet, from_found, list_wallets,
  wallet_from_row,
}
use agentplace.Wallets.Calls.{WalletCall, wallet_step, run_wallets}
use agentplace.Wallets.Edits.Step.{wallet_step-Edit}
use agentplace.Wallets.Edits.{IsSound, IsSame, WalletEdit, kept, edited, inserted}
use agentplace.Wallets.Invariant.{
  IsConsistent, ids_kept, member_id, unique_row, WalletEdit-IsConsistent, run_wallets-IsConsistent,
}

-- The id is taken, by rows that are removed.
record IsGone (id : Text) (ws : List WalletRow) : Type 0 where
  taken : includes (wallet_ids ws) id ≡ true
  gone : All (λ (w : WalletRow). w.id ≡ id → is_set w.removed_at ≡ true) ws

change-gone :
    (id : Text) (old : WalletRow) (f : WalletRow → WalletRow) (ws : List WalletRow)
    → (old.id ≡ id → ⊥)
    → ((w : WalletRow) → IsSame w (f w))
    → All (λ (w : WalletRow). w.id ≡ id → is_set w.removed_at ≡ true) ws
    → All (λ (w : WalletRow). w.id ≡ id → is_set w.removed_at ≡ true) (map (change old.id f) ws)
change-gone id old f [] other same h = tt
change-gone id old f (x ∷ ws) other same (h, hs) = (
  elim (Bool-cases (x.id === old.id)) [
    | inl y ↦
        rw y
          (λ e. absurd (other (sym ((text_eq.same_iff x.id old.id).0 y) ∙ sym ((same x).id) ∙ e)))
    | inr n ↦ rw n h
  ],
  change-gone id old f ws other same hs,
)

WalletEdit-IsGone :
    (id : Text) (ws ws' : List WalletRow) → WalletEdit ws ws' → IsGone id ws → IsGone id ws'
WalletEdit-IsGone id ws ws' (kept e) h = subst (IsGone id) (sym e) h
WalletEdit-IsGone id ws ws' (edited old f m live same good e) h =
    subst (IsGone id) (sym e) (record {
      taken = subst (λ ids. includes ids id ≡ true) (sym (ids_kept old f same ws)) h.taken;
      gone = change-gone id old f ws (λ i. never live (All-member _ ws old h.gone m i)) same h.gone;
    })
  where
    never : {b : Bool} → b ≡ false → b ≡ true → ⊥
    never p q = cc
WalletEdit-IsGone id ws ws' (inserted w new good free e) h = subst (IsGone id) (sym e) (record {
  taken = ground (arith, h.taken);
  gone =
      (λ i. absurd (never (subst (λ t. includes (wallet_ids ws) t ≡ false) i new) h.taken), h.gone);
})
  where
    never : {b : Bool} → b ≡ false → b ≡ true → ⊥
    never p q = cc

run-IsGone :
    (cs : List (ℕ × WalletCall)) (s : WalletTables) (id : Text)
    → IsConsistent s.wallets
    → IsGone id s.wallets
    → IsGone id (run_wallets cs s).wallets
unfolding run_wallets
run-IsGone [] s id c h = h
run-IsGone ((now, call) ∷ cs) s id c h =
    let e = wallet_step-Edit now call s c.rows in
    run-IsGone cs (wallet_step now call s) id (WalletEdit-IsConsistent _ _ e c)
      (WalletEdit-IsGone id _ _ e h)

-- Rows of a removed wallet fail the test of `getWallet`.
unfound :
    (id : Text) (ws : List WalletRow)
    → All IsSound ws
    → All (λ (w : WalletRow). w.id ≡ id → is_set w.removed_at ≡ true) ws
    → All (λ w. is_wallet id w ≡ false) ws
unfound id [] s h = tt
unfound id (w ∷ ws) (s, ss) (h, hs) = (hidden (Bool-cases (w.id === id)), unfound id ws ss hs)
  where
    hidden : ((w.id === id) ≡ true) ⊎ ((w.id === id) ≡ false) → is_wallet id w ≡ false
    hidden (inr n) = rw n refl
    hidden (inl y) =
        let set : is_set w.removed_at ≡ true = h ((text_eq.same_iff w.id id).0 y) in
        let is : (w.status === removed) ≡ true = sym s.standing ∙ set in rw y (rw is refl)

find-none :
    (q : WalletRow → Bool) (ws : List WalletRow) → All (λ w. q w ≡ false) ws → find q ws ≡ none
find-none q [] h = refl
find-none q (w ∷ ws) (h, hs) = rw h (find-none q ws hs)

other_ids :
    (id : Text) (ws : List WalletRow)
    → All (λ w. is_wallet id w ≡ false) ws
    → All (λ (w : WalletRow). (w.id === id) ≡ false) (filter stays ws)
other_ids id [] h = tt
other_ids id (w ∷ ws) (h, hs) = elim (Bool-cases (stays w)) [
  | inl y ↦ rw y (ground (arith), other_ids id ws hs)
  | inr n ↦ rw n (other_ids id ws hs)
]

-- A wallet that is removed stays removed: whatever calls are made on the owner's wallets, and
-- whenever, `getWallet` finds no wallet of its id and `listWallets` lists none.
pub run_wallets-removed :
    (cs : List (ℕ × WalletCall)) (s : WalletTables) (w : WalletRow)
    → IsConsistent s.wallets
    → Memᴰ w s.wallets
    → is_set w.removed_at ≡ true
    → (get_wallet w.id (run_wallets cs s) ≡ none)
      × All (λ (d : DurableWallet). (d.id === w.id) ≡ false) (list_wallets (run_wallets cs s))
unfolding get_wallet from_found list_wallets wallet_from_row
run_wallets-removed cs s w c m h =
    let only = unique_row s.wallets w c.ids m in
    let g =
      run-IsGone cs s w.id c
        (record { taken = member_id s.wallets w m; gone = all_removed s.wallets only }) in
    let c' = run_wallets-IsConsistent cs s c in
    let hidden = unfound w.id (run_wallets cs s).wallets c'.rows g.gone in
    let nothing : find (is_wallet w.id) (run_wallets cs s).wallets ≡ none = find-none _ _ hidden in
    (
      rw nothing refl,
      All-map _ (wallet_from_row (run_wallets cs s)) (filter stays (run_wallets cs s).wallets)
          (other_ids w.id (run_wallets cs s).wallets hidden),
    )
  where
    all_removed :
        (ws : List WalletRow)
        → All (λ (x : WalletRow). x.id ≡ w.id → x ≡ w) ws
        → All (λ (x : WalletRow). x.id ≡ w.id → is_set x.removed_at ≡ true) ws
    all_removed [] only = tt
    all_removed (x ∷ ws) (o, os) = (
      λ e. subst (λ (v : WalletRow). is_set v.removed_at ≡ true) (sym (o e)) h,
      all_removed ws os,
    )
