-- ===== src/Wallets/Edits/Updates.antt =====
-- `observeWalletNetwork` and `updateWallet` (packages/wallets/src/index.ts) as changes of the rows.
use agentplace.Prelude.{
  ℕ, ◌≡◌, refl, Bool, true, false, Option, none, some, ok, throw, arith, find, All, Memᴰ, ◌===◌,
  sym, ◌∙◌, >>=-eq-ok, >>-eq-ok, throw_if-eq-ok, Option-cases, inl, inr, and-true, if◌then◌else◌,
}
use agentplace.Text.{Text, text_eq}
use agentplace.Authority.Types.{WalletMode, watch_only, connected, agent_account}
use agentplace.Wallets.Types.{
  WalletStatus, removed, WalletRow, WalletTables, WalletOutcome, DurableWallet, namespace_eq,
  mode_eq, status_eq,
}
use agentplace.Wallets.Rows.{is_set, is_wallet, stays, get_wallet, from_found, wallet_from_row}
use agentplace.Wallets.{
  NetworkObservation, observe_found, observe_wallet, observe_wallet_network, reread_wallet, seen,
}
use agentplace.Wallets.Calls.{
  WalletPatch, WalletPatchStatus, new_status, update_found, update_from, update_wallet,
  patched_wallet, patch_row, patch_event,
}
use agentplace.Wallets.Edits.{Shape, IsSound, WalletEdit, kept, edited, found, sound}

-- The wallet that `getWallet` finds stands in a row that is not removed.
pub get_wallet-row :
    (id : Text) (s : WalletTables) (w : DurableWallet)
    → get_wallet id s ≡ some w
    → (row : WalletRow) × Memᴰ row s.wallets × (stays row ≡ true) × (wallet_from_row s row ≡ w)
unfolding get_wallet from_found
get_wallet-row id s w e = elim (Option-cases (find (is_wallet id) s.wallets)) [
  | inl n ↦ let bad : none ≡ some w = rw n at e in absurd (never w bad)
  | inr (row, y) ↦
      let e' : some (wallet_from_row s row) ≡ some w = rw y at e in
      let (m, t) = found _ s.wallets row y in (row, m, (and-true _ _ t).1, some-injective e')
]
  where
    never : (w : DurableWallet) → none ≡ some w → ⊥
    never w b = cc

    some-injective : {a b : DurableWallet} → some a ≡ some b → a ≡ b
    some-injective p = cc

stays-live : (w : WalletRow) → IsSound w → stays w ≡ true → is_set w.removed_at ≡ false
stays-live w h t = ground (arith, h.standing)

pub reread_wallet-Edit :
    (id : Text) (s : WalletTables) (o : WalletOutcome WalletTables)
    → ((s' : WalletTables) → o ≡ ok s' → WalletEdit s.wallets s'.wallets)
    → WalletEdit s.wallets ((reread_wallet id s o).0).wallets
unfolding reread_wallet
reread_wallet-Edit id s (throw e) k = kept refl
reread_wallet-Edit id s (ok s') k = k s' refl

pub ok_wallets :
    {a b : WalletTables}
    → ◌≡◌ {A = WalletOutcome WalletTables} (ok a) (ok b)
    → a.wallets ≡ b.wallets
ok_wallets p = cc

pub observe_found-Edit :
    (row : WalletRow) (input : NetworkObservation) (now : ℕ) (s s' : WalletTables)
    → Memᴰ row s.wallets
    → IsSound row
    → stays row ≡ true
    → observe_found (wallet_from_row s row) input now s ≡ ok s'
    → WalletEdit s.wallets s'.wallets
unfolding observe_found wallet_from_row
observe_found-Edit row input now s s' m h t e =
    let (_, _, e₁) = >>=-eq-ok _ _ e in
    let (_, _, e₂) = >>=-eq-ok _ _ e₁ in
    let (_, e₃) = throw_if-eq-ok _ _ _ e₂ in
    let (_, _, e₄) = >>=-eq-ok _ _ e₃ in
    let (_, _, e₅) = >>-eq-ok _ _ e₄ in
    let live = stays-live row h t in
    edited row (seen input.is_connected now) m live
      (λ v. record { id = refl; mode = refl; namespace = refl; address = refl; normalized = refl })
      (record { standing = upright live input.is_connected; shape = reshaped row.mode h.shape })
      (sym (ok_wallets e₅))
  where
    upright :
        is_set row.removed_at ≡ false
        → (b : Bool)
        → is_set row.removed_at
          ≡ ((if b then WalletStatus.active else WalletStatus.disconnected) === removed)
    upright l true = l
    upright l false = l

    reshaped : (k : WalletMode) → Shape k row → Shape k (seen input.is_connected now row)
    reshaped watch_only k = k
    reshaped connected k = k
    reshaped agent_account k = k

pub observe_wallet_network-Edit :
    (id : Text) (input : NetworkObservation) (now : ℕ) (s : WalletTables)
    → All IsSound s.wallets
    → WalletEdit s.wallets ((observe_wallet_network id input now s).0).wallets
unfolding observe_wallet_network observe_wallet
observe_wallet_network-Edit id input now s h = seen_wallet (get_wallet id s) refl
  where
    on_mode :
        (b : Bool) (w : DurableWallet)
        → get_wallet id s ≡ some w
        → WalletEdit s.wallets
            ((if b then reread_wallet id s (observe_found w input now s) else (s, ok none)).0
              ).wallets
    on_mode false w e = kept refl
    on_mode true w e =
        let (row, m, t, built) = get_wallet-row id s w e in
        reread_wallet-Edit id s _
          (λ s' o. observe_found-Edit row input now s s' m (sound s.wallets row h m) t (rw built o))

    seen_wallet :
        (o : Option DurableWallet)
        → get_wallet id s ≡ o
        → WalletEdit s.wallets ((observe_wallet o id input now s).0).wallets
    seen_wallet none e = kept refl
    seen_wallet (some w) e = on_mode (w.mode === connected) w e

pub patch_event-wallets :
    (id : Text) (old : WalletStatus) (p : Option WalletPatchStatus) (s : WalletTables)
    → (patch_event id old p s).wallets ≡ s.wallets
unfolding patch_event
patch_event-wallets id old none s = refl
patch_event-wallets id old (some p) s = ground arith

pub patch_row-IsSound :
    (name : Text) (status : WalletStatus) (now : ℕ) (v : WalletRow)
    → IsSound v
    → IsSound (patch_row name status now v)
patch_row-IsSound name status now v h = record {
  standing = upright (status === removed);
  shape = reshaped v.mode h.shape;
}
  where
    upright : (b : Bool) → is_set (if b then some now else none) ≡ b
    upright true = refl
    upright false = refl

    reshaped : (m : WalletMode) → Shape m v → Shape m (patch_row name status now v)
    reshaped watch_only k = k
    reshaped connected k = k
    reshaped agent_account k = k

pub update_found-Edit :
    (row : WalletRow) (patch : WalletPatch) (now : ℕ) (s s' : WalletTables)
    → Memᴰ row s.wallets
    → IsSound row
    → stays row ≡ true
    → update_found (wallet_from_row s row) patch now s ≡ ok s'
    → WalletEdit s.wallets s'.wallets
unfolding update_found wallet_from_row
update_found-Edit row patch now s s' m h t e =
    let (name, _, e₁) = >>=-eq-ok _ _ e in
    let status = new_status patch.status row.status in
    edited row (patch_row name status now) m (stays-live row h t)
      (λ v. record { id = refl; mode = refl; namespace = refl; address = refl; normalized = refl })
      (patch_row-IsSound name status now row h) (sym (ok_wallets e₁) ∙ patch_event-wallets _ _ _ _)

pub update_wallet-Edit :
    (id : Text) (patch : WalletPatch) (now : ℕ) (s : WalletTables)
    → All IsSound s.wallets
    → WalletEdit s.wallets ((update_wallet id patch now s).0).wallets
unfolding update_wallet update_from patched_wallet
update_wallet-Edit id patch now s h = patched_from (get_wallet id s) refl
  where
    ended :
        (b : Bool) (o : WalletOutcome WalletTables)
        → ((s' : WalletTables) → o ≡ ok s' → WalletEdit s.wallets s'.wallets)
        → WalletEdit s.wallets ((patched_wallet b id s o).0).wallets
    ended b (throw e) k = kept refl
    ended true (ok s') k = k s' refl
    ended false (ok s') k = k s' refl

    patched_from :
        (o : Option DurableWallet)
        → get_wallet id s ≡ o
        → WalletEdit s.wallets ((update_from o id patch now s).0).wallets
    patched_from none e = kept refl
    patched_from (some w) e =
        let (row, m, t, built) = get_wallet-row id s w e in
        ended _ _
          (λ s' o. update_found-Edit row patch now s s' m (sound s.wallets row h m) t (rw built o))
