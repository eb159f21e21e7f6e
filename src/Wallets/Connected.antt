-- ===== src/Wallets/Connected.antt =====
-- What connecting an address and watching one leave, packages/wallets/src/index.ts.
use agentplace.Prelude.{
  ℕ, ◌≡◌, refl, Bool, true, false, not, ◌&&◌, ◌||◌, ◌∷◌, Option, none, some, ok, arith, includes,
  Memᴰ, ◌===◌, subst, sym, ◌∙◌, ◌>>=◌, ◌>>◌, >>=-eq-ok, >>=-commits, >>-commits, throw_if-false,
  ok-injective, throw_if, or_throw, throw_if-eq-ok, >>-eq-ok, ===-refl,
}
use agentplace.Text.{Text, text_eq, trim}
use agentplace.Authority.Types.{WalletMode, watch_only, connected}
use agentplace.Wallets.Types.{
  WalletNamespace, eip155, active, NetworkRef, WalletRow, WalletTables, WalletOutcome,
  DurableWallet, CreateWatchWalletInput, ConnectWalletInput, namespace_eq, mode_eq, status_eq,
  wallet_connect_failed, WalletError,
}
use agentplace.Wallets.Inputs.{
  require_name, normalized_address, validate_network, validate_networks, balance_check, id_or,
}
use agentplace.Wallets.Rows.{
  is_set, is_text, stays, has_address, changed, wallet_ids, insert_wallet, put_wallet, get_wallet,
  wallet_from_row,
}
use agentplace.Wallets.{committed, watch_transaction, connect_transaction, connect_wallet, again}
use agentplace.Wallets.Calls.{connects, wallet_step}
use agentplace.Wallets.Edits.Step.{wallet_step-Edit}
use agentplace.Wallets.Invariant.{IsConsistent, WalletEdit-IsConsistent}
use agentplace.Wallets.Found.{put_wallet-row, get_wallet-member}

pub same_tables :
    {i j : Text} {s s' : WalletTables}
    → ◌≡◌ {A = WalletOutcome (Text × WalletTables)} (ok (i, s)) (ok (j, s'))
    → (i ≡ j) × (s.wallets ≡ s'.wallets)
same_tables p = (cc, cc)

-- What a committed connection or watch leaves: the row of the address, live and renamed.
abbrev IsPut : WalletMode → WalletNamespace → Text → Text → WalletRow → Type 0
IsPut mode ns n name row =
    (has_address mode ns n row ≡ true)
    × (row.status ≡ active)
    × (row.name ≡ name)
    × (row.mode ≡ mode)

still_found : (p q r : Bool) → (p && (q && r)) ≡ true → ((p && (q && true)) ≡ true) × (q ≡ true)
still_found p q r h = (ground arith, ground arith)

again-IsPut :
    (mode : WalletMode) (ns : WalletNamespace) (n name : Text) (now : ℕ) (v : WalletRow)
    → has_address mode ns n v ≡ true
    → IsPut mode ns n name (again name now v)
again-IsPut mode ns n name now v h =
    let (found, mode_is) =
      still_found (v.namespace === ns && is_text n v.address_normalized) (v.mode === mode)
        (not (is_set v.removed_at)) h in
    (found, refl, refl, (mode_eq.same_iff v.mode mode).0 mode_is)

connect_transaction-row :
    (input : ConnectWalletInput) (fresh : Text) (now : ℕ) (s : WalletTables)
    (r : Text × WalletTables)
    → connect_transaction input fresh now s ≡ ok r
    → (n : Text) × (normalized_address input.namespace (trim input.address) ≡ ok n)
      × (name : Text) × (require_name input.name ≡ ok name)
      × (row : WalletRow) × Memᴰ row (r.1).wallets
      × (row.id ≡ r.0)
      × IsPut connected input.namespace n name row
unfolding connect_transaction
connect_transaction-row input fresh now s r e =
    let (name, named, e₁) = >>=-eq-ok (require_name _) _ e in
    let (n, normal, e₂) = >>=-eq-ok (normalized_address _ _) _ e₁ in
    let (network, _, e₃) = >>=-eq-ok (validate_network _) _ e₂ in
    let (_, _, e₄) = >>-eq-ok (balance_check _) _ e₃ in
    let (_, e₅) = throw_if-eq-ok _ _ _ e₄ in
    let (p, put, e₆) = >>=-eq-ok (put_wallet _ _ _ _) _ e₅ in
    let (row, m, id, is) =
      put_wallet-row (IsPut connected input.namespace n name)
        (has_address connected input.namespace n) _ _ _ s p refl
        (λ v t. (again-IsPut connected input.namespace n name now v t, refl))
        (rw (===-refl input.namespace) (rw (===-refl n) refl), refl, refl, refl) put in
    let (same_id, same) = same_tables e₆ in
    (n, normal, name, named, row, subst (λ ws. Memᴰ row ws) same m, id ∙ same_id, is)

pub watch_transaction-row :
    (input : CreateWatchWalletInput) (fresh : Text) (now : ℕ) (s : WalletTables)
    (r : Text × WalletTables)
    → watch_transaction input fresh now s ≡ ok r
    → (n : Text) × (normalized_address input.namespace (trim input.address) ≡ ok n)
      × (name : Text) × (require_name input.name ≡ ok name)
      × (row : WalletRow) × Memᴰ row (r.1).wallets
      × (row.id ≡ r.0)
      × IsPut watch_only input.namespace n name row
unfolding watch_transaction
watch_transaction-row input fresh now s r e =
    let (name, named, e₁) = >>=-eq-ok (require_name _) _ e in
    let (n, normal, e₂) = >>=-eq-ok (normalized_address _ _) _ e₁ in
    let (networks, _, e₃) = >>=-eq-ok (validate_networks _) _ e₂ in
    let (p, put, e₄) = >>=-eq-ok (put_wallet _ _ _ _) _ e₃ in
    let (row, m, id, is) =
      put_wallet-row (IsPut watch_only input.namespace n name)
        (has_address watch_only input.namespace n) _ _ _ s p refl
        (λ v t. (again-IsPut watch_only input.namespace n name now v t, refl))
        (rw (===-refl input.namespace) (rw (===-refl n) refl), refl, refl, refl) put in
    let (same_id, same) = same_tables e₄ in
    (n, normal, name, named, row, subst (λ ws. Memᴰ row ws) same m, id ∙ same_id, is)

-- The call that commits finds its wallet again.
pub committed-found :
    (error : WalletError) (mode : WalletMode) (ns : WalletNamespace) (n name : Text)
    (s : WalletTables) (o : WalletOutcome (Text × WalletTables)) (r : Text × WalletTables)
    (row : WalletRow)
    → o ≡ ok r
    → IsConsistent ((committed error s o).0).wallets
    → Memᴰ row (r.1).wallets
    → row.id ≡ r.0
    → IsPut mode ns n name row
    → (committed error s o).1 ≡ ok (wallet_from_row r.1 row)
unfolding committed or_throw
committed-found error mode ns n name s o r row e c m id is =
    let c' : IsConsistent (r.1).wallets =
      subst (λ q. IsConsistent ((committed error s q).0).wallets) e c in
    let there = get_wallet-member r.1 row c' m (live (is.1)) in
    let there' : get_wallet r.0 r.1 ≡ some (wallet_from_row r.1 row) =
      subst (λ i. get_wallet i r.1 ≡ some (wallet_from_row r.1 row)) id there in
    rw e (rw there' refl)
  where
    live : row.status ≡ active → stays row ≡ true
    live a = rw a refl

put_wallet-commits :
    (o : Option WalletRow) (f : WalletRow → WalletRow) (w : WalletRow) (s : WalletTables)
    → (includes (wallet_ids s.wallets) w.id || includes s.taken w.id) ≡ false
    → (r : Text × WalletTables) × (put_wallet o f w s ≡ ok r)
unfolding put_wallet insert_wallet ◌>>=◌ ◌>>◌ throw_if
put_wallet-commits (some old) f w s h = ((old.id, changed old.id f s), refl)
put_wallet-commits none f w s h = ((w.id, record s { wallets = w ∷ s.wallets }), rw h refl)

connect_transaction-commits :
    (input : ConnectWalletInput) (fresh : Text) (now : ℕ) (s : WalletTables) (name n : Text)
    (network : NetworkRef)
    → require_name input.name ≡ ok name
    → normalized_address input.namespace (trim input.address) ≡ ok n
    → validate_network input.network ≡ ok network
    → balance_check input.native_balance_atomic ≡ ok tt
    → input.namespace ≡ eip155
    → (includes (wallet_ids s.wallets) (id_or fresh input.id)
        || includes s.taken (id_or fresh input.id))
      ≡ false
    → (r : Text × WalletTables) × (connect_transaction input fresh now s ≡ ok r)
unfolding connect_transaction
connect_transaction-commits input fresh now s name n network a b c d e f = >>=-commits _ _ name a (
    >>=-commits _ _ n b (
      >>=-commits _ _ network c (
        >>-commits _ _ d (
          >>-commits _ _ (throw_if-false _ _ (evm e))
            (let (r, put) = put_wallet-commits _ _ _ s f in >>=-commits _ _ r put (_, refl))))))
  where
    evm : input.namespace ≡ eip155 → not (input.namespace === eip155) ≡ false
    evm h = rw h refl

-- Connecting succeeds: where the owner's tables are consistent and `connectWallet` is given a valid
-- name, a valid address of an EVM chain, a valid network and a valid balance or none, and its id,
-- given or random, is not taken, the call returns an active connected wallet with the trimmed name.
pub connect_wallet-active :
    (input : ConnectWalletInput) (fresh : Text) (now : ℕ) (s : WalletTables) (name n : Text)
    (network : NetworkRef)
    → IsConsistent s.wallets
    → require_name input.name ≡ ok name
    → normalized_address input.namespace (trim input.address) ≡ ok n
    → validate_network input.network ≡ ok network
    → balance_check input.native_balance_atomic ≡ ok tt
    → input.namespace ≡ eip155
    → (includes (wallet_ids s.wallets) (id_or fresh input.id)
        || includes s.taken (id_or fresh input.id))
      ≡ false
    → (w : DurableWallet) × ((connect_wallet input fresh now s).1 ≡ ok w)
      × (w.status ≡ active)
      × (w.mode ≡ connected)
      × (w.name ≡ name)
unfolding connect_wallet wallet_step wallet_from_row
connect_wallet-active input fresh now s name n network c a b d e f g =
    let (r, done) = connect_transaction-commits input fresh now s name n network a b d e f g in
    let (_, _, name', named, row, m, id, is) = connect_transaction-row input fresh now s r done in
    let c' = WalletEdit-IsConsistent _ _ (wallet_step-Edit now (connects input fresh) s c.rows) c in
    (
      wallet_from_row r.1 row,
      committed-found wallet_connect_failed connected input.namespace _ name' s _ r row done c' m id
          is,
      is.1,
      is.3,
      is.2 ∙ ok-injective (sym named ∙ a),
    )
