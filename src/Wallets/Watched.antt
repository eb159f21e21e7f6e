-- ===== src/Wallets/Watched.antt =====
-- Watching an address again, packages/wallets/src/index.ts.
use agentplace.Prelude.{
  ℕ, ◌≡◌, refl, Bool, true, false, List, Option, none, some, ok, throw, arith, find, Memᴰ, subst,
  sym, ◌∙◌, ap, Option-cases, inl, inr, >>=-eq-ok, ok-injective, All-member, find-none-All,
}
use agentplace.Text.{Text, text_eq, trim}
use agentplace.Authority.Types.{WalletMode, watch_only}
use agentplace.Wallets.Types.{
  WalletNamespace, WalletRow, WalletTables, WalletOutcome, DurableWallet, CreateWatchWalletInput,
  namespace_eq, mode_eq, status_eq, WalletError,
}
use agentplace.Wallets.Inputs.{require_name, normalized_address, validate_networks}
use agentplace.Wallets.Rows.{has_address, changed, wallet_ids, put_wallet, wallet_from_row}
use agentplace.Wallets.{committed, watch_transaction, create_watch_wallet, again}
use agentplace.Wallets.Calls.{watches, wallet_step}
use agentplace.Wallets.Edits.Step.{wallet_step-Edit}
use agentplace.Wallets.Invariant.{Unique, IsConsistent, WalletEdit-IsConsistent, ids_kept}
use agentplace.Wallets.Found.{find-member, address_row}
use agentplace.Wallets.Connected.{same_tables, watch_transaction-row, committed-found}

find_address :
    (mode : WalletMode) (ns : WalletNamespace) (n : Text) (ws : List WalletRow) (row : WalletRow)
    → Unique ws
    → Memᴰ row ws
    → has_address mode ns n row ≡ true
    → find (has_address mode ns n) ws ≡ some row
find_address mode ns n ws row u m h = elim (Option-cases (find (has_address mode ns n) ws)) [
  | inl e ↦ absurd (never h (All-member _ ws row (find-none-All (has_address mode ns n) ws e) m))
  | inr (old, e) ↦
      let (k, t) = find-member (has_address mode ns n) ws old e in
      e ∙ ap some (address_row mode ns n ws old row u k m t h)
]
  where
    never : {b : Bool} → b ≡ true → b ≡ false → ⊥
    never p q = cc

put_wallet-old :
    (o : Option WalletRow) (row : WalletRow) (f : WalletRow → WalletRow) (w : WalletRow)
    (s : WalletTables) (r : Text × WalletTables)
    → o ≡ some row
    → put_wallet o f w s ≡ ok r
    → ◌≡◌ {A = WalletOutcome (Text × WalletTables)} (ok (row.id, changed row.id f s)) (ok r)
unfolding put_wallet
put_wallet-old none row f w s r e h = cc
put_wallet-old (some old) row f w s r e h =
    let same : old ≡ row = ground arith in
    subst
      (λ (x : WalletRow).
        ◌≡◌ {A = WalletOutcome (Text × WalletTables)} (ok (x.id, changed x.id f s)) (ok r))
      same h

watch_transaction-old :
    (b : CreateWatchWalletInput) (g : Text) (later : ℕ) (n : Text) (s : WalletTables)
    (row : WalletRow) (r : Text × WalletTables)
    → Unique s.wallets
    → Memᴰ row s.wallets
    → has_address watch_only b.namespace n row ≡ true
    → normalized_address b.namespace (trim b.address) ≡ ok n
    → watch_transaction b g later s ≡ ok r
    → (r.0 ≡ row.id) × (wallet_ids (r.1).wallets ≡ wallet_ids s.wallets)
unfolding watch_transaction
watch_transaction-old b g later n s row r u m h normal e =
    let (name, _, e₁) = >>=-eq-ok (require_name _) _ e in
    let (k, normal', e₂) = >>=-eq-ok (normalized_address _ _) _ e₁ in
    let (networks, _, e₃) = >>=-eq-ok (validate_networks _) _ e₂ in
    let (p, put, e₄) = >>=-eq-ok (put_wallet _ _ _ _) _ e₃ in
    let same_n : n ≡ k = ok-injective (sym normal ∙ normal') in
    let here =
      find_address watch_only b.namespace k s.wallets row u m
        (subst (λ t. has_address watch_only b.namespace t row ≡ true) same_n h) in
    let (id, kept_) = same_tables (put_wallet-old _ row (again name later) _ s p here put) in
    let (id', same) = same_tables e₄ in
    (
      sym id' ∙ sym id,
      ap wallet_ids (sym same)
          ∙ ap wallet_ids (sym kept_)
          ∙ ids_kept row (again name later)
              (λ v. record {
                id = refl;
                mode = refl;
                namespace = refl;
                address = refl;
                normalized = refl;
              })
              s.wallets,
    )

-- What a call that returns has committed.
committed-ok :
    (error : WalletError) (s : WalletTables) (o : WalletOutcome (Text × WalletTables))
    (w : DurableWallet)
    → (committed error s o).1 ≡ ok w
    → (r : Text × WalletTables) × (o ≡ ok r) × ((committed error s o).0 ≡ r.1)
unfolding committed
committed-ok error s (throw e) w h = cc
committed-ok error s (ok r) w h = (r, refl, refl)

-- Watching an address twice watches one wallet: where the owner's tables are consistent and two
-- calls of `createWatchWallet` one after the other return, with one namespace and with addresses
-- that normalize alike, both return the same id, and the second adds no wallet.
pub create_watch_wallet-again :
    (a b : CreateWatchWalletInput) (f g : Text) (now later : ℕ) (s : WalletTables)
    (w v : DurableWallet)
    → IsConsistent s.wallets
    → (create_watch_wallet a f now s).1 ≡ ok w
    → (create_watch_wallet b g later (create_watch_wallet a f now s).0).1 ≡ ok v
    → a.namespace ≡ b.namespace
    → normalized_address a.namespace (trim a.address)
      ≡ normalized_address b.namespace (trim b.address)
    → (v.id ≡ w.id)
      × (wallet_ids (create_watch_wallet b g later (create_watch_wallet a f now s).0).0.wallets
          ≡ wallet_ids (create_watch_wallet a f now s).0.wallets)
unfolding create_watch_wallet wallet_step wallet_from_row
create_watch_wallet-again a b f g now later s w v c p q ns same =
    let (r, done, left) = committed-ok _ s _ w p in
    let s₁ = (create_watch_wallet a f now s).0 in
    let (r', done', left') = committed-ok _ s₁ _ v q in
    let c₁ = WalletEdit-IsConsistent _ _ (wallet_step-Edit now (watches a f) s c.rows) c in
    let c₂ = WalletEdit-IsConsistent _ _ (wallet_step-Edit later (watches b g) s₁ c₁.rows) c₁ in
    let (n, normal, name, _, row, m, id, is) = watch_transaction-row a f now s r done in
    let m₁ : Memᴰ row s₁.wallets = subst (λ (t : WalletTables). Memᴰ row t.wallets) (sym left) m in
    let there : has_address watch_only b.namespace n row ≡ true =
      subst (λ x. has_address watch_only x n row ≡ true) ns (is.0) in
    let (same_id, same_ids) =
      watch_transaction-old b g later n s₁ row r' c₁.unique m₁ there (sym same ∙ normal) done' in
    let (_, _, name', _, row', m', id', is') = watch_transaction-row b g later s₁ r' done' in
    let w_is = committed-found _ watch_only a.namespace n name s _ r row done c₁ m id is in
    let v_is = committed-found _ watch_only b.namespace _ name' s₁ _ r' row' done' c₂ m' id' is' in
    let w_id : row.id ≡ w.id = ap (λ (d : DurableWallet). d.id) (ok-injective (sym w_is ∙ p)) in
    let v_id : row'.id ≡ v.id = ap (λ (d : DurableWallet). d.id) (ok-injective (sym v_is ∙ q)) in
    (
      sym v_id ∙ id' ∙ same_id ∙ w_id,
      ap (λ (t : WalletTables). wallet_ids t.wallets) left' ∙ same_ids,
    )
