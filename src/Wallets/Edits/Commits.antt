-- ===== src/Wallets/Edits/Commits.antt =====
-- The transactions of `createWatchWallet`, `connectWallet` and `createAgentAccount`
-- (packages/wallets/src/index.ts) as changes of the rows.
use agentplace.Prelude.{
  ℕ, ◌≡◌, refl, false, not, List, [], ◌∷◌, ok, throw, arith, All, ◌===◌, subst, sym, >>=-eq-ok,
  >>-eq-ok, throw_if-eq-ok,
}
use agentplace.Text.{Text, text_eq}
use agentplace.Authority.Types.{WalletMode, watch_only, connected, agent_account}
use agentplace.Wallets.Types.{
  WalletNamespace, eip155, browser_eip1193, WalletRow, WalletTables, WalletOutcome, WalletError,
  CreateWatchWalletInput, ConnectWalletInput, CreateAgentAccountInput, namespace_eq, mode_eq,
  status_eq,
}
use agentplace.Wallets.Inputs.{
  normalized_address, require_name, validate_networks, validate_network, balance_check,
}
use agentplace.Wallets.Rows.{insert_wallet, put_wallet}
use agentplace.Wallets.{committed, watch_transaction, connect_transaction, again}
use agentplace.Wallets.Calls.{agent_transaction, agent_committed, owner_wallet}
use agentplace.Wallets.Edits.{
  Shape, IsSound, WalletEdit, kept, sound, insert_wallet-Edit, put_wallet-Edit,
}

pub same_wallets :
    {i j : Text} {s s' : WalletTables}
    → ◌≡◌ {A = WalletOutcome (Text × WalletTables)} (ok (i, s)) (ok (j, s'))
    → s.wallets ≡ s'.wallets
same_wallets p = cc

pub committed-Edit :
    (error : WalletError) (s : WalletTables) (o : WalletOutcome (Text × WalletTables))
    → ((r : Text × WalletTables) → o ≡ ok r → WalletEdit s.wallets (r.1).wallets)
    → WalletEdit s.wallets ((committed error s o).0).wallets
unfolding committed
committed-Edit error s (throw e) k = kept refl
committed-Edit error s (ok r) k = k r refl

pub again-IsSound :
    (name : Text) (now : ℕ) (mode : WalletMode) (v : WalletRow)
    → IsSound v
    → IsSound (again name now v)
again-IsSound name now mode v h = record { standing = refl; shape = reshaped v.mode h.shape }
  where
    reshaped : (m : WalletMode) → Shape m v → Shape m (again name now v)
    reshaped watch_only k = k
    reshaped connected k = k
    reshaped agent_account k = k

pub watch_transaction-Edit :
    (input : CreateWatchWalletInput) (fresh : Text) (now : ℕ) (s : WalletTables)
    (r : Text × WalletTables)
    → All IsSound s.wallets
    → watch_transaction input fresh now s ≡ ok r
    → WalletEdit s.wallets (r.1).wallets
unfolding watch_transaction
watch_transaction-Edit input fresh now s r h e =
    let (name, _, e₁) = >>=-eq-ok (require_name _) _ e in
    let (n, normal, e₂) = >>=-eq-ok (normalized_address _ _) _ e₁ in
    let (networks, _, e₃) = >>=-eq-ok (validate_networks _) _ e₂ in
    let (p, put, e₄) = >>=-eq-ok (put_wallet _ _ _ _) _ e₃ in
    let same = same_wallets e₄ in
    subst (λ ws. WalletEdit s.wallets ws) same
      (put_wallet-Edit watch_only input.namespace n _ (again name now) _ s p refl
        (λ v. record {
          id = refl;
          mode = refl;
          namespace = refl;
          address = refl;
          normalized = refl;
        })
        (λ v m _. again-IsSound name now watch_only v (sound s.wallets v h m))
        (record { standing = refl; shape = (normal, refl) }) refl put)

only_evm : (n : WalletNamespace) → not (n === eip155) ≡ false → n ≡ eip155
only_evm n h = ground arith

pub connect_transaction-Edit :
    (input : ConnectWalletInput) (fresh : Text) (now : ℕ) (s : WalletTables)
    (r : Text × WalletTables)
    → All IsSound s.wallets
    → connect_transaction input fresh now s ≡ ok r
    → WalletEdit s.wallets (r.1).wallets
unfolding connect_transaction
connect_transaction-Edit input fresh now s r h e =
    let (name, _, e₁) = >>=-eq-ok (require_name _) _ e in
    let (n, normal, e₂) = >>=-eq-ok (normalized_address _ _) _ e₁ in
    let (network, _, e₃) = >>=-eq-ok (validate_network _) _ e₂ in
    let (_, _, e₄) = >>-eq-ok (balance_check _) _ e₃ in
    let (evm, e₅) = throw_if-eq-ok _ _ _ e₄ in
    let (p, put, e₆) = >>=-eq-ok (put_wallet _ _ _ _) _ e₅ in
    let same = same_wallets e₆ in
    let is_evm = only_evm input.namespace evm in
    subst (λ ws. WalletEdit s.wallets ws) same
      (put_wallet-Edit connected input.namespace n _ _ _ s p refl
        (λ v. record {
          id = refl;
          mode = refl;
          namespace = refl;
          address = refl;
          normalized = refl;
        })
        (λ v m c. reconnected name v c (sound s.wallets v h m))
        (record { standing = refl; shape = (normal, is_evm, refl) }) refl put)
  where
    reconnected :
        (name : Text) (v : WalletRow)
        → v.mode ≡ connected
        → IsSound v
        → IsSound (record (again name now v) { connection_source = browser_eip1193 })
    reconnected name v c k = record {
      standing = refl;
      shape =
          let was : Shape connected v = subst (λ m. Shape m v) c k.shape in
          subst (λ m. Shape m (record (again name now v) { connection_source = browser_eip1193 }))
            (sym c) (was.0, was.1, refl);
    }

pub agent_transaction-Edit :
    (input : CreateAgentAccountInput) (w a : Text) (now : ℕ) (s : WalletTables)
    (r : Text × Text × WalletTables)
    → agent_transaction input w a now s ≡ ok r
    → WalletEdit s.wallets (r.2).wallets
unfolding agent_transaction
agent_transaction-Edit input w a now s r e =
    let (name, _, e₁) = >>=-eq-ok (require_name _) _ e in
    let (owner, _, e₂) = >>=-eq-ok (owner_wallet _) _ e₁ in
    let (_, e₃) = throw_if-eq-ok _ _ _ e₂ in
    let (_, e₄) = throw_if-eq-ok _ _ _ e₃ in
    let (s', put, e₅) = >>=-eq-ok (insert_wallet _ _) _ e₄ in
    let (_, e₆) = throw_if-eq-ok _ _ _ e₅ in
    subst (λ ws. WalletEdit s.wallets ws) (made e₆)
      (insert_wallet-Edit _ s s' (record { standing = refl; shape = (refl, refl, refl) })
        (never s.wallets) put)
  where
    never : (ws : List WalletRow) → All (λ v. false ≡ false) ws
    never [] = tt
    never (v ∷ ws) = (refl, never ws)

    made :
        {i j k l : Text} {t t' : WalletTables}
        → ◌≡◌ {A = WalletOutcome (Text × Text × WalletTables)} (ok (i, j, t)) (ok (k, l, t'))
        → t.wallets ≡ t'.wallets
    made p = cc

pub create_agent_account-Edit :
    (s : WalletTables) (o : WalletOutcome (Text × Text × WalletTables))
    → ((r : Text × Text × WalletTables) → o ≡ ok r → WalletEdit s.wallets (r.2).wallets)
    → WalletEdit s.wallets ((agent_committed s o).0).wallets
unfolding agent_committed
create_agent_account-Edit s (throw e) k = kept refl
create_agent_account-Edit s (ok r) k = k r refl
