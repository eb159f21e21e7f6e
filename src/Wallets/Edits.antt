-- ===== src/Wallets/Edits.antt =====
-- What one call of packages/wallets/src/index.ts does to the rows of `wallet_resource`.
pub mod Commits
pub mod Updates
pub mod Step
use agentplace.Prelude.{
  ℕ, ◌≡◌, refl, Bool, true, false, not, ◌&&◌, List, [], ◌∷◌, Option, none, some, ok, throw, arith,
  map, find, includes, All, Memᴰ, All-members, All-member, find-All, find-none-All, ◌===◌, ===-refl,
  subst, sym, ◌∙◌, ◌>>=◌, ◌>>◌, >>=-eq-ok, >>-eq-ok, throw_if-eq-ok, ok-injective, Bool-cases,
  Option-cases, inl, inr, and-true, if◌then◌else◌, ◌||◌, throw_if, or_throw,
}
use agentplace.Text.{Text, text_eq}
use agentplace.Authority.Types.{WalletMode, watch_only, connected, agent_account}
use agentplace.Wallets.Types.{
  WalletNamespace, eip155, WalletStatus, removed, watch, browser_eip1193, agent_account_source,
  WalletRow, WalletTables, WalletOutcome, DurableWallet, WalletError, CreateWatchWalletInput,
  ConnectWalletInput, CreateAgentAccountInput, DurableAgentAccount, namespace_eq, mode_eq,
  status_eq,
}
use agentplace.Wallets.Inputs.{
  normalized_address, require_name, validate_networks, validate_network, balance_check,
}
use agentplace.Wallets.Rows.{
  is_set, is_text, is_wallet, stays, has_address, change, changed, wallet_ids, insert_wallet,
  put_wallet, get_wallet, from_found, wallet_from_row,
}
use agentplace.Wallets.{
  committed, watch_transaction, create_watch_wallet, connect_transaction, connect_wallet,
  NetworkObservation, observe_found, observe_wallet, observe_wallet_network, reread_wallet, seen,
  again, new_row,
}
use agentplace.Wallets.Calls.{
  WalletPatch, WalletPatchStatus, new_status, update_found, update_from, update_wallet,
  patched_wallet, patch_row, patch_event, agent_transaction, agent_committed, create_agent_account,
  WalletCall, watches, connects, observes, updates, makes_agent, wallet_step, agent_wallet,
  owner_wallet,
}

-- The address as given and the normalized one, which is made from it.
abbrev pub HasAddress : WalletNamespace → Option Text → Option Text → Type 0
HasAddress namespace (some a) (some n) = normalized_address namespace a ≡ ok n
HasAddress _ _ _ = ⊥

-- What the mode of a wallet says of its other columns.
abbrev pub Shape : WalletMode → WalletRow → Type 0
Shape watch_only w =
    HasAddress w.namespace w.address w.address_normalized × (w.connection_source ≡ watch)
Shape connected w =
    HasAddress w.namespace w.address w.address_normalized
    × (w.namespace ≡ eip155)
    × (w.connection_source ≡ browser_eip1193)
Shape agent_account w =
    (w.address ≡ none)
    × (w.address_normalized ≡ none)
    × (w.connection_source ≡ agent_account_source)

-- A row is removed exactly when it has a time of removal, and its columns fit its mode.
pub record IsSound (w : WalletRow) : Type 0 where
  pub standing : is_set w.removed_at ≡ (w.status === removed)
  pub shape : Shape w.mode w

-- The columns that no update changes.
pub record IsSame (w v : WalletRow) : Type 0 where
  pub id : v.id ≡ w.id
  pub mode : v.mode ≡ w.mode
  pub namespace : v.namespace ≡ w.namespace
  pub address : v.address ≡ w.address
  pub normalized : v.address_normalized ≡ w.address_normalized

-- `v` is live and stands for the address of `w`, in the same mode.
abbrev pub clash_on : Option Text → WalletRow → WalletRow → Bool
clash_on none w v = false
clash_on (some n) w v = has_address w.mode w.namespace n v

abbrev pub clashes : WalletRow → WalletRow → Bool
clashes w v = clash_on w.address_normalized w v

-- One call leaves the rows, changes one that is not removed, or inserts one with a new id and an
-- address that no live wallet of its mode has.
pub data WalletEdit (ws ws' : List WalletRow) : Type 0 where
  kept : ws' ≡ ws → WalletEdit ws ws'
  edited :
      (old : WalletRow) (f : WalletRow → WalletRow)
      → Memᴰ old ws
      → is_set old.removed_at ≡ false
      → ((w : WalletRow) → IsSame w (f w))
      → IsSound (f old)
      → ws' ≡ map (change old.id f) ws
      → WalletEdit ws ws'
  inserted :
      (w : WalletRow)
      → includes (wallet_ids ws) w.id ≡ false
      → IsSound w
      → All (λ v. clashes w v ≡ false) ws
      → ws' ≡ w ∷ ws
      → WalletEdit ws ws'

pub found :
    (q : WalletRow → Bool) (ws : List WalletRow) (w : WalletRow)
    → find q ws ≡ some w
    → Memᴰ w ws × (q w ≡ true)
found q ws w e = find-All (λ v. Memᴰ v ws) q ws w (All-members ws) e

pub sound : (ws : List WalletRow) (w : WalletRow) → All IsSound ws → Memᴰ w ws → IsSound w
sound ws w h m = All-member IsSound ws w h m

pub insert_wallet-Edit :
    (w : WalletRow) (s s' : WalletTables)
    → IsSound w
    → All (λ v. clashes w v ≡ false) s.wallets
    → insert_wallet w s ≡ ok s'
    → WalletEdit s.wallets s'.wallets
unfolding insert_wallet
insert_wallet-Edit w s s' h free e =
    let (new, e₁) = throw_if-eq-ok _ _ _ e in inserted w (ground arith) h free (ground arith)

-- A wallet found by its address is not removed, so that only the kept columns matter.
pub put_wallet-Edit :
    (mode : WalletMode) (ns : WalletNamespace) (n : Text) (o : Option WalletRow)
    (f : WalletRow → WalletRow) (w : WalletRow) (s : WalletTables) (r : Text × WalletTables)
    → find (has_address mode ns n) s.wallets ≡ o
    → ((v : WalletRow) → IsSame v (f v))
    → ((v : WalletRow) → Memᴰ v s.wallets → v.mode ≡ mode → IsSound (f v))
    → IsSound w
    → (clashes w ≡ has_address mode ns n)
    → put_wallet o f w s ≡ ok r
    → WalletEdit s.wallets (r.1).wallets
unfolding put_wallet
put_wallet-Edit mode ns n (some old) f w s r e same good new key h =
    let (m, t) = found _ s.wallets old e in
    let mode_is : old.mode ≡ mode = ground (arith, mode_eq.same_iff old.mode mode) in
    edited old f m (ground arith) same (good old m mode_is) (ground arith)
put_wallet-Edit mode ns n none f w s r e same good new key h =
    let (s', i, e₁) = >>=-eq-ok (insert_wallet w s) _ h in
    let free : All (λ v. clashes w v ≡ false) s.wallets =
      subst (λ q. All (λ v. q v ≡ false) s.wallets) (sym key) (find-none-All _ s.wallets e) in
    let same_s : s' ≡ r.1 = cc in
    subst (λ (t : WalletTables). WalletEdit s.wallets t.wallets) same_s
      (insert_wallet-Edit w s s' new free i)
