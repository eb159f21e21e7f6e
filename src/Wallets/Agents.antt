-- ===== src/Wallets/Agents.antt =====
-- What `createAgentAccount` of packages/wallets/src/index.ts needs and makes.
use agentplace.Prelude.{
  ℕ, ◌≡◌, ◌≢◌, ◌≤◌, refl, Bool, true, false, not, ◌&&◌, List, [], ◌∷◌, Option, none, some, ok,
  throw, arith, map, find, filter, dedup, dedup_from, take, includes, length, All, All-take,
  All-filter_test, Distinct, Distinct-take, Distinct-dedup_from, length-take-le, Memᴰ, ◌===◌, subst,
  sym, ◌∙◌, ap, >>=-eq-ok, throw_if-eq-ok, ===-refl, and-true, if◌then◌else◌, ok-injective,
  Bool-cases, inl, inr,
}
use agentplace.Text.{Text, text_eq, trim, to_lower}
use agentplace.Authority.Types.{connected}
use agentplace.Wallets.Types.{
  eip155, WalletStatus, active, DeploymentStatus, WalletRow, WalletTables, WalletOutcome,
  AgentAccountRow, DurableWallet, DurableAgentAccount, CreateAgentAccountInput, namespace_eq,
  mode_eq, status_eq, connected_owner_wallet_required,
}
use agentplace.Wallets.Inputs.{require_name, network_id_pattern}
use agentplace.Wallets.Rows.{
  stays, get_wallet, from_found, wallet_from_row, account_from_row, insert_wallet, is_wallet,
}
use agentplace.Wallets.Calls.{
  owner_wallet, with_agent, preferred_networks, agent_transaction, both_found, agent_committed,
  create_agent_account, is_none,
}
use agentplace.Wallets.Edits.Updates.{get_wallet-row}

All-dedup_from : (P : Text → Type 0) (seen xs : List Text) → All P xs → All P (dedup_from seen xs)
All-dedup_from P seen [] h = tt
All-dedup_from P seen (x ∷ xs) (h, hs) =
    pick (includes seen x) (All-dedup_from P seen xs hs) (All-dedup_from P (x ∷ seen) xs hs)
  where
    pick :
        (b : Bool)
        → All P (dedup_from seen xs)
        → All P (dedup_from (x ∷ seen) xs)
        → All P (if b then dedup_from seen xs else x ∷ dedup_from (x ∷ seen) xs)
    pick true k _ = k
    pick false _ k = (h, k)

-- The networks an agent account may prefer: some, at most 16, none twice, all of them ids.
pub record IsPreference (ids : List Text) : Type 0 where
  pub some_id : ids ≢ []
  pub bounded : length ids ≤ 16
  pub distinct : Distinct ids
  pub valid : All (λ t. network_id_pattern t ≡ true) ids

preferred_networks-IsPreference :
    (ids : List Text)
    → is_none (preferred_networks ids) ≡ false
    → IsPreference (preferred_networks ids)
unfolding preferred_networks
preferred_networks-IsPreference ids h =
    let lower = map (λ t. to_lower (trim t)) ids in
    let once = dedup (filter network_id_pattern lower) in
    record {
      some_id = not_empty (take 16 once) h;
      bounded = length-take-le 16 once;
      distinct = Distinct-take 16 once (Distinct-dedup_from [] (filter network_id_pattern lower));
      valid = All-take _ 16 once (
          All-dedup_from _ [] (filter network_id_pattern lower)
            (All-filter_test network_id_pattern lower (λ a e. e)));
    }
  where
    not_empty : (ts : List Text) → is_none ts ≡ false → ts ≢ []
    not_empty [] e p = absurd (never e)
      where
        never : true ≡ false → ⊥
        never q = cc
    not_empty (t ∷ ts) e p = absurd (never p)
      where
        never : (t ∷ ts) ≡ [] → ⊥
        never q = cc

-- The owner: a wallet of the owner's that is connected, active and of an EVM chain.
pub record IsOwner (row : WalletRow) (s : WalletTables) : Type 0 where
  pub member : Memᴰ row s.wallets
  pub is_there : stays row ≡ true
  pub mode : row.mode ≡ connected
  pub status : row.status ≡ active
  pub namespace : row.namespace ≡ eip155

owner_wallet-ok :
    (o : Option DurableWallet) (w : DurableWallet)
    → owner_wallet o ≡ ok w
    → (o ≡ some w) × (w.mode ≡ connected) × (w.status ≡ active)
unfolding owner_wallet
owner_wallet-ok none w h = cc
owner_wallet-ok (some v) w h = elim (Bool-cases (v.mode === connected && v.status === active)) [
  | inl y ↦
      let same : v ≡ w = ok-injective (rw y at h) in
      let (m, a) = and-true (v.mode === connected) (v.status === active) y in
      (
        ap some same,
        subst (λ (u : DurableWallet). u.mode ≡ connected) same
            ((mode_eq.same_iff v.mode connected).0 m),
        subst (λ (u : DurableWallet). u.status ≡ active) same
            ((status_eq.same_iff v.status active).0 a),
      )
  | inr n ↦ absurd (never (rw n at h))
]
  where
    never : throw connected_owner_wallet_required ≡ ok w → ⊥
    never p = cc

-- The row that is inserted is the one that is found again.
committed-agent :
    (s : WalletTables) (o : WalletOutcome (Text × Text × WalletTables)) (w : DurableWallet)
    (a : DurableAgentAccount)
    → (agent_committed s o).1 ≡ ok (w, a)
    → (r : Text × Text × WalletTables) × (o ≡ ok r)
      × (both_found
            (get_wallet r.0 r.2)
            (find (λ (x : AgentAccountRow). x.id === r.1) (r.2).accounts)
          ≡ ok (w, a))
unfolding agent_committed
committed-agent s (throw e) w a h = cc
committed-agent s (ok r) w a h = (r, refl, h)

-- What the reads after `COMMIT` find is the wallet and the account that were inserted.
agent_read :
    (new : WalletRow) (account : AgentAccountRow) (s s' : WalletTables) (w : DurableWallet)
    (a : DurableAgentAccount)
    → insert_wallet new s ≡ ok s'
    → stays new ≡ true
    → both_found
        (get_wallet new.id (with_agent new.id account s'))
        (find (λ (x : AgentAccountRow). x.id === account.id) (account ∷ s'.accounts))
      ≡ ok (w, a)
    → (w ≡ wallet_from_row (with_agent new.id account s') new) × (a ≡ account_from_row account)
unfolding insert_wallet get_wallet from_found both_found
agent_read new account s s' w a put t h =
    let (_, e) = throw_if-eq-ok _ _ _ put in
    let here : find (is_wallet new.id) s'.wallets ≡ some new =
      subst (λ ws. find (is_wallet new.id) ws ≡ some new) (front e)
        (rw (===-refl new.id) (rw t refl)) in
    let h' = rw (===-refl account.id) at (rw here at h) in
    (
      ap (λ (p : DurableWallet × DurableAgentAccount). p.0) (sym (ok-injective h')),
      ap (λ (p : DurableWallet × DurableAgentAccount). p.1) (sym (ok-injective h')),
    )
  where
    front :
        ◌≡◌ {A = WalletOutcome WalletTables} (ok (record s { wallets = new ∷ s.wallets })) (ok s')
        → new ∷ s.wallets ≡ s'.wallets
    front p = cc

-- `createAgentAccount` makes an account only for an owner wallet that is there, connected, active
-- and on an EVM chain. The account names that wallet as its owner, has no address, is not deployed,
-- and prefers between 1 and 16 networks, none twice, each a valid id; its own wallet is in setup and
-- has no address either.
pub create_agent_account-owned :
    (input : CreateAgentAccountInput) (fresh_wallet fresh : Text) (now : ℕ) (s : WalletTables)
    (w : DurableWallet) (a : DurableAgentAccount)
    → (create_agent_account input fresh_wallet fresh now s).1 ≡ ok (w, a)
    → ((owner : WalletRow) × IsOwner owner s × (a.owner_wallet_id ≡ owner.id))
      × (a.wallet_id ≡ w.id)
      × (a.account_address ≡ none)
      × (a.deployment_status ≡ DeploymentStatus.not_deployed)
      × IsPreference a.preferred_network_ids
      × (w.status ≡ WalletStatus.setup)
      × (w.address ≡ none)
unfolding create_agent_account agent_transaction wallet_from_row account_from_row
create_agent_account-owned input fresh_wallet fresh now s w a h =
    let (r, done, both) = committed-agent s _ w a h in
    let (name, _, e₁) = >>=-eq-ok (require_name _) _ done in
    let (owner, owned, e₂) = >>=-eq-ok (owner_wallet _) _ e₁ in
    let (evm, e₃) = throw_if-eq-ok _ _ _ e₂ in
    let (some_net, e₄) = throw_if-eq-ok _ _ _ e₃ in
    let (s', put, e₅) = >>=-eq-ok (insert_wallet _ _) _ e₄ in
    let (_, e₆) = throw_if-eq-ok _ _ _ e₅ in
    let (there, connected_, active_) = owner_wallet-ok _ owner owned in
    let (row, m, t, built) = get_wallet-row _ s owner there in
    let both' =
      subst
        (λ (q : Text × Text × WalletTables).
          both_found (get_wallet q.0 q.2)
            (find (λ (x : AgentAccountRow). x.id === q.1) (q.2).accounts)
          ≡ ok (w, a))
        (sym (ok-injective e₆)) both in
    let (w_is, a_is) = agent_read _ _ s s' w a put refl both' in
    let owner_id : row.id ≡ owner.id = ap (λ (d : DurableWallet). d.id) built in
    (
      (
        row,
        record {
          member = m;
          is_there = t;
          mode = ap (λ (d : DurableWallet). d.mode) built ∙ connected_;
          status = ap (λ (d : DurableWallet). d.status) built ∙ active_;
          namespace = ap (λ (d : DurableWallet). d.namespace) built ∙ evm_is owner evm;
        },
        ap (λ (d : DurableAgentAccount). d.owner_wallet_id) a_is ∙ sym owner_id,
      ),
      ap (λ (d : DurableAgentAccount). d.wallet_id) a_is
          ∙ sym (ap (λ (d : DurableWallet). d.id) w_is),
      ap (λ (d : DurableAgentAccount). d.account_address) a_is,
      ap (λ (d : DurableAgentAccount). d.deployment_status) a_is,
      subst IsPreference (sym (ap (λ (d : DurableAgentAccount). d.preferred_network_ids) a_is))
          (preferred_networks-IsPreference input.preferred_network_ids some_net),
      ap (λ (d : DurableWallet). d.status) w_is,
      ap (λ (d : DurableWallet). d.address) w_is,
    )
  where
    evm_is : (d : DurableWallet) → not (d.namespace === eip155) ≡ false → d.namespace ≡ eip155
    evm_is d e = ground arith
