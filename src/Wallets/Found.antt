-- ===== src/Wallets/Found.antt =====
-- The wallet that `createWatchWallet` and `connectWallet` return, packages/wallets/src/index.ts.
use agentplace.Prelude.{
  ◌≡◌, refl, Bool, true, false, ◌&&◌, List, [], ◌∷◌, Option, none, some, ok, map, find, All, Memᴰ,
  ◌===◌, subst, sym, ◌∙◌, ap, Bool-cases, inl, inr, >>=-eq-ok, throw_if-eq-ok, find-All,
  All-members, All-member, and-true, ===-refl,
}
use agentplace.Text.{Text, text_eq}
use agentplace.Authority.Types.{WalletMode}
use agentplace.Wallets.Types.{
  WalletNamespace, WalletRow, WalletTables, WalletOutcome, namespace_eq, mode_eq, status_eq,
}
use agentplace.Wallets.Rows.{
  is_text, is_wallet, stays, has_address, change, changed, insert_wallet, put_wallet, get_wallet,
  from_found, wallet_from_row,
}
use agentplace.Wallets.Edits.{clashes}
use agentplace.Wallets.Invariant.{Unique, IsConsistent, is_live, unique_row}

pub map-member :
    (g : WalletRow → WalletRow) (ws : List WalletRow) (w : WalletRow)
    → Memᴰ w ws
    → Memᴰ (g w) (map g ws)
map-member g [] w m = elim m [ ]
map-member g (x ∷ ws) w (Memᴰ.head e) = Memᴰ.head (ap g e)
map-member g (x ∷ ws) w (Memᴰ.tail m) = Memᴰ.tail (map-member g ws w m)

pub find-member :
    (q : WalletRow → Bool) (ws : List WalletRow) (w : WalletRow)
    → find q ws ≡ some w
    → Memᴰ w ws × (q w ≡ true)
find-member q ws w e = find-All (λ v. Memᴰ v ws) q ws w (All-members ws) e

-- The insert or update leaves a row of the id that it answers.
pub put_wallet-row :
    (P : WalletRow → Type 0) (q : WalletRow → Bool) (o : Option WalletRow)
    (f : WalletRow → WalletRow) (w : WalletRow) (s : WalletTables) (r : Text × WalletTables)
    → find q s.wallets ≡ o
    → ((v : WalletRow) → q v ≡ true → P (f v) × ((f v).id ≡ v.id))
    → P w
    → put_wallet o f w s ≡ ok r
    → (row : WalletRow) × Memᴰ row (r.1).wallets × (row.id ≡ r.0) × P row
unfolding put_wallet insert_wallet
put_wallet-row P q (some old) f w s r e good new h =
    let (m, t) = find-member q s.wallets old e in
    let (p, same) = good old t in
    let here : change old.id f old ≡ f old = rw (===-refl old.id) refl in
    let m' =
      subst (λ v. Memᴰ v (map (change old.id f) s.wallets)) here
        (map-member (change old.id f) s.wallets old m) in
    (f old, subst (λ ws. Memᴰ (f old) ws) (out h).1 m', same ∙ (out h).0, p)
  where
    out :
        ◌≡◌ {A = WalletOutcome (Text × WalletTables)} (ok (old.id, changed old.id f s)) (ok r)
        → (old.id ≡ r.0) × (map (change old.id f) s.wallets ≡ (r.1).wallets)
    out p = (cc, cc)
put_wallet-row P q none f w s r e good new h =
    let (s', i, e₁) = >>=-eq-ok _ _ h in
    let (_, e₂) = throw_if-eq-ok _ _ _ i in
    let made : w ∷ s.wallets ≡ s'.wallets = at_front e₂ in
    (w, subst (λ ws. Memᴰ w ws) (made ∙ (out e₁).1) (Memᴰ.head refl), (out e₁).0, new)
  where
    out :
        {t : WalletTables}
        → ◌≡◌ {A = WalletOutcome (Text × WalletTables)} (ok (w.id, t)) (ok r)
        → (w.id ≡ r.0) × (t.wallets ≡ (r.1).wallets)
    out p = (cc, cc)

    at_front :
        {t t' : WalletTables}
        → ◌≡◌ {A = WalletOutcome WalletTables} (ok t) (ok t')
        → t.wallets ≡ t'.wallets
    at_front p = cc

never : {b : Bool} → b ≡ true → b ≡ false → ⊥
never e f = cc

pub find_only :
    (q : WalletRow → Bool) (ws : List WalletRow) (w : WalletRow)
    → Memᴰ w ws
    → q w ≡ true
    → All (λ v. q v ≡ true → v ≡ w) ws
    → find q ws ≡ some w
find_only q [] w m t only = elim m [ ]
find_only q (x ∷ ws) w m t (o, os) = elim (Bool-cases (q x)) [
  | inl y ↦ rw y (ap some (o y))
  | inr n ↦ rw n (find_only q ws w (later m n) t os)
]
  where
    later : Memᴰ w (x ∷ ws) → q x ≡ false → Memᴰ w ws
    later (Memᴰ.head e) n = absurd (never (subst (λ v. q v ≡ true) e t) n)
    later (Memᴰ.tail k) n = k

-- A row that is not removed is what `getWallet` finds of its id.
pub get_wallet-member :
    (s : WalletTables) (w : WalletRow)
    → IsConsistent s.wallets
    → Memᴰ w s.wallets
    → stays w ≡ true
    → get_wallet w.id s ≡ some (wallet_from_row s w)
unfolding get_wallet from_found
get_wallet-member s w c m t =
    let only = by_test s.wallets (unique_row s.wallets w c.ids m) in
    let here : is_wallet w.id w ≡ true = rw (===-refl w.id) (rw t refl) in
    rw (find_only (is_wallet w.id) s.wallets w m here only) refl
  where
    by_test :
        (ws : List WalletRow)
        → All (λ (x : WalletRow). x.id ≡ w.id → x ≡ w) ws
        → All (λ x. is_wallet w.id x ≡ true → x ≡ w) ws
    by_test [] only = tt
    by_test (x ∷ ws) (o, os) =
        (λ e. o ((text_eq.same_iff x.id w.id).0 (and-true _ _ e).0), by_test ws os)

-- Two rows that a search by address can find are one.
address_clash :
    (mode : WalletMode) (ns : WalletNamespace) (n : Text) (u v : WalletRow)
    → has_address mode ns n u ≡ true
    → has_address mode ns n v ≡ true
    → (is_live u && clashes u v) ≡ true
address_clash mode ns n u v p q =
    let (a, b) =
      and-true (u.namespace === ns && is_text n u.address_normalized) (u.mode === mode && is_live u)
        p in
    let (ns_is, n_is) = and-true (u.namespace === ns) (is_text n u.address_normalized) a in
    let (mode_is, live) = and-true (u.mode === mode) (is_live u) b in
    rw live (
      rw (text_is u.address_normalized n_is) (
        rw ((namespace_eq.same_iff u.namespace ns).0 ns_is)
          (rw ((mode_eq.same_iff u.mode mode).0 mode_is) q)))
  where
    text_is : (o : Option Text) → is_text n o ≡ true → o ≡ some n
    text_is none e = absurd (never e refl)
    text_is (some m) e = ap some ((text_eq.same_iff m n).0 e)

pub address_row :
    (mode : WalletMode) (ns : WalletNamespace) (n : Text) (ws : List WalletRow) (u v : WalletRow)
    → Unique ws
    → Memᴰ u ws
    → Memᴰ v ws
    → has_address mode ns n u ≡ true
    → has_address mode ns n v ≡ true
    → u ≡ v
address_row mode ns n [] u v h a b p q = elim a [ ]
address_row mode ns n (x ∷ ws) u v (h, hs) (Memᴰ.head a) (Memᴰ.head b) p q = a ∙ sym b
address_row mode ns n (x ∷ ws) u v (h, hs) (Memᴰ.tail a) (Memᴰ.tail b) p q =
    address_row mode ns n ws u v hs a b p q
address_row mode ns n (x ∷ ws) u v (h, hs) (Memᴰ.head a) (Memᴰ.tail b) p q = absurd (
    never (address_clash mode ns n u v p q)
      (subst (λ w. (is_live w && clashes w v) ≡ false) (sym a) (All-member _ ws v h b)))
address_row mode ns n (x ∷ ws) u v (h, hs) (Memᴰ.tail a) (Memᴰ.head b) p q = absurd (
    never (address_clash mode ns n v u q p)
      (subst (λ w. (is_live w && clashes w u) ≡ false) (sym b) (All-member _ ws u h a)))
