-- ===== src/Router/Networks/Launch.antt =====
-- The names of test networks in packages/router/src/index.ts.
use agentplace.Prelude.{
  ◌≡◌, refl, Bool, true, false, arith, ◌&&◌, ◌||◌, List, [], ◌∷◌, any, if◌then◌else◌, includes,
}
use agentplace.Text.{Text, codes, text_eq, eq_text, is_empty}
use agentplace.Router.Networks.{
  launch_networks, has_word, is_arbitrum_test, is_base_test, is_ethereum_test, is_bnb_test,
  is_solana_dev, is_solana_test, includes_text, test_network, main_network, normalized_network,
  canonicalize_network_id,
}

-- The words for a launch network, and the words for its test networks beside them.
abbrev pub test_words : List (List Text × List Text)
test_words =
    (codes "arbitrum" ∷ [], codes "sepolia" ∷ codes "testnet" ∷ [])
    ∷ (codes "base" ∷ [], codes "sepolia" ∷ codes "testnet" ∷ [])
    ∷ (
      codes "ethereum" ∷ codes "eth" ∷ [],
      codes "sepolia" ∷ codes "holesky" ∷ codes "testnet" ∷ [],
    )
    ∷ (codes "bnb" ∷ codes "bsc" ∷ codes "binance smart chain" ∷ [], codes "testnet" ∷ [])
    ∷ (codes "solana" ∷ [], codes "devnet" ∷ codes "testnet" ∷ [])
    ∷ []

abbrev has_any : Text → List Text → Bool
has_any n words = any (λ w. has_word w n) words

-- The text has a word for a launch network and one for a test network of it, by that table. Other
-- words, as in "base goerli" or "bnb sepolia", do not count.
unfoldable pub names_test_network : Text → Bool
names_test_network n = any (λ k. has_any n k.0 && has_any n k.1) test_words

-- Then one of the six tests of `canonicalizeNetworkId` applies.
one_test :
    (n : Text)
    → names_test_network n ≡ true
    → (is_arbitrum_test n
        || (is_base_test n
            || (is_ethereum_test n || (is_bnb_test n || (is_solana_dev n || is_solana_test n)))))
      ≡ true
unfolding names_test_network
one_test n h = ground arith

record IsOther (t : Text) : Type 0 where
  other : includes launch_networks t ≡ false

-- One of the tests in a row applies, and each answers with another name.
choose :
    (a b : Bool) (x y : Text)
    → (b ≡ true → IsOther y)
    → IsOther x
    → (a || b) ≡ true
    → IsOther (if a then x else y)
choose true b x y h k e = k
choose false b x y h k e = h e

settled : (a : Bool) (x y : Text) → IsOther x → a ≡ true → IsOther (if a then x else y)
settled true x y h e = h
settled false x y h e = cc

either : (b : Bool) (x y : Text) → IsOther x → IsOther y → IsOther (if b then x else y)
either true x y h k = h
either false x y h k = k

test_network-launch :
    (n other : Text) → names_test_network n ≡ true → IsOther (test_network n other)
unfolding test_network eq_text
test_network-launch n other h =
    choose (is_arbitrum_test n) _ _ _
      (choose (is_base_test n) _ _ _
        (choose (is_ethereum_test n) _ _ _
          (choose (is_bnb_test n) _ _ _
            (choose (is_solana_dev n) _ _ _
              (settled (is_solana_test n) _ _ (record { other = refl })) (record { other = refl }))
            (record { other = refl }))
          (either (includes_text (codes "holesky") n) _ _ (record { other = refl })
            (record { other = refl })))
        (record { other = refl }))
      (record { other = refl }) (one_test n h)

-- A text that names a test network of a launch network is never read as a launch network.
pub canonicalize-launch :
    (value : Text)
    → names_test_network (normalized_network value) ≡ true
    → includes launch_networks (canonicalize_network_id value) ≡ false
unfolding canonicalize_network_id eq_text
canonicalize-launch value h =
    (either (is_empty (normalized_network value)) _ _ (record { other = refl })
      (test_network-launch (normalized_network value) (main_network (normalized_network value))
        h)).other
